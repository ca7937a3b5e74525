-- ===== src/Lib.antt =====
-- ControlRoom: the web client of the server's control panel, web/src.
--
-- The client is a single-page application. All its requests go through `apiFetch` of web/src/lib/api.ts,
-- which adds the CSRF token of web/src/lib/csrf.ts and refreshes an expired session. The hooks of
-- web/src/lib wrap it in cached queries and mutations; the gates of web/src/routes/Gates.tsx decide by two
-- of these queries between the setup, the login and the application. Inside the application, pages show
-- the queries, follow logs, jobs and figures over sockets, run terminals, and edit objects of a cluster.
--
-- The parts, and the modules that model them:
--
-- Base: the shared names; lists over native numbers, text, and tests into Bool.
-- Api: the client. Api.Csrf is web/src/lib/csrf.ts; Api.Types has the records of requests, answers and
--   errors; Api.Fetch is `rawFetch`, `tryRefresh` and `apiFetch` for one call, with the browser as a
--   parameter and the network as a state; Api.Refresh is the variable `refreshInFlight` under many calls
--   at once, as steps between two points where the browser resumes a function, with the phases of the
--   calls only; Api.Shared is the same with all that the calls carry, and is related to both;
--   Api.Endpoints is the table `api` of the calls of the setup, the login and the session.
-- Queries: the hooks of web/src/lib/k8s.ts, services.ts, containers.ts, network.ts, system.ts, updates.ts,
--   settings.ts, logs.ts and auth.ts: keys, paths, requests, and what a mutation invalidates.
-- Logs: the live views of web/src/components/services/LogStream.tsx, containers/LogStream.tsx,
--   k8s/PodLogStream.tsx and web/src/routes/Logs.tsx, as one machine with five feeds; and the form and
--   the choice of a container of web/src/routes/Logs.tsx.
-- Jobs: `useJobStream` of web/src/lib/updates.ts.
-- Stats: `useSystemStatsWS` of web/src/lib/system.ts.
-- Shell: web/src/routes/Terminal.tsx and web/src/components/k8s/PodExecModal.tsx; Shell.Keys is
--   web/src/components/terminal/SoftKeys.tsx.
-- ConfigMap: web/src/components/k8s/ConfigMapDetail.tsx.
-- Manifest: web/src/components/k8s/ManifestEditor.tsx.
-- Gates: web/src/routes/Gates.tsx and web/src/App.tsx, with the hooks of web/src/lib/auth.ts.
-- Setup: web/src/routes/Setup.tsx with web/src/lib/strength.ts and web/src/components/PasswordStrength.tsx; Setup.Finish
--   is its end inside the gates.
-- Settings: the password form and the card of the second factor of web/src/routes/Settings.tsx.
-- Login: web/src/routes/Login.tsx, on the session of Gates.
-- Cluster: web/src/components/k8s/NodeDetail.tsx, PodDetail.tsx, WorkloadDetail.tsx and SecretDetail.tsx,
--   which send the mutations of Queries, and ServiceDetail.tsx; and the lists beside them, NodeList.tsx to SecretList.tsx,
--   with the page that opens them, web/src/routes/Kubernetes.tsx.
-- Updates: web/src/routes/Updates.tsx, which follows the jobs of Jobs.
-- Network: the firewall of web/src/routes/Network.tsx.
-- Containers: the groups of web/src/routes/Containers.tsx, with the menu and the live figures of
--   web/src/components/containers/ContainerCard.tsx and the sheet of ContainerDetail.tsx, where
--   Containers.Entry and Containers.Env are the environment with its sensitive keys.
-- Services: the counts and the menu of web/src/routes/Services.tsx; Services.Page is the page itself.
-- Layout: the navigation of web/src/components/AppLayout.tsx, web/src/components/PublicBindBanner.tsx and
--   web/src/lib/theme.ts; Layout.Frame is the drawer, the log-out and the top bar.
-- Format: web/src/lib/format.ts.
-- Tiles: the figures of web/src/components/dashboard.
-- Badges: the badges of states, and the console of web/src/components/updates/JobConsole.tsx.
-- Examples: runs at concrete inputs.
--
-- A component is a record of its state, a data type of the events that the browser can deliver, and a
-- function `step` (`handle` in Setup); `run` folds it over a list of events, so that a property of `run`
-- holds for every order of events. An event that the browser cannot deliver in a state, or that a disabled
-- button refuses, changes nothing. No model needs fuel: each loop is a recursion on a list or a text, and
-- `follow` in Gates counts the redirects that it may take. Numbers are the natural numbers; a number of a
-- JSON text that the client only shows is kept as its text. A String is a sequence of Unicode scalar
-- values, where JavaScript's may also hold lone surrogates; lengths that the code reads count UTF-16 units.
--
-- Parameters: `fetch`, the cookie jar, `decodeURIComponent`, `JSON.parse` and `toUpperCase` (the record
-- `Browser`), the parsers of frames, `localeCompare`, `JSON.stringify`, `toLowerCase`, `toFixed`, `Number`
-- and the server's removal of a firewall rule. The form library, the query library, the router and the
-- terminal emulator are not part of the repository: what the code relies on of them is written out as
-- events.
--
-- Not modelled: the Go server (cmd, internal), which is another program; the deployment (deploy);
-- rendering and styles, with web/src/components/ui; the fields of
-- the sheet of a service; the interfaces of web/src/routes/Network.tsx but for their badges.
pub mod Base
pub mod Api
pub mod Queries
pub mod Logs
pub mod Jobs
pub mod Stats
pub mod Shell
pub mod ConfigMap
pub mod Manifest
pub mod Gates
pub mod Setup
pub mod Settings
pub mod Login
pub mod Cluster
pub mod Updates
pub mod Network
pub mod Containers
pub mod Services
pub mod Layout
pub mod Format
pub mod Tiles
pub mod Badges
pub mod Examples
