-- ===== src/Layout.antt =====
-- The frame around the pages: the navigation of web/src/components/AppLayout.tsx, and the theme of
-- web/src/lib/theme.ts. The banner of web/src/components/PublicBindBanner.tsx is Layout.Banner.
pub mod Banner
pub mod Frame
pub mod Laws
use control_room.Base.{
  String, Bool, true, false, not, ◌&&◌, ◌||◌, List, [], ◌∷◌, Option, none, some, ◌is◌, keep,
  if◌then◌else◌,
}
use control_room.Queries.Types.{SystemCapabilities}

-- `keyof SystemCapabilities`
pub data Capability : Type 0 where
  systemd docker journal kubernetes : Capability

pub record NavEntry : Type 0 where
  pub to : String
  pub label : String
  pub ready : Bool
  pub requires : Option Capability

abbrev entry : String → String → NavEntry
entry to label = record { to = to; label = label; ready = true; requires = none }

abbrev entry_for : String → String → Capability → NavEntry
entry_for to label c = record { to = to; label = label; ready = true; requires = some c }

-- `NAV`
abbrev pub nav : List NavEntry
nav =
    entry "/" "Dashboard"
    ∷ entry "/updates" "Updates"
    ∷ entry_for "/services" "Services" systemd
    ∷ entry_for "/containers" "Containers" docker
    ∷ entry_for "/kubernetes" "Kubernetes" kubernetes
    ∷ entry "/terminal" "Terminal"
    ∷ entry "/network" "Network"
    ∷ entry "/logs" "Logs"
    ∷ entry "/settings" "Settings"
    ∷ []

-- `caps.data[entry.requires]`
unfoldable pub has_capability : SystemCapabilities → Capability → Bool
has_capability c systemd = c.systemd
has_capability c docker = c.docker
has_capability c journal = c.journal
has_capability c kubernetes = c.kubernetes

unfoldable pub shows : Option SystemCapabilities → NavEntry → Bool
unfolding has_capability
shows caps e = elim e.requires [
  | none ↦ true
  | some r ↦ elim caps [ none ↦ true | some c ↦ has_capability c r ]
]

unfoldable pub visible : Option SystemCapabilities → List NavEntry
unfolding shows
visible caps = keep (shows caps) nav

pub data Theme : Type 0 where
  light dark system : Theme

-- The text that is stored for a theme.
abbrev pub text_of : Theme → String
text_of light = "light"
text_of dark = "dark"
text_of system = "system"

unfoldable pub read_stored_theme : Option String → Theme
read_stored_theme none = dark
read_stored_theme (some v) =
    if v is "light"
    then light
    else if v is "dark"
    then dark
    else if v is "system"
    then system
    else dark

-- The page's theme, what the storage holds, whether the browser prefers the dark one, and whether the
-- page is shown dark.
pub record Look : Type 0 where
  pub theme : Theme
  pub stored : Option String
  pub prefers_dark : Bool
  pub is_dark : Bool

-- `applyTheme`
unfoldable pub apply_theme : Theme → Bool → Bool
apply_theme light prefers = false
apply_theme dark prefers = true
apply_theme system prefers = prefers

-- The effect after the first render, and after each change of the theme.
unfoldable pub with_theme : Theme → Look → Look
unfolding apply_theme
with_theme t s = record s {
  theme = t;
  stored = some (text_of t);
  is_dark = apply_theme t s.prefers_dark;
}

unfoldable pub open_look : Option String → Bool → Look
unfolding read_stored_theme with_theme
open_look stored prefers =
    with_theme (read_stored_theme stored)
      (record { theme = dark; stored = stored; prefers_dark = prefers; is_dark = false })

-- `prefer` is a change of the browser's preference, to which the page listens in the system's theme.
pub data Event : Type 0 where
  set_theme : Theme → Event
  prefer : Bool → Event

unfoldable pub on_prefer : Theme → Bool → Look → Look
unfolding apply_theme
on_prefer light b s = record s { prefers_dark = b }
on_prefer dark b s = record s { prefers_dark = b }
on_prefer system b s = record s { prefers_dark = b; is_dark = apply_theme system b }

unfoldable pub step : Event → Look → Look
unfolding with_theme on_prefer
step (set_theme t) s = with_theme t s
step (prefer b) s = on_prefer s.theme b s

unfoldable pub run : List Event → Look → Look
run [] s = s
run (e ∷ es) s = run es (step e s)
