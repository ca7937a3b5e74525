-- ===== src/Api.antt =====
-- The client of the REST API: web/src/lib/api.ts and web/src/lib/csrf.ts.
pub mod Csrf
pub mod Types
pub mod Fetch
pub mod Refresh
pub mod Shared
pub mod Endpoints
