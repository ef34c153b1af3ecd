-- ===== src/Kweb.antt =====
-- internal/kweb: the client of the kcli web API.
pub mod Api
pub mod Parse
pub mod Client
pub mod Fixtures
