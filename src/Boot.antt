-- ===== src/Boot.antt =====
-- What runs before anything else: src/utils/waitForApi.ts and src/hooks/useSessionBootstrap.ts.
pub mod Wait
pub mod Account
mod Tests
