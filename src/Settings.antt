-- ===== src/Settings.antt =====
-- What the client keeps in the browser: src/utils/storage.ts, clientStorage.ts, sharePrefs.ts.
pub mod Storage
pub mod Setup
pub mod Profile
pub mod Share
pub mod Laws
pub mod Clean
pub mod Bearer
pub mod Gate
pub mod Links
mod Tests
