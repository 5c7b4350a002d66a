-- ===== src/Media.antt =====
-- The camera and the microphone: src/hooks/useMedia.ts and src/utils/mediaErrors.ts.
pub mod Errors
pub mod Streams
pub mod Sole
pub mod Calls
mod Tests
