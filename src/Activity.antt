-- ===== src/Activity.antt =====
-- The bridge between the application and a game in an iframe: src/activities/client.ts.
pub mod Messages
pub mod Bridge
pub mod Decoding
pub mod Delivery
mod Tests
