-- ===== src/Socket.antt =====
-- The WebSocket of a session: src/hooks/useMatchSocket.ts.
pub mod Dispatch
pub mod State
pub mod Requests
pub mod Events
pub mod Timers
pub mod Sole
pub mod Delivery
mod Tests
