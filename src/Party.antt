-- ===== src/Party.antt =====
-- Games played in a call: src/hooks/useCallParty.ts and src/hooks/useActivities.ts.
pub mod Peers
pub mod State
pub mod Games
pub mod Call
pub mod Quiet
pub mod Invites
pub mod Rooms
mod Tests
