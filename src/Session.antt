-- ===== src/Session.antt =====
-- A visit's session of matches: src/hooks/useMatchSession.ts.
pub mod State
pub mod Handlers
pub mod Groups
pub mod Commands
pub mod Run
pub mod Stop
pub mod Leaving
pub mod Invites
pub mod Kept
pub mod Countdown
pub mod Answered
pub mod Roster
pub mod Members
pub mod Once
mod Tests
