-- ===== src/Webrtc.antt =====
-- The peer connections of a call: src/hooks/useWebRTC.ts and src/utils/webrtcQuality.ts.
pub mod Quality
pub mod Browser
pub mod Hook
pub mod Events
pub mod Signals
pub mod Peers
pub mod Keys
pub mod Pending
pub mod Acts
pub mod Invariant
pub mod Glare
pub mod Early
pub mod Solo
mod Tests
