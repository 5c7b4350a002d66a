-- ===== src/Webrtc/Early.antt =====
-- Signals that come before their peer: what `drainPendingSignals` of src/hooks/useWebRTC.ts is for.
use strangertv.Common.{List, ℕ_eq}
use strangertv.Webrtc.Browser.{Browser}
use strangertv.Webrtc.Hook.{Hook}
