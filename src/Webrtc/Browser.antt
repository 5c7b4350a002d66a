-- ===== src/Webrtc/Browser.antt =====
-- What the browser provides: RTCPeerConnection, session descriptions, ICE candidates, streams.
-- None of it is code of the repository, so it is a parameter. A call that may reject gives `none`.
use strangertv.Common.{Option}

-- The values of `signalingState` that the code tells apart.
pub data SignalingState : Type 0 where
  stable have_local_offer other_state : SignalingState

pub record Browser : Type 1 where
  pub Pc : Type 0
  pub Description : Type 0
  pub Candidate : Type 0
  pub Stream : Type 0
  pub IceServers : Type 0
  -- new RTCPeerConnection({ iceServers })
  pub new_pc : IceServers → Pc
  -- stream.getTracks().forEach((track) => pc.addTrack(track, stream))
  pub add_tracks : Pc → Stream → Pc
  pub signaling_state : Pc → SignalingState
  pub create_offer : Pc → Option Description
  pub create_answer : Pc → Option Description
  pub set_local : Pc → Description → Option Pc
  pub set_remote : Pc → Description → Option Pc
  -- setLocalDescription({ type: 'rollback' })
  pub rollback : Pc → Option Pc
  -- addIceCandidate, whose rejection the code ignores
  pub add_candidate : Pc → Candidate → Pc
  -- restartIce, where the browser has it
  pub restart_ice : Pc → Pc
  -- createOffer({ iceRestart: true })
  pub create_restart_offer : Pc → Option Description
