-- ===== src/Webrtc/Peers.antt =====
-- `createMeshPeers` of src/hooks/useWebRTC.ts, cut at its `await`s.
pub mod Mesh
use strangertv.Common.{
  ℕ, List, [], ◌∷◌, Option, none, some, Bool, true, false, ◌||◌, if◌then◌else◌, is_some, ◌==◌, ℕ_eq,
}
use strangertv.Common.Maps.{get}
use strangertv.Webrtc.Browser.{Browser}
use strangertv.Webrtc.Quality.{QualityTier}
use strangertv.Webrtc.Hook.{Payload, Peer, Hook, offer, on_signal, set_peer, clear}
use strangertv.Webrtc.Signals.{handle_all, drain_pending_signals}

-- ROLE
pub data Role : Type 0 where
  offerer answerer : Role

pub record Participant : Type 0 where
  pub peer_id : ℕ
  pub user_id : ℕ
  pub role : Role

module _ (w : Browser) where
  open w use {Stream, Description, IceServers, new_pc, add_tracks, set_local}

  abbrev pub new_peer : IceServers → Stream → Participant → Peer w
  new_peer ice stream p = record {
    pc = add_tracks (new_pc ice) stream;
    peer_id = p.peer_id;
    user_id = p.user_id;
    ready = false;
    pending_candidates = [];
    stats_timer = false;
    stats_seed = none;
  }

  -- Before the first `await`.
  unfoldable pub begin_mesh : Hook w → Hook w
  begin_mesh s = record (clear w s) { quality = QualityTier.connecting }

  -- `continue`
  abbrev pub is_skipped : ℕ → Participant → Hook w → Bool
  is_skipped my_peer_id p s = p.peer_id == my_peer_id || is_some (get p.peer_id s.peers)

  -- One round of the loop, up to its first `await`.
  unfoldable pub add_participant : IceServers → Stream → ℕ → Participant → Hook w → Hook w
  add_participant ice stream my_peer_id p s =
      if is_skipped my_peer_id p s
      then s
      else drain_pending_signals w (set_peer w p.peer_id (new_peer ice stream p) s)

  -- The rest of the round of an offerer, from the moment at which `setLocalDescription` is done; `none`
  -- is a `createOffer` that has rejected. The connection is the one that the signals that came in
  -- between may have moved on, and the setting rejects if it was closed. `false` if a call has rejected.
  unfoldable pub send_offer : ℕ → Option Description → Hook w → Hook w × Bool
  send_offer id none s = (s, false)
  send_offer id (some o) s = elim (get id s.peers) [
    | none ↦ (s, false)
    | some peer ↦ elim (set_local peer.pc o) [
      | none ↦ (s, false)
      | some local ↦
          (on_signal w (offer o) (some id) (set_peer w id (record peer { pc = local }) s), true)
    ]
  ]

  -- What the `await`s of a round see: the offer, and the signals of peers that come meanwhile.
  pub record Awaited : Type 0 where
    pub offer : Option Description
    pub signals : List (ℕ × Payload w)

  abbrev pub await_offer : Role → ℕ → Awaited → Hook w → Hook w × Bool
  await_offer answerer id a s = (s, true)
  await_offer offerer id a s = send_offer id a.offer (handle_all w a.signals s)

  abbrev pub mesh_round : IceServers → Stream → ℕ → Participant → Awaited → Hook w → Hook w × Bool
  mesh_round ice stream my_peer_id p a s =
      if is_skipped my_peer_id p s
      then (s, true)
      else await_offer p.role p.peer_id a (add_participant ice stream my_peer_id p s)

  unfoldable pub mesh_rounds :
      IceServers → Stream → ℕ → List (Participant × Awaited) → Hook w → Hook w × Bool
  mesh_rounds ice stream my_peer_id [] s = (drain_pending_signals w s, true)
  mesh_rounds ice stream my_peer_id ((p, a) ∷ rest) s =
      let (next, alive) = mesh_round ice stream my_peer_id p a s in
      elim alive [ true ↦ mesh_rounds ice stream my_peer_id rest next | false ↦ (next, false) ]

  -- The whole call, with the signals that come while `fetchIceServers` and the rounds are awaited.
  unfoldable pub create_mesh_peers :
      Option IceServers
      → Stream
      → List (ℕ × Payload w)
      → List (Participant × Awaited)
      → ℕ
      → Hook w
      → Hook w × Bool
  create_mesh_peers none stream signals rounds my_peer_id s =
      (handle_all w signals (begin_mesh s), false)
  create_mesh_peers (some ice) stream signals rounds my_peer_id s =
      mesh_rounds ice stream my_peer_id rounds (handle_all w signals (begin_mesh s))
