-- ===== src/Webrtc/Events.antt =====
-- The event handlers that src/hooks/useWebRTC.ts puts on a connection, the samples of its
-- statistics, and `restartIce`. A closed connection fires no event, so a handler of a mesh peer
-- finds its peer in the map.
use strangertv.Common.{ℕ, Option, none, some, Bool, true, false, if◌then◌else◌, ℕ_eq}
use strangertv.Common.Maps.{get, put}
use strangertv.Webrtc.Browser.{Browser}
use strangertv.Webrtc.Quality.{
  QualityTier, good, poor, RtcState, new, connected, disconnected, closed, LinkStats, DeltaSeed,
  quality_from_link,
}
use strangertv.Webrtc.Hook.{
  offer, candidate, Peer, Hook, on_signal, set_peer, stop_stats_loop, start_stats_loop,
  stop_solo_stats_loop, start_solo_stats_loop,
}

-- The values of `iceConnectionState` that the code tells apart; `ice_connected` is also `completed`.
pub data IceState : Type 0 where
  ice_failed ice_connected ice_other : IceState

abbrev pub is_connected : RtcState → Bool
is_connected connected = true
is_connected _ = false

-- setQuality((q) => …) of the mesh handler when the connection is up
abbrev raise_quality : QualityTier → QualityTier
raise_quality poor = poor
raise_quality _ = good

-- A sample does not take a good link back to connecting.
abbrev pub next_quality : QualityTier → QualityTier → QualityTier
next_quality good QualityTier.connecting = good
next_quality current sampled = sampled

module _ (w : Browser) where
  open w use {Pc, Candidate, Stream, create_restart_offer, restart_ice, set_local}

  unfoldable pub peer_ice_candidate : ℕ → Option Candidate → Hook w → Hook w
  peer_ice_candidate id none s = s
  peer_ice_candidate id (some c) s = on_signal w (candidate c) (some id) s

  abbrev put_stream : ℕ → Option Stream → Hook w → Hook w
  put_stream id none s = s
  put_stream id (some stream) s = record s { peer_streams = put id stream s.peer_streams }

  unfoldable pub peer_track : ℕ → RtcState → Option Stream → Hook w → Hook w
  peer_track id state stream s =
      let shown = put_stream id stream s in
      record shown {
        has_remote = true;
        quality = if is_connected state then good else shown.quality;
      }

  abbrev pub update_peer : ℕ → (Peer w → Peer w) → Hook w → Hook w
  update_peer id f s = elim (get id s.peers) [ none ↦ s | some peer ↦ set_peer w id (f peer) s ]

  -- `applyState` of a mesh peer
  unfoldable pub peer_state : ℕ → RtcState → Hook w → Hook w
  peer_state id connected s =
      update_peer id (start_stats_loop w) (record s { quality = raise_quality s.quality })
  peer_state id RtcState.connecting s = record s { quality = QualityTier.connecting }
  peer_state id new s = record s { quality = QualityTier.connecting }
  peer_state id disconnected s = record s { quality = poor }
  peer_state id RtcState.failed s =
      update_peer id (stop_stats_loop w) (record s { quality = QualityTier.failed })
  peer_state id closed s =
      update_peer id (stop_stats_loop w) (record s { quality = QualityTier.failed })

  -- restartIce, then a new offer from the offerer; a rejection is ignored.
  unfoldable pub restart_peer : ℕ → Bool → Peer w → Hook w → Hook w
  restart_peer id as_offerer peer s =
      let pc = restart_ice peer.pc in
      let restarted = set_peer w id (record peer { pc = pc }) s in
      if as_offerer
      then elim (create_restart_offer pc) [
        | none ↦ restarted
        | some o ↦ elim (set_local pc o) [
          | none ↦ restarted
          | some local ↦
              on_signal w (offer o) (some id) (set_peer w id (record peer { pc = local }) s)
        ]
      ]
      else restarted

  unfoldable pub peer_ice_state : ℕ → Bool → IceState → Hook w → Hook w
  peer_ice_state id as_offerer ice_failed s =
      let failed = record s { quality = QualityTier.failed } in
      elim (get id s.peers) [ none ↦ failed | some peer ↦ restart_peer id as_offerer peer failed ]
  peer_ice_state id as_offerer ice_connected s = elim (get id s.peers) [
    | none ↦ s
    | some peer ↦
        if peer.ready
        then set_peer w id (start_stats_loop w peer) (record s { quality = good })
        else s
  ]
  peer_ice_state id as_offerer ice_other s = s

  abbrev is_down : RtcState → Bool
  is_down RtcState.failed = true
  is_down closed = true
  is_down _ = false

  -- `sampleStats`: `none` if `getStats` has rejected.
  unfoldable pub sample_stats : ℕ → RtcState → Option (LinkStats × DeltaSeed) → Hook w → Hook w
  sample_stats id state none s = s
  sample_stats id state (some (stats, seed)) s =
      if is_down state
      then s
      else update_peer id (λ peer. record peer { stats_seed = some seed })
          (record s {
            link_stats = stats;
            quality = next_quality s.quality (quality_from_link state stats);
          })

  unfoldable pub solo_ice_candidate : Option Candidate → Hook w → Hook w
  solo_ice_candidate none s = s
  solo_ice_candidate (some c) s = on_signal w (candidate c) none s

  unfoldable pub solo_track : Option Stream → Hook w → Hook w
  solo_track stream s = record s { solo_remote_stream = stream; has_remote = true; quality = good }

  -- `applyState` of the solo connection
  unfoldable pub solo_state : RtcState → Hook w → Hook w
  solo_state connected s = start_solo_stats_loop w (record s { quality = good })
  solo_state RtcState.connecting s = record s { quality = QualityTier.connecting }
  solo_state new s = record s { quality = QualityTier.connecting }
  solo_state disconnected s = record s { quality = poor }
  solo_state RtcState.failed s = stop_solo_stats_loop w (record s { quality = QualityTier.failed })
  solo_state closed s = stop_solo_stats_loop w (record s { quality = QualityTier.failed })

  abbrev solo_restart_offer : Pc → Hook w → Hook w
  solo_restart_offer pc s = elim (create_restart_offer pc) [
    | none ↦ record s { solo_pc = some pc }
    | some o ↦ elim (set_local pc o) [
      | none ↦ record s { solo_pc = some pc }
      | some local ↦ on_signal w (offer o) none (record s { solo_pc = some local })
    ]
  ]

  unfoldable pub solo_ice_state : Bool → IceState → Hook w → Hook w
  solo_ice_state as_offerer ice_failed s =
      let failed = record s { quality = QualityTier.failed } in
      elim s.solo_pc [
        | none ↦ failed
        | some pc ↦
            if as_offerer
            then solo_restart_offer (restart_ice pc) failed
            else record failed { solo_pc = some (restart_ice pc) }
      ]
  solo_ice_state as_offerer ice_connected s =
      if s.solo_remote_ready then record s { quality = good } else s
  solo_ice_state as_offerer ice_other s = s

  -- `restartIce`
  unfoldable pub restart_call : Hook w → Hook w
  restart_call s = elim s.solo_pc [
    | none ↦ s
    | some pc ↦ solo_restart_offer (restart_ice pc) (record s { quality = QualityTier.connecting })
  ]

  unfoldable pub sample_solo_stats : RtcState → Option (LinkStats × DeltaSeed) → Hook w → Hook w
  sample_solo_stats state none s = s
  sample_solo_stats state (some (stats, seed)) s = elim s.solo_pc [
    | none ↦ s
    | some pc ↦ if is_down state then s else record s {
      solo_stats_seed = some seed;
      link_stats = stats;
      quality = next_quality s.quality (quality_from_link state stats);
    }
  ]
