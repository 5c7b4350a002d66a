-- ===== src/Webrtc/Signals.antt =====
-- `handleSignal` and `drainPendingSignals` of src/hooks/useWebRTC.ts. One call runs to its end
-- before the next: what another handler does during an `await` is not modelled. A rejection is
-- caught in the mesh branch, and ends the solo branch.
use strangertv.Common.{
  ℕ, List, [], ◌∷◌, ◌++◌, Option, none, some, Bool, true, false, if◌then◌else◌, ltb, ℕ_eq,
}
use strangertv.Common.Maps.{get}
use strangertv.Webrtc.Browser.{Browser, stable, have_local_offer, other_state}
use strangertv.Webrtc.Quality.{QualityTier}
use strangertv.Webrtc.Hook.{
  Payload, offer, answer, candidate, Peer, Hook, on_signal, set_peer, add_candidates,
  flush_candidates, clear,
}

module _ (w : Browser) where
  open w use {
    Pc, Description, Candidate, Stream, IceServers, new_pc, add_tracks, signaling_state,
    create_offer, create_answer, set_local, set_remote, rollback, add_candidate,
  }

  -- From `setRemoteDescription` of an offer to the answer.
  unfoldable pub accept_offer : ℕ → Peer w → Description → Hook w → Hook w
  accept_offer from peer d s = elim (set_remote peer.pc d) [
    | none ↦ set_peer w from peer s
    | some pc ↦
        let ready = flush_candidates w (record peer { pc = pc; ready = true }) in
        elim (create_answer ready.pc) [
          | none ↦ set_peer w from ready s
          | some a ↦ elim (set_local ready.pc a) [
            | none ↦ set_peer w from ready s
            | some local ↦
                on_signal w (answer a) (some from) (set_peer w from (record ready { pc = local }) s)
          ]
        ]
  ]

  -- Glare: the code compares the peer's id with the sender's.
  unfoldable pub resolve_glare : ℕ → Peer w → Description → Hook w → Hook w
  resolve_glare from peer d s = if ltb peer.peer_id from then s else elim (rollback peer.pc) [
    | none ↦ s
    | some pc ↦ accept_offer from (record peer { pc = pc }) d s
  ]

  unfoldable pub mesh_offer : ℕ → Peer w → Description → Hook w → Hook w
  mesh_offer from peer d s = elim (signaling_state peer.pc) [
    | stable ↦ accept_offer from peer d s
    | have_local_offer ↦ resolve_glare from peer d s
    | other_state ↦ s
  ]

  unfoldable pub mesh_answer : ℕ → Peer w → Description → Hook w → Hook w
  mesh_answer from peer d s = elim (signaling_state peer.pc) [
    | stable ↦ s
    | have_local_offer ↦ elim (set_remote peer.pc d) [
      | none ↦ s
      | some pc ↦ set_peer w from (flush_candidates w (record peer { pc = pc; ready = true })) s
    ]
    | other_state ↦ s
  ]

  unfoldable pub mesh_candidate : ℕ → Peer w → Candidate → Hook w → Hook w
  mesh_candidate from peer c s =
      if peer.ready
      then set_peer w from (record peer { pc = add_candidate peer.pc c }) s
      else set_peer w from (record peer { pending_candidates = peer.pending_candidates ++ c ∷ [] })
          s

  unfoldable pub mesh_known : ℕ → Peer w → Payload w → Hook w → Hook w
  mesh_known from peer (offer d) s = mesh_offer from peer d s
  mesh_known from peer (answer d) s = mesh_answer from peer d s
  mesh_known from peer (candidate c) s = mesh_candidate from peer c s

  -- The branch of `handleSignal` with a `fromPeerId`.
  unfoldable pub handle_mesh : ℕ → Payload w → Hook w → Hook w
  handle_mesh from payload s = elim (get from s.peers) [
    | none ↦ record s { pending_signals = s.pending_signals ++ (from, payload) ∷ [] }
    | some peer ↦ mesh_known from peer payload s
  ]

  -- The code starts the handlers one after the other; here each has ended before the next.
  unfoldable pub handle_all : List (ℕ × Payload w) → Hook w → Hook w
  handle_all [] s = s
  handle_all ((from, payload) ∷ rest) s = handle_all rest (handle_mesh from payload s)

  unfoldable pub drain_pending_signals : Hook w → Hook w
  unfolding handle_all
  drain_pending_signals s = handle_all s.pending_signals (record s { pending_signals = [] })

  -- `createPeer`; without ICE servers `fetchIceServers` has rejected.
  unfoldable pub create_peer : Option IceServers → Stream → Bool → Hook w → Hook w
  create_peer none stream as_offerer s = record (clear w s) { quality = QualityTier.connecting }
  create_peer (some ice) stream as_offerer s =
      let pc = add_tracks (new_pc ice) stream in
      let fresh : Hook w = record (clear w s) {
        quality = QualityTier.connecting;
        solo_pc = some pc;
        solo_remote_ready = false;
      } in
      if as_offerer
      then elim (create_offer pc) [
        | none ↦ fresh
        | some o ↦ elim (set_local pc o) [
          | none ↦ fresh
          | some local ↦ on_signal w (offer o) none (record fresh { solo_pc = some local })
        ]
      ]
      else fresh

  -- The remote description is set: the candidates that waited are added.
  abbrev solo_ready : Pc → Hook w → Hook w
  solo_ready pc s = record s {
    solo_pc = some (add_candidates w pc s.solo_pending);
    solo_remote_ready = true;
    solo_pending = [];
  }

  abbrev solo_reply : Pc → Hook w → Hook w
  solo_reply pc s = elim (create_answer pc) [
    | none ↦ s
    | some a ↦ elim (set_local pc a) [
      | none ↦ s
      | some local ↦ on_signal w (answer a) none (record s { solo_pc = some local })
    ]
  ]

  unfoldable pub solo_offer : Pc → Description → Hook w → Hook w
  solo_offer pc d s = elim (set_remote pc d) [
    | none ↦ s
    | some remote ↦ solo_reply (add_candidates w remote s.solo_pending) (solo_ready remote s)
  ]

  -- Without a connection `createPeer` has rejected, and the handler ends.
  unfoldable pub solo_offer_to : Option Pc → Description → Hook w → Hook w
  solo_offer_to none d s = s
  solo_offer_to (some pc) d s = solo_offer pc d s

  -- The branch of `handleSignal` without a `fromPeerId`.
  unfoldable pub handle_solo : Option IceServers → Option Stream → Payload w → Hook w → Hook w
  handle_solo ice stream (offer d) s = elim s.solo_pc [
    | some pc ↦ solo_offer pc d s
    | none ↦ elim stream [
      | none ↦ s
      | some live ↦
          let called = create_peer ice live false s in solo_offer_to called.solo_pc d called
    ]
  ]
  handle_solo ice stream (answer d) s = elim s.solo_pc [
    | none ↦ s
    | some pc ↦ elim (set_remote pc d) [ none ↦ s | some remote ↦ solo_ready remote s ]
  ]
  handle_solo ice stream (candidate c) s = elim s.solo_pc [
    | none ↦ record s { solo_pending = s.solo_pending ++ c ∷ [] }
    | some pc ↦
        if s.solo_remote_ready
        then record s { solo_pc = some (add_candidate pc c) }
        else record s { solo_pending = s.solo_pending ++ c ∷ [] }
  ]

  unfoldable pub handle_signal :
      Option IceServers → Option Stream → Payload w → Option ℕ → Hook w → Hook w
  unfolding handle_solo handle_mesh
  handle_signal ice stream payload none s = handle_solo ice stream payload s
  handle_signal ice stream payload (some from) s = handle_mesh from payload s
