-- ===== src/Webrtc/Invariant.antt =====
-- What holds of the hook whatever has happened to it: `IsSettled` is kept by every call and event.
use strangertv.Common.{
  ℕ, List, [], ◌∷◌, none, some, Option, Bool, true, false, ◌≡◌, refl, sym, ◌∙◌, ◌⊎◌, inl, inr,
  arith, Bool-cases, Option-cases, ◌==◌, ℕ_eq,
}
use strangertv.Common.Maps.{get, put, remove, get-remove}
use mathlib.Core.Path.{subst}
use strangertv.Webrtc.Browser.{Browser}
use strangertv.Webrtc.Quality.{RtcState, connected, closed, LinkStats, DeltaSeed}
use strangertv.Webrtc.Hook.{Payload, offer, answer, candidate, Peer, Hook, clear, remove_peer}
use strangertv.Webrtc.Events.{
  IceState, ice_failed, ice_connected, ice_other, peer_ice_candidate, peer_track, peer_state,
  peer_ice_state, restart_peer, sample_stats, update_peer, solo_ice_candidate, solo_track,
  solo_state, solo_ice_state, sample_solo_stats, restart_call,
}
use strangertv.Webrtc.Signals.{create_peer, solo_offer, solo_offer_to, handle_solo, handle_signal}
use strangertv.Webrtc.Keys.{
  PeersKeyed, PeersKeyed-put, get-peer_id, handle_mesh-IsKeyed, remove_peer-IsKeyed,
}
use strangertv.Webrtc.Pending.{Unknown, Unknown-SameKnown, SameKnown-put, handle_mesh-Unknown}
use strangertv.Webrtc.Peers.Mesh.{
  IsSettled, begun-IsSettled, add_participant-IsSettled, send_offer-Settles, drain-IsSettled,
}
use strangertv.Webrtc.Acts.{
  Act, signal, solo_call, mesh_begins, mesh_adds, mesh_offers, mesh_ends, cleared, removed,
  restarted, on_peer_candidate, on_peer_track, on_peer_state, on_peer_ice, on_peer_sample,
  on_solo_candidate, on_solo_track, on_solo_state, on_solo_ice, on_solo_sample, run_act, run_acts,
  mounted,
}

module _ (w : Browser) where
  -- A handler that leaves both alone, or has cleared both.
  abbrev Kept : Hook w → Hook w → Type 0
  Kept s t =
      ((t.peers ≡ s.peers) × (t.pending_signals ≡ s.pending_signals))
      ⊎ ((t.peers ≡ []) × (t.pending_signals ≡ []))

  Kept-IsSettled : (s t : Hook w) → Kept s t → IsSettled w s → IsSettled w t
  Kept-IsSettled s t (inl (e, f)) h = record {
    keyed = subst (PeersKeyed w) (sym e) h.keyed;
    waiting = rw (e, f) h.waiting;
  }
  Kept-IsSettled s t (inr (e, f)) h = record {
    keyed = subst (PeersKeyed w) (sym e) tt;
    waiting = rw (e, f) tt;
  }

  -- A handler that changes a known peer.
  put-IsSettled :
      (id : ℕ) (p q : Peer w) (s t : Hook w)
      → get id s.peers ≡ some p
      → q.peer_id ≡ p.peer_id
      → t.peers ≡ put id q s.peers
      → t.pending_signals ≡ s.pending_signals
      → IsSettled w s
      → IsSettled w t
  put-IsSettled id p q s t e same peers pending h = record {
    keyed =
        subst (PeersKeyed w) (sym peers)
          (PeersKeyed-put w id q s.peers (same ∙ get-peer_id w id s.peers h.keyed e) h.keyed);
    waiting =
        rw (peers, pending)
          (Unknown-SameKnown w s.peers (put id q s.peers) s.pending_signals
            (SameKnown-put w id p q s.peers e) h.waiting);
  }

  update_peer-IsSettled :
      (id : ℕ) (f : Peer w → Peer w) (s : Hook w)
      → ((p : Peer w) → (f p).peer_id ≡ p.peer_id)
      → IsSettled w s
      → IsSettled w (update_peer w id f s)
  update_peer-IsSettled id f s keep h = elim (Option-cases (get id s.peers)) [
    | inl e ↦ rw (e, update_peer) h
    | inr (p, e) ↦ rw (e, update_peer) (put-IsSettled id p (f p) s _ e (keep p) refl refl h)
  ]

  restart_peer-IsSettled :
      (id : ℕ) (as_offerer : Bool) (p : Peer w) (s : Hook w)
      → get id s.peers ≡ some p
      → IsSettled w s
      → IsSettled w (restart_peer w id as_offerer p s)
  unfolding restart_peer
  restart_peer-IsSettled id false p s e h =
      put-IsSettled id p (record p { pc = w.restart_ice p.pc }) s _ e refl refl refl h
  restart_peer-IsSettled id true p s e h =
      let pc = w.restart_ice p.pc in
      let kept = put-IsSettled id p (record p { pc = pc }) s _ e refl refl refl h in
      elim (Option-cases (w.create_restart_offer pc)) [
        | inl o ↦ rw o kept
        | inr (d, o) ↦ rw o (elim (Option-cases (w.set_local pc d)) [
          | inl l ↦ rw l kept
          | inr (local, l) ↦
              rw l (put-IsSettled id p (record p { pc = local }) s _ e refl refl refl h)
        ])
      ]

  peer_ice_state-IsSettled :
      (id : ℕ) (as_offerer : Bool) (state : IceState) (s : Hook w)
      → IsSettled w s
      → IsSettled w (peer_ice_state w id as_offerer state s)
  unfolding peer_ice_state
  peer_ice_state-IsSettled id as_offerer ice_failed s h =
      let failed = Kept-IsSettled s _ (inl (refl, refl)) h in
      elim (Option-cases (get id s.peers)) [
        | inl e ↦ rw (e, peer_ice_state) failed
        | inr (p, e) ↦ rw (e, peer_ice_state) (restart_peer-IsSettled id as_offerer p _ e failed)
      ]
  peer_ice_state-IsSettled id as_offerer ice_connected s h = elim (Option-cases (get id s.peers)) [
    | inl e ↦ rw (e, peer_ice_state) h
    | inr (p, e) ↦ elim (Bool-cases p.ready) [
      | inl t ↦ rw (e, peer_ice_state, t) (put-IsSettled id p _ s _ e refl refl refl h)
      | inr f ↦ rw (e, peer_ice_state, f) h
    ]
  ]
  peer_ice_state-IsSettled id as_offerer ice_other s h = h

  peer_state-IsSettled :
      (id : ℕ) (state : RtcState) (s : Hook w)
      → IsSettled w s
      → IsSettled w (peer_state w id state s)
  unfolding peer_state
  peer_state-IsSettled id connected s h =
      update_peer-IsSettled id _ _ (λ p. refl) (Kept-IsSettled s _ (inl (refl, refl)) h)
  peer_state-IsSettled id RtcState.failed s h =
      update_peer-IsSettled id _ _ (λ p. refl) (Kept-IsSettled s _ (inl (refl, refl)) h)
  peer_state-IsSettled id closed s h =
      update_peer-IsSettled id _ _ (λ p. refl) (Kept-IsSettled s _ (inl (refl, refl)) h)
  peer_state-IsSettled id _ s h = Kept-IsSettled s _ (inl (refl, refl)) h

  sample_stats-IsSettled :
      (id : ℕ) (state : RtcState) (result : Option (LinkStats × DeltaSeed)) (s : Hook w)
      → IsSettled w s
      → IsSettled w (sample_stats w id state result s)
  unfolding sample_stats
  sample_stats-IsSettled id state none s h = h
  sample_stats-IsSettled id RtcState.failed (some (stats, seed)) s h = h
  sample_stats-IsSettled id closed (some (stats, seed)) s h = h
  sample_stats-IsSettled id _ (some (stats, seed)) s h =
      update_peer-IsSettled id _ _ (λ p. refl) (Kept-IsSettled s _ (inl (refl, refl)) h)

  Unknown-remove :
      (id : ℕ) (m : List (ℕ × Peer w)) (signals : List (ℕ × Payload w))
      → Unknown w m signals
      → Unknown w (remove id m) signals
  Unknown-remove id m [] h = tt
  Unknown-remove id m ((from, payload) ∷ rest) h = (
    rw get-remove (elim (Bool-cases (id == from)) [ inl e ↦ rw e refl | inr e ↦ rw e h.0 ]),
    Unknown-remove id m rest h.1,
  )

  remove_peer-IsSettled : (id : ℕ) (s : Hook w) → IsSettled w s → IsSettled w (remove_peer w id s)
  unfolding remove_peer
  remove_peer-IsSettled id s h = elim (Option-cases (get id s.peers)) [
    | inl e ↦ rw (e, remove_peer) h
    | inr (p, e) ↦
        let keyed = remove_peer-IsKeyed w id s h.keyed in
        rw (e, remove_peer)
          (record {
            keyed = rw (e, remove_peer) at keyed;
            waiting = Unknown-remove id s.peers s.pending_signals h.waiting;
          })
  ]

  create_peer-Kept :
      (ice : Option w.IceServers) (stream : w.Stream) (as_offerer : Bool) (s : Hook w)
      → ((create_peer w ice stream as_offerer s).peers ≡ [])
        × ((create_peer w ice stream as_offerer s).pending_signals ≡ [])
  unfolding create_peer clear
  create_peer-Kept none stream as_offerer s = (refl, refl)
  create_peer-Kept (some ice) stream as_offerer s = (ground arith, ground arith)

  solo_offer-Kept :
      (pc : w.Pc) (d : w.Description) (s : Hook w)
      → ((solo_offer w pc d s).peers ≡ s.peers)
        × ((solo_offer w pc d s).pending_signals ≡ s.pending_signals)
  unfolding solo_offer
  solo_offer-Kept pc d s = (ground arith, ground arith)

  solo_offer_to-Kept :
      (pc : Option w.Pc) (d : w.Description) (s : Hook w)
      → ((solo_offer_to w pc d s).peers ≡ s.peers)
        × ((solo_offer_to w pc d s).pending_signals ≡ s.pending_signals)
  unfolding solo_offer_to
  solo_offer_to-Kept none d s = (refl, refl)
  solo_offer_to-Kept (some pc) d s = solo_offer-Kept pc d s

  handle_solo-Kept :
      (ice : Option w.IceServers) (stream : Option w.Stream) (payload : Payload w) (s : Hook w)
      → Kept s (handle_solo w ice stream payload s)
  unfolding handle_solo
  handle_solo-Kept ice none (offer d) s = elim (Option-cases s.solo_pc) [
    | inl e ↦ rw (e, handle_solo) (inl (refl, refl))
    | inr (pc, e) ↦ rw (e, handle_solo) (inl (solo_offer-Kept pc d s))
  ]
  handle_solo-Kept ice (some stream) (offer d) s = elim (Option-cases s.solo_pc) [
    | inr (pc, e) ↦ rw (e, handle_solo) (inl (solo_offer-Kept pc d s))
    | inl e ↦
        let called = create_peer w ice stream false s in
        let empty = create_peer-Kept ice stream false s in
        let kept = solo_offer_to-Kept called.solo_pc d called in
        rw (e, handle_solo) (inr (kept.0 ∙ empty.0, kept.1 ∙ empty.1))
  ]
  handle_solo-Kept ice stream (answer d) s = inl (ground arith, ground arith)
  handle_solo-Kept ice stream (candidate c) s = inl (ground arith, ground arith)

  handle_signal-IsSettled :
      (ice : Option w.IceServers) (stream : Option w.Stream) (payload : Payload w) (from : Option ℕ)
      (s : Hook w)
      → IsSettled w s
      → IsSettled w (handle_signal w ice stream payload from s)
  unfolding handle_signal
  handle_signal-IsSettled ice stream payload none s h =
      Kept-IsSettled s _ (handle_solo-Kept ice stream payload s) h
  handle_signal-IsSettled ice stream payload (some from) s h = record {
    keyed = handle_mesh-IsKeyed w from payload s h.keyed;
    waiting = (handle_mesh-Unknown w from payload s h.waiting).1;
  }

  -- One call of the hook or one event of a connection.
  run_act-IsSettled : (a : Act w) (s : Hook w) → IsSettled w s → IsSettled w (run_act w a s)
  unfolding run_act peer_ice_candidate peer_track solo_track solo_ice_candidate solo_state
      solo_ice_state sample_solo_stats restart_call clear
  run_act-IsSettled (signal ice stream payload from) s h =
      handle_signal-IsSettled ice stream payload from s h
  run_act-IsSettled (solo_call ice stream as_offerer) s h =
      Kept-IsSettled s _ (inr (create_peer-Kept ice stream as_offerer s)) h
  run_act-IsSettled mesh_begins s h = begun-IsSettled w s
  run_act-IsSettled (mesh_adds ice stream my_peer_id p) s h =
      (add_participant-IsSettled w ice stream my_peer_id p s h).0
  run_act-IsSettled (mesh_offers id o) s h = (send_offer-Settles w id o s h).0
  run_act-IsSettled mesh_ends s h = drain-IsSettled w s h.keyed
  run_act-IsSettled cleared s h = Kept-IsSettled s _ (inr (refl, refl)) h
  run_act-IsSettled (removed id) s h = remove_peer-IsSettled id s h
  run_act-IsSettled restarted s h = Kept-IsSettled s _ (inl (ground arith, ground arith)) h
  run_act-IsSettled (on_peer_candidate id c) s h =
      Kept-IsSettled s _ (inl (ground arith, ground arith)) h
  run_act-IsSettled (on_peer_track id state stream) s h =
      Kept-IsSettled s _ (inl (ground arith, ground arith)) h
  run_act-IsSettled (on_peer_state id state) s h = peer_state-IsSettled id state s h
  run_act-IsSettled (on_peer_ice id as_offerer state) s h =
      peer_ice_state-IsSettled id as_offerer state s h
  run_act-IsSettled (on_peer_sample id state result) s h =
      sample_stats-IsSettled id state result s h
  run_act-IsSettled (on_solo_candidate c) s h =
      Kept-IsSettled s _ (inl (ground arith, ground arith)) h
  run_act-IsSettled (on_solo_track stream) s h = Kept-IsSettled s _ (inl (refl, refl)) h
  run_act-IsSettled (on_solo_state state) s h =
      Kept-IsSettled s _ (inl (ground arith, ground arith)) h
  run_act-IsSettled (on_solo_ice as_offerer state) s h =
      Kept-IsSettled s _ (inl (ground arith, ground arith)) h
  run_act-IsSettled (on_solo_sample state result) s h =
      Kept-IsSettled s _ (inl (ground arith, ground arith)) h

  run_acts-IsSettled_from :
      (acts : List (Act w)) (s : Hook w) → IsSettled w s → IsSettled w (run_acts w acts s)
  unfolding run_acts
  run_acts-IsSettled_from [] s h = h
  run_acts-IsSettled_from (a ∷ acts) s h =
      run_acts-IsSettled_from acts (run_act w a s) (run_act-IsSettled a s h)

  -- After any calls of the hook and any events of its connections, in any order, also between the
  -- `await`s of `createMeshPeers`, and with whatever the browser answers: every peer is under its own
  -- id, and no signal waits whose peer exists.
  pub run_acts-IsSettled : (acts : List (Act w)) → IsSettled w (run_acts w acts (mounted w))
  run_acts-IsSettled acts =
      run_acts-IsSettled_from acts (mounted w) (record { keyed = tt; waiting = tt })
