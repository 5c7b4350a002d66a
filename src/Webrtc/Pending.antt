-- ===== src/Webrtc/Pending.antt =====
-- The queue of signals whose peer is not there yet.
use strangertv.Common.{
  ℕ, List, [], ◌∷◌, some, true, ◌≡◌, refl, ◌∙◌, ◌⊎◌, inl, inr, arith, is_some, Bool-cases,
  Option-cases, ltb, ◌==◌, ℕ_eq, nat_eq_iff, All, All-append, if◌then◌else◌, false,
}
use strangertv.Common.Maps.{get, put, get-put}
use strangertv.Webrtc.Browser.{Browser, SignalingState, stable, have_local_offer, other_state}
use strangertv.Webrtc.Hook.{Payload, offer, answer, candidate, Peer, Hook, flush_candidates}
use strangertv.Webrtc.Signals.{
  accept_offer, resolve_glare, mesh_offer, mesh_answer, mesh_candidate, mesh_known, handle_mesh,
  handle_all, drain_pending_signals,
}

module _ (w : Browser) where
  abbrev pub Peers : Type 0
  Peers = List (ℕ × Peer w)

  -- The same peers are known.
  abbrev pub SameKnown : Peers → Peers → Type 0
  SameKnown m n = (k : ℕ) → is_some (get k n) ≡ is_some (get k m)

  pub SameKnown-put :
      (id : ℕ) (p q : Peer w) (m : Peers) → get id m ≡ some p → SameKnown m (put id q m)
  SameKnown-put id p q m e k = rw get-put (go (Bool-cases (id == k)))
    where
      go :
          ((id == k) ≡ true) ⊎ ((id == k) ≡ false)
          → is_some (if id == k then some q else get k m) ≡ is_some (get k m)
      go (inl same) = ground (arith, nat_eq_iff id k)
      go (inr other) = rw other

  -- What a handler leaves: the queue as it was, and at most the entry of the known peer changed.
  abbrev Settled : ℕ → Hook w → Hook w → Type 0
  Settled id s t =
      (t.pending_signals ≡ s.pending_signals)
      × ((t.peers ≡ s.peers) ⊎ ((q : Peer w) × (t.peers ≡ put id q s.peers)))

  accept_offer-Settled :
      (from : ℕ) (peer : Peer w) (d : w.Description) (s : Hook w)
      → Settled from s (accept_offer w from peer d s)
  unfolding accept_offer
  accept_offer-Settled from peer d s = elim (Option-cases (w.set_remote peer.pc d)) [
    | inl r ↦ rw (r, accept_offer) (refl, inr (peer, refl))
    | inr (pc, r) ↦
        let ready = flush_candidates w (record peer { pc = pc; ready = true }) in
        rw (r, accept_offer)
          (elim (Option-cases (w.create_answer ready.pc)) [
            | inl a ↦ rw a (refl, inr (ready, refl))
            | inr (reply, a) ↦ rw a (elim (Option-cases (w.set_local ready.pc reply)) [
              | inl l ↦ rw l (refl, inr (ready, refl))
              | inr (local, l) ↦ rw l (refl, inr (record ready { pc = local }, refl))
            ])
          ])
  ]

  resolve_glare-Settled :
      (from : ℕ) (peer : Peer w) (d : w.Description) (s : Hook w)
      → Settled from s (resolve_glare w from peer d s)
  unfolding resolve_glare
  resolve_glare-Settled from peer d s = elim (Bool-cases (ltb peer.peer_id from)) [
    | inl t ↦ rw (t, resolve_glare) (refl, inl refl)
    | inr f ↦
        rw (f, resolve_glare)
          (elim (Option-cases (w.rollback peer.pc)) [
            | inl r ↦ rw r (refl, inl refl)
            | inr (pc, r) ↦ rw r (accept_offer-Settled from (record peer { pc = pc }) d s)
          ])
  ]

  mesh_offer-Settled :
      (from : ℕ) (peer : Peer w) (d : w.Description) (s : Hook w) (t : SignalingState)
      → w.signaling_state peer.pc ≡ t
      → Settled from s (mesh_offer w from peer d s)
  unfolding mesh_offer
  mesh_offer-Settled from peer d s stable e =
      rw (e, mesh_offer) (accept_offer-Settled from peer d s)
  mesh_offer-Settled from peer d s have_local_offer e =
      rw (e, mesh_offer) (resolve_glare-Settled from peer d s)
  mesh_offer-Settled from peer d s other_state e = rw (e, mesh_offer) (refl, inl refl)

  mesh_answer-Settled :
      (from : ℕ) (peer : Peer w) (d : w.Description) (s : Hook w) (t : SignalingState)
      → w.signaling_state peer.pc ≡ t
      → Settled from s (mesh_answer w from peer d s)
  unfolding mesh_answer
  mesh_answer-Settled from peer d s have_local_offer e =
      elim (Option-cases (w.set_remote peer.pc d)) [
        | inl r ↦ rw (e, mesh_answer, r) (refl, inl refl)
        | inr (pc, r) ↦
            rw (e, mesh_answer, r)
              (refl, inr (flush_candidates w (record peer { pc = pc; ready = true }), refl))
      ]
  mesh_answer-Settled from peer d s stable e = rw (e, mesh_answer) (refl, inl refl)
  mesh_answer-Settled from peer d s other_state e = rw (e, mesh_answer) (refl, inl refl)

  mesh_candidate-Settled :
      (from : ℕ) (peer : Peer w) (c : w.Candidate) (s : Hook w)
      → Settled from s (mesh_candidate w from peer c s)
  unfolding mesh_candidate
  mesh_candidate-Settled from peer c s = elim (Bool-cases peer.ready) [
    | inl t ↦ rw (t, mesh_candidate) (refl, inr (_, refl))
    | inr f ↦ rw (f, mesh_candidate) (refl, inr (_, refl))
  ]

  mesh_known-Settled :
      (from : ℕ) (peer : Peer w) (payload : Payload w) (s : Hook w)
      → Settled from s (mesh_known w from peer payload s)
  unfolding mesh_known
  mesh_known-Settled from peer (offer d) s =
      mesh_offer-Settled from peer d s (w.signaling_state peer.pc) refl
  mesh_known-Settled from peer (answer d) s =
      mesh_answer-Settled from peer d s (w.signaling_state peer.pc) refl
  mesh_known-Settled from peer (candidate c) s = mesh_candidate-Settled from peer c s

  Settled-SameKnown :
      (id : ℕ) (p : Peer w) (s t : Hook w)
      → get id s.peers ≡ some p
      → Settled id s t
      → SameKnown s.peers t.peers
  Settled-SameKnown id p s t e (_, inl same) = λ k. rw same
  Settled-SameKnown id p s t e (_, inr (q, same)) = λ k. rw same (SameKnown-put id p q s.peers e k)

  -- The waiting signals are those of peers that are not known.
  abbrev pub Unknown : Peers → List (ℕ × Payload w) → Type 0
  Unknown m signals = All (λ e. is_some (get e.0 m) ≡ false) signals

  pub Unknown-SameKnown :
      (m n : Peers) (signals : List (ℕ × Payload w))
      → SameKnown m n
      → Unknown m signals
      → Unknown n signals
  Unknown-SameKnown m n [] same h = tt
  Unknown-SameKnown m n ((from, payload) ∷ rest) same h =
      (same from ∙ h.0, Unknown-SameKnown m n rest same h.1)

  -- A signal leaves the peers known as they were, and waits exactly if its peer is not known.
  pub handle_mesh-Unknown :
      (from : ℕ) (payload : Payload w) (s : Hook w)
      → Unknown s.peers s.pending_signals
      → let t = handle_mesh w from payload s in
        SameKnown s.peers t.peers × Unknown t.peers t.pending_signals
  unfolding handle_mesh
  handle_mesh-Unknown from payload s h = elim (Option-cases (get from s.peers)) [
    | inl e ↦
        rw (e, handle_mesh)
          (
            λ k. refl,
            All-append (λ e. is_some (get e.0 s.peers) ≡ false) s.pending_signals
                ((from, payload) ∷ []) h (rw e refl, tt),
          )
    | inr (p, e) ↦
        let settled = mesh_known-Settled from p payload s in
        let same = Settled-SameKnown from p s (mesh_known w from p payload s) e settled in
        rw (e, handle_mesh)
          (same, rw settled.0 (Unknown-SameKnown s.peers _ s.pending_signals same h))
  ]

  pub handle_all-Unknown :
      (signals : List (ℕ × Payload w)) (s : Hook w)
      → Unknown s.peers s.pending_signals
      → let t = handle_all w signals s in
        SameKnown s.peers t.peers × Unknown t.peers t.pending_signals
  unfolding handle_all
  handle_all-Unknown [] s h = (λ k. refl, h)
  handle_all-Unknown ((from, payload) ∷ rest) s h =
      let (same, left) = handle_mesh-Unknown from payload s h in
      let (later, done) = handle_all-Unknown rest (handle_mesh w from payload s) left in
      (λ k. later k ∙ same k, done)

  -- Draining handles every signal whose peer has come, and changes nothing about who is known.
  pub drain-Unknown :
      (s : Hook w)
      → let t = drain_pending_signals w s in
        SameKnown s.peers t.peers × Unknown t.peers t.pending_signals
  unfolding drain_pending_signals
  drain-Unknown s = handle_all-Unknown s.pending_signals (record s { pending_signals = [] }) tt
