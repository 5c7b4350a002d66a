-- ===== src/Webrtc/Keys.antt =====
-- The map of peers is keyed by the peers' own ids, whatever the hook is asked to do.
use strangertv.Common.{
  ℕ, List, [], ◌∷◌, none, some, true, ◌≡◌, refl, arith, Bool-cases, Option-cases, inl, inr, ℕ_eq,
  ◌==◌, nat_eq_iff, ◌⊎◌, ltb,
}
use strangertv.Common.Maps.{get, put, remove}
use strangertv.Webrtc.Browser.{Browser, SignalingState, stable, have_local_offer, other_state}
use strangertv.Webrtc.Hook.{
  Payload, offer, answer, candidate, Peer, Hook, remove_peer, flush_candidates,
}
use strangertv.Webrtc.Signals.{
  accept_offer, resolve_glare, mesh_offer, mesh_answer, mesh_candidate, mesh_known, handle_mesh,
  handle_all, drain_pending_signals,
}

module _ (w : Browser) where
  abbrev pub PeersKeyed : List (ℕ × Peer w) → Type 0
  PeersKeyed [] = Unit
  PeersKeyed ((id, peer) ∷ rest) = (peer.peer_id ≡ id) × PeersKeyed rest

  abbrev pub IsKeyed : Hook w → Type 0
  IsKeyed s = PeersKeyed s.peers

  pub PeersKeyed-put :
      (id : ℕ) (peer : Peer w) (m : List (ℕ × Peer w))
      → peer.peer_id ≡ id
      → PeersKeyed m
      → PeersKeyed (put id peer m)
  unfolding put
  PeersKeyed-put id peer [] e h = (e, tt)
  PeersKeyed-put id peer ((j, q) ∷ m) e h = elim (Bool-cases (j == id)) [
    | inl same ↦ rw same (e, h.1)
    | inr other ↦ rw other (h.0, PeersKeyed-put id peer m e h.1)
  ]

  PeersKeyed-remove : (id : ℕ) (m : List (ℕ × Peer w)) → PeersKeyed m → PeersKeyed (remove id m)
  unfolding remove
  PeersKeyed-remove id [] h = tt
  PeersKeyed-remove id ((j, q) ∷ m) h = elim (Bool-cases (j == id)) [
    | inl same ↦ rw same (PeersKeyed-remove id m h.1)
    | inr other ↦ rw other (h.0, PeersKeyed-remove id m h.1)
  ]

  pub get-peer_id :
      (id : ℕ) (m : List (ℕ × Peer w)) {peer : Peer w}
      → PeersKeyed m
      → get id m ≡ some peer
      → peer.peer_id ≡ id
  unfolding get
  get-peer_id id [] h e = cc
  get-peer_id id ((j, q) ∷ m) {peer} h e = elim (Bool-cases (j == id)) [
    | inl same ↦ ground (arith, nat_eq_iff j id)
    | inr other ↦ get-peer_id id m h.1 (rw other at e)
  ]

  accept_offer-IsKeyed :
      (from : ℕ) (peer : Peer w) (d : w.Description) (s : Hook w)
      → peer.peer_id ≡ from
      → IsKeyed s
      → IsKeyed (accept_offer w from peer d s)
  unfolding accept_offer flush_candidates
  accept_offer-IsKeyed from peer d s e h = elim (Option-cases (w.set_remote peer.pc d)) [
    | inl r ↦ rw (r, accept_offer) (PeersKeyed-put from peer s.peers e h)
    | inr (pc, r) ↦
        let ready = flush_candidates w (record peer { pc = pc; ready = true }) in
        rw (r, accept_offer)
          (elim (Option-cases (w.create_answer ready.pc)) [
            | inl a ↦ rw a (PeersKeyed-put from ready s.peers e h)
            | inr (reply, a) ↦ rw a (elim (Option-cases (w.set_local ready.pc reply)) [
              | inl l ↦ rw l (PeersKeyed-put from ready s.peers e h)
              | inr (local, l) ↦
                  rw l (PeersKeyed-put from (record ready { pc = local }) s.peers e h)
            ])
          ])
  ]

  resolve_glare-IsKeyed :
      (from : ℕ) (peer : Peer w) (d : w.Description) (s : Hook w)
      → peer.peer_id ≡ from
      → IsKeyed s
      → IsKeyed (resolve_glare w from peer d s)
  unfolding resolve_glare
  resolve_glare-IsKeyed from peer d s e h = elim (Bool-cases (ltb peer.peer_id from)) [
    | inl t ↦ rw t h
    | inr f ↦ rw f (elim (Option-cases (w.rollback peer.pc)) [
      | inl r ↦ rw r h
      | inr (pc, r) ↦ rw r (accept_offer-IsKeyed from (record peer { pc = pc }) d s e h)
    ])
  ]

  mesh_known-IsKeyed :
      (from : ℕ) (peer : Peer w) (payload : Payload w) (s : Hook w)
      → peer.peer_id ≡ from
      → IsKeyed s
      → IsKeyed (mesh_known w from peer payload s)
  unfolding mesh_known mesh_offer mesh_answer mesh_candidate flush_candidates
  mesh_known-IsKeyed from peer (offer d) s e h = go (w.signaling_state peer.pc) refl
    where
      go :
          (t : SignalingState)
          → w.signaling_state peer.pc ≡ t
          → IsKeyed (mesh_offer w from peer d s)
      go stable p = rw (p, mesh_offer) (accept_offer-IsKeyed from peer d s e h)
      go have_local_offer p = rw (p, mesh_offer) (resolve_glare-IsKeyed from peer d s e h)
      go other_state p = rw (p, mesh_offer) h
  mesh_known-IsKeyed from peer (answer d) s e h =
      go (w.signaling_state peer.pc) refl (Option-cases (w.set_remote peer.pc d))
    where
      go :
          (t : SignalingState)
          → w.signaling_state peer.pc ≡ t
          → (w.set_remote peer.pc d ≡ none) ⊎ ((pc : w.Pc) × (w.set_remote peer.pc d ≡ some pc))
          → IsKeyed (mesh_answer w from peer d s)
      go have_local_offer p (inl r) = rw (p, mesh_answer, r) h
      go have_local_offer p (inr (pc, r)) =
          rw (p, mesh_answer, r) (PeersKeyed-put from _ s.peers e h)
      go stable p _ = rw (p, mesh_answer) h
      go other_state p _ = rw (p, mesh_answer) h
  mesh_known-IsKeyed from peer (candidate c) s e h = elim (Bool-cases peer.ready) [
    | inl t ↦ rw t (PeersKeyed-put from _ s.peers e h)
    | inr f ↦ rw f (PeersKeyed-put from _ s.peers e h)
  ]

  pub handle_mesh-IsKeyed :
      (from : ℕ) (payload : Payload w) (s : Hook w)
      → IsKeyed s
      → IsKeyed (handle_mesh w from payload s)
  unfolding handle_mesh
  handle_mesh-IsKeyed from payload s h = elim (Option-cases (get from s.peers)) [
    | inl e ↦ rw (e, handle_mesh) h
    | inr (peer, e) ↦
        rw (e, handle_mesh)
          (mesh_known-IsKeyed from peer payload s (get-peer_id from s.peers h e) h)
  ]

  pub handle_all-IsKeyed :
      (signals : List (ℕ × Payload w)) (s : Hook w) → IsKeyed s → IsKeyed (handle_all w signals s)
  unfolding handle_all
  handle_all-IsKeyed [] s h = h
  handle_all-IsKeyed ((from, payload) ∷ rest) s h =
      handle_all-IsKeyed rest (handle_mesh w from payload s) (handle_mesh-IsKeyed from payload s h)

  pub drain-IsKeyed : (s : Hook w) → IsKeyed s → IsKeyed (drain_pending_signals w s)
  unfolding drain_pending_signals
  drain-IsKeyed s h = handle_all-IsKeyed s.pending_signals (record s { pending_signals = [] }) h

  pub remove_peer-IsKeyed : (id : ℕ) (s : Hook w) → IsKeyed s → IsKeyed (remove_peer w id s)
  unfolding remove_peer
  remove_peer-IsKeyed id s h = elim (Option-cases (get id s.peers)) [
    | inl e ↦ rw (e, remove_peer) h
    | inr (peer, e) ↦ rw (e, remove_peer) (PeersKeyed-remove id s.peers h)
  ]
