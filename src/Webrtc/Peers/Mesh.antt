-- ===== src/Webrtc/Peers/Mesh.antt =====
-- Who is connected after `createMeshPeers`.
use strangertv.Common.{
  ℕ, List, [], ◌∷◌, Option, none, some, Bool, true, false, not, ◌&&◌, ◌||◌, ◌≡◌, refl, ap, ◌∙◌, inl,
  inr, arith, is_some, Bool-cases, Option-cases, ◌==◌, ℕ_eq, nat_eq_iff,
}
use mathlib.Core.Path.{subst}
use strangertv.Common.Maps.{get, put, get-put}
use strangertv.Webrtc.Browser.{Browser}
use strangertv.Webrtc.Hook.{Payload, Peer, Hook, offer, on_signal, set_peer, clear}
use strangertv.Webrtc.Signals.{handle_all, drain_pending_signals}
use strangertv.Webrtc.Keys.{IsKeyed, PeersKeyed-put, get-peer_id, handle_all-IsKeyed, drain-IsKeyed}
use strangertv.Webrtc.Pending.{
  SameKnown, SameKnown-put, Unknown, Unknown-SameKnown, handle_all-Unknown, drain-Unknown,
}
use strangertv.Webrtc.Peers.{
  Role, offerer, answerer, Participant, new_peer, begin_mesh, is_skipped, add_participant,
  send_offer, Awaited, await_offer, mesh_round, mesh_rounds, create_mesh_peers,
}

module _ (w : Browser) where
  -- Peers under their own ids, and no signal of a known peer left waiting.
  pub record IsSettled (s : Hook w) : Type 0 where
    pub keyed : IsKeyed w s
    pub waiting : Unknown w s.peers s.pending_signals

  -- The state is settled, and the same peers are known.
  abbrev Settles : Hook w → Hook w → Type 0
  Settles s t = IsSettled t × SameKnown w s.peers t.peers

  Settles-trans : (s t u : Hook w) → Settles s t → Settles t u → Settles s u
  Settles-trans s t u (_, g) (done, h) = (done, λ k. h k ∙ g k)

  handle_all-Settles :
      (signals : List (ℕ × Payload w)) (s : Hook w)
      → IsSettled s
      → Settles s (handle_all w signals s)
  handle_all-Settles signals s h =
      let (same, left) = handle_all-Unknown w signals s h.waiting in
      (record { keyed = handle_all-IsKeyed w signals s h.keyed; waiting = left }, same)

  put-Settles :
      (id : ℕ) (p : Peer w) (pc : w.Pc) (o : w.Description) (s : Hook w)
      → get id s.peers ≡ some p
      → IsSettled s
      → Settles s (on_signal w (offer o) (some id) (set_peer w id (record p { pc = pc }) s))
  put-Settles id p pc o s e h =
      let same = SameKnown-put w id p (record p { pc = pc }) s.peers e in
      (
        record {
          keyed = PeersKeyed-put w id _ s.peers (get-peer_id w id s.peers h.keyed e) h.keyed;
          waiting = Unknown-SameKnown w s.peers _ s.pending_signals same h.waiting;
        },
        same,
      )

  pub send_offer-Settles :
      (id : ℕ) (o : Option w.Description) (s : Hook w)
      → IsSettled s
      → Settles s (send_offer w id o s).0
  unfolding send_offer
  send_offer-Settles id none s h = (h, λ k. refl)
  send_offer-Settles id (some o) s h = elim (Option-cases (get id s.peers)) [
    | inl e ↦ rw (e, send_offer) (h, λ k. refl)
    | inr (p, e) ↦
        rw (e, send_offer)
          (elim (Option-cases (w.set_local p.pc o)) [
            | inl l ↦ rw l (h, λ k. refl)
            | inr (local, l) ↦ rw l (put-Settles id p local o s e h)
          ])
  ]

  await_offer-Settles :
      (role : Role) (id : ℕ) (a : Awaited w) (s : Hook w)
      → IsSettled s
      → Settles s (await_offer w role id a s).0
  await_offer-Settles answerer id a s h = (h, λ k. refl)
  await_offer-Settles offerer id a s h =
      let t = handle_all w a.signals s in
      let handled = handle_all-Settles a.signals s h in
      Settles-trans s t (send_offer w id a.offer t).0 handled
        (send_offer-Settles id a.offer t handled.0)

  pub drain-IsSettled : (s : Hook w) → IsKeyed w s → IsSettled (drain_pending_signals w s)
  drain-IsSettled s h = record { keyed = drain-IsKeyed w s h; waiting = (drain-Unknown w s).1 }

  -- Which ids the entry of one participant makes known.
  abbrev joins : ℕ → Participant → ℕ → Bool
  joins my_peer_id p k = p.peer_id == k && not (p.peer_id == my_peer_id)

  or_skip : (b x : Bool) → (b || x) ≡ true → x ≡ (x || not b)
  or_skip true x h = ground arith
  or_skip false x h = ground arith

  or_fresh : (b x : Bool) → (b || x) ≡ false → true ≡ (x || not b)
  or_fresh true x h = ground arith
  or_fresh false x h = ground arith

  or_false : (x : Bool) → x ≡ (x || false)
  or_false true = refl
  or_false false = refl

  known_skip :
      (my_peer_id : ℕ) (p : Participant) (m : List (ℕ × Peer w)) (k : ℕ)
      → (p.peer_id == my_peer_id || is_some (get p.peer_id m)) ≡ true
      → is_some (get k m) ≡ (is_some (get k m) || joins my_peer_id p k)
  known_skip my_peer_id p m k h = elim (Bool-cases (p.peer_id == k)) [
    | inl e ↦ rw e (
        subst (λ i. is_some (get i m) ≡ (is_some (get i m) || not (p.peer_id == my_peer_id)))
          ((nat_eq_iff p.peer_id k).0 e)
          (or_skip (p.peer_id == my_peer_id) (is_some (get p.peer_id m)) h))
    | inr e ↦ rw e (or_false (is_some (get k m)))
  ]

  known_fresh :
      (ice : w.IceServers) (stream : w.Stream) (my_peer_id : ℕ) (p : Participant)
      (m : List (ℕ × Peer w)) (k : ℕ)
      → (p.peer_id == my_peer_id || is_some (get p.peer_id m)) ≡ false
      → is_some (get k (put p.peer_id (new_peer w ice stream p) m))
        ≡ (is_some (get k m) || joins my_peer_id p k)
  known_fresh ice stream my_peer_id p m k h = rw get-put (elim (Bool-cases (p.peer_id == k)) [
    | inl e ↦ rw e (
        subst (λ i. true ≡ (is_some (get i m) || not (p.peer_id == my_peer_id)))
          ((nat_eq_iff p.peer_id k).0 e)
          (or_fresh (p.peer_id == my_peer_id) (is_some (get p.peer_id m)) h))
    | inr e ↦ rw e (or_false (is_some (get k m)))
  ])

  -- A round whose peer is there already, or is ourselves, changes nothing.
  pub add_participant-IsSettled :
      (ice : w.IceServers) (stream : w.Stream) (my_peer_id : ℕ) (p : Participant) (s : Hook w)
      → IsSettled s
      → let t = add_participant w ice stream my_peer_id p s in
        IsSettled t
        × ((k : ℕ) → is_some (get k t.peers) ≡ (is_some (get k s.peers) || joins my_peer_id p k))
  unfolding add_participant
  add_participant-IsSettled ice stream my_peer_id p s h =
      elim (Bool-cases (is_skipped w my_peer_id p s)) [
        | inl skip ↦ rw (skip, add_participant) (h, λ k. known_skip my_peer_id p s.peers k skip)
        | inr fresh ↦
            let placed = set_peer w p.peer_id (new_peer w ice stream p) s in
            rw (fresh, add_participant)
              (
                drain-IsSettled placed (PeersKeyed-put w p.peer_id _ s.peers refl h.keyed),
                λ k.
                    (drain-Unknown w placed).0 k
                    ∙ known_fresh ice stream my_peer_id p s.peers k fresh,
              )
      ]

  mesh_round-IsSettled :
      (ice : w.IceServers) (stream : w.Stream) (my_peer_id : ℕ) (p : Participant) (a : Awaited w)
      (s : Hook w)
      → IsSettled s
      → let t = (mesh_round w ice stream my_peer_id p a s).0 in
        IsSettled t
        × ((k : ℕ) → is_some (get k t.peers) ≡ (is_some (get k s.peers) || joins my_peer_id p k))
  mesh_round-IsSettled ice stream my_peer_id p a s h =
      elim (Bool-cases (is_skipped w my_peer_id p s)) [
        | inl skip ↦ rw skip (h, λ k. known_skip my_peer_id p s.peers k skip)
        | inr fresh ↦
            let t = add_participant w ice stream my_peer_id p s in
            let (settled, known) = add_participant-IsSettled ice stream my_peer_id p s h in
            let (done, same) = await_offer-Settles p.role p.peer_id a t settled in
            rw fresh (done, λ k. same k ∙ known k)
      ]

  -- The participants other than ourselves.
  abbrev pub invited : ℕ → List (Participant × Awaited w) → ℕ → Bool
  invited my_peer_id [] k = false
  invited my_peer_id ((p, a) ∷ rest) k = joins my_peer_id p k || invited my_peer_id rest k

  or_assoc : (a b c : Bool) → ((a || b) || c) ≡ (a || (b || c))
  or_assoc true b c = refl
  or_assoc false b c = refl

  mesh_rounds-IsSettled :
      (ice : w.IceServers) (stream : w.Stream) (my_peer_id : ℕ)
      (rounds : List (Participant × Awaited w)) (s : Hook w)
      → IsSettled s
      → let (t, alive) = mesh_rounds w ice stream my_peer_id rounds s in
        IsSettled t
        × (alive ≡ true
            → (k : ℕ)
            → is_some (get k t.peers) ≡ (is_some (get k s.peers) || invited my_peer_id rounds k))
  unfolding mesh_rounds
  mesh_rounds-IsSettled ice stream my_peer_id [] s h =
      (drain-IsSettled s h.keyed, λ _ k. (drain-Unknown w s).0 k ∙ or_false _)
  mesh_rounds-IsSettled ice stream my_peer_id ((p, a) ∷ rest) s h =
      let (t, alive) = mesh_round w ice stream my_peer_id p a s in
      let (settled, known) = mesh_round-IsSettled ice stream my_peer_id p a s h in
      let (last, all) = mesh_rounds-IsSettled ice stream my_peer_id rest t settled in
      elim (Bool-cases alive) [
        | inl e ↦
            rw (e, mesh_rounds)
              (
                last,
                λ done k.
                    all done k
                    ∙ ap (λ b. b || invited my_peer_id rest k) (known k)
                    ∙ or_assoc (is_some (get k s.peers)) (joins my_peer_id p k)
                        (invited my_peer_id rest k),
              )
        | inr e ↦ rw (e, mesh_rounds) (settled, λ done. cc)
      ]

  pub begun-IsSettled : (s : Hook w) → IsSettled (begin_mesh w s)
  unfolding begin_mesh clear
  begun-IsSettled s = record { keyed = tt; waiting = tt }

  begun-peers : (s : Hook w) (k : ℕ) → is_some (get k (begin_mesh w s).peers) ≡ false
  unfolding begin_mesh clear get
  begun-peers s k = refl

  -- Whatever hook a mesh call starts from, and whatever signals of peers are handled while it is
  -- awaited: afterwards every peer is under its own id and no signal of a known peer is left waiting;
  -- and if no call of the browser has rejected, the peers are exactly the participants other than
  -- ourselves.
  pub create_mesh_peers-IsSettled :
      (ice : Option w.IceServers) (stream : w.Stream) (signals : List (ℕ × Payload w))
      (rounds : List (Participant × Awaited w)) (my_peer_id : ℕ) (s : Hook w)
      → let (t, alive) = create_mesh_peers w ice stream signals rounds my_peer_id s in
        IsSettled t
        × (alive ≡ true → (k : ℕ) → is_some (get k t.peers) ≡ invited my_peer_id rounds k)
  unfolding create_mesh_peers
  create_mesh_peers-IsSettled none stream signals rounds my_peer_id s =
      ((handle_all-Settles signals (begin_mesh w s) (begun-IsSettled s)).0, λ done. cc)
  create_mesh_peers-IsSettled (some ice) stream signals rounds my_peer_id s =
      let t = handle_all w signals (begin_mesh w s) in
      let (settled, same) = handle_all-Settles signals (begin_mesh w s) (begun-IsSettled s) in
      let (last, all) = mesh_rounds-IsSettled ice stream my_peer_id rounds t settled in
      (
        last,
        λ done k.
            all done k ∙ ap (λ b. b || invited my_peer_id rounds k) (same k ∙ begun-peers s k),
      )
