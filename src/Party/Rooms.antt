-- ===== src/Party/Rooms.antt =====
-- A new room: what src/hooks/useCallParty.ts drops, and whom it invites.
use mathlib.Core.List.{append-nil}
use mathlib.Core.Path.{subst}
use strangertv.Common.{
  ℕ, List, [], ◌∷◌, ◌++◌, Option, none, some, Bool, true, false, not, ◌&&◌, String, ℕ_eq, String_eq,
  if◌then◌else◌, ◌≡◌, refl, sym, ap, ◌∙◌, arith, inl, inr, Bool-cases,
}
use strangertv.Common.Maps.{has}
use strangertv.Party.Peers.{is_user}
use strangertv.Party.State.{ActivitySession, Sent, leave_instance, invite_room, Party}
use strangertv.Party.Games.{is_group, leave_of, load_of, group_set, leave_session}
use strangertv.Party.Call.{
  is_room, invites, invite_effect, joins, join_effect, effects, party_dropped, room_changed,
  room_is, act, step,
}

-- What the effect of a new room clears, but for the group and the session.
abbrev Clear : Party → Type 0
Clear s =
    (s.pending_invite ≡ none)
    × (s.join_id ≡ none)
    × (s.launcher_open ≡ false)
    × (s.provisioning ≡ false)
    × (s.provision_failed ≡ false)

-- Nothing of a party is there.
abbrev pub IsDropped : Party → Type 0
IsDropped s =
    (s.party_group ≡ none)
    × (s.session ≡ none)
    × (s.pending_invite ≡ none)
    × (s.join_id ≡ none)
    × (s.launcher_open ≡ false)
    × (s.provisioning ≡ false)
    × (s.provision_failed ≡ false)

-- What `leaveSession` sends.
abbrev pub leaving : Option ActivitySession → List Sent
leaving none = []
leaving (some session) = leave_instance session.instance_of.id ∷ []

-- What the effect of the invitations sends in the render of a new room.
abbrev pub inviting : Option ActivitySession → Option String → Bool → Option ℕ → List Sent
inviting (some session) (some room) connected user =
    if connected && is_user session.instance_of.created_by user
    then invite_room room session.instance_of.id ∷ []
    else []
inviting _ _ _ _ = []

nothing_known : (id : ℕ) → not (has id []) ≡ true
unfolding has
nothing_known id = refl

leave_of-Sends :
    (session : Option ActivitySession) (s : Party)
    → let t : Party = leave_of session s in
      (t.sent ≡ s.sent ++ leaving session)
      × (t.session ≡ s.session)
      × (t.party_group ≡ s.party_group)
      × (t.room ≡ s.room)
      × (t.connected ≡ s.connected)
      × (t.user_id ≡ s.user_id)
leave_of-Sends none s = (sym (append-nil s.sent), refl, refl, refl, refl, refl)
leave_of-Sends (some session) s = (refl, refl, refl, refl, refl, refl)

-- The effect, in a state that knows of no invitation.
invites-Sends :
    (session : Option ActivitySession) (room : Option String) (s : Party)
    → s.sent_invites ≡ []
    → let t : Party = invites session room s in
      (t.sent ≡ s.sent ++ inviting session room s.connected s.user_id)
      × (t.session ≡ s.session)
      × (Clear s → Clear t)
invites-Sends none room s _ = (sym (append-nil s.sent), refl, λ d. d)
invites-Sends (some session) none s _ = (sym (append-nil s.sent), refl, λ d. d)
invites-Sends (some session) (some room) s n =
    let id : ℕ = session.instance_of.id in
    let ours : Bool = s.connected && is_user session.instance_of.created_by s.user_id in
    let unknown : (not (has id s.sent_invites)) ≡ true =
      ap (λ (l : List ℕ). not (has id l)) n ∙ nothing_known id in
    let tests : Bool =
      s.connected
      && is_user session.instance_of.created_by s.user_id
      && not (has id s.sent_invites) in
    elim (Bool-cases ours) [
      | inl e ↦ let all_hold : tests ≡ true = ground arith in rw (all_hold, e) (refl, refl, λ c. c)
      | inr e ↦
          let one_fails : tests ≡ false = ground arith in
          rw (one_fails, e) (sym (append-nil s.sent), refl, λ c. c)
    ]

no_group : (group : Option ℕ) → is_group none group ≡ true → group ≡ none
no_group none _ = refl
no_group (some g) h = cc

group_set-Drops :
    (s : Party)
    → s.session ≡ none
    → Clear s
    → IsDropped (group_set none s) × ((group_set none s).sent ≡ s.sent)
unfolding group_set load_of
group_set-Drops s e (i, j, l, p, f) = elim (Bool-cases (is_group none s.party_group)) [
  | inl same ↦ rw same ((no_group s.party_group same, e, i, j, l, p, f), refl)
  | inr other ↦ rw other ((refl, refl, i, j, l, p, f), refl)
]

effects-idle : (s : Party) → s.session ≡ none → s.join_id ≡ none → effects s ≡ s
unfolding effects invite_effect join_effect
effects-idle s e j =
    let quiet : invites s.session s.room s ≡ s =
      ap (λ (x : Option ActivitySession). invites x s.room s) e in
    ap (λ (t : Party). joins t.join_id t) quiet ∙ ap (λ (x : Option ℕ). joins x s) j

-- What `room_changed` leaves, and the render after it.
abbrev dropped_to : Option String → Party → Party
dropped_to room s = group_set none (invites s.session room (party_dropped room s))

abbrev pub DropsAndSends : Option String → Party → Party → Type 0
DropsAndSends room s t =
    IsDropped t
    × (t.sent ≡ (s.sent ++ leaving s.session) ++ inviting s.session room s.connected s.user_id)

dropped_to-DropsAndSends :
    (room : Option String) (s : Party) → DropsAndSends room s (dropped_to room s)
unfolding party_dropped leave_session
dropped_to-DropsAndSends room s =
    let a : Party = party_dropped room s in
    let base : List Sent = s.sent ++ leaving s.session in
    let (sent, no_session, _, _, connected, user) =
      leave_of-Sends s.session (record s { room = room; session = none }) in
    let (more, same_session, clear) = invites-Sends s.session room a refl in
    let (dropped, same_sent) =
      group_set-Drops (invites s.session room a) (same_session ∙ no_session)
        (clear (refl, refl, refl, refl, refl)) in
    (
      dropped,
      same_sent
          ∙ more
          ∙ ap (λ (l : List Sent). l ++ inviting s.session room a.connected a.user_id) sent
          ∙ ap (λ (c : Bool). base ++ inviting s.session room c a.user_id) connected
          ∙ ap (λ (u : Option ℕ). base ++ inviting s.session room s.connected u) user,
    )

room_changed-dropped_to :
    (room : Option String) (s : Party)
    → is_room room s.room ≡ false
    → room_changed room s ≡ dropped_to room s
unfolding room_changed invite_effect party_dropped leave_session
room_changed-dropped_to room s e =
    let (_, _, _, same_room, _, _) =
      leave_of-Sends s.session (record s { room = room; session = none }) in
    rw e (
      ap (λ (r : Option String). group_set none (invites s.session r (party_dropped room s)))
        same_room)

-- A new room drops the party, whatever state it was in: no group, session, invitation or join is left.
-- The game that was open is left, and then the new room is invited to it, where the user launched it
-- and is connected.
pub room_change-Drops :
    (room : Option String) (s : Party)
    → is_room room s.room ≡ false
    → DropsAndSends room s (step (room_is room) s)
unfolding step act
room_change-Drops room s e =
    let t : Party = dropped_to room s in
    let (dropped, sent) = dropped_to-DropsAndSends room s in
    let (_, no_session, _, no_join, _, _, _) = dropped in
    let same : effects (room_changed room s) ≡ t =
      ap effects (room_changed-dropped_to room s e) ∙ effects-idle t no_session no_join in
    subst (λ (x : Party). DropsAndSends room s x) (sym same) (dropped, sent)
