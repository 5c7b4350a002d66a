-- ===== src/Party/Quiet.antt =====
-- What the events of src/hooks/useCallParty.ts send besides invitations, while the room stays.
use mathlib.Core.List.{append-nil}
use strangertv.Common.{
  ℕ, List, [], ◌∷◌, ◌++◌, Option, none, some, Bool, false, not, ◌&&◌, String, ◌==◌, ℕ_eq, String_eq,
  any, is_some, ◌≡◌, refl, ap, ◌∙◌, arith, inl, inr, Bool-cases, map,
}
use strangertv.Party.Peers.{CallPeer}
use strangertv.Party.State.{
  Instance, ActivitySession, Invite, Sent, create_group, list_instances, launch_activity,
  join_instance, leave_instance, end_instance, invite_room, Party, send,
}
use strangertv.Party.Games.{
  load_of, loaded, is_group, group_set, gone_wrong, open_session, launch_in, open_found, leave_of,
  end_of, launch, launch_answered, find_game, join, join_answered, leave_session, end_session,
  end_answered, activity_launched, activity_ended,
}
use strangertv.Party.Call.{
  provided, accepts, joins, is_room, has_peers, open_launcher, group_created, launch_party_game,
  invite_received, accept_invite, Event, launcher_opened, launcher_closed, accepted, declined,
  session_left, session_ended, session_closed, created, listed, game_picked, game_joined, game_over,
  launched, joined, left, ended, started, invited, room_is, props_are, act,
}

-- The games whose invitations have been sent.
abbrev pub invites_of : List Sent → List ℕ
invites_of [] = []
invites_of (invite_room _ id ∷ rest) = id ∷ invites_of rest
invites_of (create_group _ ∷ rest) = invites_of rest
invites_of (list_instances _ ∷ rest) = invites_of rest
invites_of (launch_activity _ _ ∷ rest) = invites_of rest
invites_of (join_instance _ ∷ rest) = invites_of rest
invites_of (leave_instance _ ∷ rest) = invites_of rest
invites_of (end_instance _ ∷ rest) = invites_of rest

-- No invitation is sent from `s` to `t`, and the same ones are known.
abbrev pub Quiet : Party → Party → Type 0
Quiet s t = (invites_of t.sent ≡ invites_of s.sent) × (t.sent_invites ≡ s.sent_invites)

pub invites_of-append : (l m : List Sent) → invites_of (l ++ m) ≡ invites_of l ++ invites_of m
invites_of-append [] m = refl
invites_of-append (invite_room _ id ∷ l) m = ap (λ (ids : List ℕ). id ∷ ids) (invites_of-append l m)
invites_of-append (create_group _ ∷ l) m = invites_of-append l m
invites_of-append (list_instances _ ∷ l) m = invites_of-append l m
invites_of-append (launch_activity _ _ ∷ l) m = invites_of-append l m
invites_of-append (join_instance _ ∷ l) m = invites_of-append l m
invites_of-append (leave_instance _ ∷ l) m = invites_of-append l m
invites_of-append (end_instance _ ∷ l) m = invites_of-append l m

send-Quiet : (r : Sent) (s : Party) → invites_of (r ∷ []) ≡ [] → Quiet s (send r s)
send-Quiet r s e = (
  invites_of-append s.sent (r ∷ [])
      ∙ ap (λ (ids : List ℕ). invites_of s.sent ++ ids) e
      ∙ append-nil (invites_of s.sent),
  refl,
)

load_of-Quiet : (group : Option ℕ) (s : Party) → Quiet s (load_of group s)
unfolding load_of
load_of-Quiet none s = (refl, refl)
load_of-Quiet (some group) s = send-Quiet (list_instances group) s refl

group_set-Quiet : (group : Option ℕ) (s : Party) → Quiet s (group_set group s)
unfolding group_set
group_set-Quiet group s = elim (Bool-cases (is_group group s.party_group)) [
  | inl same ↦ rw same (refl, refl)
  | inr other ↦ rw other (load_of-Quiet group _)
]

open_session-Quiet :
    (catalog : List ℕ) (game : Instance) (s : Party) → Quiet s (open_session catalog game s)
unfolding open_session gone_wrong
open_session-Quiet catalog game s = elim (Bool-cases (any (λ a. a == game.activity_id) catalog)) [
  | inl there ↦ rw there (send-Quiet (join_instance game.id) s refl)
  | inr gone ↦ rw gone (refl, refl)
]

launch_in-Quiet :
    (activity : ℕ) (group : Option ℕ) (s : Party) → Quiet s (launch_in activity group s)
launch_in-Quiet activity none s = (refl, refl)
launch_in-Quiet activity (some group) s = elim (Bool-cases s.busy) [
  | inl busy ↦ rw busy (refl, refl)
  | inr free ↦ rw free (send-Quiet (launch_activity activity group) s refl)
]

launch-Quiet : (activity : ℕ) (s : Party) → Quiet s (launch activity s)
unfolding launch
launch-Quiet activity s = launch_in-Quiet activity s.party_group s

launch_party_game-Quiet : (activity : ℕ) (s : Party) → Quiet s (launch_party_game activity s)
unfolding launch_party_game
launch_party_game-Quiet activity s = elim (Bool-cases (is_some s.party_group && is_some s.room)) [
  | inl able ↦ rw able (launch-Quiet activity s)
  | inr unable ↦ rw unable (refl, refl)
]

launch_answered-Quiet :
    (catalog : List ℕ) (answer : Option Instance) (s : Party)
    → Quiet s (launch_answered catalog answer s)
unfolding launch_answered gone_wrong
launch_answered-Quiet catalog none s = (refl, refl)
launch_answered-Quiet catalog (some game) s = open_session-Quiet catalog game _

open_found-Quiet :
    (catalog : List ℕ) (game : Option Instance) (s : Party) → Quiet s (open_found catalog game s)
unfolding gone_wrong
open_found-Quiet catalog none s = (refl, refl)
open_found-Quiet catalog (some game) s = open_session-Quiet catalog game s

join-Quiet : (id : ℕ) (s : Party) → Quiet s (join id s)
unfolding join
join-Quiet id s = elim (Bool-cases s.busy) [
  | inl busy ↦ rw busy (refl, refl)
  | inr free ↦ rw free (open_found-Quiet s.catalog (find_game id s.instances) _)
]

join_answered-Quiet :
    (game : Instance) (answer : Option String) (s : Party) → Quiet s (join_answered game answer s)
unfolding join_answered gone_wrong
join_answered-Quiet game none s = (refl, refl)
join_answered-Quiet game (some code) s = (refl, refl)

leave_of-Quiet : (session : Option ActivitySession) (s : Party) → Quiet s (leave_of session s)
leave_of-Quiet none s = (refl, refl)
leave_of-Quiet (some x) s = send-Quiet (leave_instance x.instance_of.id) s refl

leave_session-Quiet : (s : Party) → Quiet s (leave_session s)
unfolding leave_session
leave_session-Quiet s = leave_of-Quiet s.session (record s { session = none })

end_of-Quiet : (session : Option ActivitySession) (s : Party) → Quiet s (end_of session s)
end_of-Quiet none s = (refl, refl)
end_of-Quiet (some x) s = send-Quiet (end_instance x.instance_of.id) s refl

end_session-Quiet : (s : Party) → Quiet s (end_session s)
unfolding end_session
end_session-Quiet s = end_of-Quiet s.session s

end_answered-Quiet : (group : Option ℕ) (s : Party) → Quiet s (end_answered group s)
unfolding end_answered
end_answered-Quiet group s = load_of-Quiet group _

activity_launched-Quiet : (game : Instance) (s : Party) → Quiet s (activity_launched game s)
unfolding activity_launched
activity_launched-Quiet game s = elim (Bool-cases (is_group (some game.group_id) s.party_group)) [
  | inl ours ↦ rw ours (load_of-Quiet s.party_group s)
  | inr theirs ↦ rw theirs (refl, refl)
]

activity_ended-Quiet : (id : ℕ) (s : Party) → Quiet s (activity_ended id s)
unfolding activity_ended
activity_ended-Quiet id s = elim (Bool-cases (is_some s.party_group)) [
  | inl party ↦ rw party (load_of-Quiet s.party_group _)
  | inr nothing ↦ rw nothing (refl, refl)
]

open_launcher-Quiet : (s : Party) → Quiet s (open_launcher s)
unfolding open_launcher
open_launcher-Quiet s =
    let asks : Bool =
      (s.matched && is_some s.room && is_some s.user_id)
      && not (is_some s.party_group)
      && has_peers s.peers in
    elim (Bool-cases asks) [
      | inl yes_asks ↦
          rw yes_asks (send-Quiet (create_group (map (λ (p : CallPeer). p.user_id) s.peers)) s refl)
      | inr not_asks ↦ rw not_asks (refl, refl)
    ]

provided-Quiet : (answer : Option ℕ) (s : Party) → Quiet s (provided answer s)
provided-Quiet none s = (refl, refl)
provided-Quiet (some group) s = group_set-Quiet (some group) (record s { provisioning = false })

group_created-Quiet :
    (room : String) (answer : Option ℕ) (s : Party) → Quiet s (group_created room answer s)
unfolding group_created
group_created-Quiet room answer s = elim (Bool-cases (is_room s.room (some room))) [
  | inl here ↦ rw here (provided-Quiet answer s)
  | inr away ↦ rw away (refl, refl)
]

loaded-Quiet : (answer : Option (List ℕ × List Instance)) (s : Party) → Quiet s (loaded answer s)
unfolding loaded
loaded-Quiet none s = (refl, refl)
loaded-Quiet (some (catalog, instances)) s = (refl, refl)

invite_received-Quiet : (invite : Invite) (s : Party) → Quiet s (invite_received invite s)
unfolding invite_received
invite_received-Quiet invite s = (ground arith, ground arith)

accepts-Quiet :
    (invite : Option Invite) (user : Option ℕ) (s : Party) → Quiet s (accepts invite user s)
accepts-Quiet none user s = (refl, refl)
accepts-Quiet (some invite) none s = (refl, refl)
accepts-Quiet (some invite) (some me) s =
    group_set-Quiet (some invite.game.group_id) (record s { pending_invite = none })

pub joins-Quiet : (id : Option ℕ) (s : Party) → Quiet s (joins id s)
joins-Quiet none s = (refl, refl)
joins-Quiet (some id) s = elim (Bool-cases (any (λ (g : Instance). g.id == id) s.instances)) [
  | inl there ↦ rw there (join-Quiet id (record s { join_id = none }))
  | inr gone ↦ rw gone (refl, refl)
]

-- The room stays.
abbrev pub Stays : Event → Type 0
Stays (room_is _) = ⊥
Stays _ = Unit

pub act-Quiet : (e : Event) (s : Party) → Stays e → Quiet s (act e s)
unfolding act accept_invite
act-Quiet launcher_opened s _ = open_launcher-Quiet s
act-Quiet launcher_closed s _ = (refl, refl)
act-Quiet accepted s _ = accepts-Quiet s.pending_invite s.user_id s
act-Quiet declined s _ = (refl, refl)
act-Quiet session_left s _ = leave_session-Quiet s
act-Quiet session_ended s _ = end_session-Quiet s
act-Quiet session_closed s _ = (refl, refl)
act-Quiet (created room answer) s _ = group_created-Quiet room answer s
act-Quiet (listed answer) s _ = loaded-Quiet answer s
act-Quiet (game_picked activity) s _ = launch_party_game-Quiet activity s
act-Quiet (game_joined id) s _ = join-Quiet id s
act-Quiet (game_over id) s _ = activity_ended-Quiet id s
act-Quiet (launched catalog answer) s _ = launch_answered-Quiet catalog answer s
act-Quiet (joined game answer) s _ = join_answered-Quiet game answer s
act-Quiet (left group) s _ = load_of-Quiet group s
act-Quiet (ended group) s _ = end_answered-Quiet group s
act-Quiet (started game) s _ = activity_launched-Quiet game s
act-Quiet (invited invite) s _ = invite_received-Quiet invite s
act-Quiet (room_is room) s no_room = elim no_room [ ]
act-Quiet (props_are matched user connected peers) s _ = (refl, refl)
