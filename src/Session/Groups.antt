-- ===== src/Session/Groups.antt =====
-- The handlers of src/hooks/useMatchSession.ts for groups, and those that only hand on.
use strangertv.Common.{
  ℕ, List, [], ◌∷◌, ◌++◌, Option, none, some, Bool, true, false, ◌&&◌, ◌||◌, String, ◌==◌,
  if◌then◌else◌, ℕ_eq, String_eq,
}
use strangertv.Wire.{
  Visibility, GroupMatchPeer, PublicUser, Call, on_group_message, on_friend_request,
  on_friend_accepted, on_friend_declined, on_friend_removed, on_message_new, on_invitation,
  on_invitation_accepted, on_invitation_declined, on_group_invite, on_group_invite_accepted,
  on_group_invite_declined, on_presence_list, on_presence_change, on_activity_state,
  on_activity_presence, on_activity_ended, on_activity_launched, on_activity_invited,
  on_group_match_invite_received,
}
use strangertv.Session.State.{
  Session, Status, ready, solo, GroupMatchParticipant, auto_decline, connect_mesh, status, leave,
  group_start, remove_peer, create_mesh_peers, announce, forward, social, emit, set_alarm,
  clear_alarm, is_set, await,
}
use strangertv.Session.Handlers.{stream_ready}
use strangertv.Session.Commands.{stop}

unfoldable pub on_group_match_created : String → Visibility → Session → Session
on_group_match_created id visibility s = record (emit (status Status.finding) s) {
  group_room_id = some id;
  group_visibility = visibility;
  group_room_id_ref = some id;
  matched = false;
  matched_ref = false;
  finding = true;
  finding_ref = true;
}

unfoldable pub without_user : ℕ → List GroupMatchParticipant → List GroupMatchParticipant
without_user user [] = []
without_user user (p ∷ ps) =
    if p.user_id == user then without_user user ps else p ∷ without_user user ps

unfoldable pub without_peer : ℕ → List GroupMatchPeer → List GroupMatchPeer
without_peer peer [] = []
without_peer peer (p ∷ ps) =
    if p.peer_id == peer then without_peer peer ps else p ∷ without_peer peer ps

abbrev is_room : String → Option String → Bool
is_room id none = false
is_room id (some room) = id == room

unfoldable pub on_group_match_participant_joined : String → ℕ → Option String → Session → Session
unfolding without_user
on_group_match_participant_joined id user email s =
    let t : Session = record s {
      is_inviting_to_group_ref = false;
      group_participants =
          without_user user s.group_participants
          ++ record { user_id = user; email = email; country = none } ∷ [];
    } in
    if is_room id s.group_room_id_ref then emit (group_start id) t else t

-- The tiles that are left; without any the match ends.
abbrev pub keep_peers : List GroupMatchPeer → Session → Session
keep_peers [] s = stop (record s { group_peers = [] })
keep_peers (p ∷ ps) s = record s { group_peers = p ∷ ps }

abbrev pub peer_gone : Option ℕ → Session → Session
peer_gone none s = s
peer_gone (some peer) s =
    if s.matched_ref
    then keep_peers (without_peer peer s.group_peers_ref) (emit (remove_peer peer) s)
    else s

unfoldable pub on_group_match_participant_left : ℕ → Option ℕ → Session → Session
unfolding without_user without_peer stop
on_group_match_participant_left user peer s =
    peer_gone peer (record s { group_participants = without_user user s.group_participants })

unfoldable pub on_group_match_invite : String → PublicUser → Session → Session
on_group_match_invite id host s =
    set_alarm (auto_decline id) (record (emit (social (on_group_match_invite_received id host)) s) {
      pending_group_invite = some (record { room = id; host = host });
      alarms = clear_alarm s.group_invite_timeout_ref s.alarms;
      group_invite_timeout_ref = some s.next_alarm;
    })

unfoldable pub on_group_match_invite_declined : Session → Session
on_group_match_invite_declined s = record (emit (status ready) s) {
  is_inviting_to_group_ref = false;
  match_mode = solo;
}

-- What a group match sets before the first `await`.
abbrev pub group_matched_with : ℕ → String → List GroupMatchPeer → List String → Session → Session
group_matched_with now id peers interests s = record (emit (status Status.connecting) s) {
  blocked = none;
  accepting_signals_ref = true;
  room_id = some id;
  matched = true;
  matched_ref = true;
  finding = false;
  finding_ref = false;
  group_peers = peers;
  shared_interests = interests;
  group_room_id = some id;
  group_room_id_ref = some id;
  waiting_since = none;
  long_wait = false;
  matched_at = some now;
  call_seconds = 0;
  queue_pos = none;
}

unfoldable pub on_group_match_matched :
    ℕ → String → List GroupMatchPeer → List String → ℕ → Session → Session
on_group_match_matched now id peers interests me s =
    if s.finding_ref || s.matched_ref && is_set s.group_room_id_ref
    then await (connect_mesh peers me) (emit announce (group_matched_with now id peers interests s))
    else emit leave s

unfoldable pub mesh_connects : Bool → List GroupMatchPeer → ℕ → Session → Session
unfolding stream_ready
mesh_connects obtained peers me s = elim (stream_ready obtained s) [
  | none ↦ s
  | some t ↦ emit (create_mesh_peers peers me) t
]

-- The handlers that only hand on: to the social event's callback, to the callback of their own
-- name, or to both.
unfoldable pub hand_on : Call → Session → Session
hand_on (on_friend_request friend from) s = emit (social (on_friend_request friend from)) s
hand_on (on_friend_accepted friend from) s = emit (social (on_friend_accepted friend from)) s
hand_on (on_friend_declined friend) s = emit (social (on_friend_declined friend)) s
hand_on (on_friend_removed friend) s = emit (social (on_friend_removed friend)) s
hand_on (on_message_new message) s = emit (social (on_message_new message)) s
hand_on (on_invitation id room inviter) s = emit (social (on_invitation id room inviter)) s
hand_on (on_invitation_accepted id room) s = emit (social (on_invitation_accepted id room)) s
hand_on (on_invitation_declined id) s = emit (social (on_invitation_declined id)) s
hand_on (on_group_invite id group name inviter) s =
    emit (forward (on_group_invite id group name inviter))
      (emit (social (on_group_invite id group name inviter)) s)
hand_on (on_group_invite_accepted id group user) s =
    emit (forward (on_group_invite_accepted id group user))
      (emit (social (on_group_invite_accepted id group user)) s)
hand_on (on_group_invite_declined id group user) s =
    emit (forward (on_group_invite_declined id group user))
      (emit (social (on_group_invite_declined id group user)) s)
hand_on (on_group_message message) s = emit (forward (on_group_message message)) s
hand_on (on_presence_list users) s = emit (forward (on_presence_list users)) s
hand_on (on_presence_change user online) s = emit (forward (on_presence_change user online)) s
hand_on (on_activity_state instance_id user state) s =
    emit (forward (on_activity_state instance_id user state)) s
hand_on (on_activity_presence instance_id participants) s =
    emit (forward (on_activity_presence instance_id participants)) s
hand_on (on_activity_ended instance_id) s = emit (forward (on_activity_ended instance_id)) s
hand_on (on_activity_launched game activity) s =
    emit (forward (on_activity_launched game activity)) s
hand_on (on_activity_invited room game activity inviter) s =
    emit (forward (on_activity_invited room game activity inviter)) s
hand_on _ s = s
