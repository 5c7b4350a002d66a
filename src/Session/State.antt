-- ===== src/Session/State.antt =====
-- The state of src/hooks/useMatchSession.ts, and what it asks of the rest of the program. A field
-- without `_ref` is React state, as it was set last; `_ref` is a ref; `shown_` is what the closures
-- of the last render see. A time is in milliseconds.
use strangertv.Common.{
  ℕ, suc, List, [], ◌∷◌, ◌++◌, Option, none, some, Bool, true, false, not, ◌&&◌, ◌||◌, ◌==◌,
  if◌then◌else◌, String, ℕ_eq, String_eq,
}
use strangertv.Common.Maps.{put, remove}
use strangertv.Wire.{
  MatchPreferences, PublicUser, Role, Visibility, public_group, GroupMatchPeer, Side, local_side,
  SignalPayload, ClientMessage, Call,
}

-- What `onStatus` is given: a key of the translations, or the server's words.
pub data Status : Type 0 where
  finding connecting requeueing ready draining reconnecting : Status
  peer_left_blocked report_thanks blocked : Status
  media_error : Status
  words : String → Status

pub data MatchMode : Type 0 where
  solo group : MatchMode

pub record ChatMessage : Type 0 where
  pub text : String
  pub time : String
  pub mine : Bool

-- A message of `messagesApi.getConversation`.
pub record HistoryMessage : Type 0 where
  pub sender_id : ℕ
  pub text : String
  pub created_at : String

pub record GroupMatchParticipant : Type 0 where
  pub user_id : ℕ
  pub email : Option String
  pub country : Option String

pub record PendingGroupInvite : Type 0 where
  pub room : String
  pub host : PublicUser

-- What a `setTimeout` of the hook will do.
pub data Alarm : Type 0 where
  requeue rejoin end_inviting : Alarm
  auto_decline : String → Alarm

-- The part of a handler after an `await`, and what it waits for.
pub data Task : Type 0 where
  after_history : ℕ → Role → Task
  connect_peer : Role → Task
  connect_mesh : List GroupMatchPeer → ℕ → Task
  join_queue : Task
  create_group : Visibility → MatchPreferences → Task

-- A call of useMatchSocket, of useWebRTC or of the application.
pub data Effect : Type 0 where
  status : Status → Effect
  leave group_leave : Effect
  join next : MatchPreferences → Effect
  group_start group_join group_decline : String → Effect
  group_create : Visibility → MatchPreferences → Effect
  group_create_and_invite : Visibility → MatchPreferences → Option ℕ → Effect
  sent : ClientMessage → Effect
  clear_webrtc : Effect
  remove_peer : ℕ → Effect
  create_peer : Bool → Effect
  create_mesh_peers : List GroupMatchPeer → ℕ → Effect
  handle_signal : SignalPayload → Option ℕ → Effect
  announce : Effect
  get_conversation : ℕ → Effect
  forward social : Call → Effect
  insufficient_funds : Effect

pub record Session : Type 0 where
  pub finding : Bool
  pub finding_ref : Bool
  pub shown_finding : Bool
  pub matched : Bool
  pub matched_ref : Bool
  pub shown_matched : Bool
  pub queue_pos : Option ℕ
  pub online : ℕ
  pub waiting_count : ℕ
  pub room_id : Option String
  pub room_id_ref : Option String
  pub shared_interests : List String
  pub peer_country : String
  pub peer_email : Option String
  pub peer_user_id : Option ℕ
  pub relationship : String
  pub chat : List ChatMessage
  pub chat_text : String
  pub stream_tick : ℕ
  pub call_seconds : ℕ
  pub call_seconds_ref : ℕ
  pub rate_room_id : Option String
  pub long_wait : Bool
  pub match_mode : MatchMode
  pub group_room_id : Option String
  pub group_room_id_ref : Option String
  pub shown_group_room_id : Option String
  pub group_visibility : Visibility
  pub group_participants : List GroupMatchParticipant
  pub group_peers : List GroupMatchPeer
  pub group_peers_ref : List GroupMatchPeer
  pub group_searching_ref : Bool
  pub pending_group_invite : Option PendingGroupInvite
  pub shown_group_invite : Option PendingGroupInvite
  pub blocked : Option (String × String)
  pub matched_at : Option ℕ
  pub waiting_since : Option ℕ
  pub accepting_signals_ref : Bool
  pub is_inviting_to_group_ref : Bool
  pub group_invite_timeout_ref : Option ℕ
  pub prefs : MatchPreferences
  -- whether the media hook has a stream
  pub has_stream : Bool
  pub alarms : List (ℕ × Alarm)
  pub next_alarm : ℕ
  pub tasks : List (ℕ × Task)
  pub next_task : ℕ
  pub log : List Effect

abbrev pub emit : Effect → Session → Session
emit e s = record s { log = s.log ++ e ∷ [] }

abbrev pub set_alarm : Alarm → Session → Session
set_alarm a s = record s { alarms = put s.next_alarm a s.alarms; next_alarm = suc s.next_alarm }

-- `clearTimeout`
abbrev pub clear_alarm : Option ℕ → List (ℕ × Alarm) → List (ℕ × Alarm)
clear_alarm none alarms = alarms
clear_alarm (some t) alarms = remove t alarms

abbrev pub await : Task → Session → Session
await task s = record s { tasks = put s.next_task task s.tasks; next_task = suc s.next_task }

-- `if (!waitingSince.current) waitingSince.current = Date.now()`
abbrev pub since : Option ℕ → ℕ → Option ℕ
since none now = some now
since (some t) now = some t

abbrev is_local : Option Side → Bool
is_local (some local_side) = true
is_local _ = false

abbrev pub every_local : List GroupMatchPeer → Bool
every_local [] = true
every_local (p ∷ ps) = is_local p.side && every_local ps

abbrev pub has_peers : List GroupMatchPeer → Bool
has_peers [] = false
has_peers (_ ∷ _) = true

-- `if (room)`: a room's id that is there and is not empty.
abbrev pub is_set : Option String → Bool
is_set none = false
is_set (some room) = not (room == "")

abbrev same : Bool → Bool → Bool
same true b = b
same false b = not b

abbrev has_changed : Session → Bool
has_changed s = not (same s.finding s.shown_finding && same s.matched s.shown_matched)

-- The effect on `matched` sets the seconds to zero when a match ends.
abbrev seconds_after : Session → ℕ → ℕ
seconds_after s seconds = if s.matched || not s.shown_matched then seconds else 0

-- The effect on `finding` and `matched`, when one of them has changed.
abbrev long_wait_after : Session → Bool
long_wait_after s = if has_changed s && (not s.finding || s.matched) then false else s.long_wait

abbrev waiting_after : ℕ → Session → Option ℕ
waiting_after now s =
    if not (has_changed s)
    then s.waiting_since
    else if not s.finding
    then none
    else if s.matched
    then s.waiting_since
    else since s.waiting_since now

-- A render, with the effects that follow it: the refs and the closures take the state's values.
unfoldable pub render : ℕ → Session → Session
render now s = record s {
  call_seconds = seconds_after s s.call_seconds;
  call_seconds_ref = seconds_after s s.call_seconds_ref;
  long_wait = long_wait_after s;
  waiting_since = waiting_after now s;
  finding_ref = s.finding;
  shown_finding = s.finding;
  matched_ref = s.matched;
  shown_matched = s.matched;
  room_id_ref = s.room_id;
  group_room_id_ref = s.group_room_id;
  shown_group_room_id = s.group_room_id;
  group_peers_ref = s.group_peers;
  group_searching_ref = s.matched && has_peers s.group_peers && every_local s.group_peers;
  shown_group_invite = s.pending_group_invite;
}

unfoldable pub clear_peer_ui : Session → Session
clear_peer_ui s = record s {
  matched = false;
  room_id = none;
  shared_interests = [];
  peer_country = "";
  peer_email = none;
  peer_user_id = none;
  relationship = "none";
  group_peers = [];
  accepting_signals_ref = false;
  matched_at = none;
}

unfoldable pub clear_group_state : Session → Session
clear_group_state s = record s {
  group_room_id = none;
  group_visibility = public_group;
  group_participants = [];
  group_room_id_ref = none;
}
