-- ===== src/Session/Run.antt =====
-- The events of a session of src/hooks/useMatchSession.ts: a call of the socket's handlers, an
-- alarm, the end of an `await`, what the user does. A render follows each of them.
use strangertv.Common.{
  ℕ, List, [], ◌∷◌, Option, none, some, Bool, false, not, ◌&&◌, String, if◌then◌else◌, ℕ_eq, ltb,
  ◌-◌, ◌/◌,
}
use strangertv.Common.Maps.{get, remove}
use strangertv.Wire.{
  MatchPreferences, Visibility, public_group, Call, on_waiting, on_matched, on_peer_left, on_signal,
  on_chat, on_stats, on_error, on_report_ack, on_block_ack, on_draining, on_group_match_created,
  on_group_match_participant_joined, on_group_match_participant_left,
  on_group_match_invite_received, on_group_match_invite_sent, on_group_match_invite_declined,
  on_group_match_matched,
}
use strangertv.Session.State.{
  Session, reconnecting, solo, HistoryMessage, Alarm, requeue, rejoin, end_inviting, auto_decline,
  Task, after_history, connect_peer, connect_mesh, join_queue, create_group, status, group_decline,
  emit, render,
}
use strangertv.Session.Handlers.{history_arrives, peer_connects}
use strangertv.Session.Groups.{mesh_connects, hand_on}
use strangertv.Session.Commands.{
  begin_match, match_begins, begin_group_match, group_match_begins, start_group_queue,
  invite_peer_to_group, accept_group_invite, decline_group_invite, stop, search_on, next_match,
  send_chat, clear_blocked,
}
use strangertv.Session.Handlers
use strangertv.Session.Groups

-- The handlers that `useMatchSocket` is given; `now` is `Date.now()`.
unfoldable pub handle : ℕ → Call → Session → Session
handle now (on_waiting position online) s = Handlers.on_waiting now position online s
handle now (on_matched id role meta) s = Handlers.on_matched now id role meta s
handle now (on_peer_left reason) s = Handlers.on_peer_left reason s
handle now (on_signal payload from) s = Handlers.on_signal payload from s
handle now (on_chat text time) s = Handlers.on_chat text time s
handle now (on_stats online waiting) s = Handlers.on_stats online waiting s
handle now (on_error code message) s = Handlers.on_error code message s
handle now on_report_ack s = Handlers.on_report_ack s
handle now on_block_ack s = Handlers.on_block_ack s
handle now (on_draining message) s = Handlers.on_draining message s
handle now (on_group_match_created id visibility) s = Groups.on_group_match_created id visibility s
handle now (on_group_match_participant_joined id user email) s =
    Groups.on_group_match_participant_joined id user email s
handle now (on_group_match_participant_left id user peer) s =
    Groups.on_group_match_participant_left user peer s
handle now (on_group_match_invite_received id host) s = Groups.on_group_match_invite id host s
handle now (on_group_match_invite_sent user) s = s
handle now (on_group_match_invite_declined room) s = Groups.on_group_match_invite_declined s
handle now (on_group_match_matched id role peers interests me) s =
    Groups.on_group_match_matched now id peers interests me s
handle now call s = hand_on call s

-- The interval of a call, each second.
abbrev pub second_ticks : ℕ → Option ℕ → Session → Session
second_ticks now none s = s
second_ticks now (some t) s =
    if s.shown_matched
    then record s { call_seconds = (now - t) / 1000; call_seconds_ref = (now - t) / 1000 }
    else s

-- TIMING_MS.longWait
abbrev long_wait_ms : ℕ
long_wait_ms = 45000

-- The interval of a search, each five seconds.
abbrev pub wait_ticks : ℕ → Option ℕ → Session → Session
wait_ticks now none s = s
wait_ticks now (some t) s =
    if s.shown_finding && not s.shown_matched
    then record s { long_wait = ltb long_wait_ms (now - t) }
    else s

-- An alarm goes off.
unfoldable pub alarm_rings : Alarm → Session → Session
alarm_rings requeue s = search_on s.group_room_id_ref s
alarm_rings rejoin s = begin_match (emit (status reconnecting) s)
alarm_rings end_inviting s = record s { is_inviting_to_group_ref = false }
alarm_rings (auto_decline id) s = record (emit (group_decline id) s) {
  pending_group_invite = none;
  group_invite_timeout_ref = none;
}

unfoldable pub fire : ℕ → Session → Session
unfolding get remove alarm_rings begin_match
fire t s = elim (get t s.alarms) [
  | none ↦ s
  | some a ↦ alarm_rings a (record s { alarms = remove t s.alarms })
]

-- What the awaited call gave: the messages of a conversation, and whether there is a stream.
unfoldable pub task_resumes : Option (List HistoryMessage) → Bool → Task → Session → Session
task_resumes messages obtained (after_history user role) s = history_arrives messages user role s
task_resumes messages obtained (connect_peer role) s = peer_connects obtained role s
task_resumes messages obtained (connect_mesh peers me) s = mesh_connects obtained peers me s
task_resumes messages obtained join_queue s = match_begins obtained s
task_resumes messages obtained (create_group visibility preferences) s =
    group_match_begins obtained visibility preferences s

unfoldable pub resume : ℕ → Option (List HistoryMessage) → Bool → Session → Session
unfolding get remove task_resumes
resume n messages obtained s = elim (get n s.tasks) [
  | none ↦ s
  | some task ↦ task_resumes messages obtained task (record s { tasks = remove n s.tasks })
]

pub data Event : Type 0 where
  calls : Call → Event
  rings : ℕ → Event
  resumes : ℕ → Option (List HistoryMessage) → Bool → Event
  begins : Event
  begins_group : Visibility → MatchPreferences → Event
  starts_group dismisses : Event
  invites : Option ℕ → Event
  accepts declines stops skips : Event
  writes : String → String → Event
  seconds_tick waits_tick : Event
  chooses : MatchPreferences → Event

unfoldable pub react : ℕ → Event → Session → Session
react now (calls call) s = handle now call s
react now (rings t) s = fire t s
react now (resumes n messages obtained) s = resume n messages obtained s
react now begins s = begin_match s
react now (begins_group visibility preferences) s = begin_group_match visibility preferences s
react now starts_group s = start_group_queue s
react now dismisses s = clear_blocked s
react now (invites user) s = invite_peer_to_group user s
react now accepts s = accept_group_invite s
react now declines s = decline_group_invite s
react now stops s = stop s
react now skips s = next_match s
react now (writes text time) s = send_chat text time s
react now seconds_tick s = second_ticks now s.matched_at s
react now waits_tick s = wait_ticks now s.waiting_since s
react now (chooses preferences) s = record s { prefs = preferences }

unfoldable pub run : List (ℕ × Event) → Session → Session
run [] s = s
run ((now, e) ∷ es) s = run es (render now (react now e s))

-- The first render.
abbrev pub initial : MatchPreferences → Session
initial preferences = record {
  finding = false;
  finding_ref = false;
  shown_finding = false;
  matched = false;
  matched_ref = false;
  shown_matched = false;
  queue_pos = none;
  online = 0;
  waiting_count = 0;
  room_id = none;
  room_id_ref = none;
  shared_interests = [];
  peer_country = "";
  peer_email = none;
  peer_user_id = none;
  relationship = "none";
  chat = [];
  chat_text = "";
  stream_tick = 0;
  call_seconds = 0;
  call_seconds_ref = 0;
  rate_room_id = none;
  long_wait = false;
  match_mode = solo;
  group_room_id = none;
  group_room_id_ref = none;
  shown_group_room_id = none;
  group_visibility = public_group;
  group_participants = [];
  group_peers = [];
  group_peers_ref = [];
  group_searching_ref = false;
  pending_group_invite = none;
  shown_group_invite = none;
  blocked = none;
  matched_at = none;
  waiting_since = none;
  accepting_signals_ref = false;
  is_inviting_to_group_ref = false;
  group_invite_timeout_ref = none;
  prefs = preferences;
  has_stream = false;
  alarms = [];
  next_alarm = 0;
  tasks = [];
  next_task = 0;
  log = [];
}
