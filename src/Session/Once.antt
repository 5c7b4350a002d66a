-- ===== src/Session/Once.antt =====
-- The participants of a group room in src/hooks/useMatchSession.ts are distinct, whatever happens.
use strangertv.Common.{
  ℕ, List, [], ◌∷◌, Option, Bool, refl, ℕ_eq, String_eq, inl, inr, Option-cases,
}
use strangertv.Common.Maps.{get, remove}
use strangertv.Wire.{
  MatchPreferences, Call, on_activity_ended, on_activity_invited, on_activity_launched,
  on_activity_presence, on_activity_state, on_block_ack, on_chat, on_draining, on_error,
  on_friend_accepted, on_friend_declined, on_friend_removed, on_friend_request, on_group_invite,
  on_group_invite_accepted, on_group_invite_declined, on_group_match_created,
  on_group_match_invite_declined, on_group_match_invite_received, on_group_match_invite_sent,
  on_group_match_matched, on_group_match_participant_joined, on_group_match_participant_left,
  on_group_message, on_invitation, on_invitation_accepted, on_invitation_declined, on_matched,
  on_message_new, on_peer_left, on_presence_change, on_presence_list, on_report_ack, on_signal,
  on_stats, on_waiting,
}
use strangertv.Session.State.{
  emit, clear_webrtc, Session, Task, HistoryMessage, render, clear_peer_ui, clear_group_state,
  after_history, connect_peer, connect_mesh, join_queue, create_group,
}
use strangertv.Session.Handlers
use strangertv.Session.Groups
use strangertv.Session.Commands
use strangertv.Session.Groups.{without_user}
use strangertv.Session.Roster.{distinct-without_user}
use strangertv.Session.Members.{
  IsRoster, accepts-IsRoster, alarm_rings-IsRoster, declines-IsRoster, goes_on-IsRoster,
  group_match_begins-IsRoster, history_arrives-IsRoster, match_begins-IsRoster,
  mesh_connects-IsRoster, next_match-IsRoster, on_draining-IsRoster, on_error-IsRoster,
  on_group_match_matched-IsRoster, on_group_match_participant_joined-IsRoster, on_matched-IsRoster,
  on_signal-IsRoster, on_waiting-IsRoster, peer_connects-IsRoster, peer_gone-IsRoster,
  second_ticks-IsRoster, send_chat-IsRoster, start_group_queue-IsRoster, wait_ticks-IsRoster,
}
use strangertv.Session.Run.{
  fire, handle, task_resumes, resume, Event, react, run, initial, calls, rings, resumes, begins,
  begins_group, starts_group, dismisses, invites, accepts, declines, stops, skips, writes,
  seconds_tick, waits_tick, chooses,
}

fire-IsRoster : (n : ℕ) (s : Session) → IsRoster s → IsRoster (fire n s)
unfolding fire
fire-IsRoster n s h = elim (Option-cases (get n s.alarms)) [
  | inl e ↦ rw (e, fire) h
  | inr (a, e) ↦ rw (e, fire) (alarm_rings-IsRoster a (record s { alarms = remove n s.alarms }) h)
]

handle-IsRoster : (now : ℕ) (c : Call) (s : Session) → IsRoster s → IsRoster (handle now c s)
unfolding handle Handlers.on_chat Handlers.on_stats Handlers.on_report_ack Handlers.on_block_ack
    Groups.on_group_match_created Groups.on_group_match_participant_left
    Groups.on_group_match_invite_declined Groups.on_group_match_invite Handlers.on_peer_left
    Groups.hand_on clear_peer_ui clear_group_state
handle-IsRoster now (on_waiting position online) s h = on_waiting-IsRoster now position online s h
handle-IsRoster now (on_matched id role meta) s h = on_matched-IsRoster now id role meta s h
handle-IsRoster now (on_peer_left reason) s h =
    goes_on-IsRoster reason (clear_peer_ui (emit clear_webrtc s)) h
handle-IsRoster now (on_signal payload from) s h = on_signal-IsRoster payload from s h
handle-IsRoster now (on_chat text time) s h = h
handle-IsRoster now (on_stats online waiting) s h = h
handle-IsRoster now (on_error code message) s h = on_error-IsRoster code message s h
handle-IsRoster now on_report_ack s h = refl
handle-IsRoster now on_block_ack s h = refl
handle-IsRoster now (on_draining message) s h = on_draining-IsRoster message s h
handle-IsRoster now (on_group_match_created id visibility) s h = h
handle-IsRoster now (on_group_match_participant_joined id user email) s h =
    on_group_match_participant_joined-IsRoster id user email s h
handle-IsRoster now (on_group_match_participant_left id user peer) s h =
    peer_gone-IsRoster peer
      (record s { group_participants = without_user user s.group_participants })
      (distinct-without_user user s.group_participants h)
handle-IsRoster now (on_group_match_invite_received id host) s h = h
handle-IsRoster now (on_group_match_invite_sent user) s h = h
handle-IsRoster now (on_group_match_invite_declined room) s h = h
handle-IsRoster now (on_group_match_matched id role peers interests me) s h =
    on_group_match_matched-IsRoster now id peers interests me s h
handle-IsRoster now (on_friend_request friend from) s h = h
handle-IsRoster now (on_friend_accepted friend from) s h = h
handle-IsRoster now (on_friend_declined friend) s h = h
handle-IsRoster now (on_friend_removed friend) s h = h
handle-IsRoster now (on_message_new message) s h = h
handle-IsRoster now (on_invitation id room inviter) s h = h
handle-IsRoster now (on_invitation_accepted id room) s h = h
handle-IsRoster now (on_invitation_declined id) s h = h
handle-IsRoster now (on_group_invite id group name inviter) s h = h
handle-IsRoster now (on_group_invite_accepted id group user) s h = h
handle-IsRoster now (on_group_invite_declined id group user) s h = h
handle-IsRoster now (on_group_message message) s h = h
handle-IsRoster now (on_presence_list users) s h = h
handle-IsRoster now (on_presence_change user online) s h = h
handle-IsRoster now (on_activity_state instance_id user state) s h = h
handle-IsRoster now (on_activity_presence instance_id participants) s h = h
handle-IsRoster now (on_activity_ended instance_id) s h = h
handle-IsRoster now (on_activity_launched game activity) s h = h
handle-IsRoster now (on_activity_invited room game activity inviter) s h = h

task_resumes-IsRoster :
    (messages : Option (List HistoryMessage)) (obtained : Bool) (task : Task) (s : Session)
    → IsRoster s
    → IsRoster (task_resumes messages obtained task s)
unfolding task_resumes
task_resumes-IsRoster messages obtained (after_history user role) s h =
    history_arrives-IsRoster messages user role s h
task_resumes-IsRoster messages obtained (connect_peer role) s h =
    peer_connects-IsRoster obtained role s h
task_resumes-IsRoster messages obtained (connect_mesh peers me) s h =
    mesh_connects-IsRoster obtained peers me s h
task_resumes-IsRoster messages obtained join_queue s h = match_begins-IsRoster obtained s h
task_resumes-IsRoster messages obtained (create_group visibility preferences) s h =
    group_match_begins-IsRoster obtained visibility preferences s h

resume-IsRoster :
    (n : ℕ) (messages : Option (List HistoryMessage)) (obtained : Bool) (s : Session)
    → IsRoster s
    → IsRoster (resume n messages obtained s)
unfolding resume
resume-IsRoster n messages obtained s h = elim (Option-cases (get n s.tasks)) [
  | inl e ↦ rw (e, resume) h
  | inr (task, e) ↦
      rw (e, resume)
        (task_resumes-IsRoster messages obtained task (record s { tasks = remove n s.tasks }) h)
]

react-IsRoster : (now : ℕ) (e : Event) (s : Session) → IsRoster s → IsRoster (react now e s)
unfolding react Commands.begin_match Commands.begin_group_match Commands.invite_peer_to_group
    Commands.accept_group_invite Commands.decline_group_invite Commands.stop Commands.clear_blocked
    clear_peer_ui clear_group_state
react-IsRoster now (calls c) s h = handle-IsRoster now c s h
react-IsRoster now (rings t) s h = fire-IsRoster t s h
react-IsRoster now (resumes n messages obtained) s h = resume-IsRoster n messages obtained s h
react-IsRoster now begins s h = h
react-IsRoster now (begins_group visibility preferences) s h = h
react-IsRoster now starts_group s h = start_group_queue-IsRoster s h
react-IsRoster now dismisses s h = h
react-IsRoster now (invites user) s h = h
react-IsRoster now accepts s h = accepts-IsRoster s.shown_group_invite s h
react-IsRoster now declines s h = declines-IsRoster s.shown_group_invite s h
react-IsRoster now stops s h = refl
react-IsRoster now skips s h = next_match-IsRoster s h
react-IsRoster now (writes text time) s h = send_chat-IsRoster text time s h
react-IsRoster now seconds_tick s h = second_ticks-IsRoster now s.matched_at s h
react-IsRoster now waits_tick s h = wait_ticks-IsRoster now s.waiting_since s h
react-IsRoster now (chooses preferences) s h = h

run-IsRoster : (es : List (ℕ × Event)) (s : Session) → IsRoster s → IsRoster (run es s)
unfolding run render
run-IsRoster [] s h = h
run-IsRoster ((now, e) ∷ es) s h =
    run-IsRoster es (render now (react now e s)) (react-IsRoster now e s h)

-- Whatever happens from the session's first render on, the participants of a group room are listed
-- once each, however often one joins, leaves and joins again.
pub participants_once :
    (preferences : MatchPreferences) (es : List (ℕ × Event))
    → IsRoster (run es (initial preferences))
participants_once preferences es = run-IsRoster es (initial preferences) refl
