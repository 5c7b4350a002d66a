-- ===== src/Session/Answered.antt =====
-- One countdown at most in src/hooks/useMatchSession.ts, whatever happens, and what answering an
-- invitation does to it.
use strangertv.Common.{
  ℕ, List, [], ◌∷◌, Option, some, Bool, ◌≡◌, ◌≢◌, refl, String, arith, ℕ_eq, String_eq, inl, inr,
  Option-cases,
}
use strangertv.Common.Maps.{get, remove}
use strangertv.Wire.{
  MatchPreferences, Call, on_activity_ended, on_activity_invited, on_activity_launched,
  on_activity_presence, on_activity_state, on_block_ack, on_chat, on_draining, on_error,
  on_friend_accepted, on_friend_declined, on_friend_removed, on_friend_request, on_group_invite,
  on_group_invite_accepted, on_group_invite_declined, on_group_match_created,
  on_group_match_invite_declined, on_group_match_invite_received, on_group_match_invite_sent,
  on_group_match_matched, on_group_match_participant_joined, on_group_match_participant_left,
  on_group_message, on_invitation, on_invitation_accepted, on_invitation_declined, on_matched,
  on_message_new, on_peer_left, on_presence_change, on_presence_list, on_report_ack, on_signal,
  on_stats, on_waiting,
}
use strangertv.Session.State.{
  Session, auto_decline, end_inviting, Task, HistoryMessage, render, clear_peer_ui,
  clear_group_state, PendingGroupInvite, after_history, connect_peer, connect_mesh, join_queue,
  create_group,
}
use strangertv.Session.Invites.{OneCountdown, put-Only}
use strangertv.Session.Handlers
use strangertv.Session.Groups
use strangertv.Session.Commands
use strangertv.Session.Groups.{without_user}
use strangertv.Session.Kept.{
  on_signal-Kept, on_error-Kept, on_group_match_participant_joined-Kept,
  on_group_match_matched-Kept, mesh_connects-Kept, peer_connects-Kept, history_arrives-Kept,
  send_chat-Kept, match_begins-Kept, group_match_begins-Kept, start_group_queue-Kept,
  second_ticks-Kept, wait_ticks-Kept, on_waiting-Kept, on_matched-Kept, next_match-Kept,
}
use strangertv.Session.Countdown.{
  Kept-OneCountdown, on_peer_left-OneCountdown, on_draining-OneCountdown,
  on_group_match_invite-OneCountdown, peer_gone-OneCountdown, accepts-OneCountdown,
  declines-OneCountdown, fire-OneCountdown, stop_countdown-OneCountdown,
}
use strangertv.Session.Run.{
  handle, task_resumes, resume, Event, react, run, initial, calls, rings, resumes, begins,
  begins_group, starts_group, dismisses, invites, accepts, declines, stops, skips, writes,
  seconds_tick, waits_tick, chooses, second_ticks, wait_ticks,
}

handle-OneCountdown :
    (now : ℕ) (c : Call) (s : Session) → OneCountdown s → OneCountdown (handle now c s)
unfolding handle Handlers.on_chat Handlers.on_stats Handlers.on_report_ack Handlers.on_block_ack
    Groups.on_group_match_created Groups.on_group_match_participant_left
    Groups.on_group_match_invite_declined Groups.hand_on clear_peer_ui clear_group_state
handle-OneCountdown now (on_waiting position online) s h =
    Kept-OneCountdown s (Handlers.on_waiting now position online s)
      (on_waiting-Kept now position online s) h
handle-OneCountdown now (on_matched id role meta) s h =
    Kept-OneCountdown s (Handlers.on_matched now id role meta s)
      (on_matched-Kept now id role meta s) h
handle-OneCountdown now (on_peer_left reason) s h = on_peer_left-OneCountdown reason s h
handle-OneCountdown now (on_signal payload from) s h =
    Kept-OneCountdown s (Handlers.on_signal payload from s) (on_signal-Kept payload from s) h
handle-OneCountdown now (on_chat text time) s h = h
handle-OneCountdown now (on_stats online waiting) s h = h
handle-OneCountdown now (on_error code message) s h =
    Kept-OneCountdown s (Handlers.on_error code message s) (on_error-Kept code message s) h
handle-OneCountdown now on_report_ack s h = h
handle-OneCountdown now on_block_ack s h = h
handle-OneCountdown now (on_draining message) s h = on_draining-OneCountdown message s h
handle-OneCountdown now (on_group_match_created id visibility) s h = h
handle-OneCountdown now (on_group_match_participant_joined id user email) s h =
    Kept-OneCountdown s (Groups.on_group_match_participant_joined id user email s)
      (on_group_match_participant_joined-Kept id user email s) h
handle-OneCountdown now (on_group_match_participant_left id user peer) s h =
    peer_gone-OneCountdown peer
      (record s { group_participants = without_user user s.group_participants }) h
handle-OneCountdown now (on_group_match_invite_received id host) s h =
    on_group_match_invite-OneCountdown id host s h
handle-OneCountdown now (on_group_match_invite_sent user) s h = h
handle-OneCountdown now (on_group_match_invite_declined room) s h = h
handle-OneCountdown now (on_group_match_matched id role peers interests me) s h =
    Kept-OneCountdown s (Groups.on_group_match_matched now id peers interests me s)
      (on_group_match_matched-Kept now id peers interests me s) h
handle-OneCountdown now (on_friend_request friend from) s h = h
handle-OneCountdown now (on_friend_accepted friend from) s h = h
handle-OneCountdown now (on_friend_declined friend) s h = h
handle-OneCountdown now (on_friend_removed friend) s h = h
handle-OneCountdown now (on_message_new message) s h = h
handle-OneCountdown now (on_invitation id room inviter) s h = h
handle-OneCountdown now (on_invitation_accepted id room) s h = h
handle-OneCountdown now (on_invitation_declined id) s h = h
handle-OneCountdown now (on_group_invite id group name inviter) s h = h
handle-OneCountdown now (on_group_invite_accepted id group user) s h = h
handle-OneCountdown now (on_group_invite_declined id group user) s h = h
handle-OneCountdown now (on_group_message message) s h = h
handle-OneCountdown now (on_presence_list users) s h = h
handle-OneCountdown now (on_presence_change user online) s h = h
handle-OneCountdown now (on_activity_state instance_id user state) s h = h
handle-OneCountdown now (on_activity_presence instance_id participants) s h = h
handle-OneCountdown now (on_activity_ended instance_id) s h = h
handle-OneCountdown now (on_activity_launched game activity) s h = h
handle-OneCountdown now (on_activity_invited room game activity inviter) s h = h

task_resumes-OneCountdown :
    (messages : Option (List HistoryMessage)) (obtained : Bool) (task : Task) (s : Session)
    → OneCountdown s
    → OneCountdown (task_resumes messages obtained task s)
unfolding task_resumes
task_resumes-OneCountdown messages obtained (after_history user role) s h =
    Kept-OneCountdown s (Handlers.history_arrives messages user role s)
      (history_arrives-Kept messages user role s) h
task_resumes-OneCountdown messages obtained (connect_peer role) s h =
    Kept-OneCountdown s (Handlers.peer_connects obtained role s)
      (peer_connects-Kept obtained role s) h
task_resumes-OneCountdown messages obtained (connect_mesh peers me) s h =
    Kept-OneCountdown s (Groups.mesh_connects obtained peers me s)
      (mesh_connects-Kept obtained peers me s) h
task_resumes-OneCountdown messages obtained join_queue s h =
    Kept-OneCountdown s (Commands.match_begins obtained s) (match_begins-Kept obtained s) h
task_resumes-OneCountdown messages obtained (create_group visibility preferences) s h =
    Kept-OneCountdown s (Commands.group_match_begins obtained visibility preferences s)
      (group_match_begins-Kept obtained visibility preferences s) h

resume-OneCountdown :
    (n : ℕ) (messages : Option (List HistoryMessage)) (obtained : Bool) (s : Session)
    → OneCountdown s
    → OneCountdown (resume n messages obtained s)
unfolding resume
resume-OneCountdown n messages obtained s h = elim (Option-cases (get n s.tasks)) [
  | inl e ↦ rw (e, resume) h
  | inr (task, e) ↦
      rw (e, resume)
        (task_resumes-OneCountdown messages obtained task (record s { tasks = remove n s.tasks }) h)
]

react-OneCountdown :
    (now : ℕ) (e : Event) (s : Session) → OneCountdown s → OneCountdown (react now e s)
unfolding react Commands.begin_match Commands.begin_group_match Commands.invite_peer_to_group
    Commands.accept_group_invite Commands.decline_group_invite Commands.stop Commands.clear_blocked
    clear_peer_ui clear_group_state
react-OneCountdown now (calls c) s h = handle-OneCountdown now c s h
react-OneCountdown now (rings t) s h = fire-OneCountdown t s h
react-OneCountdown now (resumes n messages obtained) s h =
    resume-OneCountdown n messages obtained s h
react-OneCountdown now begins s h = h
react-OneCountdown now (begins_group visibility preferences) s h = h
react-OneCountdown now starts_group s h =
    Kept-OneCountdown s (Commands.start_group_queue s) (start_group_queue-Kept s) h
react-OneCountdown now dismisses s h = h
react-OneCountdown now (invites user) s h =
    put-Only s.group_invite_timeout_ref s.alarms s.next_alarm end_inviting h refl
react-OneCountdown now accepts s h = accepts-OneCountdown s.shown_group_invite s h
react-OneCountdown now declines s h = declines-OneCountdown s.shown_group_invite s h
react-OneCountdown now stops s h = h
react-OneCountdown now skips s h = Kept-OneCountdown s (Commands.next_match s) (next_match-Kept s) h
react-OneCountdown now (writes text time) s h =
    Kept-OneCountdown s (Commands.send_chat text time s) (send_chat-Kept text time s) h
react-OneCountdown now seconds_tick s h =
    Kept-OneCountdown s (second_ticks now s.matched_at s) (second_ticks-Kept now s.matched_at s) h
react-OneCountdown now waits_tick s h =
    Kept-OneCountdown s (wait_ticks now s.waiting_since s) (wait_ticks-Kept now s.waiting_since s) h
react-OneCountdown now (chooses preferences) s h = h

run-OneCountdown : (es : List (ℕ × Event)) (s : Session) → OneCountdown s → OneCountdown (run es s)
unfolding run render
run-OneCountdown [] s h = h
run-OneCountdown ((now, e) ∷ es) s h =
    run-OneCountdown es (render now (react now e s)) (react-OneCountdown now e s h)

-- Whatever happens from the session's first render on, an alarm that will decline an invitation is
-- the one that the session can clear.
pub live_countdown :
    (preferences : MatchPreferences) (es : List (ℕ × Event))
    → OneCountdown (run es (initial preferences))
unfolding get
live_countdown preferences es = run-OneCountdown es (initial preferences) (λ t id e. ground arith)

accepts_none :
    (answer : Option PendingGroupInvite) (invite : PendingGroupInvite) (t : ℕ) (room : String)
    (s : Session)
    → OneCountdown s
    → answer ≡ some invite
    → get t (Commands.accepts answer s).alarms ≢ some (auto_decline room)
unfolding clear_peer_ui
accepts_none answer invite t room s h e g = ground (arith, stop_countdown-OneCountdown s h t room)

declines_none :
    (answer : Option PendingGroupInvite) (invite : PendingGroupInvite) (t : ℕ) (room : String)
    (s : Session)
    → OneCountdown s
    → answer ≡ some invite
    → get t (Commands.declines answer s).alarms ≢ some (auto_decline room)
declines_none answer invite t room s h e g = ground (arith, stop_countdown-OneCountdown s h t room)

-- In every reachable state, an invitation that is answered, by accepting or by declining, is not
-- declined by an alarm later: no alarm that declines is left.
pub answered_invite_stays :
    (preferences : MatchPreferences) (es : List (ℕ × Event)) (invite : PendingGroupInvite) (t : ℕ)
    (room : String)
    → (run es (initial preferences)).shown_group_invite ≡ some invite
    → let s : Session = run es (initial preferences) in
      (get t (Commands.accept_group_invite s).alarms ≢ some (auto_decline room))
      × (get t (Commands.decline_group_invite s).alarms ≢ some (auto_decline room))
unfolding Commands.accept_group_invite Commands.decline_group_invite clear_peer_ui
answered_invite_stays preferences es invite t room e =
    let s : Session = run es (initial preferences) in
    let h : OneCountdown s = live_countdown preferences es in
    (
      accepts_none s.shown_group_invite invite t room s h e,
      declines_none s.shown_group_invite invite t room s h e,
    )
