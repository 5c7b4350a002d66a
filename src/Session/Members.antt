-- ===== src/Session/Members.antt =====
-- The participants of a group room in src/hooks/useMatchSession.ts: each handler keeps them distinct.
use strangertv.Common.{
  ℕ, List, [], ◌∷◌, Option, none, some, true, false, if◌then◌else◌, Bool, ◌≡◌, refl, String, arith,
  ℕ_eq, String_eq,
}
use strangertv.Wire.{
  Call, GroupMatchPeer, Role, MatchMeta, SignalPayload, Visibility, MatchPreferences,
}
use strangertv.Session.State.{
  Session, HistoryMessage, clear_peer_ui, clear_group_state, emit, remove_peer, Alarm, requeue,
  rejoin, end_inviting, auto_decline, PendingGroupInvite,
}
use strangertv.Session.Roster.{distinct, distinct-joined}
use strangertv.Session.Handlers
use strangertv.Session.Groups
use strangertv.Session.Commands
use strangertv.Session.Run.{second_ticks, wait_ticks, alarm_rings}
use strangertv.Session.Groups.{without_peer}

-- No user is listed twice.
abbrev pub IsRoster : Session → Type 0
IsRoster s = distinct s.group_participants ≡ true

if-IsRoster : (b : Bool) (s t : Session) → IsRoster s → IsRoster t → IsRoster (if b then s else t)
if-IsRoster true s t h k = h
if-IsRoster false s t h k = k

pub on_signal-IsRoster :
    (payload : SignalPayload) (from : Option ℕ) (s : Session)
    → IsRoster s
    → IsRoster (Handlers.on_signal payload from s)
unfolding Handlers.on_signal
on_signal-IsRoster payload from s h = ground arith

pub on_error-IsRoster :
    (code message : String) (s : Session) → IsRoster s → IsRoster (Handlers.on_error code message s)
unfolding Handlers.on_error
on_error-IsRoster code message s h = ground arith

pub on_group_match_matched-IsRoster :
    (now : ℕ) (id : String) (peers : List GroupMatchPeer) (interests : List String) (me : ℕ)
    (s : Session)
    → IsRoster s
    → IsRoster (Groups.on_group_match_matched now id peers interests me s)
unfolding Groups.on_group_match_matched
on_group_match_matched-IsRoster now id peers interests me s h = ground arith

pub mesh_connects-IsRoster :
    (obtained : Bool) (peers : List GroupMatchPeer) (me : ℕ) (s : Session)
    → IsRoster s
    → IsRoster (Groups.mesh_connects obtained peers me s)
unfolding Groups.mesh_connects Handlers.stream_ready
mesh_connects-IsRoster obtained peers me s h = ground arith

pub peer_connects-IsRoster :
    (obtained : Bool) (role : Role) (s : Session)
    → IsRoster s
    → IsRoster (Handlers.peer_connects obtained role s)
unfolding Handlers.peer_connects Handlers.stream_ready
peer_connects-IsRoster obtained role s h = ground arith

pub history_arrives-IsRoster :
    (messages : Option (List HistoryMessage)) (user : ℕ) (role : Role) (s : Session)
    → IsRoster s
    → IsRoster (Handlers.history_arrives messages user role s)
unfolding Handlers.history_arrives Handlers.announce_match
history_arrives-IsRoster messages user role s h = ground arith

pub send_chat-IsRoster :
    (text time : String) (s : Session) → IsRoster s → IsRoster (Commands.send_chat text time s)
unfolding Commands.send_chat
send_chat-IsRoster text time s h = ground arith

pub match_begins-IsRoster :
    (obtained : Bool) (s : Session) → IsRoster s → IsRoster (Commands.match_begins obtained s)
unfolding Commands.match_begins
match_begins-IsRoster obtained s h = ground arith

pub group_match_begins-IsRoster :
    (obtained : Bool) (visibility : Visibility) (preferences : MatchPreferences) (s : Session)
    → IsRoster s
    → IsRoster (Commands.group_match_begins obtained visibility preferences s)
unfolding Commands.group_match_begins
group_match_begins-IsRoster obtained visibility preferences s h = ground arith

pub hand_on-IsRoster : (call : Call) (s : Session) → IsRoster s → IsRoster (Groups.hand_on call s)
unfolding Groups.hand_on
hand_on-IsRoster call s h = ground arith

pub start_group_queue-IsRoster :
    (s : Session) → IsRoster s → IsRoster (Commands.start_group_queue s)
unfolding Commands.start_group_queue
start_group_queue-IsRoster s h = ground arith

pub second_ticks-IsRoster :
    (now : ℕ) (at : Option ℕ) (s : Session) → IsRoster s → IsRoster (second_ticks now at s)
second_ticks-IsRoster now at s h = ground arith

pub wait_ticks-IsRoster :
    (now : ℕ) (at : Option ℕ) (s : Session) → IsRoster s → IsRoster (wait_ticks now at s)
wait_ticks-IsRoster now at s h = ground arith

pub on_waiting-IsRoster :
    (now : ℕ) (position online : Option ℕ) (s : Session)
    → IsRoster s
    → IsRoster (Handlers.on_waiting now position online s)
unfolding Handlers.on_waiting
on_waiting-IsRoster now position online s h = ground arith

pub on_matched-IsRoster :
    (now : ℕ) (id : String) (role : Role) (meta : MatchMeta) (s : Session)
    → IsRoster s
    → IsRoster (Handlers.on_matched now id role meta s)
unfolding Handlers.on_matched Handlers.announce_match
on_matched-IsRoster now id role meta s h = ground arith

pub search_on-IsRoster :
    (room : Option String) (s : Session) → IsRoster s → IsRoster (Commands.search_on room s)
search_on-IsRoster room s h = ground arith

pub next_match-IsRoster : (s : Session) → IsRoster s → IsRoster (Commands.next_match s)
unfolding Commands.next_match
next_match-IsRoster s h = ground arith

pub goes_on-IsRoster :
    (reason : Option String) (s : Session) → IsRoster s → IsRoster (Handlers.goes_on reason s)
unfolding Handlers.goes_on clear_group_state
goes_on-IsRoster reason s h = ground arith

pub on_draining-IsRoster :
    (message : Option String) (s : Session) → IsRoster s → IsRoster (Handlers.on_draining message s)
unfolding Handlers.on_draining
on_draining-IsRoster message s h = ground arith

pub on_group_match_participant_joined-IsRoster :
    (id : String) (user : ℕ) (email : Option String) (s : Session)
    → IsRoster s
    → IsRoster (Groups.on_group_match_participant_joined id user email s)
unfolding Groups.on_group_match_participant_joined
on_group_match_participant_joined-IsRoster id user email s h = ground (
  arith,
  distinct-joined s.group_participants (record { user_id = user; email = email; country = none }) h,
)

pub keep_peers-IsRoster :
    (ps : List GroupMatchPeer) (s : Session) → IsRoster s → IsRoster (Groups.keep_peers ps s)
unfolding Commands.stop clear_peer_ui clear_group_state
keep_peers-IsRoster [] s h = refl
keep_peers-IsRoster (p ∷ ps) s h = h

pub peer_gone-IsRoster :
    (peer : Option ℕ) (s : Session) → IsRoster s → IsRoster (Groups.peer_gone peer s)
peer_gone-IsRoster none s h = h
peer_gone-IsRoster (some peer) s h =
    let t : Session = emit (remove_peer peer) s in
    let ps : List GroupMatchPeer = without_peer peer s.group_peers_ref in
    if-IsRoster s.matched_ref (Groups.keep_peers ps t) s (keep_peers-IsRoster ps t h) h

pub alarm_rings-IsRoster : (a : Alarm) (s : Session) → IsRoster s → IsRoster (alarm_rings a s)
unfolding alarm_rings Commands.begin_match
alarm_rings-IsRoster requeue s h = search_on-IsRoster s.group_room_id_ref s h
alarm_rings-IsRoster rejoin s h = h
alarm_rings-IsRoster end_inviting s h = h
alarm_rings-IsRoster (auto_decline id) s h = h

pub accepts-IsRoster :
    (invite : Option PendingGroupInvite) (s : Session)
    → IsRoster s
    → IsRoster (Commands.accepts invite s)
unfolding clear_peer_ui
accepts-IsRoster none s h = h
accepts-IsRoster (some invite) s h = h

pub declines-IsRoster :
    (invite : Option PendingGroupInvite) (s : Session)
    → IsRoster s
    → IsRoster (Commands.declines invite s)
declines-IsRoster none s h = h
declines-IsRoster (some invite) s h = h
