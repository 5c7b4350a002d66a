-- ===== src/Session/Countdown.antt =====
-- One countdown at most in src/hooks/useMatchSession.ts: each of its steps.
use strangertv.Common.{
  ℕ, List, Option, none, some, Bool, true, false, ◌≡◌, refl, ◌||◌, if◌then◌else◌, String, arith,
  ℕ_eq, String_eq, inl, inr, Bool-cases, Option-cases, nat_eq_iff,
}
use strangertv.Common.Maps.{get, remove, get-put}
use strangertv.Wire.{PublicUser, GroupMatchPeer}
use strangertv.Session.State.{
  Session, remove_peer, clear_webrtc, Alarm, requeue, rejoin, end_inviting, auto_decline,
  clear_alarm, emit, clear_peer_ui, clear_group_state, PendingGroupInvite,
}
use strangertv.Session.Invites.{
  Only, OneCountdown, put-Only, clear_alarm-Only, put_decline-Only, remove-Only,
  remove_decline-Only,
}
use strangertv.Session.Leaving.{goes_on-alarms}
use strangertv.Session.Kept.{Kept, keep_peers-Kept, search_on-Kept}
use strangertv.Session.Handlers
use strangertv.Session.Groups
use strangertv.Session.Commands
use strangertv.Session.Groups.{without_peer}
use strangertv.Session.Run.{alarm_rings, fire}

pub Kept-OneCountdown : (s t : Session) → Kept s t → OneCountdown s → OneCountdown t
Kept-OneCountdown s t (c, k) h = rw (c, k) h

goes_on-timeout :
    (reason : Option String) (s : Session)
    → (Handlers.goes_on reason s).group_invite_timeout_ref ≡ s.group_invite_timeout_ref
unfolding Handlers.goes_on clear_group_state
goes_on-timeout reason s = ground arith

pub goes_on-OneCountdown :
    (reason : Option String) (s : Session)
    → OneCountdown s
    → OneCountdown (Handlers.goes_on reason s)
goes_on-OneCountdown reason s h t id e = ground (
  arith,
  h t id,
  goes_on-alarms reason s,
  goes_on-timeout reason s,
  get-put s.next_alarm t requeue s.alarms,
  nat_eq_iff s.next_alarm t,
)

pub on_peer_left-OneCountdown :
    (reason : Option String) (s : Session)
    → OneCountdown s
    → OneCountdown (Handlers.on_peer_left reason s)
unfolding Handlers.on_peer_left clear_peer_ui
on_peer_left-OneCountdown reason s h =
    goes_on-OneCountdown reason (clear_peer_ui (emit clear_webrtc s)) h

pub on_draining-OneCountdown :
    (message : Option String) (s : Session)
    → OneCountdown s
    → OneCountdown (Handlers.on_draining message s)
unfolding Handlers.on_draining
on_draining-OneCountdown message s h = elim (Bool-cases (s.finding_ref || s.matched_ref)) [
  | inl e ↦
      rw (e, Handlers.on_draining)
        (put-Only s.group_invite_timeout_ref s.alarms s.next_alarm rejoin h refl)
  | inr e ↦ rw (e, Handlers.on_draining) h
]

pub on_group_match_invite-OneCountdown :
    (id : String) (host : PublicUser) (s : Session)
    → OneCountdown s
    → OneCountdown (Groups.on_group_match_invite id host s)
unfolding Groups.on_group_match_invite
on_group_match_invite-OneCountdown id host s h =
    put_decline-Only (clear_alarm s.group_invite_timeout_ref s.alarms) s.next_alarm id
      (clear_alarm-Only s.group_invite_timeout_ref s.alarms h)

pub if-OneCountdown :
    (b : Bool) (s t : Session) → OneCountdown s → OneCountdown t → OneCountdown (if b then s else t)
if-OneCountdown true s t h k = h
if-OneCountdown false s t h k = k

pub peer_gone-OneCountdown :
    (peer : Option ℕ) (s : Session) → OneCountdown s → OneCountdown (Groups.peer_gone peer s)
peer_gone-OneCountdown none s h = h
peer_gone-OneCountdown (some peer) s h =
    let t : Session = emit (remove_peer peer) s in
    let ps : List GroupMatchPeer = without_peer peer s.group_peers_ref in
    if-OneCountdown s.matched_ref (Groups.keep_peers ps t) s
      (Kept-OneCountdown t (Groups.keep_peers ps t) (keep_peers-Kept ps t) h) h

pub stop_countdown-OneCountdown :
    (s : Session) → OneCountdown s → Only none (Commands.stop_countdown s).alarms
stop_countdown-OneCountdown s h = clear_alarm-Only s.group_invite_timeout_ref s.alarms h

pub accepts-OneCountdown :
    (invite : Option PendingGroupInvite) (s : Session)
    → OneCountdown s
    → OneCountdown (Commands.accepts invite s)
unfolding clear_peer_ui
accepts-OneCountdown none s h = h
accepts-OneCountdown (some invite) s h = stop_countdown-OneCountdown s h

pub declines-OneCountdown :
    (invite : Option PendingGroupInvite) (s : Session)
    → OneCountdown s
    → OneCountdown (Commands.declines invite s)
declines-OneCountdown none s h = h
declines-OneCountdown (some invite) s h = stop_countdown-OneCountdown s h

-- An alarm that has just gone off.
pub alarm_rings-OneCountdown :
    (n : ℕ) (a : Alarm) (s : Session)
    → get n s.alarms ≡ some a
    → OneCountdown s
    → OneCountdown (alarm_rings a (record s { alarms = remove n s.alarms }))
unfolding alarm_rings Commands.begin_match
alarm_rings-OneCountdown n requeue s e h =
    let t : Session = record s { alarms = remove n s.alarms } in
    Kept-OneCountdown t (Commands.search_on t.group_room_id_ref t)
      (search_on-Kept t.group_room_id_ref t) (remove-Only s.group_invite_timeout_ref s.alarms n h)
alarm_rings-OneCountdown n rejoin s e h = remove-Only s.group_invite_timeout_ref s.alarms n h
alarm_rings-OneCountdown n end_inviting s e h = remove-Only s.group_invite_timeout_ref s.alarms n h
alarm_rings-OneCountdown n (auto_decline id) s e h =
    remove_decline-Only s.group_invite_timeout_ref s.alarms n id h e

pub fire-OneCountdown : (n : ℕ) (s : Session) → OneCountdown s → OneCountdown (fire n s)
unfolding fire
fire-OneCountdown n s h = elim (Option-cases (get n s.alarms)) [
  | inl e ↦ rw (e, fire) h
  | inr (a, e) ↦ rw (e, fire) (alarm_rings-OneCountdown n a s e h)
]
