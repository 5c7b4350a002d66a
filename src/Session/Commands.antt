-- ===== src/Session/Commands.antt =====
-- What the user does: `beginMatch`, `stop`, `next` and their kin in src/hooks/useMatchSession.ts.
use strangertv.Common.{
  ℕ, suc, [], ◌∷◌, ◌++◌, Option, none, some, Bool, true, false, not, ◌&&◌, ◌||◌, String, ◌==◌,
  if◌then◌else◌, String_eq, ℕ_eq, leb,
}
use strangertv.Wire.{MatchPreferences, Visibility, private_group, chat}
use strangertv.Session.State.{
  Session, Status, ready, media_error, solo, group, end_inviting, join_queue, create_group, status,
  leave, group_leave, join, next, group_start, group_join, group_decline, group_create,
  group_create_and_invite, sent, clear_webrtc, PendingGroupInvite, emit, set_alarm, clear_alarm,
  await, clear_peer_ui, clear_group_state,
}

-- `beginMatch` up to its `await`; `match_begins` is the rest, by what `ensureStream` gives.
unfoldable pub begin_match : Session → Session
begin_match s = await join_queue s

unfoldable pub match_begins : Bool → Session → Session
match_begins false s = record (emit (status media_error) s) { finding = false }
match_begins true s = emit (join s.prefs) (record (emit (status Status.finding) s) {
  has_stream = true;
  stream_tick = suc s.stream_tick;
  chat = [];
  blocked = none;
  finding = true;
  matched = false;
})

unfoldable pub begin_group_match : Visibility → MatchPreferences → Session → Session
begin_group_match visibility preferences s = await (create_group visibility preferences) s

unfoldable pub group_match_begins : Bool → Visibility → MatchPreferences → Session → Session
group_match_begins false visibility preferences s = record (emit (status media_error) s) {
  finding = false;
}
group_match_begins true visibility preferences s =
    emit (group_create visibility preferences) (record (emit (status Status.finding) s) {
      has_stream = true;
      stream_tick = suc s.stream_tick;
      match_mode = group;
      blocked = none;
      finding = true;
    })

abbrev start_room : Option String → Session → Session
start_room none s = s
start_room (some room) s =
    if room == "" then s else emit (group_start room) (record s { finding = true })

unfoldable pub start_group_queue : Session → Session
start_group_queue s = start_room s.shown_group_room_id s

unfoldable pub invite_peer_to_group : Option ℕ → Session → Session
invite_peer_to_group user s =
    emit (group_create_and_invite private_group s.prefs user)
      (set_alarm end_inviting (record s { is_inviting_to_group_ref = true }))

abbrev pub stop_countdown : Session → Session
stop_countdown s = record s {
  alarms = clear_alarm s.group_invite_timeout_ref s.alarms;
  group_invite_timeout_ref = none;
}

abbrev pub accepts : Option PendingGroupInvite → Session → Session
accepts none s = s
accepts (some invite) s =
    let gone : Session =
      clear_peer_ui
        (emit clear_webrtc (record (stop_countdown s) { pending_group_invite = none })) in
    emit (group_join invite.room) (
      emit (status Status.connecting) (record (emit leave gone) {
        match_mode = group;
        finding = true;
        finding_ref = true;
        matched_ref = false;
      }))

unfoldable pub accept_group_invite : Session → Session
unfolding clear_peer_ui
accept_group_invite s = accepts s.shown_group_invite s

abbrev pub declines : Option PendingGroupInvite → Session → Session
declines none s = s
declines (some invite) s = record (emit (group_decline invite.room) (stop_countdown s)) {
  pending_group_invite = none;
}

unfoldable pub decline_group_invite : Session → Session
decline_group_invite s = declines s.shown_group_invite s

-- The room to rate: one in which the call took five seconds.
abbrev to_rate : Option String → ℕ → Option String → Option String
to_rate none seconds old = old
to_rate (some room) seconds old = if leb 5 seconds && not (room == "") then some room else old

unfoldable pub stop : Session → Session
unfolding clear_peer_ui clear_group_state
stop s =
    let left : Session = emit clear_webrtc (
      emit group_leave
        (emit leave (record s { is_inviting_to_group_ref = false; blocked = none }))) in
    record (emit (status ready) (clear_group_state (clear_peer_ui left))) {
      finding = false;
      queue_pos = none;
      match_mode = solo;
      rate_room_id = to_rate s.room_id_ref s.call_seconds_ref s.rate_room_id;
    }

-- The search after `next`, and after the delay of `onPeerLeft`.
abbrev pub search_on : Option String → Session → Session
search_on none s = emit (next s.prefs) s
search_on (some room) s = if room == "" then emit (next s.prefs) s else emit (group_start room) s

-- What `next` resets before it searches on.
abbrev pub skipped : Session → Session
skipped s = record (emit (status Status.finding) (emit clear_webrtc s)) {
  chat = [];
  blocked = none;
  matched = false;
  shared_interests = [];
  peer_country = "";
  matched_at = none;
  finding = true;
}

unfoldable pub next_match : Session → Session
next_match s = if s.group_searching_ref then s else search_on s.group_room_id_ref (skipped s)

-- `text` is `chatText.trim().slice(0, 500)`.
unfoldable pub send_chat : String → String → Session → Session
send_chat text time s =
    if text == "" || not s.shown_matched then s else record (emit (sent (chat text time)) s) {
      chat = s.chat ++ record { text = text; time = time; mine = true } ∷ [];
      chat_text = "";
    }

unfoldable pub clear_blocked : Session → Session
clear_blocked s = record s { blocked = none }
