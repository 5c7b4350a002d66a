-- ===== src/Session/Handlers.antt =====
-- The handlers of src/hooks/useMatchSession.ts for the queue, the room and the signals. `now` is
-- `Date.now()`.
use strangertv.Common.{
  ℕ, List, [], ◌∷◌, ◌++◌, Option, none, some, Bool, true, false, not, ◌&&◌, ◌||◌, String, ◌==◌,
  if◌then◌else◌, ℕ_eq, String_eq, suc,
}
use strangertv.Wire.{MatchMeta, Role, offerer, answerer, SignalPayload}
use strangertv.Session.State.{
  Session, Status, requeueing, peer_left_blocked, report_thanks, words, solo, ChatMessage,
  HistoryMessage, requeue, rejoin, after_history, connect_peer, status, leave, clear_webrtc,
  create_peer, handle_signal, announce, get_conversation, insufficient_funds, emit, set_alarm,
  await, has_peers, since, is_set, clear_peer_ui, clear_group_state,
}

-- `if (x != null) set(x)`
abbrev pub or_keep : Option ℕ → ℕ → ℕ
or_keep none old = old
or_keep (some new) old = new

abbrev or_default : {A : Type 0} → Option A → A → A
or_default none d = d
or_default (some a) d = a

-- The branch in which the tiles of a group stay.
abbrev still_waiting : ℕ → Option ℕ → Option ℕ → Session → Session
still_waiting now position online s = record (emit (status Status.finding) s) {
  queue_pos = position;
  online = or_keep online s.online;
  finding = true;
  finding_ref = true;
  waiting_since = since s.waiting_since now;
}

abbrev waits_alone : ℕ → Option ℕ → Option ℕ → Session → Session
waits_alone now position online s =
    emit clear_webrtc (record (still_waiting now position online s) {
      matched = false;
      matched_ref = false;
      group_peers = [];
      accepting_signals_ref = false;
      matched_at = none;
    })

unfoldable pub on_waiting : ℕ → Option ℕ → Option ℕ → Session → Session
on_waiting now position online s =
    let t : Session = record s { blocked = none } in
    if s.matched_ref && has_peers s.group_peers_ref
    then still_waiting now position online t
    else if s.matched_ref && not (is_set s.group_room_id_ref)
    then t
    else waits_alone now position online t

abbrev shown_country : Option String → String
shown_country none = ""
shown_country (some country) = if country == "any" then "" else country

-- What a match sets before the first `await`.
abbrev pub matched_with : ℕ → String → MatchMeta → Session → Session
matched_with now id meta s = record (emit (status Status.connecting) s) {
  blocked = none;
  accepting_signals_ref = true;
  room_id = some id;
  matched = true;
  matched_ref = true;
  finding = false;
  finding_ref = false;
  waiting_since = none;
  long_wait = false;
  matched_at = some now;
  call_seconds = 0;
  queue_pos = none;
  shared_interests = or_default meta.shared_interests [];
  peer_country = shown_country meta.peer_country;
  peer_email = meta.peer_email;
  peer_user_id = meta.peer_user_id;
  relationship = or_default meta.relationship "none";
}

-- Sound and notification, then the stream, which the media hook has or is asked for.
unfoldable pub announce_match : Role → Session → Session
announce_match role s = await (connect_peer role) (emit announce s)

-- The messages of somebody whom the user knows are fetched first.
abbrev pub fetch_history : String → Option ℕ → Role → Session → Session
fetch_history relationship none role s = announce_match role s
fetch_history relationship (some user) role s =
    if not (relationship == "none") && not (user == 0)
    then await (after_history user role) (emit (get_conversation user) s)
    else announce_match role s

unfoldable pub on_matched : ℕ → String → Role → MatchMeta → Session → Session
on_matched now id role meta s =
    if not s.finding_ref
    then emit leave s
    else fetch_history (or_default meta.relationship "none") meta.peer_user_id role
        (matched_with now id meta s)

-- The messages of the other one are not the user's.
abbrev to_chat : ℕ → List HistoryMessage → List ChatMessage
to_chat user [] = []
to_chat user (m ∷ ms) =
    record { text = m.text; time = m.created_at; mine = not (m.sender_id == user) }
    ∷ to_chat user ms

abbrev set_history : List ChatMessage → Session → Session
set_history [] s = s
set_history (m ∷ ms) s = record s { chat = m ∷ ms }

-- After `getConversation`: `none` is a failed request.
unfoldable pub history_arrives : Option (List HistoryMessage) → ℕ → Role → Session → Session
history_arrives none user role s = announce_match role s
history_arrives (some messages) user role s =
    announce_match role (set_history (to_chat user messages) s)

-- After `ensureStream`, if the media hook had no stream: `false` is a failure.
unfoldable pub stream_ready : Bool → Session → Option Session
stream_ready obtained s =
    if s.has_stream
    then some s
    else if obtained
    then some (record s { has_stream = true; stream_tick = suc s.stream_tick })
    else none

abbrev is_offerer : Role → Bool
is_offerer offerer = true
is_offerer answerer = false

unfoldable pub peer_connects : Bool → Role → Session → Session
unfolding stream_ready
peer_connects obtained role s = elim (stream_ready obtained s) [
  | none ↦ s
  | some t ↦ emit (create_peer (is_offerer role)) t
]

abbrev pub is_reason : String → Option String → Bool
is_reason name none = false
is_reason name (some reason) = reason == name

abbrev pub is_sanction : Option String → Bool
is_sanction reason = is_reason "blocked" reason || is_reason "reported" reason

-- The end of `onPeerLeft`: the group room, if there was one, is gone, and the search goes on later.
abbrev requeues : Session → Session
requeues s =
    let alone : Session =
      if is_set s.group_room_id_ref
      then record (clear_group_state s) { match_mode = solo }
      else s in
    set_alarm requeue (record (emit (status requeueing) alone) { finding = true; chat = [] })

-- What follows the clearing, by the reason.
unfoldable pub goes_on : Option String → Session → Session
unfolding clear_group_state
goes_on reason s =
    if is_sanction reason
    then record (emit (status peer_left_blocked) s) { finding = false }
    else if s.is_inviting_to_group_ref
    then s
    else if is_reason "group-invite" reason
    then record (emit (status Status.finding) s) { finding = true }
    else requeues s

unfoldable pub on_peer_left : Option String → Session → Session
unfolding clear_peer_ui goes_on
on_peer_left reason s = goes_on reason (clear_peer_ui (emit clear_webrtc s))

unfoldable pub on_signal : SignalPayload → Option ℕ → Session → Session
on_signal payload from s =
    if s.accepting_signals_ref then emit (handle_signal payload from) s else s

unfoldable pub on_chat : String → String → Session → Session
on_chat text time s = record s {
  chat = s.chat ++ record { text = text; time = time; mine = false } ∷ [];
}

unfoldable pub on_stats : ℕ → ℕ → Session → Session
on_stats online waiting s = record s { online = online; waiting_count = waiting }

abbrev is_blocking : String → Bool
is_blocking code =
    code == "banned"
    || code == "auth_required"
    || code == "age_restricted"
    || code == "email_unverified"

unfoldable pub on_error : String → String → Session → Session
on_error code message s =
    let t : Session = record (emit (status (words message)) s) {
      finding = false;
      blocked = if is_blocking code then some (code, message) else none;
    } in
    if code == "insufficient_funds" then emit insufficient_funds t else t

-- `onReportAck` and `onBlockAck`, which differ in the status.
abbrev expelled : Status → Session → Session
expelled st s =
    emit (status st)
      (record (clear_group_state
        (clear_peer_ui (record (emit clear_webrtc s) { finding = false }))) { match_mode = solo })

unfoldable pub on_report_ack : Session → Session
unfolding clear_peer_ui clear_group_state
on_report_ack s = expelled report_thanks s

unfoldable pub on_block_ack : Session → Session
unfolding clear_peer_ui clear_group_state
on_block_ack s = expelled Status.blocked s

abbrev drained : Option String → Status
drained none = Status.draining
drained (some message) = if message == "" then Status.draining else words message

unfoldable pub on_draining : Option String → Session → Session
on_draining message s =
    let t : Session =
      emit (status (drained message))
        (record (emit clear_webrtc s) { finding = false; matched = false }) in
    if t.finding_ref || t.matched_ref then set_alarm rejoin t else t
