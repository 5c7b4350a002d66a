-- ===== src/Session/Kept.antt =====
-- The handlers of src/hooks/useMatchSession.ts that leave the alarms alone.
use strangertv.Common.{ℕ, List, [], ◌∷◌, Option, Bool, ◌≡◌, refl, String, arith, ℕ_eq, String_eq}
use strangertv.Wire.{
  Call, GroupMatchPeer, Role, MatchMeta, SignalPayload, Visibility, MatchPreferences,
}
use strangertv.Session.State.{Session, HistoryMessage, clear_peer_ui, clear_group_state}
use strangertv.Session.Handlers
use strangertv.Session.Groups
use strangertv.Session.Commands
use strangertv.Session.Run.{second_ticks, wait_ticks}

-- Nothing of the alarms has changed.
abbrev pub Kept : Session → Session → Type 0
Kept s t = (t.group_invite_timeout_ref ≡ s.group_invite_timeout_ref) × (t.alarms ≡ s.alarms)

pub on_signal-Kept :
    (payload : SignalPayload) (from : Option ℕ) (s : Session)
    → Kept s (Handlers.on_signal payload from s)
unfolding Handlers.on_signal
on_signal-Kept payload from s = ground arith

pub on_error-Kept :
    (code message : String) (s : Session) → Kept s (Handlers.on_error code message s)
unfolding Handlers.on_error
on_error-Kept code message s = ground arith

pub on_group_match_participant_joined-Kept :
    (id : String) (user : ℕ) (email : Option String) (s : Session)
    → Kept s (Groups.on_group_match_participant_joined id user email s)
unfolding Groups.on_group_match_participant_joined
on_group_match_participant_joined-Kept id user email s = ground arith

pub on_group_match_matched-Kept :
    (now : ℕ) (id : String) (peers : List GroupMatchPeer) (interests : List String) (me : ℕ)
    (s : Session)
    → Kept s (Groups.on_group_match_matched now id peers interests me s)
unfolding Groups.on_group_match_matched
on_group_match_matched-Kept now id peers interests me s = ground arith

pub mesh_connects-Kept :
    (obtained : Bool) (peers : List GroupMatchPeer) (me : ℕ) (s : Session)
    → Kept s (Groups.mesh_connects obtained peers me s)
unfolding Groups.mesh_connects Handlers.stream_ready
mesh_connects-Kept obtained peers me s = ground arith

pub peer_connects-Kept :
    (obtained : Bool) (role : Role) (s : Session) → Kept s (Handlers.peer_connects obtained role s)
unfolding Handlers.peer_connects Handlers.stream_ready
peer_connects-Kept obtained role s = ground arith

pub history_arrives-Kept :
    (messages : Option (List HistoryMessage)) (user : ℕ) (role : Role) (s : Session)
    → Kept s (Handlers.history_arrives messages user role s)
unfolding Handlers.history_arrives Handlers.announce_match
history_arrives-Kept messages user role s = ground arith

pub send_chat-Kept : (text time : String) (s : Session) → Kept s (Commands.send_chat text time s)
unfolding Commands.send_chat
send_chat-Kept text time s = ground arith

pub match_begins-Kept : (obtained : Bool) (s : Session) → Kept s (Commands.match_begins obtained s)
unfolding Commands.match_begins
match_begins-Kept obtained s = ground arith

pub group_match_begins-Kept :
    (obtained : Bool) (visibility : Visibility) (preferences : MatchPreferences) (s : Session)
    → Kept s (Commands.group_match_begins obtained visibility preferences s)
unfolding Commands.group_match_begins
group_match_begins-Kept obtained visibility preferences s = ground arith

pub hand_on-Kept : (call : Call) (s : Session) → Kept s (Groups.hand_on call s)
unfolding Groups.hand_on
hand_on-Kept call s = ground arith

pub start_group_queue-Kept : (s : Session) → Kept s (Commands.start_group_queue s)
unfolding Commands.start_group_queue
start_group_queue-Kept s = ground arith

pub second_ticks-Kept : (now : ℕ) (at : Option ℕ) (s : Session) → Kept s (second_ticks now at s)
second_ticks-Kept now at s = ground arith

pub wait_ticks-Kept : (now : ℕ) (at : Option ℕ) (s : Session) → Kept s (wait_ticks now at s)
wait_ticks-Kept now at s = ground arith

pub on_waiting-Kept :
    (now : ℕ) (position online : Option ℕ) (s : Session)
    → Kept s (Handlers.on_waiting now position online s)
unfolding Handlers.on_waiting
on_waiting-Kept now position online s = ground arith

pub on_matched-Kept :
    (now : ℕ) (id : String) (role : Role) (meta : MatchMeta) (s : Session)
    → Kept s (Handlers.on_matched now id role meta s)
unfolding Handlers.on_matched Handlers.announce_match
on_matched-Kept now id role meta s = ground arith

pub keep_peers-Kept : (ps : List GroupMatchPeer) (s : Session) → Kept s (Groups.keep_peers ps s)
unfolding Commands.stop clear_peer_ui clear_group_state
keep_peers-Kept [] s = (refl, refl)
keep_peers-Kept (p ∷ ps) s = (refl, refl)

pub search_on-Kept : (room : Option String) (s : Session) → Kept s (Commands.search_on room s)
search_on-Kept room s = ground arith

pub next_match-Kept : (s : Session) → Kept s (Commands.next_match s)
unfolding Commands.next_match
next_match-Kept s = ground arith
