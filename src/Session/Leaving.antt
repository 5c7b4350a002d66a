-- ===== src/Session/Leaving.antt =====
-- How a match ends in src/hooks/useMatchSession.ts, and how the tiles of a group survive.
use strangertv.Common.{
  ℕ, List, [], ◌∷◌, ◌++◌, Option, none, some, true, false, ◌≡◌, refl, ap, ◌∙◌, String, arith, ℕ_eq,
  String_eq, ◌||◌, if◌then◌else◌,
}
use strangertv.Common.Maps.{put}
use strangertv.Wire.{GroupMatchPeer}
use strangertv.Session.State.{
  Session, status, clear_webrtc, remove_peer, leave, group_leave, ready, requeue, emit,
  clear_peer_ui, clear_group_state,
}
use strangertv.Session.Handlers.{is_sanction, is_reason, goes_on}
use strangertv.Session.Groups.{
  on_group_match_participant_left, without_user, without_peer, keep_peers,
}
use strangertv.Session.Commands.{stop}

pub goes_on-alarms :
    (reason : Option String) (s : Session)
    → (goes_on reason s).alarms ≡ (
        if is_sanction reason || s.is_inviting_to_group_ref || is_reason "group-invite" reason
        then s.alarms
        else put s.next_alarm requeue s.alarms)
unfolding goes_on clear_group_state
goes_on-alarms reason s = ground arith

abbrev pub IsIdle : Session → Type 0
IsIdle s =
    (s.matched ≡ false)
    × (s.room_id ≡ none)
    × (s.group_peers ≡ [])
    × (s.accepting_signals_ref ≡ false)

-- The session when the tile of `peer` is gone.
abbrev removing : ℕ → ℕ → Session → Session
unfolding without_user
removing user peer s =
    emit (remove_peer peer)
      (record s { group_participants = without_user user s.group_participants })

member_left :
    (user peer : ℕ) (ps : List GroupMatchPeer) (s : Session)
    → s.matched_ref ≡ true
    → without_peer peer s.group_peers_ref ≡ ps
    → on_group_match_participant_left user (some peer) s ≡ keep_peers ps (removing user peer s)
unfolding on_group_match_participant_left removing
member_left user peer ps s m e =
    ap
      (λ b.
        if b
        then keep_peers (without_peer peer s.group_peers_ref) (removing user peer s)
        else record s { group_participants = without_user user s.group_participants })
      m
    ∙ ap (λ l. keep_peers l (removing user peer s)) e

append_five :
    {A : Type 0} (l : List A) (a b c d e : A)
    → l ++ a ∷ [] ++ b ∷ [] ++ c ∷ [] ++ d ∷ [] ++ e ∷ [] ≡ l ++ a ∷ b ∷ c ∷ d ∷ e ∷ []
append_five [] a b c d e = refl
append_five (x ∷ l) a b c d e = ap (λ k. x ∷ k) (append_five l a b c d e)

-- When the last one leaves, the session stops: both rooms are left, the connections are cleared, and
-- nothing is searched or shown.
pub last_member_left :
    (user peer : ℕ) (s : Session)
    → s.matched_ref ≡ true
    → without_peer peer s.group_peers_ref ≡ []
    → let t : Session = on_group_match_participant_left user (some peer) s in
      (t.log ≡ s.log ++ remove_peer peer ∷ leave ∷ group_leave ∷ clear_webrtc ∷ status ready ∷ [])
      × IsIdle t
      × (t.finding ≡ false)
      × (t.group_room_id ≡ none)
unfolding removing stop clear_peer_ui clear_group_state
last_member_left user peer s m e = rw (member_left user peer [] s m e) (
  append_five s.log (remove_peer peer) leave group_leave clear_webrtc (status ready),
  (refl, refl, refl, refl),
  refl,
  refl,
)
