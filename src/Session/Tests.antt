-- ===== src/Session/Tests.antt =====
-- Runs of src/hooks/useMatchSession.ts.
use strangertv.Common.{
  ℕ, List, [], ◌∷◌, ◌++◌, none, some, true, false, ◌≡◌, ◌≢◌, refl, ℕ_eq, String_eq,
}
use strangertv.Common.Maps.{get, put, remove}
use strangertv.Wire.{
  MatchPreferences, PublicUser, offerer, MatchMeta, GroupMatchPeer, local_side, private_group,
  offer, on_matched, on_peer_left, on_group_match_matched, on_group_match_created,
  on_group_match_participant_joined, on_group_match_participant_left,
  on_group_match_invite_received,
}
use strangertv.Common.Json.{Json}
use strangertv.Session.State.{
  Session, status, leave, group_leave, next, clear_webrtc, remove_peer, ready, emit, render,
  auto_decline, clear_peer_ui, clear_group_state,
}
use strangertv.Session.Run.{
  Event, run, react, handle, initial, calls, begins, resumes, resume, task_resumes, fire,
}
use strangertv.Session.Handlers
use strangertv.Session.Groups
use strangertv.Session.Commands
use strangertv.Session.Stop.{stop_is_final, stop_keeps_requeue}
use strangertv.Session.Leaving.{IsIdle, last_member_left}
use strangertv.Session.Members.{IsRoster}
use strangertv.Session.Once.{participants_once}
use strangertv.Session.Invites.{OneCountdown}
use strangertv.Session.Answered.{live_countdown, answered_invite_stays}

abbrev anything : MatchPreferences
anything = record {
  country = "any";
  language = "any";
  gender = "any";
  looking_for = "any";
  interests = [];
  allow_match_with_same_users = true;
  mode = "text";
  match_scope = "all";
  match_pool = "open";
}

abbrev ann : PublicUser
ann = record { id = 4; email = "ann" }

abbrev invited : List (ℕ × Event)
invited = (10, calls (on_group_match_invite_received "g" ann)) ∷ []

live_countdown_example : OneCountdown (run invited (initial anything))
live_countdown_example = live_countdown anything invited

-- Somebody joins, leaves and joins twice.
abbrev restless : List (ℕ × Event)
restless =
    (10, calls (on_group_match_participant_joined "g" 20 none))
    ∷ (20, calls (on_group_match_participant_left "g" 20 none))
    ∷ (30, calls (on_group_match_participant_joined "g" 20 none))
    ∷ (40, calls (on_group_match_participant_joined "g" 20 (some "ann")))
    ∷ []

participants_once_example : IsRoster (run restless (initial anything))
participants_once_example = participants_once anything restless

answered_invite_stays_example :
    let s : Session = run invited (initial anything) in
    (get 0 (Commands.accept_group_invite s).alarms ≢ some (auto_decline "g"))
    × (get 0 (Commands.decline_group_invite s).alarms ≢ some (auto_decline "g"))
unfolding run react handle render Groups.on_group_match_invite
answered_invite_stays_example =
    answered_invite_stays anything invited (record { room = "g"; host = ann }) 0 "g" refl

-- A match found while searching, and the peer who leaves it.
abbrev unknown : MatchMeta
unknown = record {
  peer_country = none;
  peer_email = none;
  peer_user_id = none;
  shared_interests = none;
  relationship = none;
}

abbrev deserted : Session
unfolding run react handle render Commands.begin_match resume task_resumes Commands.match_begins get
    put remove Handlers.on_matched Handlers.on_peer_left Handlers.goes_on Handlers.announce_match
    clear_peer_ui clear_group_state
deserted =
    run
      ((10, begins)
        ∷ (20, resumes 0 none true)
        ∷ (30, calls (on_matched "r" offerer unknown))
        ∷ (40, calls (on_peer_left (some "leave")))
        ∷ [])
      (initial anything)

stop_is_final_example :
    let stopped : Session = render 50 (Commands.stop deserted) in
    (Handlers.on_matched 60 "r" offerer unknown stopped ≡ emit leave stopped)
    × (Groups.on_group_match_matched 60 "r" [] [] 1 stopped ≡ emit leave stopped)
    × (Handlers.on_signal (record { kind = offer; content = Json.null }) none stopped ≡ stopped)
stop_is_final_example =
    stop_is_final 50 60 "r" offerer unknown [] [] 1 (record { kind = offer; content = Json.null })
      none deserted

stop_keeps_requeue_example :
    ((fire 0 (render 50 (Commands.stop deserted))).log
      ≡ (Commands.stop deserted).log ++ next deserted.prefs ∷ [])
    × ((Handlers.on_waiting 60 none none (fire 0 (render 50 (Commands.stop deserted)))).finding
        ≡ true)
unfolding deserted get put
stop_keeps_requeue_example = stop_keeps_requeue 50 60 0 none none deserted refl

-- A group room of two, whose other member has the id 2.
abbrev member : GroupMatchPeer
member = record {
  peer_id = 2;
  user_id = 20;
  email = none;
  country = none;
  role = offerer;
  side = some local_side;
}

abbrev together : Session
unfolding run react handle render Groups.on_group_match_created Groups.on_group_match_matched put
together =
    run
      ((10, calls (on_group_match_created "g" private_group))
        ∷ (20, calls (on_group_match_matched "g" offerer (member ∷ []) [] 1))
        ∷ [])
      (initial anything)

last_member_left_example :
    let t : Session = Groups.on_group_match_participant_left 20 (some 2) together in
    (t.log ≡ together.log ++ remove_peer 2 ∷ leave ∷ group_leave ∷ clear_webrtc ∷ status ready ∷ [])
    × IsIdle t
    × (t.finding ≡ false)
    × (t.group_room_id ≡ none)
unfolding together Groups.without_peer
last_member_left_example = last_member_left 20 2 together refl refl
