-- ===== src/Party/Tests.antt =====
-- A party of two, and the next room.
use strangertv.Common.{
  ℕ, List, [], ◌∷◌, none, some, true, false, not, ◌&&◌, String, ◌==◌, ℕ_eq, ◌≡◌, refl,
}
use strangertv.Common.Maps.{has}
use strangertv.Session.State.{GroupMatchParticipant}
use strangertv.Party.Peers.{
  is_user, resolve_call_peers, peer_ids, IsUnique, takes_part, resolve_call_peers-Seats,
}
use strangertv.Party.State.{Instance, leave_instance, invite_room, Party, ready}
use strangertv.Party.Call.{Event, launched, joined, session_closed, room_is, steps, step}
use strangertv.Party.Quiet.{invites_of}
use strangertv.Party.Invites.{steps-invites_once}
use strangertv.Party.Rooms.{IsDropped, room_change-Drops}

abbrev member : ℕ → GroupMatchParticipant
member id = record { user_id = id; email = none; country = none }

abbrev same_text : String → String
same_text t = t

abbrev no_text : ℕ → String
no_text _ = ""

resolve_call_peers-Seats_example :
    let ps : List GroupMatchParticipant = member 4 ∷ member 0 ∷ member 5 ∷ member 4 ∷ [] in
    let ids : List ℕ = peer_ids (resolve_call_peers same_text no_text (some 5) none none ps) in
    IsUnique ids
    × ((id : ℕ)
        → has id ids ≡ (takes_part id none ps && not (is_user id (some 5)) && not (id == 0)))
resolve_call_peers-Seats_example =
    resolve_call_peers-Seats same_text no_text (some 5) none none
      (member 4 ∷ member 0 ∷ member 5 ∷ member 4 ∷ [])

abbrev chess : Instance
chess = record { id = 30; group_id = 8; activity_id = 1; created_by = 5 }

abbrev in_party : Party
in_party = record {
  room = some "a";
  matched = true;
  user_id = some 5;
  connected = true;
  peers = [];
  party_group = some 8;
  launcher_open = true;
  pending_invite = none;
  provisioning = false;
  provision_failed = false;
  join_id = none;
  sent_invites = [];
  catalog = 1 ∷ [];
  instances = [];
  state = ready;
  session = none;
  busy = true;
  has_failed = false;
  sent = [];
}

abbrev play_twice : List Event
play_twice =
    launched (1 ∷ []) (some chess)
    ∷ joined chess (some "code")
    ∷ session_closed
    ∷ joined chess (some "code")
    ∷ []

steps-invites_once_example : IsUnique (invites_of (steps play_twice in_party).sent)
steps-invites_once_example = steps-invites_once play_twice in_party (tt, (tt, (tt, (tt, tt)))) refl

abbrev playing : Party
playing = record in_party {
  session = some (record { instance_of = chess; activity = 1; code = "code" });
  sent_invites = 30 ∷ [];
}

room_change-Drops_example :
    IsDropped (step (room_is (some "b")) playing)
    × ((step (room_is (some "b")) playing).sent ≡ leave_instance 30 ∷ invite_room "b" 30 ∷ [])
room_change-Drops_example = room_change-Drops (some "b") playing refl
