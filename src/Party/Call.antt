-- ===== src/Party/Call.antt =====
-- The operations and effects of src/hooks/useCallParty.ts.
use strangertv.Common.{
  ℕ, List, [], ◌∷◌, ◌++◌, Option, none, some, Bool, true, false, not, ◌&&◌, ◌||◌, String, ◌==◌,
  ℕ_eq, String_eq, if◌then◌else◌, any, is_some, map,
}
use strangertv.Common.Maps.{has}
use strangertv.Party.Peers.{CallPeer, is_user}
use strangertv.Party.State.{
  Instance, ActivitySession, Invite, create_group, invite_room, Party, send,
}
use strangertv.Party.Games.{
  load_of, loaded, group_set, launch, launch_answered, join, join_answered, leave_session,
  end_session, end_answered, activity_launched, activity_ended,
}

abbrev pub is_room : Option String → Option String → Bool
is_room none none = true
is_room (some a) (some b) = a == b
is_room _ _ = false

abbrev pub plays : ℕ → Option ActivitySession → Bool
plays id none = false
plays id (some session) = session.instance_of.id == id

abbrev pub has_peers : List CallPeer → Bool
has_peers [] = false
has_peers (_ ∷ _) = true

-- `openLauncher` up to its request
unfoldable pub open_launcher : Party → Party
open_launcher s =
    let able : Bool = s.matched && is_some s.room && is_some s.user_id in
    let asks : Bool = able && not (is_some s.party_group) && has_peers s.peers in
    record s {
      launcher_open = able || s.launcher_open;
      provision_failed = not able && s.provision_failed;
      provisioning = asks || s.provisioning;
      sent =
          if asks
          then s.sent ++ create_group (map (λ (p : CallPeer). p.user_id) s.peers) ∷ []
          else s.sent;
    }

abbrev pub provided : Option ℕ → Party → Party
provided none s = record s { provision_failed = true; provisioning = false }
provided (some group) s = group_set (some group) (record s { provisioning = false })

-- The answer for the room that `openLauncher` has captured.
unfoldable pub group_created : String → Option ℕ → Party → Party
group_created room answer s = if is_room s.room (some room) then provided answer s else s

unfoldable pub launch_party_game : ℕ → Party → Party
launch_party_game activity s =
    if is_some s.party_group && is_some s.room then launch activity s else s

abbrev pub invites : Option ActivitySession → Option String → Party → Party
invites (some session) (some room) s =
    let id : ℕ = session.instance_of.id in
    if s.connected
      && is_user session.instance_of.created_by s.user_id
      && not (has id s.sent_invites)
    then send (invite_room room id) (record s { sent_invites = id ∷ s.sent_invites })
    else s
invites _ _ s = s

-- The effect that invites the room, with the session of the render it belongs to.
unfoldable pub invite_effect : Option ActivitySession → Party → Party
invite_effect session s = invites session s.room s

abbrev pub joins : Option ℕ → Party → Party
joins none s = s
joins (some id) s =
    if any (λ (g : Instance). g.id == id) s.instances
    then join id (record s { join_id = none })
    else s

-- The effect that joins what was accepted, once it is listed.
unfoldable pub join_effect : Party → Party
join_effect s = joins s.join_id s

unfoldable pub effects : Party → Party
effects s = join_effect (invite_effect s.session s)

-- The effect of a new room.
unfoldable pub party_dropped : Option String → Party → Party
party_dropped room s = record (leave_session (record s { room = room })) {
  launcher_open = false;
  pending_invite = none;
  provisioning = false;
  provision_failed = false;
  join_id = none;
  sent_invites = [];
}

-- A new room: its effect, then that of the invitations, which still has the session of this render;
-- what they have set comes with the next one.
unfoldable pub room_changed : Option String → Party → Party
room_changed room s =
    if is_room room s.room
    then s
    else group_set none (invite_effect s.session (party_dropped room s))

abbrev pub same_invite : Option Invite → Invite → Bool
same_invite none invite = false
same_invite (some cur) invite = cur.game.id == invite.game.id

unfoldable pub invite_received : Invite → Party → Party
invite_received invite s =
    if is_room s.room (some invite.room)
      && not (plays invite.game.id s.session)
      && not (same_invite s.pending_invite invite)
    then record s { pending_invite = some invite }
    else s

abbrev pub accepts : Option Invite → Option ℕ → Party → Party
accepts (some invite) (some me) s =
    record (group_set (some invite.game.group_id) (record s { pending_invite = none })) {
      join_id = some invite.game.id;
      launcher_open = true;
    }
accepts _ _ s = s

unfoldable pub accept_invite : Party → Party
accept_invite s = accepts s.pending_invite s.user_id s

-- What the user does, what is answered, and what comes by itself.
pub data Event : Type 0 where
  launcher_opened launcher_closed accepted declined session_left session_ended session_closed :
      Event
  created : String → Option ℕ → Event
  listed : Option (List ℕ × List Instance) → Event
  game_picked game_joined game_over : ℕ → Event
  launched : List ℕ → Option Instance → Event
  joined : Instance → Option String → Event
  left ended : Option ℕ → Event
  started : Instance → Event
  invited : Invite → Event
  room_is : Option String → Event
  props_are : Bool → Option ℕ → Bool → List CallPeer → Event

unfoldable pub act : Event → Party → Party
act launcher_opened s = open_launcher s
act launcher_closed s = record s { launcher_open = false }
act accepted s = accept_invite s
act declined s = record s { pending_invite = none }
act session_left s = leave_session s
act session_ended s = end_session s
act session_closed s = record s { session = none }
act (created room answer) s = group_created room answer s
act (listed answer) s = loaded answer s
act (game_picked activity) s = launch_party_game activity s
act (game_joined id) s = join id s
act (game_over id) s = activity_ended id s
act (launched catalog answer) s = launch_answered catalog answer s
act (joined game answer) s = join_answered game answer s
act (left group) s = load_of group s
act (ended group) s = end_answered group s
act (started game) s = activity_launched game s
act (invited invite) s = invite_received invite s
act (room_is room) s = room_changed room s
act (props_are matched user connected peers) s = record s {
  matched = matched;
  user_id = user;
  connected = connected;
  peers = peers;
}

-- An event, and the effects of the render that it brings.
unfoldable pub step : Event → Party → Party
step e s = effects (act e s)

unfoldable pub steps : List Event → Party → Party
steps [] s = s
steps (e ∷ rest) s = steps rest (step e s)
