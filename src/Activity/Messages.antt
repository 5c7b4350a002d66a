-- ===== src/Activity/Messages.antt =====
-- The messages of src/activities/client.ts: how they are built, and how what arrives is read.
use strangertv.Common.{
  List, [], ◌∷◌, Option, none, some, Bool, false, ◌&&◌, String, ◌==◌, String_eq, if◌then◌else◌,
}
use strangertv.Common.Json.{
  Json, obj, str, num, arr, Items, nil, cons, Fields, end, field, Number, prop, is_record,
  as_number, as_string,
}

pub record ActivityPresenceUser : Type 0 where
  pub user_id : Number
  pub name : String

-- What `init`, `pushState`, `pushPresence` and `pushEnded` send.
pub data HostMessage : Type 0 where
  init : String → Number → HostMessage
  state : Number → Json → HostMessage
  presence : List ActivityPresenceUser → HostMessage
  ended : HostMessage

-- What `ready`, `publish` and `leave` of the game send.
pub data GuestMessage : Type 0 where
  ready : GuestMessage
  publish : Json → GuestMessage
  leave : GuestMessage

abbrev typed : String → Fields → Json
typed type rest = obj (field "type" (str type) rest)

abbrev pub user_json : ActivityPresenceUser → Json
user_json u = obj (field "userId" (num u.user_id) (field "name" (str u.name) end))

unfoldable pub users_json : List ActivityPresenceUser → Items
users_json [] = nil
users_json (u ∷ us) = cons (user_json u) (users_json us)

unfoldable pub host_json : HostMessage → Json
unfolding users_json
host_json (init code instance_id) =
    typed "activity:init" (field "code" (str code) (field "instanceId" (num instance_id) end))
host_json (state user s) = typed "activity:state" (field "userId" (num user) (field "state" s end))
host_json (presence users) =
    typed "activity:presence" (field "participants" (arr (users_json users)) end)
host_json ended = typed "activity:ended" end

unfoldable pub guest_json : GuestMessage → Json
guest_json ready = typed "activity:ready" end
guest_json (publish s) = typed "activity:publish" (field "state" s end)
guest_json leave = typed "activity:leave" end

abbrev is_string : String → Option String → Bool
is_string name none = false
is_string name (some s) = s == name

-- `asType`
unfoldable pub as_type : Json → String → Bool
as_type v type = is_record v && is_string type (as_string (prop v "type"))

abbrev init_of : Option String → Option Number → Option (String × Number)
init_of (some code) (some instance_id) = if code == "" then none else some (code, instance_id)
init_of _ _ = none

unfoldable pub as_init : Json → Option (String × Number)
unfolding as_type
as_init v =
    if as_type v "activity:init"
    then init_of (as_string (prop v "code")) (as_number (prop v "instanceId"))
    else none

abbrev state_of : Option Number → Option Json → Option (Number × Json)
state_of (some user) (some s) = some (user, s)
state_of _ _ = none

unfoldable pub as_state : Json → Option (Number × Json)
unfolding as_type
as_state v =
    if as_type v "activity:state"
    then state_of (as_number (prop v "userId")) (prop v "state")
    else none

abbrev user_of : Json → Option Number → Option String → Option ActivityPresenceUser
user_of v (some user) (some name) =
    if is_record v then some (record { user_id = user; name = name }) else none
user_of v _ _ = none

abbrev pub as_user : Json → Option ActivityPresenceUser
as_user v = user_of v (as_number (prop v "userId")) (as_string (prop v "name"))

abbrev prepend :
    Option ActivityPresenceUser
    → Option (List ActivityPresenceUser)
    → Option (List ActivityPresenceUser)
prepend (some u) (some us) = some (u ∷ us)
prepend _ _ = none

-- The loop over the participants; one that is malformed refuses them all.
unfoldable pub as_users : Items → Option (List ActivityPresenceUser)
as_users nil = some []
as_users (cons v vs) = prepend (as_user v) (as_users vs)

abbrev participants_of : Option Json → Option (List ActivityPresenceUser)
unfolding as_users
participants_of (some (arr items)) = as_users items
participants_of _ = none

unfoldable pub as_presence : Json → Option (List ActivityPresenceUser)
unfolding as_type participants_of as_users
as_presence v =
    if as_type v "activity:presence" then participants_of (prop v "participants") else none

unfoldable pub as_publish : Json → Option Json
unfolding as_type
as_publish v = if as_type v "activity:publish" then prop v "state" else none
