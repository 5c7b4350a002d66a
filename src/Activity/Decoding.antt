-- ===== src/Activity/Decoding.antt =====
-- What src/activities/client.ts reads from its own messages.
use strangertv.Common.{List, [], ◌∷◌, some, ◌≡◌, refl, String_eq}
use strangertv.Activity.Messages.{
  ActivityPresenceUser, presence, host_json, users_json, as_users, as_presence,
}

-- A list of participants is read as it was written.
pub as_users-users_json : (us : List ActivityPresenceUser) → as_users (users_json us) ≡ some us
unfolding as_users users_json
as_users-users_json [] = refl
as_users-users_json (u ∷ us) = rw (as_users-users_json us) refl

pub as_presence-host_json :
    (us : List ActivityPresenceUser) → as_presence (host_json (presence us)) ≡ some us
unfolding as_presence host_json
as_presence-host_json us = as_users-users_json us
