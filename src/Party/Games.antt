-- ===== src/Party/Games.antt =====
-- The operations of src/hooks/useActivities.ts on the group of the party. `none` is a request that
-- fails; an answer comes with what its handler has captured.
use strangertv.Common.{
  ℕ, List, [], ◌∷◌, ◌++◌, Option, none, some, Bool, true, false, String, ◌==◌, ℕ_eq, if◌then◌else◌,
  any, is_some,
}
use strangertv.Party.State.{
  LoadState, idle, loading, ready, failed, Instance, ActivitySession, list_instances,
  launch_activity, join_instance, leave_instance, end_instance, Party, send,
}

abbrev loading_from : LoadState → LoadState
loading_from ready = ready
loading_from _ = loading

-- `load`, for the group of its closure
unfoldable pub load_of : Option ℕ → Party → Party
load_of none s = s
load_of (some group) s = send (list_instances group) (record s { state = loading_from s.state })

unfoldable pub loaded : Option (List ℕ × List Instance) → Party → Party
loaded none s = record s { state = failed }
loaded (some (catalog, instances)) s = record s {
  catalog = catalog;
  instances = instances;
  state = ready;
}

abbrev pub is_group : Option ℕ → Option ℕ → Bool
is_group none none = true
is_group (some g) (some h) = g == h
is_group _ _ = false

-- The effect that runs when the group has changed.
unfoldable pub group_set : Option ℕ → Party → Party
group_set group s =
    if is_group group s.party_group
    then s
    else load_of group
        (record s { party_group = group; session = none; instances = []; state = idle })

unfoldable pub gone_wrong : Party → Party
gone_wrong s = record s { has_failed = true; busy = false }

-- `openSession` up to its request, within the `try` of `launch` and of `join`
unfoldable pub open_session : List ℕ → Instance → Party → Party
open_session catalog game s =
    if any (λ a. a == game.activity_id) catalog
    then send (join_instance game.id) s
    else gone_wrong s

abbrev pub launch_in : ℕ → Option ℕ → Party → Party
launch_in activity none s = s
launch_in activity (some group) s =
    if s.busy
    then s
    else send (launch_activity activity group) (record s { busy = true; has_failed = false })

unfoldable pub launch : ℕ → Party → Party
launch activity s = launch_in activity s.party_group s

unfoldable pub launch_answered : List ℕ → Option Instance → Party → Party
launch_answered catalog none s = gone_wrong s
launch_answered catalog (some game) s =
    open_session catalog game (record s { instances = s.instances ++ game ∷ [] })

abbrev pub find_game : ℕ → List Instance → Option Instance
find_game id [] = none
find_game id (g ∷ games) = if g.id == id then some g else find_game id games

abbrev pub open_found : List ℕ → Option Instance → Party → Party
open_found catalog none s = gone_wrong s
open_found catalog (some game) s = open_session catalog game s

unfoldable pub join : ℕ → Party → Party
join id s =
    if s.busy
    then s
    else open_found s.catalog (find_game id s.instances)
        (record s { busy = true; has_failed = false })

-- The answer of the request of `openSession`: the launch code.
unfoldable pub join_answered : Instance → Option String → Party → Party
join_answered game none s = gone_wrong s
join_answered game (some code) s = record s {
  session = some (record { instance_of = game; activity = game.activity_id; code = code });
  busy = false;
}

abbrev pub leave_of : Option ActivitySession → Party → Party
leave_of none s = s
leave_of (some session) s = send (leave_instance session.instance_of.id) s

-- `leaveSession` up to its request; afterwards it loads.
unfoldable pub leave_session : Party → Party
leave_session s = leave_of s.session (record s { session = none })

abbrev pub end_of : Option ActivitySession → Party → Party
end_of none s = s
end_of (some session) s = send (end_instance session.instance_of.id) (record s { busy = true })

-- `endSession` up to its request
unfoldable pub end_session : Party → Party
end_session s = end_of s.session s

-- What follows, whether it failed or not.
unfoldable pub end_answered : Option ℕ → Party → Party
end_answered group s = load_of group (record s { busy = false; session = none })

-- The listeners, which a group brings.
unfoldable pub activity_launched : Instance → Party → Party
activity_launched game s =
    if is_group (some game.group_id) s.party_group then load_of s.party_group s else s

abbrev pub without_game : ℕ → Option ActivitySession → Option ActivitySession
without_game id none = none
without_game id (some session) = if session.instance_of.id == id then none else some session

unfoldable pub activity_ended : ℕ → Party → Party
activity_ended id s =
    if is_some s.party_group
    then load_of s.party_group (record s { session = without_game id s.session })
    else s
