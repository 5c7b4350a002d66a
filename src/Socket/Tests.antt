-- ===== src/Socket/Tests.antt =====
-- Runs of src/hooks/useMatchSocket.ts.
use strangertv.Common.{List, [], ◌∷◌, none, some, ◌≡◌, refl, true, ℕ_eq}
use strangertv.Common.Maps.{get, put, has, discard}
use strangertv.Wire.{MatchPreferences, queue_join, ws_auth}
use strangertv.Socket.State.{
  Socket, Hook, connecting, stop_heartbeat, stop_reconnect, ensure_socket, dispose_current,
  dispose_socket,
}
use strangertv.Socket.Requests.{join, next}
use strangertv.Socket.Events.{
  Event, run, step, initial, mounts, opens, closes, fires, identity, socket_opens, socket_closes,
  opened_handler, closed_handler, frames, timeout_fires, auth_changes, reconnect_for_auth_change,
  mount,
}
use strangertv.Socket.Timers.{HasTimers, live_timers}
use strangertv.Socket.Delivery.{join_delivered, next_dropped}

abbrev anything : MatchPreferences
anything = record {
  country = "any";
  language = "any";
  gender = "any";
  looking_for = "any";
  interests = [];
  allow_match_with_same_users = true;
  mode = "text";
  match_scope = "all";
  match_pool = "open";
}

abbrev mounted : Hook
unfolding step mount ensure_socket put get
mounted = step mounts (initial none)

-- A connection that opens, breaks, is made again after the timeout, and is replaced on a login.
abbrev login : List Event
login =
    mounts
    ∷ opens 0 none
    ∷ closes 0
    ∷ fires 1
    ∷ opens 1 none
    ∷ identity (some 7)
    ∷ opens 2 (some "t")
    ∷ []

login_timers : (run login (initial none)).intervals ≡ 3 ∷ []
unfolding run step mount ensure_socket put get has discard socket_opens opened_handler frames
    socket_closes closed_handler stop_heartbeat stop_reconnect timeout_fires auth_changes
    reconnect_for_auth_change dispose_socket dispose_current
login_timers = refl

live_timers_example : HasTimers (run login (initial none))
live_timers_example = live_timers none login

join_delivered_example :
    (socket_opens 0 (some "t") (join none anything mounted)).wire
    ≡ (0, ws_auth "t") ∷ (0, queue_join anything none) ∷ []
unfolding get put mounted
join_delivered_example = join_delivered none (some "t") anything 0 [] mounted refl refl

next_dropped_example :
    (socket_opens 0 (some "t") (next none anything (initial none))).wire ≡ (0, ws_auth "t") ∷ []
next_dropped_example = next_dropped none (some "t") anything (initial none) refl

abbrev replaced : Socket
replaced = record { ready = connecting; attached = true; on_open = [] }

abbrev stale : Hook
unfolding step mount ensure_socket put get
stale = record mounted { current = some 5 }
