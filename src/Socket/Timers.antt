-- ===== src/Socket/Timers.antt =====
-- The timers of src/hooks/useMatchSocket.ts.
use strangertv.Common.{
  ℕ, List, [], ◌∷◌, String, Option, none, some, ◌≡◌, refl, ◌⊎◌, inl, inr, ℕ_eq, arith, Option-cases,
  Bool-cases, Bool, true, false,
}
use strangertv.Common.Maps.{get, has, discard}
use strangertv.Wire.{ClientMessage, ServerMessage, MatchPreferences, queue_heartbeat, queue_join}
use strangertv.Socket.Requests.{add_listener, join}
use strangertv.Socket.State.{
  Hook, stop_heartbeat, stop_reconnect, send, ensure_socket, dispose_socket, frame, is_connecting,
}
use strangertv.Socket.Events.{
  opened_handler, frames, socket_opens, socket_shuts, closed_handler, socket_closes, socket_errors,
  socket_receives, interval_ticks, timeout_fires, reconnect_for_auth_change, auth_changes, mount,
  unmount, Event, step, run, initial, opens, shuts, closes, errors, receives, ticks, fires,
  identity, mounts, unmounts, sends, joins, ensures, open_handlers, same_identity, errored_handler,
  message_handler,
}

abbrev pub listed : Option ℕ → List ℕ
listed none = []
listed (some t) = t ∷ []

-- The heartbeat that the hook knows is the only interval.
abbrev pub OneHeartbeat : Hook → Type 0
OneHeartbeat s = s.intervals ≡ listed s.heartbeat_timer

-- No timeout waits but the reconnect that the hook knows.
abbrev pub OneReconnect : Hook → Type 0
OneReconnect s = (s.timeouts ≡ []) ⊎ (s.timeouts ≡ listed s.reconnect_timer)

-- One of each kind at the most.
abbrev pub HasTimers : Hook → Type 0
HasTimers s = OneHeartbeat s × OneReconnect s

stop_heartbeat-HasTimers : (s : Hook) → HasTimers s → HasTimers (stop_heartbeat s)
unfolding stop_heartbeat discard
stop_heartbeat-HasTimers s h = ground arith

stop_reconnect-HasTimers : (s : Hook) → HasTimers s → HasTimers (stop_reconnect s)
unfolding stop_reconnect discard
stop_reconnect-HasTimers s h = ground arith

closed_handler-HasTimers : (id : ℕ) (s : Hook) → HasTimers s → HasTimers (closed_handler id s)
unfolding stop_heartbeat stop_reconnect closed_handler discard
closed_handler-HasTimers id s h = ground arith

opened_handler-HasTimers :
    (id : ℕ) (token : Option String) (s : Hook)
    → HasTimers s
    → HasTimers (opened_handler id token s)
unfolding stop_heartbeat opened_handler discard
opened_handler-HasTimers id token s h = ground arith

send-HasTimers : (message : ClientMessage) (s : Hook) → HasTimers s → HasTimers (send message s)
unfolding send
send-HasTimers message s h = ground arith

ensure_socket-HasTimers : (s : Hook) → HasTimers s → HasTimers (ensure_socket s).0
unfolding ensure_socket
ensure_socket-HasTimers s h = ground arith

dispose_socket-HasTimers : (s : Hook) → HasTimers s → HasTimers (dispose_socket s)
unfolding stop_heartbeat stop_reconnect dispose_socket discard
dispose_socket-HasTimers s h = ground arith

frames-HasTimers :
    (id : ℕ) (messages : List ClientMessage) (s : Hook)
    → HasTimers s
    → HasTimers (frames id messages s)
unfolding frames
frames-HasTimers id [] s h = h
frames-HasTimers id (message ∷ rest) s h = frames-HasTimers id rest (frame id message s) h

socket_shuts-HasTimers : (id : ℕ) (s : Hook) → HasTimers s → HasTimers (socket_shuts id s)
unfolding socket_shuts
socket_shuts-HasTimers id s h = ground arith

socket_closes-HasTimers : (id : ℕ) (s : Hook) → HasTimers s → HasTimers (socket_closes id s)
unfolding stop_heartbeat stop_reconnect closed_handler socket_closes discard
socket_closes-HasTimers id s h = ground arith

socket_errors-HasTimers : (id : ℕ) (s : Hook) → HasTimers s → HasTimers (socket_errors id s)
unfolding socket_errors errored_handler
socket_errors-HasTimers id s h = ground arith

socket_receives-HasTimers :
    (id : ℕ) (message : Option ServerMessage) (s : Hook)
    → HasTimers s
    → HasTimers (socket_receives id message s)
unfolding socket_receives message_handler
socket_receives-HasTimers id message s h = ground arith

interval_ticks-HasTimers : (t : ℕ) (s : Hook) → HasTimers s → HasTimers (interval_ticks t s)
unfolding interval_ticks
interval_ticks-HasTimers t s h = ground (arith, send-HasTimers queue_heartbeat s)

timeout_fires-HasTimers : (t : ℕ) (s : Hook) → HasTimers s → HasTimers (timeout_fires t s)
unfolding ensure_socket timeout_fires discard has
timeout_fires-HasTimers t s h = ground arith

open_handlers-HasTimers :
    (attached : Bool) (id : ℕ) (token : Option String) (s : Hook)
    → HasTimers s
    → HasTimers (open_handlers attached id token s)
open_handlers-HasTimers true id token s h = opened_handler-HasTimers id token s h
open_handlers-HasTimers false id token s h = h

socket_opens-HasTimers :
    (id : ℕ) (token : Option String) (s : Hook) → HasTimers s → HasTimers (socket_opens id token s)
unfolding socket_opens
socket_opens-HasTimers id token s h = elim (Option-cases (get id s.sockets)) [
  | inl e ↦ rw (e, socket_opens) h
  | inr (ws, e) ↦ elim (Bool-cases (is_connecting ws.ready)) [
    | inl c ↦
        rw (e, socket_opens, c)
          (frames-HasTimers id ws.on_open _ (open_handlers-HasTimers ws.attached id token _ h))
    | inr c ↦ rw (e, socket_opens, c) h
  ]
]

reconnect_for_auth_change-HasTimers :
    (s : Hook) → HasTimers s → HasTimers (reconnect_for_auth_change s)
unfolding reconnect_for_auth_change
reconnect_for_auth_change-HasTimers s h =
    ensure_socket-HasTimers (dispose_socket s) (dispose_socket-HasTimers s h)

auth_changes-HasTimers :
    (user : Option ℕ) (s : Hook) → HasTimers s → HasTimers (auth_changes user s)
unfolding auth_changes
auth_changes-HasTimers user s h = elim (Bool-cases (same_identity s.auth_identity user)) [
  | inl same ↦ rw (same, auth_changes) h
  | inr other ↦
      rw (other, auth_changes)
        (reconnect_for_auth_change-HasTimers (record s { auth_identity = user }) h)
]

add_listener-HasTimers :
    (id : ℕ) (message : ClientMessage) (s : Hook)
    → HasTimers s
    → HasTimers (add_listener id message s)
unfolding add_listener
add_listener-HasTimers id message s h = ground arith

join-HasTimers :
    (token : Option String) (preferences : MatchPreferences) (s : Hook)
    → HasTimers s
    → HasTimers (join token preferences s)
unfolding join
join-HasTimers token preferences s h =
    add_listener-HasTimers (ensure_socket s).1 (queue_join preferences token) (ensure_socket s).0
      (ensure_socket-HasTimers s h)

step-HasTimers : (e : Event) (s : Hook) → HasTimers s → HasTimers (step e s)
unfolding step mount unmount
step-HasTimers (opens id token) s h = socket_opens-HasTimers id token s h
step-HasTimers (shuts id) s h = socket_shuts-HasTimers id s h
step-HasTimers (closes id) s h = socket_closes-HasTimers id s h
step-HasTimers (errors id) s h = socket_errors-HasTimers id s h
step-HasTimers (receives id message) s h = socket_receives-HasTimers id message s h
step-HasTimers (ticks t) s h = interval_ticks-HasTimers t s h
step-HasTimers (fires t) s h = timeout_fires-HasTimers t s h
step-HasTimers (identity user) s h = auth_changes-HasTimers user s h
step-HasTimers mounts s h = ensure_socket-HasTimers s h
step-HasTimers unmounts s h = dispose_socket-HasTimers s h
step-HasTimers (sends message) s h = send-HasTimers message s h
step-HasTimers (joins token preferences) s h = join-HasTimers token preferences s h
step-HasTimers ensures s h = ensure_socket-HasTimers s h

pub run-HasTimers : (es : List Event) (s : Hook) → HasTimers s → HasTimers (run es s)
unfolding run
run-HasTimers [] s h = h
run-HasTimers (e ∷ es) s h = run-HasTimers es (step e s) (step-HasTimers e s h)

-- Whatever happens from the hook's first render on, its own requests included, at most one heartbeat interval is live, the one
-- that the hook can clear, and at most one reconnect is pending, the one that it can clear.
pub live_timers : (user : Option ℕ) (es : List Event) → HasTimers (run es (initial user))
live_timers user es = run-HasTimers es (initial user) (refl, inl refl)
