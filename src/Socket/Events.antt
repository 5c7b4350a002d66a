-- ===== src/Socket/Events.antt =====
-- The events of sockets and timers, and the effects of src/hooks/useMatchSocket.ts.
use strangertv.Common.{
  ℕ, List, [], ◌∷◌, ◌++◌, Option, none, some, Bool, true, false, if◌then◌else◌, String, ◌==◌, ℕ_eq,
}
use strangertv.Common.Maps.{get, put, has, discard}
use strangertv.Wire.{ClientMessage, ServerMessage, Call, MatchPreferences, ws_auth, queue_heartbeat}
use strangertv.Socket.Dispatch.{dispatch}
use strangertv.Socket.Requests.{join}
use strangertv.Socket.State.{
  Socket, Hook, opened, closing, closed, is_connecting, is_usable, is_current, frame,
  stop_heartbeat, stop_reconnect, start_heartbeat, start_reconnect, send, ensure_socket,
  dispose_socket,
}

abbrev pub set_socket : ℕ → Socket → Hook → Hook
set_socket id ws s = record s { sockets = put id ws s.sockets }

abbrev send_token : ℕ → Option String → Hook → Hook
send_token id none s = s
send_token id (some token) s = frame id (ws_auth token) s

-- `ws.onopen`
unfoldable pub opened_handler : ℕ → Option String → Hook → Hook
unfolding stop_heartbeat
opened_handler id token s =
    if is_current s.current id
    then send_token id token (start_heartbeat (stop_heartbeat (record s { connected = true })))
    else s

-- What is left of the socket's handlers.
abbrev pub open_handlers : Bool → ℕ → Option String → Hook → Hook
open_handlers true id token s = opened_handler id token s
open_handlers false id token s = s

-- The listeners of `join`, in the order in which they were added.
unfoldable pub frames : ℕ → List ClientMessage → Hook → Hook
frames id [] s = s
frames id (message ∷ rest) s = frames id rest (frame id message s)

-- A connecting socket opens: `onopen`, if it is still set, and then the listeners, once.
unfoldable pub socket_opens : ℕ → Option String → Hook → Hook
unfolding opened_handler frames
socket_opens id token s = elim (get id s.sockets) [
  | none ↦ s
  | some ws ↦
      if is_connecting ws.ready
      then frames id ws.on_open (
          open_handlers ws.attached id token
            (set_socket id (record ws { ready = opened; on_open = [] }) s))
      else s
]

-- The server begins to close a socket: no handler is called.
unfoldable pub socket_shuts : ℕ → Hook → Hook
socket_shuts id s = elim (get id s.sockets) [
  | none ↦ s
  | some ws ↦ if is_usable ws.ready then set_socket id (record ws { ready = closing }) s else s
]

-- `ws.onclose`
unfoldable pub closed_handler : ℕ → Hook → Hook
unfolding stop_heartbeat stop_reconnect
closed_handler id s =
    if is_current s.current id
    then start_reconnect
        (stop_reconnect (stop_heartbeat (record s { current = none; connected = false })))
    else s

abbrev pub close_handlers : Bool → ℕ → Hook → Hook
close_handlers true id s = closed_handler id s
close_handlers false id s = s

unfoldable pub socket_closes : ℕ → Hook → Hook
unfolding closed_handler
socket_closes id s = elim (get id s.sockets) [
  | none ↦ s
  | some ws ↦ close_handlers ws.attached id (set_socket id (record ws { ready = closed }) s)
]

-- `ws.onerror`
unfoldable pub errored_handler : ℕ → Hook → Hook
errored_handler id s = if is_current s.current id then record s { connected = false } else s

unfoldable pub socket_errors : ℕ → Hook → Hook
unfolding errored_handler
socket_errors id s = elim (get id s.sockets) [
  | none ↦ s
  | some ws ↦ if ws.attached then errored_handler id s else s
]

abbrev call : Option Call → Hook → Hook
call none s = s
call (some c) s = record s { calls = s.calls ++ c ∷ [] }

-- `ws.onmessage`: `none` is a frame that JSON.parse refuses.
unfoldable pub message_handler : ℕ → Option ServerMessage → Hook → Hook
message_handler id none s = s
message_handler id (some message) s =
    if is_current s.current id then call (dispatch message) s else s

unfoldable pub socket_receives : ℕ → Option ServerMessage → Hook → Hook
unfolding message_handler
socket_receives id message s = elim (get id s.sockets) [
  | none ↦ s
  | some ws ↦ if ws.attached then message_handler id message s else s
]

-- A tick of a heartbeat interval that has not been cleared.
unfoldable pub interval_ticks : ℕ → Hook → Hook
unfolding has
interval_ticks t s = if has t s.intervals then send queue_heartbeat s else s

-- The timeout of a reconnect, if it has not been cleared.
unfoldable pub timeout_fires : ℕ → Hook → Hook
unfolding has discard
timeout_fires t s =
    if has t s.timeouts then (ensure_socket (record s { timeouts = discard t s.timeouts })).0 else s

unfoldable pub reconnect_for_auth_change : Hook → Hook
reconnect_for_auth_change s = (ensure_socket (dispose_socket s)).0

abbrev pub same_identity : Option ℕ → Option ℕ → Bool
same_identity none none = true
same_identity (some a) (some b) = a == b
same_identity _ _ = false

-- The effect on a change of the signed-in user.
unfoldable pub auth_changes : Option ℕ → Hook → Hook
unfolding reconnect_for_auth_change
auth_changes user s =
    if same_identity s.auth_identity user
    then s
    else reconnect_for_auth_change (record s { auth_identity = user })

-- The effect on mounting, and its clean-up.
unfoldable pub mount : Hook → Hook
mount s = (ensure_socket s).0

unfoldable pub unmount : Hook → Hook
unmount s = dispose_socket s

abbrev pub initial : Option ℕ → Hook
initial user = record {
  current = none;
  sockets = [];
  next_socket = 0;
  connected = false;
  heartbeat_timer = none;
  reconnect_timer = none;
  intervals = [];
  timeouts = [];
  next_timer = 0;
  auth_identity = user;
  wire = [];
  calls = [];
}

-- What can happen to the hook: a request other than `join` is `ensures`, if it makes a socket, and
-- `sends`.
pub data Event : Type 0 where
  opens : ℕ → Option String → Event
  shuts closes errors : ℕ → Event
  receives : ℕ → Option ServerMessage → Event
  ticks fires : ℕ → Event
  identity : Option ℕ → Event
  mounts unmounts : Event
  sends : ClientMessage → Event
  joins : Option String → MatchPreferences → Event
  ensures : Event

unfoldable pub step : Event → Hook → Hook
step (opens id token) s = socket_opens id token s
step (shuts id) s = socket_shuts id s
step (closes id) s = socket_closes id s
step (errors id) s = socket_errors id s
step (receives id message) s = socket_receives id message s
step (ticks t) s = interval_ticks t s
step (fires t) s = timeout_fires t s
step (identity user) s = auth_changes user s
step mounts s = mount s
step unmounts s = unmount s
step (sends message) s = send message s
step (joins token preferences) s = join token preferences s
step ensures s = (ensure_socket s).0

unfoldable pub run : List Event → Hook → Hook
run [] s = s
run (e ∷ es) s = run es (step e s)
