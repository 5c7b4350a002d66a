-- ===== src/Socket/State.antt =====
-- The state of src/hooks/useMatchSocket.ts: the sockets that it has opened, its timers, the frames
-- on the wire and the handler calls. A socket and a timer are known by a number.
use strangertv.Common.{
  ℕ, suc, List, [], ◌∷◌, ◌++◌, Option, none, some, Bool, true, false, if◌then◌else◌, ◌==◌, ℕ_eq,
}
use strangertv.Common.Maps.{get, put, discard}
use strangertv.Wire.{ClientMessage, Call}

-- `readyState`; OPEN is `opened`.
pub data ReadyState : Type 0 where
  connecting opened closing closed : ReadyState

pub record Socket : Type 0 where
  pub ready : ReadyState
  -- whether `onopen`, `onclose`, `onerror` and `onmessage` are still set
  pub attached : Bool
  -- what the listeners that `join` adds send on `open`
  pub on_open : List ClientMessage

pub record Hook : Type 0 where
  pub current : Option ℕ
  pub sockets : List (ℕ × Socket)
  pub next_socket : ℕ
  pub connected : Bool
  pub heartbeat_timer : Option ℕ
  pub reconnect_timer : Option ℕ
  pub intervals : List ℕ
  pub timeouts : List ℕ
  pub next_timer : ℕ
  pub auth_identity : Option ℕ
  pub wire : List (ℕ × ClientMessage)
  pub calls : List Call

abbrev pub is_opened : ReadyState → Bool
is_opened opened = true
is_opened _ = false

abbrev pub is_connecting : ReadyState → Bool
is_connecting connecting = true
is_connecting _ = false

-- readyState <= WebSocket.OPEN
abbrev pub is_usable : ReadyState → Bool
is_usable connecting = true
is_usable opened = true
is_usable _ = false

abbrev pub ready_of : Option Socket → ReadyState
ready_of none = closed
ready_of (some ws) = ws.ready

-- The current socket, unless it is closing or closed.
abbrev pub usable : Option ℕ → List (ℕ × Socket) → Option ℕ
usable none sockets = none
usable (some id) sockets = if is_usable (ready_of (get id sockets)) then some id else none

-- The current socket, if it is open.
abbrev pub open_socket : Option ℕ → List (ℕ × Socket) → Option ℕ
open_socket none sockets = none
open_socket (some id) sockets = if is_opened (ready_of (get id sockets)) then some id else none

abbrev pub is_current : Option ℕ → ℕ → Bool
is_current none id = false
is_current (some current) id = current == id

abbrev pub frame : ℕ → ClientMessage → Hook → Hook
frame id message s = record s { wire = s.wire ++ (id, message) ∷ [] }

unfoldable pub stop_heartbeat : Hook → Hook
stop_heartbeat s = elim s.heartbeat_timer [
  | none ↦ s
  | some t ↦ record s { heartbeat_timer = none; intervals = discard t s.intervals }
]

unfoldable pub stop_reconnect : Hook → Hook
stop_reconnect s = elim s.reconnect_timer [
  | none ↦ s
  | some t ↦ record s { reconnect_timer = none; timeouts = discard t s.timeouts }
]

abbrev pub start_heartbeat : Hook → Hook
start_heartbeat s = record s {
  heartbeat_timer = some s.next_timer;
  intervals = s.intervals ++ s.next_timer ∷ [];
  next_timer = suc s.next_timer;
}

abbrev pub start_reconnect : Hook → Hook
start_reconnect s = record s {
  reconnect_timer = some s.next_timer;
  timeouts = s.timeouts ++ s.next_timer ∷ [];
  next_timer = suc s.next_timer;
}

unfoldable pub send : ClientMessage → Hook → Hook
send message s = elim (open_socket s.current s.sockets) [ none ↦ s | some id ↦ frame id message s ]

abbrev fresh_socket : Socket
fresh_socket = record { ready = connecting; attached = true; on_open = [] }

-- The hook and the socket that it hands out.
unfoldable pub ensure_socket : Hook → Hook × ℕ
ensure_socket s = elim (usable s.current s.sockets) [
  | some id ↦ (s, id)
  | none ↦ (
    record s {
      current = some s.next_socket;
      sockets = put s.next_socket fresh_socket s.sockets;
      next_socket = suc s.next_socket;
    },
    s.next_socket,
  )
]

-- `current.close()`, with the handlers detached first.
abbrev pub detach : Socket → Socket
detach ws = record ws { attached = false; ready = elim ws.ready [ closed ↦ closed | _ ↦ closing ] }

abbrev dropped : Hook → Hook
dropped s = record s { current = none; connected = false }

-- The rest of `disposeSocket`, for the socket that was current.
unfoldable pub dispose_current : Option ℕ → Hook → Hook
dispose_current none s = dropped s
dispose_current (some id) s = elim (get id s.sockets) [
  | none ↦ dropped s
  | some ws ↦ record (dropped s) { sockets = put id (detach ws) s.sockets }
]

unfoldable pub dispose_socket : Hook → Hook
unfolding stop_heartbeat stop_reconnect dispose_current
dispose_socket s =
    let stopped = stop_reconnect (stop_heartbeat s) in dispose_current stopped.current stopped
