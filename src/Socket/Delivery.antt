-- ===== src/Socket/Delivery.antt =====
-- What reaches the wire, and what the handlers of src/hooks/useMatchSocket.ts let through.
use mathlib.Core.List.{append_assoc, append-nil}
use strangertv.Common.{
  ℕ, suc, List, [], ◌∷◌, ◌++◌, map, String, Option, none, some, ◌≡◌, refl, sym, ap, ◌∙◌, ℕ_eq,
  arith, nat_eq_iff, true,
}
use strangertv.Common.Maps.{get, put, get-put}
use strangertv.Wire.{ClientMessage, MatchPreferences, queue_join, room_next, ws_auth}
use strangertv.Socket.State.{
  Socket, Hook, connecting, opened, stop_heartbeat, send, ensure_socket, usable, frame,
}
use strangertv.Socket.Requests.{add_listener, join, next}
use strangertv.Socket.Events.{opened_handler, frames, socket_opens, set_socket}

-- The frames that `onopen` sends.
abbrev pub auth_frames : ℕ → Option String → List (ℕ × ClientMessage)
auth_frames id none = []
auth_frames id (some token) = (id, ws_auth token) ∷ []

abbrev pub on_wire : ℕ → List ClientMessage → List (ℕ × ClientMessage)
on_wire id messages = map (λ m. (id, m)) messages

frames-wire :
    (id : ℕ) (messages : List ClientMessage) (s : Hook)
    → (frames id messages s).wire ≡ s.wire ++ on_wire id messages
unfolding frames
frames-wire id [] s = sym (append-nil s.wire)
frames-wire id (message ∷ rest) s =
    frames-wire id rest (frame id message s)
    ∙ append_assoc s.wire ((id, message) ∷ []) (on_wire id rest)

opened_handler-wire :
    (id : ℕ) (token : Option String) (s : Hook)
    → s.current ≡ some id
    → (opened_handler id token s).wire ≡ s.wire ++ auth_frames id token
unfolding opened_handler stop_heartbeat
opened_handler-wire id token s c = ground (arith, nat_eq_iff id id, append-nil s.wire)

-- When the current socket opens, it sends the token, if there is one, and then what was asked for.
socket_opens-wire :
    (id : ℕ) (token : Option String) (on_open : List ClientMessage) (s : Hook)
    → s.current ≡ some id
    → get id s.sockets ≡ some (record { ready = connecting; attached = true; on_open = on_open })
    → (socket_opens id token s).wire ≡ s.wire ++ auth_frames id token ++ on_wire id on_open
unfolding socket_opens
socket_opens-wire id token on_open s c e =
    let t : Hook = set_socket id (record { ready = opened; attached = true; on_open = [] }) s in
    rw (e, socket_opens)
      (frames-wire id on_open (opened_handler id token t)
        ∙ ap (λ w. w ++ on_wire id on_open) (opened_handler-wire id token t c))

ensure_socket-usable :
    (s : Hook) (id : ℕ) → usable s.current s.sockets ≡ some id → ensure_socket s ≡ (s, id)
unfolding ensure_socket
ensure_socket-usable s id u = ground arith

usable_connecting :
    (current : Option ℕ) (sockets : List (ℕ × Socket)) (id : ℕ) (on_open : List ClientMessage)
    → current ≡ some id
    → get id sockets ≡ some (record { ready = connecting; attached = true; on_open = on_open })
    → usable current sockets ≡ some id
usable_connecting current sockets id on_open c e = rw (c, e) refl

join_connecting :
    (token : Option String) (preferences : MatchPreferences) (id : ℕ) (on_open : List ClientMessage)
    (s : Hook)
    → s.current ≡ some id
    → get id s.sockets ≡ some (record { ready = connecting; attached = true; on_open = on_open })
    → join token preferences s
      ≡ set_socket id
          (record {
            ready = connecting;
            attached = true;
            on_open = on_open ++ queue_join preferences token ∷ [];
          })
          s
unfolding join add_listener
join_connecting token preferences id on_open s c e =
    ap (λ x. add_listener x.1 (queue_join preferences token) x.0)
      (ensure_socket-usable s id (usable_connecting s.current s.sockets id on_open c e))
    ∙ rw (e, add_listener) refl

-- `join` while the socket is connecting: once it opens, the wire has the token, if there is one,
-- what was waiting, and the request, each once and in this order.
pub join_delivered :
    (token again : Option String) (preferences : MatchPreferences) (id : ℕ)
    (on_open : List ClientMessage) (s : Hook)
    → s.current ≡ some id
    → get id s.sockets ≡ some (record { ready = connecting; attached = true; on_open = on_open })
    → (socket_opens id again (join token preferences s)).wire
      ≡ s.wire ++ auth_frames id again ++ on_wire id (on_open ++ queue_join preferences token ∷ [])
join_delivered token again preferences id on_open s c e =
    let listeners : List ClientMessage = on_open ++ queue_join preferences token ∷ [] in
    let waiting : Socket = record { ready = connecting; attached = true; on_open = listeners } in
    rw (join_connecting token preferences id on_open s c e) (
      socket_opens-wire id again listeners (set_socket id waiting s) c
        (ground (arith, get-put id id waiting s.sockets, nat_eq_iff id id)))

abbrev fresh : Hook → Hook
fresh s = record s {
  current = some s.next_socket;
  sockets =
      put s.next_socket (record { ready = connecting; attached = true; on_open = [] }) s.sockets;
  next_socket = suc s.next_socket;
}

ensured :
    (s : Hook) → usable s.current s.sockets ≡ none → ensure_socket s ≡ (fresh s, s.next_socket)
unfolding ensure_socket
ensured s u = ground arith

found :
    (s : Hook)
    → get s.next_socket (fresh s).sockets
      ≡ some (record { ready = connecting; attached = true; on_open = [] })
found s = ground (
  arith,
  get-put s.next_socket s.next_socket (record { ready = connecting; attached = true; on_open = [] })
      s.sockets,
  nat_eq_iff s.next_socket s.next_socket,
)

send_connecting :
    (message : ClientMessage) (s : Hook) (id : ℕ)
    → s.current ≡ some id
    → get id s.sockets ≡ some (record { ready = connecting; attached = true; on_open = [] })
    → send message s ≡ s
unfolding send
send_connecting message s id c e = ground arith

-- `next` without a usable socket opens one and sends nothing: not at once, and not when that socket
-- opens, which sends the token only.
pub next_dropped :
    (token again : Option String) (preferences : MatchPreferences) (s : Hook)
    → usable s.current s.sockets ≡ none
    → (socket_opens s.next_socket again (next token preferences s)).wire
      ≡ s.wire ++ auth_frames s.next_socket again
unfolding next
next_dropped token again preferences s u =
    rw
      (
        next,
        ensured s u,
        send_connecting (room_next preferences token) (fresh s) s.next_socket refl (found s),
      )
      (socket_opens-wire s.next_socket again [] (fresh s) refl (found s)
        ∙ append-nil (s.wire ++ auth_frames s.next_socket again))
