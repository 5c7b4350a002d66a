-- ===== src/Socket/Requests.antt =====
-- The requests of src/hooks/useMatchSocket.ts. `token` is what `getToken()` gives.
use strangertv.Common.{ℕ, [], ◌∷◌, ◌++◌, Option, none, some, String, if◌then◌else◌, ℕ_eq}
use strangertv.Common.Json.{Json}
use strangertv.Common.Maps.{get, put}
use strangertv.Wire.{
  ClientMessage, MatchPreferences, SignalPayload, Visibility, queue_join, queue_leave, room_next,
  room_leave, report, block, group_invite_send, group_invite_accept, group_invite_decline,
  activity_leave, activity_invite, group_match_create, group_match_invite,
  group_match_create_and_invite, group_match_join, group_match_start, group_match_leave,
  group_match_invite_decline, invitation_accept, invitation_decline,
}
use strangertv.Socket.State.{Hook, is_opened, frame, send, ensure_socket}

unfoldable pub send_signal : SignalPayload → Option ℕ → Hook → Hook
send_signal payload target s = send (ClientMessage.signal payload target) s

unfoldable pub add_listener : ℕ → ClientMessage → Hook → Hook
add_listener id message s = elim (get id s.sockets) [
  | none ↦ s
  | some ws ↦ if is_opened ws.ready then frame id message s else record s {
    sockets = put id (record ws { on_open = ws.on_open ++ message ∷ [] }) s.sockets;
  }
]

-- The payload goes out at once, or by a listener for `open`.
unfoldable pub join : Option String → MatchPreferences → Hook → Hook
join token preferences s =
    let (t, id) = ensure_socket s in add_listener id (queue_join preferences token) t

unfoldable pub next : Option String → MatchPreferences → Hook → Hook
next token preferences s = send (room_next preferences token) (ensure_socket s).0

unfoldable pub leave : Hook → Hook
leave s = send queue_leave (send room_leave s)

unfoldable pub send_report : String → Option String → Option ℕ → Hook → Hook
send_report reason detail user s = send (report reason detail user) s

unfoldable pub send_block : Option ℕ → Hook → Hook
send_block user s = send (block user) s

unfoldable pub group_invite : ℕ → ℕ → Hook → Hook
group_invite group user s = send (group_invite_send group user) s

unfoldable pub accept_group_invite : ℕ → Hook → Hook
accept_group_invite invite s = send (group_invite_accept invite) s

unfoldable pub decline_group_invite : ℕ → Hook → Hook
decline_group_invite invite s = send (group_invite_decline invite) s

unfoldable pub send_activity_state : ℕ → Json → Hook → Hook
send_activity_state instance_id state s = send (ClientMessage.activity_state instance_id state) s

unfoldable pub leave_activity : ℕ → Hook → Hook
leave_activity instance_id s = send (activity_leave instance_id) s

unfoldable pub invite_to_activity : String → ℕ → Hook → Hook
invite_to_activity room instance_id s = send (activity_invite room instance_id) s

unfoldable pub create_group_match : Option String → Visibility → MatchPreferences → Hook → Hook
create_group_match token visibility preferences s =
    send (group_match_create visibility preferences token) (ensure_socket s).0

unfoldable pub invite_to_group_match : Option String → String → ℕ → Hook → Hook
invite_to_group_match token room user s = send (group_match_invite room user token) s

unfoldable pub create_group_match_and_invite :
    Option String → Visibility → MatchPreferences → Option ℕ → Hook → Hook
create_group_match_and_invite token visibility preferences user s =
    send (group_match_create_and_invite visibility preferences user token) (ensure_socket s).0

unfoldable pub join_group_match : Option String → String → Hook → Hook
join_group_match token room s = send (group_match_join room token) (ensure_socket s).0

unfoldable pub start_group_match : String → Hook → Hook
start_group_match room s = send (group_match_start room) s

unfoldable pub leave_group_match : Hook → Hook
leave_group_match s = send group_match_leave s

unfoldable pub decline_group_match : String → Hook → Hook
decline_group_match room s = send (group_match_invite_decline room) s

unfoldable pub send_invitation : ℕ → String → Hook → Hook
send_invitation user room s = send (ClientMessage.invitation_send user room) s

unfoldable pub accept_invitation : ℕ → String → Hook → Hook
accept_invitation invitation room s = send (invitation_accept invitation room) s

unfoldable pub decline_invitation : ℕ → Hook → Hook
decline_invitation invitation s = send (invitation_decline invitation) s
