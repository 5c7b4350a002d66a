-- ===== src/Wire.antt =====
-- The messages of the WebSocket: shared/types.ts, shared/generated/ClientMessage.ts and
-- ServerMessage.ts, with the names of WS_MESSAGE_TYPE in shared/constants.ts. Values that the client
-- only hands on are the JSON that they were parsed from.
use strangertv.Common.{ℕ, List, Option, Bool, String}
use strangertv.Common.Json.{Json}

pub record MatchPreferences : Type 0 where
  pub country : String
  pub language : String
  pub gender : String
  pub looking_for : String
  pub interests : List String
  pub allow_match_with_same_users : Bool
  pub mode : String
  pub match_scope : String
  pub match_pool : String

pub record PublicUser : Type 0 where
  pub id : ℕ
  pub email : String

pub data SignalKind : Type 0 where
  offer answer candidate : SignalKind

pub record SignalPayload : Type 0 where
  pub kind : SignalKind
  pub content : Json

pub data Role : Type 0 where
  offerer answerer : Role

pub data Side : Type 0 where
  local_side remote_side : Side

pub data Visibility : Type 0 where
  public_group private_group : Visibility

pub record GroupMatchPeer : Type 0 where
  pub peer_id : ℕ
  pub user_id : ℕ
  pub email : Option String
  pub country : Option String
  pub role : Role
  pub side : Option Side

-- What a match tells about the peer.
pub record MatchMeta : Type 0 where
  pub peer_country : Option String
  pub peer_email : Option String
  pub peer_user_id : Option ℕ
  pub shared_interests : Option (List String)
  pub relationship : Option String

pub data ClientMessage : Type 0 where
  ws_auth : String → ClientMessage
  queue_join : MatchPreferences → Option String → ClientMessage
  queue_leave : ClientMessage
  queue_heartbeat : ClientMessage
  room_next : MatchPreferences → Option String → ClientMessage
  room_leave : ClientMessage
  signal : SignalPayload → Option ℕ → ClientMessage
  chat : String → String → ClientMessage
  report : String → Option String → Option ℕ → ClientMessage
  block : Option ℕ → ClientMessage
  telemetry_quality : Option String → String → ClientMessage
  group_invite_send : ℕ → ℕ → ClientMessage
  group_invite_accept : ℕ → ClientMessage
  group_invite_decline : ℕ → ClientMessage
  activity_state : ℕ → Json → ClientMessage
  activity_leave : ℕ → ClientMessage
  activity_invite : String → ℕ → ClientMessage
  group_match_create : Visibility → MatchPreferences → Option String → ClientMessage
  group_match_invite : String → ℕ → Option String → ClientMessage
  group_match_create_and_invite :
      Visibility → MatchPreferences → Option ℕ → Option String → ClientMessage
  group_match_join : String → Option String → ClientMessage
  group_match_start : String → ClientMessage
  group_match_leave : ClientMessage
  group_match_invite_decline : String → ClientMessage
  invitation_send : ℕ → String → ClientMessage
  invitation_accept : ℕ → String → ClientMessage
  invitation_decline : ℕ → ClientMessage

pub data ServerMessage : Type 0 where
  queue_waiting : Option ℕ → Option ℕ → ServerMessage
  room_matched : String → Role → MatchMeta → ServerMessage
  room_peer_left : Option String → ServerMessage
  signal : SignalPayload → Option ℕ → ServerMessage
  chat : String → String → ServerMessage
  stats : ℕ → ℕ → ServerMessage
  error : String → String → ServerMessage
  report_ack : ServerMessage
  block_ack : ServerMessage
  server_draining : Option String → ServerMessage
  group_message_new : Json → ServerMessage
  friend_request : ℕ → PublicUser → ServerMessage
  friend_accepted : ℕ → PublicUser → ServerMessage
  friend_declined : ℕ → ServerMessage
  friend_removed : ℕ → ServerMessage
  message_new : Json → ServerMessage
  invitation_send : ℕ → String → PublicUser → ServerMessage
  invitation_accepted : ℕ → String → ServerMessage
  invitation_declined : ℕ → ServerMessage
  group_invite : ℕ → ℕ → String → PublicUser → ServerMessage
  group_invite_accepted : ℕ → ℕ → ℕ → ServerMessage
  group_invite_declined : ℕ → ℕ → ℕ → ServerMessage
  group_match_created : String → Visibility → ServerMessage
  group_match_participant_joined : String → ℕ → Option String → ServerMessage
  group_match_participant_left : String → ℕ → Option ℕ → ServerMessage
  group_match_invite_received : String → PublicUser → ServerMessage
  group_match_invite_sent : ℕ → ServerMessage
  group_match_invite_declined : String → ServerMessage
  presence_list : List ℕ → ServerMessage
  presence_online : ℕ → ServerMessage
  presence_offline : ℕ → ServerMessage
  group_match_matched : String → Role → List GroupMatchPeer → List String → ℕ → ServerMessage
  activity_state : ℕ → ℕ → Json → ServerMessage
  activity_presence : ℕ → Json → ServerMessage
  activity_ended : ℕ → ServerMessage
  activity_launched : Json → Json → ServerMessage
  activity_invited : String → Json → Json → PublicUser → ServerMessage
  -- a type that the client does not handle
  unhandled : String → ServerMessage

-- The calls of the handlers that `useMatchSocket` is given.
pub data Call : Type 0 where
  on_waiting : Option ℕ → Option ℕ → Call
  on_matched : String → Role → MatchMeta → Call
  on_peer_left : Option String → Call
  on_signal : SignalPayload → Option ℕ → Call
  on_chat : String → String → Call
  on_stats : ℕ → ℕ → Call
  on_error : String → String → Call
  on_report_ack : Call
  on_block_ack : Call
  on_draining : Option String → Call
  on_group_message : Json → Call
  on_friend_request : ℕ → PublicUser → Call
  on_friend_accepted : ℕ → PublicUser → Call
  on_friend_declined : ℕ → Call
  on_friend_removed : ℕ → Call
  on_message_new : Json → Call
  on_invitation : ℕ → String → PublicUser → Call
  on_invitation_accepted : ℕ → String → Call
  on_invitation_declined : ℕ → Call
  on_group_invite : ℕ → ℕ → String → PublicUser → Call
  on_group_invite_accepted : ℕ → ℕ → ℕ → Call
  on_group_invite_declined : ℕ → ℕ → ℕ → Call
  on_group_match_created : String → Visibility → Call
  on_group_match_participant_joined : String → ℕ → Option String → Call
  on_group_match_participant_left : String → ℕ → Option ℕ → Call
  on_group_match_invite_received : String → PublicUser → Call
  on_group_match_invite_sent : ℕ → Call
  on_group_match_invite_declined : String → Call
  on_group_match_matched : String → Role → List GroupMatchPeer → List String → ℕ → Call
  on_presence_list : List ℕ → Call
  on_presence_change : ℕ → Bool → Call
  on_activity_state : ℕ → ℕ → Json → Call
  on_activity_presence : ℕ → Json → Call
  on_activity_ended : ℕ → Call
  on_activity_launched : Json → Json → Call
  on_activity_invited : String → Json → Json → PublicUser → Call
