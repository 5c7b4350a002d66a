-- ===== src/Party/State.antt =====
-- The state of src/hooks/useCallParty.ts and of the useActivities that it uses, and what they send.
use strangertv.Common.{ℕ, List, [], ◌∷◌, ◌++◌, Option, Bool, String}
use strangertv.Party.Peers.{CallPeer}

pub data LoadState : Type 0 where
  idle loading ready failed : LoadState

-- `ActivityInstance`, with what the hooks read.
pub record Instance : Type 0 where
  pub id : ℕ
  pub group_id : ℕ
  pub activity_id : ℕ
  pub created_by : ℕ

pub record ActivitySession : Type 0 where
  pub instance_of : Instance
  pub activity : ℕ
  pub code : String

pub record Invite : Type 0 where
  pub room : String
  pub game : Instance

-- A request of the API, or `activityInvite` of the socket, in the order of sending.
pub data Sent : Type 0 where
  create_group : List ℕ → Sent
  list_instances : ℕ → Sent
  launch_activity : ℕ → ℕ → Sent
  join_instance leave_instance end_instance : ℕ → Sent
  invite_room : String → ℕ → Sent

-- The catalog is known by its ids; what the props give is here too, as the last render saw it.
pub record Party : Type 0 where
  pub room : Option String
  pub matched : Bool
  pub user_id : Option ℕ
  pub connected : Bool
  pub peers : List CallPeer
  pub party_group : Option ℕ
  pub launcher_open : Bool
  pub pending_invite : Option Invite
  pub provisioning : Bool
  pub provision_failed : Bool
  pub join_id : Option ℕ
  pub sent_invites : List ℕ
  pub catalog : List ℕ
  pub instances : List Instance
  pub state : LoadState
  pub session : Option ActivitySession
  pub busy : Bool
  pub has_failed : Bool
  pub sent : List Sent

abbrev pub send : Sent → Party → Party
send r s = record s { sent = s.sent ++ r ∷ [] }
