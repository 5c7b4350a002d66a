-- ===== src/Social/Data.antt =====
-- The state of src/hooks/useSocialData.ts, its requests and their answers. `none` is a request that
-- fails. The store is the one that the hook subscribes to.
use Prim.Native.String.{◌++◌ as append}
use strangertv.Common.{
  ℕ, List, [], ◌∷◌, ◌++◌, Option, none, some, Bool, true, false, String, ℕ_eq, String_eq, length,
  keep, ◌||◌, ◌==◌,
}
use strangertv.Social.Store.{SocialStore}

pub data ChatId : Type 0 where
  group : ℕ → ChatId
  friend : ℕ → ChatId

pub data LoadState : Type 0 where
  idle loading ready failed : LoadState

-- The fields of the shared types that the hook reads; `rest` is what it only hands on.
pub record Group : Type 0 where
  pub id : ℕ
  pub name : String
  pub member_count : ℕ
  pub rest : ℕ

pub data Status : Type 0 where
  accepted pending other : Status

pub record Friend : Type 0 where
  pub id : ℕ
  pub other_user : ℕ
  pub user_a : ℕ
  pub status : Status

pub record Invite : Type 0 where
  pub id : ℕ
  pub status : Status

pub record Message : Type 0 where
  pub id : ℕ
  pub text : String

-- A request that has been sent.
pub data Request : Type 0 where
  roster : Request
  messages_of : ChatId → Request
  members_of : ℕ → Request

abbrev pub same_chat : ChatId → ChatId → Bool
same_chat (group a) (group b) = a == b
same_chat (friend a) (friend b) = a == b
same_chat _ _ = false

abbrev pub asks_for : ChatId → Request → Bool
asks_for chat (messages_of asked) = same_chat asked chat
asks_for chat _ = false

-- The messages of the chat have been requested.
unfoldable pub is_requested : ChatId → List Request → Bool
is_requested chat [] = false
is_requested chat (r ∷ sent) = asks_for chat r || is_requested chat sent

pub record SocialData : Type 0 where
  pub groups : List Group
  pub friends : List Friend
  pub requests : List Friend
  pub invites : List Invite
  pub roster_state : LoadState
  pub active : Option ChatId
  pub messages : List Message
  pub messages_state : LoadState
  pub members : List ℕ
  pub members_state : LoadState
  pub seen : ℕ
  pub store : SocialStore
  pub sent : List Request

-- The key of a chat needs the text of a number.
module _ (text_of : ℕ → String) where
  unfoldable pub group_key : ℕ → String
  group_key id = append "group:" (text_of id)

  unfoldable pub friend_key : ℕ → String
  friend_key id = append "friend:" (text_of id)

  abbrev pub chat_key : ChatId → String
  chat_key (group id) = group_key id
  chat_key (friend id) = friend_key id

abbrev is_status : Status → Status → Bool
is_status accepted accepted = true
is_status pending pending = true
is_status _ _ = false

abbrev loading_from : LoadState → LoadState
loading_from ready = ready
loading_from _ = loading

-- `loadRoster`
unfoldable pub load_roster : SocialData → SocialData
load_roster s = record s {
  roster_state = loading_from s.roster_state;
  sent = s.sent ++ roster ∷ [];
}

abbrev listed : Option (List Invite) → List Invite
listed none = []
listed (some found) = found

-- The answers of the three lists, of which the last is empty where its own request fails.
unfoldable pub roster_answered :
    Option (List Group × List Friend) → Option (List Invite) → SocialData → SocialData
roster_answered none invites s = record s { roster_state = failed }
roster_answered (some (groups, friends)) invites s = record s {
  groups = groups;
  friends = keep (λ (f : Friend). is_status f.status accepted) friends;
  requests = keep (λ (f : Friend). is_status f.status pending) friends;
  invites = keep (λ (i : Invite). is_status i.status pending) (listed invites);
  roster_state = ready;
}

-- `loadMessages`
unfoldable pub load_messages : ChatId → SocialData → SocialData
load_messages chat s = record s { messages_state = loading; sent = s.sent ++ messages_of chat ∷ [] }

-- Which chat the answer is for is not looked at.
unfoldable pub messages_answered : ChatId → Option (List Message) → SocialData → SocialData
messages_answered chat none s = record s { messages_state = failed }
messages_answered chat (some list) s = record s { messages = list; messages_state = ready }

-- `loadMembers`
unfoldable pub load_members : ℕ → SocialData → SocialData
load_members group_id s = record s {
  members_state = loading;
  sent = s.sent ++ members_of group_id ∷ [];
}

unfoldable pub members_answered : Option (List ℕ) → SocialData → SocialData
members_answered none s = record s { members_state = failed }
members_answered (some list) s = record s { members = list; members_state = ready }

abbrev pub load_active : Option ChatId → SocialData → SocialData
load_active none t = t
load_active (some (group id)) t = load_members id (load_messages (group id) t)
load_active (some (friend id)) t = load_messages (friend id) t

-- The effects that run when `active` has changed: loading, and a new subscription to the store.
unfoldable pub active_changed : SocialData → SocialData
active_changed s = load_active s.active (record s { seen = length s.store.notifications })
