-- ===== src/Social/Changes.antt =====
-- What changes the state of src/hooks/useSocialData.ts: the user, the answers, the session's group
-- messages and the store.
use strangertv.Common.{
  ℕ, ◌-◌, List, [], ◌∷◌, ◌++◌, Option, none, some, Bool, true, false, not, ◌||◌, String, ◌==◌, ℕ_eq,
  String_eq, if◌then◌else◌, length, keep, map, any, take, is_some,
}
use strangertv.Social.Store.{Notification, NotificationKind, Detail, of_sender, increment_unread}
use strangertv.Social.Log.{Change, counted, cleared, change}
use strangertv.Social.Data.{
  ChatId, group, friend, idle, Group, Friend, Message, SocialData, group_key, friend_key, chat_key,
  load_roster, roster_answered, load_messages, messages_answered, members_answered, active_changed,
  Invite, is_requested,
}

abbrev pub is_group : ℕ → Option ChatId → Bool
is_group id (some (group g)) = g == id
is_group id _ = false

abbrev pub is_friend : ℕ → Option ChatId → Bool
is_friend id (some (friend f)) = f == id
is_friend id _ = false

-- `typeof n.data?.senderId === 'number'`
abbrev sender_of : Detail → Option ℕ
sender_of (of_sender id) = some id
sender_of _ = none

abbrev pub message_sender : NotificationKind → Detail → Option ℕ
message_sender NotificationKind.message detail = sender_of detail
message_sender _ _ = none

abbrev pub is_roster_kind : NotificationKind → Bool
is_roster_kind NotificationKind.friend_request = true
is_roster_kind NotificationKind.friend_accepted = true
is_roster_kind NotificationKind.group_invite = true
is_roster_kind _ = false

-- The message is added unless one with its id is there.
unfoldable pub add_message : Message → List Message → List Message
add_message m list = if any (λ (k : Message). k.id == m.id) list then list else list ++ m ∷ []

-- What the user does, what is answered, and what comes by itself; messages come for a chat.
pub data Event : Type 0 where
  opened : Option ChatId → Event
  roster_came : Option (List Group × List Friend) → Option (List Invite) → Event
  messages_came : ChatId → Option (List Message) → Event
  members_came : Option (List ℕ) → Event
  group_message : ℕ → Message → Event
  store_change : Change → Event
  sent_message : Message → Event
  group_created : Group → Event
  group_updated : ℕ → Option String → Event
  members_added : ℕ → List ℕ → Event
  member_removed : ℕ → ℕ → Event
  group_left friend_answered friend_requested invite_answered : ℕ → Event
  friend_removed : ℕ → ℕ → Event

abbrev renamed : ℕ → Option String → Group → Group
renamed id none g = g
renamed id (some name) g = if g.id == id then record g { name = name } else g

abbrev counting : ℕ → ℕ → Group → Group
counting id count g = if g.id == id then record g { member_count = count } else g

-- The notifications that are new to the listener, the latest first.
abbrev pub fresh : SocialData → List Notification
fresh s = take (length s.store.notifications - s.seen) s.store.notifications

-- `active` becomes null where it is what has gone.
unfoldable pub closed_if : Bool → SocialData → SocialData
closed_if gone s = if gone then active_changed (record s { active = none }) else s

-- A chat that is opened again is loaded again; closing none changes nothing active.
unfoldable pub chat_set : Option ChatId → SocialData → SocialData
chat_set chat s =
    if is_some chat || is_some s.active then active_changed (record s { active = chat }) else s

abbrev pub emptied : SocialData → SocialData
emptied s = record s { messages = []; members = []; messages_state = idle; members_state = idle }

module _ (text_of : ℕ → String) where
  abbrev pub noted_sender : Option ℕ → SocialData → SocialData
  noted_sender none s = s
  noted_sender (some id) s =
      if is_friend id s.active
      then load_messages (friend id) s
      else record s { store = increment_unread (friend_key text_of id) s.store }

  -- One new notification. The store's own answer to the count finds nothing new.
  unfoldable pub note : Notification → SocialData → SocialData
  note n s =
      let t : SocialData = noted_sender (message_sender n.draft.kind n.draft.detail) s in
      if is_roster_kind n.draft.kind then load_roster t else t

  unfoldable pub note_all : List Notification → SocialData → SocialData
  note_all [] s = s
  note_all (n ∷ rest) s = note_all rest (note n s)

  -- The listener of the store.
  unfoldable pub observe : SocialData → SocialData
  observe s = note_all (fresh s) (record s { seen = length s.store.notifications })

  -- A call of the store, and its listener.
  unfoldable pub store_changed : Change → SocialData → SocialData
  store_changed c s = observe (record s { store = change c s.store })

  unfoldable pub key_cleared : Option ChatId → SocialData → SocialData
  key_cleared none s = s
  key_cleared (some chat) s = store_changed (cleared (chat_key text_of chat)) s

  -- `openChat`; the listener of the store still has the chat that was active before.
  unfoldable pub open_chat : Option ChatId → SocialData → SocialData
  open_chat chat s = chat_set chat (key_cleared chat (emptied s))

  -- The listener of `onGroupMessage`.
  unfoldable pub group_message_received : ℕ → Message → SocialData → SocialData
  group_message_received group_id m s =
      if is_group group_id s.active
      then record s { messages = add_message m s.messages }
      else store_changed (counted (group_key text_of group_id)) s

  unfoldable pub step : Event → SocialData → SocialData
  step (opened chat) s = open_chat chat s
  step (roster_came lists invites) s = roster_answered lists invites s
  -- No answer comes to what has not been asked.
  step (messages_came chat answer) s =
      if is_requested chat s.sent then messages_answered chat answer s else s
  step (members_came answer) s = members_answered answer s
  step (group_message id m) s = group_message_received id m s
  step (store_change c) s = store_changed c s
  step (sent_message m) s = record s { messages = add_message m s.messages }
  step (group_created g) s =
      active_changed (record s { groups = g ∷ s.groups; active = some (group g.id) })
  step (group_updated id name) s = record s { groups = map (renamed id name) s.groups }
  step (members_added id list) s = record s {
    members = list;
    groups = map (counting id (length list)) s.groups;
  }
  step (member_removed id user_id) s =
      let next : List ℕ = keep (λ (m : ℕ). not (m == user_id)) s.members in
      record s { members = next; groups = map (counting id (length next)) s.groups }
  step (group_left id) s =
      closed_if (is_group id s.active)
        (record s { groups = keep (λ (g : Group). not (g.id == id)) s.groups })
  step (friend_answered _) s = load_roster s
  step (friend_requested _) s = load_roster s
  step (invite_answered _) s = load_roster s
  step (friend_removed id user_id) s =
      closed_if (is_friend user_id s.active)
        (record s { friends = keep (λ (f : Friend). not (f.id == id)) s.friends })

  unfoldable pub steps : List Event → SocialData → SocialData
  steps [] s = s
  steps (e ∷ rest) s = steps rest (step e s)
