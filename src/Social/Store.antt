-- ===== src/Social/Store.antt =====
-- `SocialStore` of src/store/socialStore.ts. What `Date.now()` and `Math.random()` make of a
-- notification is an argument, and so is what a text is cut to.
use strangertv.Common.{
  ℕ, suc, ◌+◌, List, [], ◌∷◌, Option, Bool, true, false, not, String, ◌==◌, ℕ_eq, String_eq,
  if◌then◌else◌, ltb, length, keep, map, or_else,
}
use strangertv.Common.Maps
use strangertv.Common.Maps.{get, put}
use strangertv.Wire.{PublicUser}

pub data NotificationKind : Type 0 where
  friend_request friend_accepted message invitation group_message group_invite : NotificationKind

-- `data` of a notification
pub data Detail : Type 0 where
  nothing : Detail
  of_sender : ℕ → Detail
  of_invitation : ℕ → String → Detail
  of_group_invite : ℕ → ℕ → Detail

-- `Omit<Notification, 'id' | 'timestamp' | 'read'>`
pub record Draft : Type 0 where
  pub kind : NotificationKind
  pub title : String
  pub body : String
  pub from : Option PublicUser
  pub detail : Detail

pub record Notification : Type 0 where
  pub id : String
  pub timestamp : ℕ
  pub is_read : Bool
  pub draft : Draft

-- The store; its `version` counts the calls of `notify`.
pub record SocialStore : Type 0 where
  pub version : ℕ
  pub online_friends : List ℕ
  pub unread_counts : List (String × ℕ)
  pub notifications : List Notification
  pub last_seen : List (ℕ × ℕ)

abbrev pub new_store : SocialStore
new_store = record {
  version = 0;
  online_friends = [];
  unread_counts = [];
  notifications = [];
  last_seen = [];
}

unfoldable pub unread_notifications : SocialStore → ℕ
unread_notifications s = length (keep (λ n. not n.is_read) s.notifications)

abbrev pub notify : SocialStore → SocialStore
notify s = record s { version = suc s.version }

-- `new Set(ids)`, by adding one after the other
unfoldable pub set_of : List ℕ → List ℕ → List ℕ
set_of members [] = members
set_of members (id ∷ ids) = set_of (Maps.add id members) ids

unfoldable pub set_online_friends : List ℕ → SocialStore → SocialStore
set_online_friends ids s = notify (record s { online_friends = set_of [] ids })

unfoldable pub add_online_friend : ℕ → SocialStore → SocialStore
add_online_friend id s = notify (record s { online_friends = Maps.add id s.online_friends })

unfoldable pub remove_online_friend : ℕ → SocialStore → SocialStore
remove_online_friend id s = notify (record s { online_friends = Maps.discard id s.online_friends })

unfoldable pub is_online : ℕ → SocialStore → Bool
is_online user_id s = Maps.has user_id s.online_friends

unfoldable pub set_last_seen : ℕ → ℕ → SocialStore → SocialStore
set_last_seen user_id timestamp s =
    notify (record s { last_seen = put user_id timestamp s.last_seen })

unfoldable pub get_last_seen : ℕ → SocialStore → Option ℕ
get_last_seen user_id s = get user_id s.last_seen

unfoldable pub get_unread : String → SocialStore → ℕ
get_unread key s = or_else (get key s.unread_counts) 0

unfoldable pub increment_unread : String → SocialStore → SocialStore
increment_unread key s =
    notify (record s {
      unread_counts = put key (or_else (get key s.unread_counts) 0 + 1) s.unread_counts;
    })

unfoldable pub clear_unread : String → SocialStore → SocialStore
clear_unread key s = notify (record s { unread_counts = Maps.remove key s.unread_counts })

-- `pop()`
abbrev pub without_last : List Notification → List Notification
without_last [] = []
without_last (n ∷ []) = []
without_last (n ∷ m ∷ rest) = n ∷ without_last (m ∷ rest)

-- `unshift(n)`, and `pop()` above 50
unfoldable pub push_capped : Notification → List Notification → List Notification
push_capped n old = let all = n ∷ old in if ltb 50 (length all) then without_last all else all

abbrev pub noticed : Draft → String → ℕ → Notification
noticed draft id now = record { id = id; timestamp = now; is_read = false; draft = draft }

unfoldable pub add_notification : Draft → String → ℕ → SocialStore → SocialStore
add_notification draft id now s =
    notify (record s { notifications = push_capped (noticed draft id now) s.notifications })

abbrev pub as_read : Notification → Notification
as_read n = record n { is_read = true }

-- The first notification with the id is marked.
unfoldable pub mark : String → List Notification → List Notification
mark id [] = []
mark id (n ∷ rest) = if n.id == id then as_read n ∷ rest else n ∷ mark id rest

unfoldable pub has_id : String → List Notification → Bool
has_id id [] = false
has_id id (n ∷ rest) = if n.id == id then true else has_id id rest

-- Without such a notification nobody is told.
unfoldable pub mark_notification_read : String → SocialStore → SocialStore
mark_notification_read id s = record s {
  version = if has_id id s.notifications then suc s.version else s.version;
  notifications = mark id s.notifications;
}

unfoldable pub mark_all_notifications_read : SocialStore → SocialStore
mark_all_notifications_read s = notify (record s { notifications = map as_read s.notifications })

unfoldable pub clear_notifications : SocialStore → SocialStore
clear_notifications s = notify (record s { notifications = [] })
