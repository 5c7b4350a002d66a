-- ===== src/Social/Tests.antt =====
-- Conversations and notifications on concrete data.
use strangertv.Common.{
  if◌then◌else◌, ℕ, List, [], ◌∷◌, none, some, String, length, replicate, ◌≡◌, refl,
}
use strangertv.Social.Store.{Draft, new_store, noticed, get_unread}
use strangertv.Social.Log.{
  Change, added, read_one, counted, came, Refines, changes, view_changes, blank,
  changes-new_store-Refines,
}
use strangertv.Social.Data.{same_chat, ChatId, group, friend, idle, ready, Message, SocialData}
use strangertv.Social.Changes.{
  Event, opened, messages_came, sent_message, group_message, steps, store_changed,
}
use strangertv.Social.Distinct.{IsDistinct, steps-IsDistinct}
use strangertv.Social.Fresh.{message_draft, full_store_hides}
use strangertv.Social.Races.{last_answer_shows}

-- The text of a number, as far as the tests need it.
abbrev text : ℕ → String
text _ = "7"

abbrev hello : Draft
hello = message_draft 7 "New Message" "hello"

abbrev some_changes : List Change
some_changes = came 7 ∷ added hello "a" 1 ∷ counted "friend:7" ∷ read_one "a" ∷ []

changes-new_store-Refines_example :
    Refines (changes some_changes new_store) (view_changes some_changes blank)
changes-new_store-Refines_example = changes-new_store-Refines some_changes

abbrev start : SocialData
start = record {
  groups = [];
  friends = [];
  requests = [];
  invites = [];
  roster_state = ready;
  active = none;
  messages = [];
  messages_state = idle;
  members = [];
  members_state = idle;
  seen = 0;
  store = new_store;
  sent = [];
}

abbrev message_one : Message
message_one = record { id = 1; text = "one" }

abbrev message_two : Message
message_two = record { id = 2; text = "two" }

abbrev talk : List Event
talk =
    opened (some (group 3))
    ∷ messages_came (group 3) (some (message_one ∷ []))
    ∷ sent_message message_two
    ∷ group_message 3 message_two
    ∷ []

steps-IsDistinct_example : IsDistinct (steps text talk start).messages
steps-IsDistinct_example = steps-IsDistinct text talk start (tt, ((refl, tt), (tt, (tt, tt)))) tt

abbrev full : SocialData
full = record start {
  seen = 50;
  store = record new_store { notifications = replicate 50 (noticed hello "old" 0) };
}

full_store_hides_example :
    let t : SocialData = store_changed text (added hello "a" 1) full in
    (t.sent ≡ [])
    × ((key : String) → get_unread key t.store ≡ get_unread key full.store)
    × (length t.store.notifications ≡ 50)
    × (t.seen ≡ 50)
full_store_hides_example = full_store_hides text hello "a" 1 full refl refl

-- What the server keeps: message one with the first friend, message two with the second.
abbrev lists : ChatId → List Message
lists chat = if same_chat chat (friend 1) then message_one ∷ [] else message_two ∷ []

last_answer_shows_example :
    let t : SocialData =
      steps text
        (opened (some (friend 1))
          ∷ opened (some (friend 2))
          ∷ messages_came (friend 2) (some (message_two ∷ []))
          ∷ messages_came (friend 1) (some (message_one ∷ []))
          ∷ [])
        start in
    (t.active ≡ some (friend 2)) × (t.messages ≡ message_one ∷ []) × (t.messages_state ≡ ready)
last_answer_shows_example = last_answer_shows text lists (friend 1) (friend 2) start
