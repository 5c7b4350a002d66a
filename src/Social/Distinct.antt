-- ===== src/Social/Distinct.antt =====
-- No message stands twice in a conversation, in whatever order answers and messages come.
use mathlib.Core.Path.{subst}
use strangertv.Common.{
  ℕ, List, [], ◌∷◌, ◌++◌, Option, none, some, Bool, true, false, ◌||◌, String, ◌==◌, ℕ_eq, any,
  length, keep, not, ◌≡◌, refl, sym, ◌∙◌, arith, inl, inr, Bool-cases, nat_eq_iff, is_some,
}
use strangertv.Social.Store.{Notification}
use strangertv.Social.Log.{Change, counted, cleared, change}
use strangertv.Social.Data.{
  ChatId, group, Group, Friend, Message, SocialData, chat_key, group_key, load_roster,
  roster_answered, load_messages, load_members, messages_answered, members_answered, active_changed,
  is_requested,
}
use strangertv.Social.Changes.{
  Event, opened, roster_came, messages_came, members_came, group_message, store_change,
  sent_message, group_created, group_updated, members_added, member_removed, group_left,
  friend_answered, friend_requested, invite_answered, friend_removed, is_group, is_friend,
  add_message, note, note_all, fresh, observe, closed_if, chat_set, emptied, key_cleared,
  store_changed, open_chat, group_message_received, step, steps,
}

abbrev pub has_message : ℕ → List Message → Bool
has_message id list = any (λ (k : Message). k.id == id) list

abbrev pub IsDistinct : List Message → Type 0
IsDistinct [] = Unit
IsDistinct (m ∷ rest) = (has_message m.id rest ≡ false) × IsDistinct rest

has_message-end :
    (id : ℕ) (list : List Message) (m : Message)
    → has_message id (list ++ m ∷ []) ≡ (has_message id list || m.id == id)
has_message-end id [] m = ground arith
has_message-end id (k ∷ list) m = ground (arith, has_message-end id list m)

end-IsDistinct :
    (list : List Message) (m : Message)
    → IsDistinct list
    → has_message m.id list ≡ false
    → IsDistinct (list ++ m ∷ [])
end-IsDistinct [] m d h = (refl, tt)
end-IsDistinct (k ∷ list) m (new, d) h = (
  ground (arith, has_message-end k.id list m, nat_eq_iff m.id k.id, nat_eq_iff k.id m.id),
  end-IsDistinct list m d (ground arith),
)

add_message-IsDistinct :
    (m : Message) (list : List Message) → IsDistinct list → IsDistinct (add_message m list)
unfolding add_message
add_message-IsDistinct m list d = elim (Bool-cases (has_message m.id list)) [
  | inl old ↦ rw old d
  | inr new ↦ rw new (end-IsDistinct list m d new)
]

-- The lists that the server answers with hold no message twice.
abbrev pub Loads : Event → Type 0
Loads (messages_came chat (some list)) = IsDistinct list
Loads _ = Unit

abbrev pub AllLoad : List Event → Type 0
AllLoad [] = Unit
AllLoad (e ∷ rest) = Loads e × AllLoad rest

active_changed-messages : (s : SocialData) → (active_changed s).messages ≡ s.messages
unfolding active_changed load_messages load_members
active_changed-messages s = ground arith

closed_if-messages : (gone : Bool) (s : SocialData) → (closed_if gone s).messages ≡ s.messages
unfolding closed_if
closed_if-messages true s = active_changed-messages (record s { active = none })
closed_if-messages false s = refl

chat_set-messages :
    (chat : Option ChatId) (s : SocialData) → (chat_set chat s).messages ≡ s.messages
unfolding chat_set
chat_set-messages chat s = elim (Bool-cases (is_some chat || is_some s.active)) [
  | inl e ↦ rw e (active_changed-messages (record s { active = chat }))
  | inr e ↦ rw e refl
]

module _ (text_of : ℕ → String) where
  note-messages : (n : Notification) (s : SocialData) → (note text_of n s).messages ≡ s.messages
  unfolding note load_messages load_roster
  note-messages n s = ground arith

  note_all-messages :
      (new : List Notification) (s : SocialData) → (note_all text_of new s).messages ≡ s.messages
  unfolding note_all
  note_all-messages [] s = refl
  note_all-messages (n ∷ new) s = note_all-messages new (note text_of n s) ∙ note-messages n s

  store_changed-messages :
      (c : Change) (s : SocialData) → (store_changed text_of c s).messages ≡ s.messages
  unfolding store_changed observe
  store_changed-messages c s =
      let t : SocialData = record s { store = change c s.store } in
      note_all-messages (fresh t) (record t { seen = length t.store.notifications })

  key_cleared-messages :
      (chat : Option ChatId) (s : SocialData) → (key_cleared text_of chat s).messages ≡ s.messages
  unfolding key_cleared
  key_cleared-messages none s = refl
  key_cleared-messages (some chat) s = store_changed-messages (cleared (chat_key text_of chat)) s

  open_chat-messages :
      (chat : Option ChatId) (s : SocialData) → (open_chat text_of chat s).messages ≡ []
  unfolding open_chat
  open_chat-messages chat s =
      chat_set-messages chat (key_cleared text_of chat (emptied s))
      ∙ key_cleared-messages chat (emptied s)

  group_message_received-IsDistinct :
      (id : ℕ) (m : Message) (s : SocialData)
      → IsDistinct s.messages
      → IsDistinct (group_message_received text_of id m s).messages
  unfolding group_message_received
  group_message_received-IsDistinct id m s d = elim (Bool-cases (is_group id s.active)) [
    | inl here ↦ rw here (add_message-IsDistinct m s.messages d)
    | inr away ↦
        rw away
          (subst IsDistinct (sym (store_changed-messages (counted (group_key text_of id)) s)) d)
  ]

  step-IsDistinct :
      (e : Event) (s : SocialData)
      → Loads e
      → IsDistinct s.messages
      → IsDistinct (step text_of e s).messages
  unfolding step roster_answered messages_answered members_answered load_roster
  step-IsDistinct (opened chat) s _ d = subst IsDistinct (sym (open_chat-messages chat s)) tt
  step-IsDistinct (roster_came none invites) s _ d = d
  step-IsDistinct (roster_came (some (groups, friends)) invites) s _ d = d
  step-IsDistinct (messages_came chat none) s _ d = ground arith
  step-IsDistinct (messages_came chat (some list)) s k d =
      elim (Bool-cases (is_requested chat s.sent)) [ inl e ↦ rw e k | inr e ↦ rw e d ]
  step-IsDistinct (members_came none) s _ d = d
  step-IsDistinct (members_came (some list)) s _ d = d
  step-IsDistinct (group_message id m) s _ d = group_message_received-IsDistinct id m s d
  step-IsDistinct (store_change c) s _ d = subst IsDistinct (sym (store_changed-messages c s)) d
  step-IsDistinct (sent_message m) s _ d = add_message-IsDistinct m s.messages d
  step-IsDistinct (group_created g) s _ d =
      let t : SocialData = record s { groups = g ∷ s.groups; active = some (group g.id) } in
      subst IsDistinct (sym (active_changed-messages t)) d
  step-IsDistinct (group_updated id name) s _ d = d
  step-IsDistinct (members_added id list) s _ d = d
  step-IsDistinct (member_removed id user_id) s _ d = d
  step-IsDistinct (group_left id) s _ d =
      let t : SocialData = record s { groups = keep (λ (g : Group). not (g.id == id)) s.groups } in
      subst IsDistinct (sym (closed_if-messages (is_group id s.active) t)) d
  step-IsDistinct (friend_answered _) s _ d = d
  step-IsDistinct (friend_requested _) s _ d = d
  step-IsDistinct (invite_answered _) s _ d = d
  step-IsDistinct (friend_removed id user_id) s _ d =
      let t : SocialData = record s {
        friends = keep (λ (f : Friend). not (f.id == id)) s.friends;
      } in
      subst IsDistinct (sym (closed_if-messages (is_friend user_id s.active) t)) d

  -- Whatever happens, in any order, the open conversation shows no message twice, if the server's
  -- lists show none twice: a message that comes both as the answer of sending it and from the session
  -- is shown once.
  pub steps-IsDistinct :
      (events : List Event) (s : SocialData)
      → AllLoad events
      → IsDistinct s.messages
      → IsDistinct (steps text_of events s).messages
  unfolding steps
  steps-IsDistinct [] s _ d = d
  steps-IsDistinct (e ∷ rest) s (k, ks) d =
      steps-IsDistinct rest (step text_of e s) ks (step-IsDistinct e s k d)
