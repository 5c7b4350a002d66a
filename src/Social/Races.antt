-- ===== src/Social/Races.antt =====
-- The answers of requests that src/hooks/useSocialData.ts has sent for one chat, coming after another
-- chat has been opened.
use strangertv.Common.{
  ℕ, List, [], ◌∷◌, ◌++◌, Option, none, some, true, ◌||◌, String, ◌≡◌, refl, ap, ◌∙◌, arith, ℕ_eq,
  length, inl, inr, Bool-cases,
}
use strangertv.Social.Store.{Notification}
use strangertv.Social.Log.{Change, cleared, change}
use strangertv.Social.Data.{
  ChatId, group, friend, ready, Message, Request, roster, messages_of, members_of, load_active,
  SocialData, load_messages, load_members, load_roster, messages_answered, active_changed,
  same_chat, is_requested, chat_key,
}
use strangertv.Social.Changes.{
  opened, messages_came, open_chat, chat_set, key_cleared, emptied, step, steps, note, note_all,
  fresh, observe, store_changed, noted_sender, message_sender, is_friend, is_roster_kind,
}

active_changed-active : (s : SocialData) → (active_changed s).active ≡ s.active
unfolding active_changed load_messages load_members
active_changed-active s = ground arith

same_chat_refl : (chat : ChatId) → same_chat chat chat ≡ true
same_chat_refl (group id) = (ℕ_eq.same_iff id id).1 refl
same_chat_refl (friend id) = (ℕ_eq.same_iff id id).1 refl

is_requested-append :
    (chat : ChatId) (xs ys : List Request)
    → is_requested chat (xs ++ ys) ≡ (is_requested chat xs || is_requested chat ys)
unfolding is_requested
is_requested-append chat [] ys = refl
is_requested-append chat (x ∷ xs) ys = ground (arith, is_requested-append chat xs ys)

-- What has been requested stays requested.
abbrev Grows : SocialData → SocialData → Type 0
Grows s t = (chat : ChatId) → is_requested chat s.sent ≡ true → is_requested chat t.sent ≡ true

Grows-trans : (s t u : SocialData) → Grows s t → Grows t u → Grows s u
Grows-trans s t u g h chat k = h chat (g chat k)

same-Grows : (s t : SocialData) → t.sent ≡ s.sent → Grows s t
same-Grows s t e chat h = ap (is_requested chat) e ∙ h

more-Grows : (s t : SocialData) (more : List Request) → t.sent ≡ s.sent ++ more → Grows s t
more-Grows s t more e chat h =
    ap (is_requested chat) e ∙ is_requested-append chat s.sent more ∙ ground arith

load_messages-Grows : (chat : ChatId) (s : SocialData) → Grows s (load_messages chat s)
unfolding load_messages
load_messages-Grows chat s = more-Grows s (load_messages chat s) (messages_of chat ∷ []) refl

load_roster-Grows : (s : SocialData) → Grows s (load_roster s)
unfolding load_roster
load_roster-Grows s = more-Grows s (load_roster s) (roster ∷ []) refl

load_members-Grows : (id : ℕ) (s : SocialData) → Grows s (load_members id s)
unfolding load_members
load_members-Grows id s = more-Grows s (load_members id s) (members_of id ∷ []) refl

load_active-Grows : (chat : Option ChatId) (s : SocialData) → Grows s (load_active chat s)
load_active-Grows none s = λ c h. h
load_active-Grows (some (group id)) s =
    let t : SocialData = load_messages (group id) s in
    Grows-trans s t (load_members id t) (load_messages-Grows (group id) s) (load_members-Grows id t)
load_active-Grows (some (friend id)) s = load_messages-Grows (friend id) s

active_changed-Grows : (s : SocialData) → Grows s (active_changed s)
unfolding active_changed
active_changed-Grows s =
    let t : SocialData = record s { seen = length s.store.notifications } in
    Grows-trans s t (load_active s.active t) (λ c h. h) (load_active-Grows s.active t)

load_messages-is_requested :
    (chat : ChatId) (s : SocialData) → is_requested chat (load_messages chat s).sent ≡ true
unfolding load_messages is_requested
load_messages-is_requested chat s =
    is_requested-append chat s.sent (messages_of chat ∷ []) ∙ ground (arith, same_chat_refl chat)

load_active-is_requested :
    (chat : ChatId) (s : SocialData) → is_requested chat (load_active (some chat) s).sent ≡ true
load_active-is_requested (group id) s =
    load_members-Grows id (load_messages (group id) s) (group id)
      (load_messages-is_requested (group id) s)
load_active-is_requested (friend id) s = load_messages-is_requested (friend id) s

module _ (text_of : ℕ → String) where
  noted_sender-Grows : (o : Option ℕ) (s : SocialData) → Grows s (noted_sender text_of o s)
  noted_sender-Grows none s = λ c h. h
  noted_sender-Grows (some id) s = elim (Bool-cases (is_friend id s.active)) [
    | inl e ↦ rw e (load_messages-Grows (friend id) s)
    | inr e ↦ rw e (λ c h. h)
  ]

  note-Grows : (n : Notification) (s : SocialData) → Grows s (note text_of n s)
  unfolding note
  note-Grows n s =
      let t : SocialData = noted_sender text_of (message_sender n.draft.kind n.draft.detail) s in
      let noted : Grows s t = noted_sender-Grows (message_sender n.draft.kind n.draft.detail) s in
      elim (Bool-cases (is_roster_kind n.draft.kind)) [
        | inl e ↦ rw e (Grows-trans s t (load_roster t) noted (load_roster-Grows t))
        | inr e ↦ rw e noted
      ]

  note_all-Grows : (new : List Notification) (s : SocialData) → Grows s (note_all text_of new s)
  unfolding note_all
  note_all-Grows [] s = λ c h. h
  note_all-Grows (n ∷ new) s =
      Grows-trans s (note text_of n s) (note_all text_of new (note text_of n s)) (note-Grows n s)
        (note_all-Grows new (note text_of n s))

  store_changed-Grows : (c : Change) (s : SocialData) → Grows s (store_changed text_of c s)
  unfolding store_changed observe
  store_changed-Grows c s =
      let t : SocialData = record s { store = change c s.store } in
      note_all-Grows (fresh t) (record t { seen = length t.store.notifications })

  -- Before the chat becomes the active one.
  abbrev leaving : ChatId → SocialData → SocialData
  leaving chat s = key_cleared text_of (some chat) (emptied s)

  leaving-Grows : (chat : ChatId) (s : SocialData) → Grows s (leaving chat s)
  unfolding key_cleared
  leaving-Grows chat s = store_changed-Grows (cleared (chat_key text_of chat)) (emptied s)

  open_chat-active :
      (chat : ChatId) (s : SocialData) → (open_chat text_of (some chat) s).active ≡ some chat
  unfolding open_chat chat_set
  open_chat-active chat s = active_changed-active (record (leaving chat s) { active = some chat })

  open_chat-Grows : (chat : ChatId) (s : SocialData) → Grows s (open_chat text_of (some chat) s)
  unfolding open_chat chat_set
  open_chat-Grows chat s =
      let t : SocialData = record (leaving chat s) { active = some chat } in
      Grows-trans s t (active_changed t) (leaving-Grows chat s) (active_changed-Grows t)

  open_chat-is_requested :
      (chat : ChatId) (s : SocialData)
      → is_requested chat (open_chat text_of (some chat) s).sent ≡ true
  unfolding open_chat chat_set active_changed
  open_chat-is_requested chat s = load_active-is_requested chat (record (leaving chat s) {
    active = some chat;
    seen = length (leaving chat s).store.notifications;
  })

  step-answered :
      (chat : ChatId) (list : List Message) (s : SocialData)
      → is_requested chat s.sent ≡ true
      → step text_of (messages_came chat (some list)) s
        ≡ record s { messages = list; messages_state = ready }
  unfolding step messages_answered
  step-answered chat list s e = rw e refl

  -- Answers are shown for the chat that is open, whichever chat they were asked for: `first` is
  -- opened, then `second`; if the server's answer for `second` comes before that for `first`, the hook
  -- ends in `second` with the messages of `first`, as if they were ready.
  pub last_answer_shows :
      (lists : ChatId → List Message) (first second : ChatId) (s : SocialData)
      → let t : SocialData =
          steps text_of
            (opened (some first)
              ∷ opened (some second)
              ∷ messages_came second (some (lists second))
              ∷ messages_came first (some (lists first))
              ∷ [])
            s in
        (t.active ≡ some second) × (t.messages ≡ lists first) × (t.messages_state ≡ ready)
  unfolding steps step
  last_answer_shows lists first second s =
      let a : SocialData = open_chat text_of (some first) s in
      let b : SocialData = open_chat text_of (some second) a in
      let asked : is_requested first b.sent ≡ true =
        open_chat-Grows second a first (open_chat-is_requested first s) in
      rw
        (
          step-answered second (lists second) b (open_chat-is_requested second a),
          step-answered first (lists first)
              (record b { messages = lists second; messages_state = ready }) asked,
        )
        (open_chat-active second a, refl, refl)
