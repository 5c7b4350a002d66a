-- ===== src/Social/Fresh.antt =====
-- Which notifications the listener of src/hooks/useSocialData.ts takes for new.
use strangertv.Common.{
  ℕ, suc, ◌+◌, List, [], ◌∷◌, ◌++◌, none, Bool, true, false, String, ℕ_eq, length, ◌≡◌, refl, ap,
  arith,
}
use strangertv.Social.Store.{
  NotificationKind, of_sender, Draft, Notification, SocialStore, get_unread, add_notification,
  push_capped, without_last, noticed,
}
use strangertv.Social.Log.{added, change}
use strangertv.Social.Data.{friend, messages_of, SocialData, friend_key}
use strangertv.Social.Changes.{note_all, fresh, observe, store_changed}

-- What `handleSocialEvent` adds for a direct message.
abbrev pub message_draft : ℕ → String → String → Draft
message_draft sender title body = record {
  kind = NotificationKind.message;
  title = title;
  body = body;
  from = none;
  detail = of_sender sender;
}

length-without_last :
    (n : Notification) (list : List Notification) → length (without_last (n ∷ list)) ≡ length list
length-without_last n [] = refl
length-without_last n (m ∷ list) = ap suc (length-without_last m list)

length-push_capped-full :
    (n : Notification) (list : List Notification)
    → length list ≡ 50
    → length (push_capped n list) ≡ 50
unfolding push_capped
length-push_capped-full n list h = ground (arith, length-without_last n list)

module _ (text_of : ℕ → String) where
  -- The state with the notification, before the listener.
  abbrev with_notification : Draft → String → ℕ → SocialData → SocialData
  with_notification d id now s = record s { store = add_notification d id now s.store }

  length-add_notification :
      (d : Draft) (id : String) (now : ℕ) (s : SocialStore)
      → length s.notifications ≡ 50
      → length (add_notification d id now s).notifications ≡ 50
  unfolding add_notification
  length-add_notification d id now s h =
      length-push_capped-full (noticed d id now) s.notifications h

  fresh-full :
      (d : Draft) (id : String) (now : ℕ) (s : SocialData)
      → length s.store.notifications ≡ 50
      → s.seen ≡ 50
      → fresh (with_notification d id now s) ≡ []
  unfolding add_notification
  fresh-full d id now s h e =
      rw (length-push_capped-full (noticed d id now) s.store.notifications h, e) refl

  -- What a direct message does.
  abbrev pub Told : ℕ → Bool → SocialData → SocialData → Type 0
  Told sender true s t = t.sent ≡ s.sent ++ messages_of (friend sender) ∷ []
  Told sender false s t =
      get_unread (friend_key text_of sender) t.store
      ≡ get_unread (friend_key text_of sender) s.store + 1

  add_notification-unread :
      (key : String) (d : Draft) (id : String) (now : ℕ) (s : SocialStore)
      → get_unread key (add_notification d id now s) ≡ get_unread key s
  unfolding get_unread add_notification
  add_notification-unread key d id now s = refl

  -- Once the store holds 50 notifications and the listener has seen them, no notification loads
  -- anything or counts as unread.
  pub full_store_hides :
      (d : Draft) (id : String) (now : ℕ) (s : SocialData)
      → length s.store.notifications ≡ 50
      → s.seen ≡ 50
      → let t : SocialData = store_changed text_of (added d id now) s in
        (t.sent ≡ s.sent)
        × ((key : String) → get_unread key t.store ≡ get_unread key s.store)
        × (length t.store.notifications ≡ 50)
        × (t.seen ≡ 50)
  unfolding store_changed observe note_all change
  full_store_hides d id now s h e = rw (fresh-full d id now s h e) (
    refl,
    λ key. add_notification-unread key d id now s.store,
    length-add_notification d id now s.store h,
    length-add_notification d id now s.store h,
  )
