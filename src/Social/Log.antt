-- ===== src/Social/Log.antt =====
-- `SocialStore` keeps, of a log without end, the latest 50 notifications, and counts and sets as
-- functions: a refinement.
use mathlib.Core.Path.{subst}
use strangertv.Common.{
  ℕ, ◌+◌, List, [], ◌∷◌, Option, none, some, Bool, true, false, ◌||◌, String, ◌==◌, ℕ_eq, String_eq,
  if◌then◌else◌, map, take, or_else, ◌≡◌, refl, sym, ap, ◌∙◌, arith, any, Bool-cases, inl, inr,
}
use strangertv.Common.Maps
use strangertv.Common.Maps.{get, put, get-put, get-remove, has-add, has-discard}
use strangertv.Social.Capped.{seen_one, log_marked, mark-take, map-as_read-take, push_capped-take}
use strangertv.Social.Store.{
  Draft, Notification, SocialStore, new_store, set_of, set_online_friends, add_online_friend,
  remove_online_friend, is_online, set_last_seen, get_last_seen, get_unread, increment_unread,
  clear_unread, as_read, push_capped, noticed, add_notification, mark, mark_notification_read,
  mark_all_notifications_read, clear_notifications,
}

-- The calls that change the store.
pub data Change : Type 0 where
  online_list : List ℕ → Change
  came gone : ℕ → Change
  seen_at : ℕ → ℕ → Change
  counted cleared : String → Change
  added : Draft → String → ℕ → Change
  read_one : String → Change
  read_all cleared_all : Change

unfoldable pub change : Change → SocialStore → SocialStore
change (online_list ids) s = set_online_friends ids s
change (came id) s = add_online_friend id s
change (gone id) s = remove_online_friend id s
change (seen_at id now) s = set_last_seen id now s
change (counted key) s = increment_unread key s
change (cleared key) s = clear_unread key s
change (added draft id now) s = add_notification draft id now s
change (read_one id) s = mark_notification_read id s
change read_all s = mark_all_notifications_read s
change cleared_all s = clear_notifications s

-- The abstract view: who is online, who was seen when, how much is unread, and every notification
-- since they were cleared, the latest first.
pub record View : Type 0 where
  pub online : ℕ → Bool
  pub seen : ℕ → Option ℕ
  pub unread : String → ℕ
  pub log : List Notification

abbrev pub blank : View
blank = record { online = λ _. false; seen = λ _. none; unread = λ _. 0; log = [] }

abbrev pub view_change : Change → View → View
view_change (online_list ids) v = record v { online = λ u. any (λ i. i == u) ids }
view_change (came id) v = record v { online = λ u. if id == u then true else v.online u }
view_change (gone id) v = record v { online = λ u. if id == u then false else v.online u }
view_change (seen_at id now) v = record v { seen = λ u. if id == u then some now else v.seen u }
view_change (counted key) v = record v {
  unread = λ k. if key == k then v.unread k + 1 else v.unread k;
}
view_change (cleared key) v = record v { unread = λ k. if key == k then 0 else v.unread k }
view_change (added draft id now) v = record v {
  log = record { id = id; timestamp = now; is_read = false; draft = draft } ∷ v.log;
}
view_change (read_one id) v = record v { log = log_marked id v.log }
view_change read_all v = record v { log = map seen_one v.log }
view_change cleared_all v = record v { log = [] }

unfoldable pub changes : List Change → SocialStore → SocialStore
changes [] s = s
changes (c ∷ cs) s = changes cs (change c s)

unfoldable pub view_changes : List Change → View → View
view_changes [] v = v
view_changes (c ∷ cs) v = view_changes cs (view_change c v)

pub record Refines (s : SocialStore) (v : View) : Type 0 where
  pub online : (u : ℕ) → is_online u s ≡ v.online u
  pub seen : (u : ℕ) → get_last_seen u s ≡ v.seen u
  pub unread : (k : String) → get_unread k s ≡ v.unread k
  pub latest : s.notifications ≡ take 50 v.log

has-set_of :
    (u : ℕ) (members ids : List ℕ)
    → Maps.has u (set_of members ids) ≡ (Maps.has u members || any (λ i. i == u) ids)
unfolding set_of
has-set_of u members [] = ground arith
has-set_of u members (id ∷ ids) =
    ground (arith, has-set_of u (Maps.add id members) ids, has-add id u members)

counted_lem :
    (key k : String) (s : SocialStore) (count other : ℕ)
    → get_unread key s ≡ count
    → get_unread k s ≡ other
    → get_unread k (increment_unread key s) ≡ (if key == k then other + 1 else other)
unfolding get_unread increment_unread
counted_lem key k s count other e f =
    let total : ℕ = or_else (get key s.unread_counts) 0 + 1 in
    elim (Bool-cases (key == k)) [
      | inl same ↦
          rw (get-put key k total s.unread_counts, same)
            (ap (λ (m : ℕ). m + 1)
              (subst (λ (j : String). or_else (get j s.unread_counts) 0 ≡ other)
                (sym ((String_eq.same_iff key k).0 same)) f))
      | inr apart ↦ rw (get-put key k total s.unread_counts, apart) f
    ]

cleared_lem :
    (key k : String) (s : SocialStore) (other : ℕ)
    → get_unread k s ≡ other
    → get_unread k (clear_unread key s) ≡ (if key == k then 0 else other)
unfolding get_unread clear_unread
cleared_lem key k s other f = elim (Bool-cases (key == k)) [
  | inl same ↦ rw (get-remove key k s.unread_counts, same) refl
  | inr apart ↦ rw (get-remove key k s.unread_counts, apart) f
]

change-Refines :
    (c : Change) (s : SocialStore) (v : View) → Refines s v → Refines (change c s) (view_change c v)
unfolding change set_online_friends add_online_friend remove_online_friend is_online set_last_seen
    get_last_seen get_unread increment_unread clear_unread add_notification mark_notification_read
    mark_all_notifications_read clear_notifications Maps.has
change-Refines (online_list ids) s v h = record {
  online = λ u. has-set_of u [] ids;
  seen = h.seen;
  unread = h.unread;
  latest = h.latest;
}
change-Refines (came id) s v h = record {
  online = λ u. ground (arith, has-add id u s.online_friends, h.online u);
  seen = h.seen;
  unread = h.unread;
  latest = h.latest;
}
change-Refines (gone id) s v h = record {
  online = λ u. ground (arith, has-discard id u s.online_friends, h.online u);
  seen = h.seen;
  unread = h.unread;
  latest = h.latest;
}
change-Refines (seen_at id now) s v h = record {
  online = h.online;
  seen = λ u. ground (arith, get-put id u now s.last_seen, h.seen u);
  unread = h.unread;
  latest = h.latest;
}
change-Refines (counted key) s v h = record {
  online = h.online;
  seen = h.seen;
  unread = λ k. counted_lem key k s (v.unread key) (v.unread k) (h.unread key) (h.unread k);
  latest = h.latest;
}
change-Refines (cleared key) s v h = record {
  online = h.online;
  seen = h.seen;
  unread = λ k. cleared_lem key k s (v.unread k) (h.unread k);
  latest = h.latest;
}
change-Refines (added draft id now) s v h = record {
  online = h.online;
  seen = h.seen;
  unread = h.unread;
  latest =
      ap (push_capped (noticed draft id now)) h.latest
      ∙ push_capped-take (noticed draft id now) v.log;
}
change-Refines (read_one id) s v h = record {
  online = h.online;
  seen = h.seen;
  unread = h.unread;
  latest = ap (mark id) h.latest ∙ mark-take 50 id v.log;
}
change-Refines read_all s v h = record {
  online = h.online;
  seen = h.seen;
  unread = h.unread;
  latest = ap (map as_read) h.latest ∙ map-as_read-take 50 v.log;
}
change-Refines cleared_all s v h = record {
  online = h.online;
  seen = h.seen;
  unread = h.unread;
  latest = refl;
}

changes-Refines :
    (cs : List Change) (s : SocialStore) (v : View)
    → Refines s v
    → Refines (changes cs s) (view_changes cs v)
unfolding changes view_changes
changes-Refines [] s v h = h
changes-Refines (c ∷ cs) s v h =
    changes-Refines cs (change c s) (view_change c v) (change-Refines c s v h)

-- After any calls the new store shows the latest 50 notifications of those that were added since they
-- were cleared last, marked as they were marked; every unread count, friend online and time last seen
-- is what the calls made of it.
pub changes-new_store-Refines :
    (cs : List Change) → Refines (changes cs new_store) (view_changes cs blank)
unfolding is_online get_last_seen get_unread Maps.get Maps.has
changes-new_store-Refines cs =
    changes-Refines cs new_store blank
      (record { online = λ u. refl; seen = λ u. refl; unread = λ k. refl; latest = refl })
