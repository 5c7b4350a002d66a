-- ===== src/Social/Capped.antt =====
-- The latest of a log of notifications, as src/store/socialStore.ts keeps them.
use strangertv.Common.{
  ℕ, zero, suc, List, [], ◌∷◌, true, false, String, ◌==◌, String_eq, if◌then◌else◌, ltb, length,
  map, take, ◌≡◌, refl, sym, ap, arith, ◌≤◌, Bool-cases, inl, inr, length-take-le,
}
use strangertv.Social.Store.{Notification, without_last, push_capped, mark, as_read}

-- What a notification is when it has been read.
abbrev pub seen_one : Notification → Notification
seen_one n = record n { is_read = true }

-- The first of the log with the id is read now.
unfoldable pub log_marked : String → List Notification → List Notification
log_marked id [] = []
log_marked id (n ∷ log) = if n.id == id then seen_one n ∷ log else n ∷ log_marked id log

pub mark-take :
    (n : ℕ) (id : String) (log : List Notification)
    → mark id (take n log) ≡ take n (log_marked id log)
unfolding mark log_marked
mark-take zero id log = refl
mark-take (suc n) id [] = refl
mark-take (suc n) id (x ∷ log) = elim (Bool-cases (x.id == id)) [
  | inl e ↦ rw e refl
  | inr e ↦ rw e (ap (λ (l : List Notification). x ∷ l) (mark-take n id log))
]

map-take :
    (f : Notification → Notification) (n : ℕ) (log : List Notification)
    → map f (take n log) ≡ take n (map f log)
map-take f zero log = refl
map-take f (suc n) [] = refl
map-take f (suc n) (x ∷ log) = ap (λ (l : List Notification). f x ∷ l) (map-take f n log)

pub map-as_read-take :
    (n : ℕ) (log : List Notification) → map as_read (take n log) ≡ take n (map seen_one log)
map-as_read-take n log = map-take seen_one n log

-- One more than fits, without the last, is what fits.
without_last-take :
    (n : ℕ) (x : Notification) (log : List Notification)
    → length (take n log) ≡ n
    → without_last (x ∷ take n log) ≡ take n (x ∷ log)
without_last-take zero x log h = refl
without_last-take (suc n) x [] h = ground arith
without_last-take (suc n) x (y ∷ log) h =
    ap (λ (l : List Notification). x ∷ l) (without_last-take n y log (omega (arith, h)))

take-none : (n : ℕ) → take {A = Notification} n [] ≡ []
take-none zero = refl
take-none (suc n) = refl

take-short :
    (n : ℕ) (x : Notification) (log : List Notification)
    → (length (take n log) ≡ n → ⊥)
    → x ∷ take n log ≡ take n (x ∷ log)
take-short zero x log h = elim (h refl) [ ]
take-short (suc n) x [] h = ap (λ (l : List Notification). x ∷ l) (sym (take-none n))
take-short (suc n) x (y ∷ log) h =
    ap (λ (l : List Notification). x ∷ l) (take-short n y log (λ e. h (ap suc e)))

-- What `unshift` and `pop` leave.
capped-take :
    (n : ℕ) (x : Notification) (log : List Notification)
    → (if ltb n (length (x ∷ take n log)) then without_last (x ∷ take n log) else x ∷ take n log)
      ≡ take n (x ∷ log)
capped-take n x log = elim (Bool-cases (ltb n (length (x ∷ take n log)))) [
  | inl full ↦
      rw full
        (without_last-take n x log (is_full (length (take n log)) full (length-take-le n log)))
  | inr room ↦ rw room (take-short n x log (λ e. is_short (length (take n log)) room e))
]
  where
    is_full : (l : ℕ) → ltb n (suc l) ≡ true → l ≤ n → l ≡ n
    is_full l h k = ground arith

    is_short : (l : ℕ) → ltb n (suc l) ≡ false → l ≡ n → ⊥
    is_short l h e = ground arith

pub push_capped-take :
    (x : Notification) (log : List Notification) → push_capped x (take 50 log) ≡ take 50 (x ∷ log)
unfolding push_capped
push_capped-take x log = capped-take 50 x log
