-- ===== src/Boot/Account.antt =====
-- Whose account the boot of src/hooks/useSessionBootstrap.ts shows, after `me` and `refresh`; `none`
-- is a call that fails.
use strangertv.Common.{
  Option, none, some, true, String, ◌==◌, String_eq, if◌then◌else◌, ◌≡◌, refl, ◌∙◌, arith, ◌⊎◌, inl,
  inr, Bool-cases, ap,
}
use strangertv.Settings.Storage.{
  Store, StorageKey, token, user, write, remove, ProfileText, get_stored_user, set_stored_user,
  set_session, clear_session, get_token,
}
use strangertv.Settings.Laws.{writes, read-write_same}

module _ {User : Type 0} (json : ProfileText User) where
  -- What follows a failed `me`, given the answer of `refresh`.
  abbrev pub refreshed : Option (String × User) → Store → Store × Option User
  refreshed none s = (clear_session s, none)
  refreshed (some (bearer, u)) s = (set_session json bearer u s, some u)

  abbrev pub without_me : Option String → Option (String × User) → Store → Store × Option User
  without_me none answer s = (s, none)
  without_me (some bearer) answer s = if bearer == "" then (s, none) else refreshed answer s

  -- The store and the account that is shown.
  unfoldable pub check_account : Option User → Option (String × User) → Store → Store × Option User
  check_account (some u) answer s = (set_stored_user json u s, some u)
  check_account none answer s = without_me (get_token s) answer s

  json-stored :
      (u : User) (s : Store)
      → writes s ≡ true
      → get_stored_user json (set_stored_user json u s) ≡ some u
  unfolding get_stored_user set_stored_user
  json-stored u s w =
      rw (read-write_same user (json.print u) s w, json.print_nonempty u, json.parse-print u) refl

  -- Shown is what is stored, with the bearer that was held or a new one from the server; where nothing
  -- is shown, no request can carry a bearer.
  abbrev pub Agrees : Store → Option (String × User) → Store × Option User → Type 0
  Agrees s answer (t, some u) =
      (get_stored_user json t ≡ some u)
      × ((get_token t ≡ get_token s)
          ⊎ ((bearer : String) × (answer ≡ some (bearer, u)) × (get_token t ≡ some bearer)))
  Agrees s answer (t, none) = (get_token t ≡ none) ⊎ (get_token t ≡ some "")

  set_stored_user-memory_token :
      (u : User) (s : Store) → (set_stored_user json u s).memory_token ≡ s.memory_token
  unfolding set_stored_user write
  set_stored_user-memory_token u s = ground arith

  remove-memory_token : (k : StorageKey) (s : Store) → (remove k s).memory_token ≡ s.memory_token
  unfolding remove
  remove-memory_token k s = ground arith

  remove-writes : (k : StorageKey) (s : Store) → writes (remove k s) ≡ writes s
  unfolding remove
  remove-writes k s = ground arith

  refreshed-Agrees :
      (answer : Option (String × User)) (s : Store)
      → writes s ≡ true
      → Agrees s answer (refreshed answer s)
  unfolding clear_session set_session
  refreshed-Agrees none s w =
      let a : Store = record s { memory_token = none } in
      inl (remove-memory_token user (remove token a) ∙ remove-memory_token token a)
  refreshed-Agrees (some (bearer, u)) s w =
      let a : Store = record s { memory_token = some bearer } in
      let b : Store = remove token a in
      (
        json-stored u b (remove-writes token a ∙ w),
        inr (bearer, refl, set_stored_user-memory_token u b ∙ remove-memory_token token a),
      )

  held-Agrees :
      (bearer : String) (answer : Option (String × User)) (s : Store)
      → writes s ≡ true
      → get_token s ≡ some bearer
      → Agrees s answer (without_me (some bearer) answer s)
  held-Agrees bearer answer s w e = elim (Bool-cases (bearer == "")) [
    | inl blank ↦ rw blank (inr (e ∙ ap some ((String_eq.same_iff bearer "").0 blank)))
    | inr given ↦ rw given (refreshed-Agrees answer s w)
  ]

  without_me-Agrees :
      (held : Option String) (answer : Option (String × User)) (s : Store)
      → writes s ≡ true
      → get_token s ≡ held
      → Agrees s answer (without_me held answer s)
  without_me-Agrees none answer s w e = inl e
  without_me-Agrees (some bearer) answer s w e = held-Agrees bearer answer s w e

  -- Where the browser stores what it is given, the account that the boot shows is the one that is
  -- stored afterwards, with the bearer that was held or, after `refresh`, the server's new one; where
  -- it shows none, no bearer is held, or an empty one.
  pub check_account-Agrees :
      (me : Option User) (answer : Option (String × User)) (s : Store)
      → writes s ≡ true
      → Agrees s answer (check_account me answer s)
  unfolding check_account
  check_account-Agrees (some u) answer s w =
      (json-stored u s w, inl (set_stored_user-memory_token u s))
  check_account-Agrees none answer s w = without_me-Agrees (get_token s) answer s w refl
