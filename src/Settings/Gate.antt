-- ===== src/Settings/Gate.antt =====
-- What src/utils/clientStorage.ts makes of the age gate and of the set-up.
use mathlib.Core.Path.{subst}
use strangertv.Common.{
  some, Bool, true, false, String, ◌==◌, String_eq, ◌≡◌, refl, sym, ◌∙◌, arith, inl, inr,
  Bool-cases,
}
use strangertv.Settings.Storage.{
  Store, StorageKey, key_text, read, write, get_flag, set_flag, get_bool, birth_date,
  profile_complete, terms_accepted, setup_complete, devices_ready,
}
use strangertv.Settings.Laws.{writes, read-write, writes-write}
use strangertv.Settings.Setup.{
  is_terms_accepted, accept_terms, are_devices_ready, mark_devices_ready, mark_match_setup_complete,
  is_age_gate_complete, is_match_setup_complete, ensure_default_setup,
}

-- What is set by `markMatchSetupComplete`.
abbrev HasFlags : Store → Type 0
HasFlags s =
    (read setup_complete s ≡ some "1")
    × (read devices_ready s ≡ some "1")
    × (read terms_accepted s ≡ some "v1")

mark_match_setup_complete-HasFlags :
    (s : Store) → writes s ≡ true → HasFlags (mark_match_setup_complete s)
unfolding mark_match_setup_complete set_flag mark_devices_ready accept_terms
mark_match_setup_complete-HasFlags s w =
    let a : Store = write terms_accepted "v1" s in
    let b : Store = write devices_ready "1" a in
    ground (
      arith,
      read-write setup_complete setup_complete "1" b,
      read-write devices_ready setup_complete "1" b,
      read-write terms_accepted setup_complete "1" b,
      read-write devices_ready devices_ready "1" a,
      read-write terms_accepted devices_ready "1" a,
      read-write terms_accepted terms_accepted "v1" s,
      writes-write terms_accepted "v1" s,
      writes-write devices_ready "1" a,
    )

mark_match_setup_complete-other :
    (j : StorageKey) (s : Store)
    → (key_text setup_complete == key_text j) ≡ false
    → (key_text devices_ready == key_text j) ≡ false
    → (key_text terms_accepted == key_text j) ≡ false
    → read j (mark_match_setup_complete s) ≡ read j s
unfolding mark_match_setup_complete set_flag mark_devices_ready accept_terms
mark_match_setup_complete-other j s p q r =
    let a : Store = write terms_accepted "v1" s in
    let b : Store = write devices_ready "1" a in
    ground (
      arith,
      read-write j setup_complete "1" b,
      read-write j devices_ready "1" a,
      read-write j terms_accepted "v1" s,
    )

module _ (adult : String → Bool) where
  mark_match_setup_complete-gate :
      (s : Store)
      → is_age_gate_complete adult (mark_match_setup_complete s) ≡ is_age_gate_complete adult s
  unfolding is_age_gate_complete get_bool
  mark_match_setup_complete-gate s =
      rw
        (
          mark_match_setup_complete-other profile_complete s refl refl refl,
          mark_match_setup_complete-other birth_date s refl refl refl,
        )
        refl

  HasFlags-complete :
      (s : Store)
      → HasFlags s
      → is_age_gate_complete adult s ≡ true
      → is_match_setup_complete adult s ≡ true
  unfolding is_match_setup_complete get_flag is_terms_accepted are_devices_ready
  HasFlags-complete s (p, q, r) g = rw (p, q, r, g) refl

  ensure-done :
      (s : Store)
      → is_age_gate_complete adult s ≡ true
      → is_match_setup_complete adult s ≡ true
      → ensure_default_setup adult s ≡ s
  unfolding ensure_default_setup
  ensure-done s g d = ground arith

  ensure-missing :
      (s : Store)
      → is_age_gate_complete adult s ≡ true
      → is_match_setup_complete adult s ≡ false
      → ensure_default_setup adult s ≡ mark_match_setup_complete s
  unfolding ensure_default_setup
  ensure-missing s g d = ground arith

  abbrev IsSetUp : Store → Type 0
  IsSetUp t = (is_match_setup_complete adult t ≡ true) × (ensure_default_setup adult t ≡ t)

  marked-IsSetUp :
      (s : Store)
      → writes s ≡ true
      → is_age_gate_complete adult s ≡ true
      → IsSetUp (mark_match_setup_complete s)
  marked-IsSetUp s w g =
      let t : Store = mark_match_setup_complete s in
      let h : is_age_gate_complete adult t ≡ true = mark_match_setup_complete-gate s ∙ g in
      let d : is_match_setup_complete adult t ≡ true =
        HasFlags-complete t (mark_match_setup_complete-HasFlags s w) h in
      (d, ensure-done t h d)

  -- Where the browser stores what it is given, a visitor who has passed the age gate is set up after
  -- `ensureDefaultSetup`, and a second call changes nothing.
  pub ensure_default_setup_complete :
      (s : Store)
      → writes s ≡ true
      → is_age_gate_complete adult s ≡ true
      → let t : Store = ensure_default_setup adult s in
        (is_match_setup_complete adult t ≡ true) × (ensure_default_setup adult t ≡ t)
  ensure_default_setup_complete s w g = elim (Bool-cases (is_match_setup_complete adult s)) [
    | inl done ↦ subst IsSetUp (sym (ensure-done s g done)) (done, ensure-done s g done)
    | inr missing ↦ subst IsSetUp (sym (ensure-missing s g missing)) (marked-IsSetUp s w g)
  ]
