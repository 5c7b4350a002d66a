-- ===== src/Settings/Clean.antt =====
-- Which calls of src/utils/storage.ts and src/utils/clientStorage.ts leave the bearer's key empty.
use strangertv.Common.{
  none, Bool, true, false, String, ◌==◌, String_eq, ◌≡◌, refl, ◌∙◌, arith, inl, inr, Bool-cases,
}
use strangertv.Common.Maps
use strangertv.Common.Maps.{get-put, get-remove}
use strangertv.Settings.Storage.{
  Store, StorageKey, token, key_text, write, remove, load_storage, set_flag, set_bool,
}
use strangertv.Settings.Setup.{
  accept_terms, mark_devices_ready, mark_match_setup_complete, mark_age_gate_complete,
  ensure_default_setup, is_age_gate_complete, is_match_setup_complete,
}

-- Nothing is stored where older clients kept the bearer.
abbrev pub IsClean : Store → Type 0
IsClean s = Maps.get (key_text token) s.items ≡ none

-- From `s` to `t` nothing is stored there, and the bearer in memory is the same.
abbrev pub Keeps : Store → Store → Type 0
Keeps s t = (IsClean s → IsClean t) × (t.memory_token ≡ s.memory_token)

Keeps-trans : (s t v : Store) → Keeps s t → Keeps t v → Keeps s v
Keeps-trans s t v (c, m) (d, n) = (λ h. d (c h), n ∙ m)

pub write-IsClean :
    (k : StorageKey) (v : String) (s : Store)
    → (key_text k == key_text token) ≡ false
    → IsClean s
    → IsClean (write k v s)
unfolding write
write-IsClean k v s n h = ground (arith, get-put (key_text k) (key_text token) v s.items)

pub write-memory_token :
    (k : StorageKey) (v : String) (s : Store) → (write k v s).memory_token ≡ s.memory_token
unfolding write
write-memory_token k v s = ground arith

pub remove-memory_token : (k : StorageKey) (s : Store) → (remove k s).memory_token ≡ s.memory_token
unfolding remove
remove-memory_token k s = ground arith

pub write-Keeps :
    (k : StorageKey) (v : String) (s : Store)
    → (key_text k == key_text token) ≡ false
    → Keeps s (write k v s)
write-Keeps k v s n = (write-IsClean k v s n, write-memory_token k v s)

pub remove-IsClean : (k : StorageKey) (s : Store) → IsClean s → IsClean (remove k s)
unfolding remove
remove-IsClean k s h = ground (arith, get-remove (key_text k) (key_text token) s.items)

pub load_storage-IsClean : (s : Store) → s.removable ≡ true → IsClean (load_storage s)
unfolding load_storage remove
load_storage-IsClean s h = rw (h, get-remove (key_text token) (key_text token) s.items) refl

pub mark_match_setup_complete-Keeps : (s : Store) → Keeps s (mark_match_setup_complete s)
unfolding mark_match_setup_complete set_flag mark_devices_ready accept_terms
mark_match_setup_complete-Keeps s =
    let a : Store = accept_terms s in
    let b : Store = mark_devices_ready a in
    let c : Store = mark_match_setup_complete s in
    Keeps-trans s a c (write-Keeps _ "v1" s refl)
      (Keeps-trans a b c (write-Keeps _ "1" a refl) (write-Keeps _ "1" b refl))

module _ (adult : String → Bool) where
  pub ensure_default_setup-Keeps : (s : Store) → Keeps s (ensure_default_setup adult s)
  unfolding ensure_default_setup
  ensure_default_setup-Keeps s = elim (Bool-cases (is_age_gate_complete adult s)) [
    | inl g ↦ elim (Bool-cases (is_match_setup_complete adult s)) [
      | inl d ↦ rw (g, d) (λ h. h, refl)
      | inr d ↦ rw (g, d) (mark_match_setup_complete-Keeps s)
    ]
    | inr g ↦ rw g (λ h. h, refl)
  ]

  pub mark_age_gate_complete-Keeps :
      (birth : String) (s : Store) → Keeps s (mark_age_gate_complete adult birth s)
  unfolding mark_age_gate_complete set_bool
  mark_age_gate_complete-Keeps birth s =
      let a : Store = write StorageKey.birth_date birth s in
      let b : Store = set_bool StorageKey.profile_complete true a in
      let c : Store = mark_match_setup_complete b in
      Keeps-trans s a c (write-Keeps _ birth s refl)
        (Keeps-trans a b c (write-Keeps _ "true" a refl) (mark_match_setup_complete-Keeps b))
