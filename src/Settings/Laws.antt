-- ===== src/Settings/Laws.antt =====
-- Reading after writing in src/utils/storage.ts.
use strangertv.Common.{
  none, some, Bool, true, false, ◌&&◌, String, ◌==◌, String_eq, if◌then◌else◌, ◌≡◌, refl, ap, arith,
}
use strangertv.Common.Maps.{get-put, get-remove}
use strangertv.Settings.Storage.{
  Store, StorageKey, key_text, read, write, remove, get_flag, set_flag, get_bool, set_bool, is_text,
}

-- Whether a write can be read.
abbrev pub writes : Store → Bool
writes s = s.readable && s.writable

pub read-write :
    (j k : StorageKey) (v : String) (s : Store)
    → read j (write k v s) ≡ (if writes s && key_text k == key_text j then some v else read j s)
unfolding read write
read-write j k v s = ground (arith, get-put (key_text k) (key_text j) v s.items)

pub read-remove :
    (j k : StorageKey) (s : Store)
    → read j (remove k s) ≡ (if s.removable && key_text k == key_text j then none else read j s)
unfolding read remove
read-remove j k s = ground (arith, get-remove (key_text k) (key_text j) s.items)

pub writes-write : (k : StorageKey) (v : String) (s : Store) → writes (write k v s) ≡ writes s
unfolding write
writes-write k v s = ground arith

same_key_text : (k : StorageKey) → (key_text k == key_text k) ≡ true
same_key_text k = (String_eq.same_iff (key_text k) (key_text k)).1 refl

-- What is written is read.
pub read-write_same :
    (k : StorageKey) (v : String) (s : Store) → writes s ≡ true → read k (write k v s) ≡ some v
read-write_same k v s w = ground (arith, read-write k k v s, same_key_text k)

-- A flag that is set reads as it was set.
pub get_flag-set_flag :
    (k : StorageKey) (on : Bool) (s : Store) → writes s ≡ true → get_flag k (set_flag k on s) ≡ on
unfolding get_flag set_flag
get_flag-set_flag k true s w = ap (is_text "1") (read-write_same k "1" s w)
get_flag-set_flag k false s w = ap (is_text "1") (read-write_same k "0" s w)

pub get_bool-set_bool :
    (k : StorageKey) (on : Bool) (s : Store) → writes s ≡ true → get_bool k (set_bool k on s) ≡ on
unfolding get_bool set_bool
get_bool-set_bool k true s w = ap (is_text "true") (read-write_same k "true" s w)
get_bool-set_bool k false s w = ap (is_text "true") (read-write_same k "false" s w)
