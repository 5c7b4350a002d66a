-- ===== src/Common/Json.antt =====
-- The values that `JSON.parse` and `postMessage` hand over.
use Prim.Native.Nat.{ℕ}
use Prim.Native.String.{String}
use mathlib.Core.Bool.{Bool, true, false}
use mathlib.Core.Option.{Option, none, some}
use strangertv.Common.Tests.{◌==◌, String_eq, if◌then◌else◌, is_some}
use strangertv.Common.Int.{ℤ}

-- A number that is no integer is known by a name of its own.
pub data Number : Type 0 where
  int : ℤ → Number
  fraction : ℕ → Number

mutual
  pub data Json : Type 0 where
    null : Json
    bool : Bool → Json
    num : Number → Json
    str : String → Json
    arr : Items → Json
    obj : Fields → Json

  pub data Items : Type 0 where
    nil : Items
    cons : Json → Items → Items

  pub data Fields : Type 0 where
    end : Fields
    field : String → Json → Fields → Fields

abbrev pub field_of : Fields → String → Option Json
field_of end key = none
field_of (field name v rest) key = if name == key then some v else field_of rest key

-- `v[key]`, with `undefined` as `none`; only objects have the fields that the code asks for.
abbrev pub prop : Json → String → Option Json
prop (obj fields) key = field_of fields key
prop _ key = none

-- `key in v`
abbrev pub has_prop : Json → String → Bool
has_prop v key = is_some (prop v key)

-- `typeof v === 'object' && v !== null`
abbrev pub is_record : Json → Bool
is_record (arr _) = true
is_record (obj _) = true
is_record _ = false

abbrev pub as_number : Option Json → Option Number
as_number (some (num n)) = some n
as_number _ = none

abbrev pub as_string : Option Json → Option String
as_string (some (str s)) = some s
as_string _ = none

-- `v === true`
abbrev pub is_true : Option Json → Bool
is_true (some (bool b)) = b
is_true _ = false
