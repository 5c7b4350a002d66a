-- ===== src/Settings/Profile.antt =====
-- `applyUserToClient` of src/utils/clientStorage.ts: what an account tells the client.
use strangertv.Common.{
  List, [], ◌∷◌, Option, none, some, Bool, true, false, not, ◌||◌, String, ◌==◌, String_eq,
  if◌then◌else◌, or_else, any, take,
}
use strangertv.Common.Json.{Json, prop, as_string, bool}
use strangertv.Wire.{MatchPreferences}
use strangertv.Settings.Storage.{Store, read, write, birth_date, prefs}
use strangertv.Settings.Setup.{accept_terms, is_age_gate_complete, mark_age_gate_complete}

-- The fields of a profile that the client reads.
pub record Profile : Type 0 where
  pub birth_date : Option String
  pub gender : Option String
  pub country : Option String
  pub language : Option String
  pub interests : Option (List String)

-- GENDERS
abbrev pub genders : List String
genders = "any" ∷ "male" ∷ "female" ∷ "other" ∷ []

-- `asGender`
unfoldable pub as_gender : Option String → String
as_gender none = "any"
as_gender (some v) = if any (λ g. g == v) genders then v else "any"

-- `Boolean(text)`
abbrev pub is_given : Option String → Bool
is_given none = false
is_given (some v) = not (v == "")

-- `text || d`
abbrev pub given_or : Option String → String → String
given_or none d = d
given_or (some v) d = if v == "" then d else v

abbrev has_items : Option (List String) → Bool
has_items (some (_ ∷ _)) = true
has_items _ = false

abbrev pub has_profile_prefs : Profile → Bool
has_profile_prefs u =
    is_given u.country || is_given u.language || is_given u.gender || has_items u.interests

-- `parsed?.allowMatchWithSameUsers ?? true`, for what `savePrefs` has stored
abbrev allow_of : Option Json → Bool
allow_of (some (bool b)) = b
allow_of _ = true

abbrev pool_of : Option String → String
pool_of none = "all"
pool_of (some v) = if v == "registered" then v else "all"

abbrev field_of_stored : Option Json → String → Option Json
field_of_stored none key = none
field_of_stored (some v) key = prop v key

-- The preferences of a profile, with the rest from what is stored.
unfoldable pub profile_prefs : Profile → Option Json → MatchPreferences
profile_prefs u stored = record {
  country = given_or u.country "any";
  language = given_or u.language "any";
  gender = as_gender u.gender;
  looking_for = as_gender (as_string (field_of_stored stored "lookingFor"));
  interests = take 5 (or_else u.interests []);
  allow_match_with_same_users = allow_of (field_of_stored stored "allowMatchWithSameUsers");
  mode = "solo";
  match_scope = "all";
  match_pool = pool_of (as_string (field_of_stored stored "matchPool"));
}

-- `parseJson` of the stored preferences, with `JSON.parse` given
abbrev stored_json : (String → Option Json) → Option String → Option Json
stored_json parse none = none
stored_json parse (some raw) = if raw == "" then none else parse raw

module _ (adult : String → Bool) (parse : String → Option Json) where
  -- What the birth date of the account does.
  unfoldable pub apply_birth : Option String → Bool → Store → Store × Bool
  apply_birth none complete s = (s, complete)
  apply_birth (some birth) complete s =
      if birth == ""
      then (s, complete)
      else if adult birth
      then (mark_age_gate_complete adult birth s, true)
      else (write birth_date birth s, complete)

  -- The store, `profileComplete` and `prefs`.
  unfoldable pub apply_user_to_client : Profile → Store → Store × Bool × Option MatchPreferences
  apply_user_to_client u s =
      let (t, complete) = apply_birth u.birth_date (is_age_gate_complete adult s) s in
      let v : Store = if complete then accept_terms t else t in
      if has_profile_prefs u
      then (v, complete, some (profile_prefs u (stored_json parse (read prefs v))))
      else (v, complete, none)
