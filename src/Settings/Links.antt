-- ===== src/Settings/Links.antt =====
-- A link with preferences, from `sharePrefsUrl` to `mergePrefs`.
use strangertv.Common.{none, some, true, false, ◌==◌, String_eq, any, ◌≡◌, arith, ◌≤◌}
use strangertv.Common.Json.{str, arr, obj, Items, Fields, field}
use strangertv.Wire.{MatchPreferences}
use strangertv.Settings.Profile.{genders}
use strangertv.Settings.Share.{
  Browser, SharedPrefs, MergedPrefs, fields_of, merge_prefs, is_short, short, cleaned, is_blank,
  sanitize_shared_prefs, size,
}

-- Preferences as the panels offer them.
pub record IsOffered (b : Browser) (p : MatchPreferences) : Type 0 where
  pub country_given : (p.country == "") ≡ false
  pub country_short : b.text_length p.country ≤ 8
  pub language_given : (p.language == "") ≡ false
  pub language_short : b.text_length p.language ≤ 16
  pub gender_given : (p.gender == "") ≡ false
  pub gender_known : any (λ v. v == p.gender) genders ≡ true
  pub looking_given : (p.looking_for == "") ≡ false
  pub looking_known : any (λ v. v == p.looking_for) genders ≡ true

-- The fields that a link carries.
abbrev pub carried : MatchPreferences → SharedPrefs
carried p = record {
  country = some (str p.country);
  language = some (str p.language);
  gender = some (str p.gender);
  looking_for = some (str p.looking_for);
  mode = none;
  match_scope = none;
  match_pool = none;
}

-- The preferences of the sender, and of the receiver where a link carries nothing.
abbrev pub joined : MatchPreferences → MatchPreferences → MergedPrefs
joined p own = record {
  country = str p.country;
  language = str p.language;
  gender = str p.gender;
  looking_for = str p.looking_for;
  interests = own.interests;
  allow_match_with_same_users = own.allow_match_with_same_users;
  mode = str own.mode;
  match_scope = str own.match_scope;
  match_pool = str own.match_pool;
}

module _ (b : Browser) where
  -- A list of at most eight items passes for a country, as it is, and stands where the preferences
  -- have a text.
  pub list_passes_for_country :
      (items : Items) (rest : Fields) (own : MatchPreferences)
      → size items ≤ 8
      → (out : SharedPrefs) × (sanitize_shared_prefs b
            (fields_of (obj (field "country" (arr items) rest)))
          ≡ some out)
        × ((merge_prefs out own).country ≡ arr items)
  unfolding sanitize_shared_prefs cleaned short is_short is_blank fields_of merge_prefs
  list_passes_for_country items rest own h =
      let out : SharedPrefs = cleaned b (fields_of (obj (field "country" (arr items) rest))) in
      (out, ground arith, ground arith)
