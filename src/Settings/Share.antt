-- ===== src/Settings/Share.antt =====
-- Preferences in a link: src/utils/sharePrefs.ts. JSON's and base64's texts, the query of an address
-- and the length of a text in UTF-16 units are parameters; `none` is an exception or a null.
use strangertv.Common.{
  ℕ, suc, List, Option, none, some, Bool, true, false, not, ◌&&◌, String, ◌==◌, String_eq,
  if◌then◌else◌, leb, any,
}
use strangertv.Common.Int.{pos, negsuc}
use strangertv.Common.Json.{
  Json, null, num, str, arr, obj, int, Items, nil, cons, end, field, prop, is_record,
}
use strangertv.Wire.{MatchPreferences}
use strangertv.Settings.Profile.{genders}

-- `JSON.stringify`, `JSON.parse`, `btoa`, `atob`, `searchParams.get('prefs')` and
-- `searchParams.set('prefs', …)`, the length of a text, and `v <= bound` where `v` is no integer.
pub record Browser : Type 0 where
  pub stringify : Json → String
  pub parse : String → Option Json
  pub btoa : String → Option String
  pub atob : String → Option String
  pub query : String → Option String
  pub with_query : String → String → String
  pub text_length : String → ℕ
  pub other_at_most : Json → ℕ → Bool

-- The payload of `encodePrefs`.
unfoldable pub payload : MatchPreferences → Json
payload p = obj (
    field "country" (str p.country) (
      field "language" (str p.language)
        (field "gender" (str p.gender) (field "lookingFor" (str p.looking_for) end))))

-- A `Partial<MatchPreferences>` of which nothing is known but the names of its fields.
pub record SharedPrefs : Type 0 where
  pub country : Option Json
  pub language : Option Json
  pub gender : Option Json
  pub looking_for : Option Json
  pub mode : Option Json
  pub match_scope : Option Json
  pub match_pool : Option Json

unfoldable pub fields_of : Json → SharedPrefs
fields_of v = record {
  country = prop v "country";
  language = prop v "language";
  gender = prop v "gender";
  looking_for = prop v "lookingFor";
  mode = prop v "mode";
  match_scope = prop v "matchScope";
  match_pool = prop v "matchPool";
}

-- What `mergePrefs` returns; the compiler takes the shared fields for texts.
pub record MergedPrefs : Type 0 where
  pub country : Json
  pub language : Json
  pub gender : Json
  pub looking_for : Json
  pub interests : List String
  pub allow_match_with_same_users : Bool
  pub mode : Json
  pub match_scope : Json
  pub match_pool : Json

-- `v ?? d`
abbrev pub or_default : Option Json → String → Json
or_default none d = str d
or_default (some null) d = str d
or_default (some v) d = v

unfoldable pub merge_prefs : SharedPrefs → MatchPreferences → MergedPrefs
merge_prefs shared defaults = record {
  country = or_default shared.country defaults.country;
  language = or_default shared.language defaults.language;
  gender = or_default shared.gender defaults.gender;
  looking_for = or_default shared.looking_for defaults.looking_for;
  interests = defaults.interests;
  allow_match_with_same_users = defaults.allow_match_with_same_users;
  mode = or_default shared.mode defaults.mode;
  match_scope = or_default shared.match_scope defaults.match_scope;
  match_pool = or_default shared.match_pool defaults.match_pool;
}

abbrev pub size : Items → ℕ
size nil = 0
size (cons _ rest) = suc (size rest)

-- `raw.gender && validGenders.includes(raw.gender)`
unfoldable pub valid_gender : Option Json → Option Json
valid_gender (some (str g)) =
    if not (g == "") && any (λ v. v == g) genders then some (str g) else none
valid_gender _ = none

module _ (b : Browser) where
  unfoldable pub encode_prefs : MatchPreferences → Option String
  encode_prefs p = b.btoa (b.stringify (payload p))

  abbrev record_only : Option Json → Option Json
  record_only none = none
  record_only (some v) = if is_record v then some v else none

  abbrev parsed : Option String → Option Json
  parsed none = none
  parsed (some text) = record_only (b.parse text)

  unfoldable pub decode_prefs : String → Option Json
  decode_prefs code = parsed (b.atob code)

  abbrev linked : String → Option String → Option String
  linked address none = none
  linked address (some code) = some (b.with_query code address)

  -- `none` where `btoa` throws
  unfoldable pub share_prefs_url : String → MatchPreferences → Option String
  share_prefs_url address p = linked address (encode_prefs p)

  abbrev decoded : Option String → Option Json
  decoded none = none
  decoded (some code) = if code == "" then none else decode_prefs code

  unfoldable pub read_shared_prefs : String → Option Json
  read_shared_prefs address = decoded (b.query address)

  abbrev length_at_most : Option Json → ℕ → Bool
  length_at_most (some (num (int (pos n)))) bound = leb n bound
  length_at_most (some (num (int (negsuc _)))) bound = true
  length_at_most (some v) bound = b.other_at_most v bound
  length_at_most none bound = false

  -- `v && v.length <= bound`
  unfoldable pub is_short : ℕ → Json → Bool
  is_short bound (str s) = not (s == "") && leb (b.text_length s) bound
  is_short bound (arr items) = leb (size items) bound
  is_short bound (obj fields) = length_at_most (prop (obj fields) "length") bound
  is_short bound _ = false

  unfoldable pub short : ℕ → Option Json → Option Json
  short bound none = none
  short bound (some v) = if is_short bound v then some v else none

  unfoldable pub cleaned : SharedPrefs → SharedPrefs
  cleaned raw = record {
    country = short 8 raw.country;
    language = short 16 raw.language;
    gender = valid_gender raw.gender;
    looking_for = valid_gender raw.looking_for;
    mode = none;
    match_scope = none;
    match_pool = none;
  }

  abbrev nothing : Option Json → Bool
  nothing none = true
  nothing (some _) = false

  unfoldable pub is_blank : SharedPrefs → Bool
  is_blank out =
      nothing out.country && nothing out.language && nothing out.gender && nothing out.looking_for

  unfoldable pub sanitize_shared_prefs : SharedPrefs → Option SharedPrefs
  sanitize_shared_prefs raw = if is_blank (cleaned raw) then none else some (cleaned raw)

  abbrev clean_fields : Option Json → Option SharedPrefs
  clean_fields none = none
  clean_fields (some v) = sanitize_shared_prefs (fields_of v)

  -- What the boot of src/hooks/useSessionBootstrap.ts takes from the address.
  unfoldable pub boot_prefs : String → Option SharedPrefs
  boot_prefs address = clean_fields (read_shared_prefs address)
