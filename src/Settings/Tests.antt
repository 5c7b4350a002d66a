-- ===== src/Settings/Tests.antt =====
-- A browser with what an older client left in it, and a link.
use strangertv.Common.{
  List, [], ◌∷◌, Option, none, some, Bool, true, false, String, ◌==◌, String_eq, if◌then◌else◌, ◌≡◌,
  refl,
}
use strangertv.Wire.{MatchPreferences}
use strangertv.Settings.Storage.{Store, locale, ProfileText, read, get_bool}
use strangertv.Settings.Bearer.{StorageCall, signed_in, authenticated, sound, saved, gate_passed}
use strangertv.Common.Maps
use strangertv.Settings.Setup.{is_age_gate_complete, is_match_setup_complete, ensure_default_setup}
use strangertv.Settings.Gate.{ensure_default_setup_complete}
use strangertv.Settings.Share.{Browser, payload}

abbrev text_of_bool : Bool → String
text_of_bool true = "true"
text_of_bool false = "false"

abbrev bool_of_text : String → Option (Option Bool)
bool_of_text t =
    if t == "true" then some (some true) else if t == "false" then some (some false) else none

bool_of_text_lem : (b : Bool) → bool_of_text (text_of_bool b) ≡ some (some b)
bool_of_text_lem true = refl
bool_of_text_lem false = refl

text_given : (b : Bool) → (text_of_bool b == "") ≡ false
text_given true = refl
text_given false = refl

abbrev bools : ProfileText Bool
bools = record {
  print = text_of_bool;
  parse = bool_of_text;
  parse-print = bool_of_text_lem;
  print_nonempty = text_given;
}

abbrev old_browser : Store
old_browser = record {
  items = ("stranger-token", "old") ∷ [];
  readable = true;
  writable = true;
  removable = true;
  memory_token = none;
}

abbrev two_sessions : List (StorageCall Bool)
two_sessions =
    signed_in "first" true
    ∷ authenticated false
    ∷ gate_passed "2000-01-01"
    ∷ signed_in "second" true
    ∷ sound false
    ∷ saved locale "es"
    ∷ []

abbrev everyone : String → Bool
everyone _ = true

abbrev sender : MatchPreferences
sender = record {
  country = "ES";
  language = "es";
  gender = "female";
  looking_for = "any";
  interests = "music" ∷ [];
  allow_match_with_same_users = false;
  mode = "solo";
  match_scope = "all";
  match_pool = "all";
}

abbrev receiver : MatchPreferences
receiver = record {
  country = "any";
  language = "en";
  gender = "male";
  looking_for = "other";
  interests = [];
  allow_match_with_same_users = true;
  mode = "solo";
  match_scope = "all";
  match_pool = "registered";
}

abbrev one_link : Browser
one_link = record {
  stringify = λ _. "json";
  parse = λ text. if text == "json" then some (payload sender) else none;
  btoa = λ text. some text;
  atob = λ code. some code;
  query = λ address. some address;
  with_query = λ code address. code;
  text_length = λ _. 2;
  other_at_most = λ _ _. false;
}

-- A visitor who has passed the age gate.
abbrev visitor : Store
visitor = record old_browser {
  items = ("stranger-birth-date", "2000-01-01") ∷ ("stranger-profile-complete", "true") ∷ [];
}

ensure_default_setup_complete_example :
    let t : Store = ensure_default_setup everyone visitor in
    (is_match_setup_complete everyone t ≡ true) × (ensure_default_setup everyone t ≡ t)
unfolding is_age_gate_complete get_bool read Maps.get
ensure_default_setup_complete_example = ensure_default_setup_complete everyone visitor refl refl
