-- ===== src/Settings/Storage.antt =====
-- `localStorage` and the session that src/utils/storage.ts keeps. JSON's text of a profile is a
-- parameter.
use strangertv.Common.{
  List, Option, none, some, Bool, false, not, String, ◌==◌, String_eq, if◌then◌else◌, ◌≡◌,
}
use strangertv.Common.Maps

-- STORAGE_KEYS
pub data StorageKey : Type 0 where
  token user prefs match_sound match_notify locale birth_date profile_complete terms_accepted :
      StorageKey
  setup_complete devices_ready video_device audio_device denoise ui_settings : StorageKey
  auto_next admin_key : StorageKey

abbrev pub key_text : StorageKey → String
key_text token = "stranger-token"
key_text user = "stranger-user"
key_text prefs = "stranger-prefs"
key_text match_sound = "stranger-match-sound"
key_text match_notify = "stranger-match-notify"
key_text locale = "stranger-locale"
key_text birth_date = "stranger-birth-date"
key_text profile_complete = "stranger-profile-complete"
key_text terms_accepted = "stranger-terms-accepted"
key_text setup_complete = "stranger-setup-complete"
key_text devices_ready = "stranger-devices-ready"
key_text video_device = "stranger-video-device-id"
key_text audio_device = "stranger-audio-device-id"
key_text denoise = "stranger-denoise"
key_text ui_settings = "stranger-ui-settings"
key_text auto_next = "stranger-auto-next"
key_text admin_key = "stranger-admin-key"

-- `localStorage`, of which reading, writing and removing may throw, each for itself, and the bearer in
-- memory.
pub record Store : Type 0 where
  pub items : List (String × String)
  pub readable : Bool
  pub writable : Bool
  pub removable : Bool
  pub memory_token : Option String

unfoldable pub read : StorageKey → Store → Option String
read key s = if s.readable then Maps.get (key_text key) s.items else none

unfoldable pub write : StorageKey → String → Store → Store
write key value s =
    if s.writable then record s { items = Maps.put (key_text key) value s.items } else s

unfoldable pub remove : StorageKey → Store → Store
remove key s = if s.removable then record s { items = Maps.remove (key_text key) s.items } else s

abbrev pub is_text : String → Option String → Bool
is_text text none = false
is_text text (some value) = value == text

-- `getFlag`, `setFlag`: '0' and '1'
unfoldable pub get_flag : StorageKey → Store → Bool
get_flag key s = is_text "1" (read key s)

unfoldable pub set_flag : StorageKey → Bool → Store → Store
set_flag key on s = write key (if on then "1" else "0") s

-- `getBool`, `setBool`: 'true' and 'false'
unfoldable pub get_bool : StorageKey → Store → Bool
get_bool key s = is_text "true" (read key s)

unfoldable pub set_bool : StorageKey → Bool → Store → Store
set_bool key on s = write key (if on then "true" else "false") s

abbrev pub get_token : Store → Option String
get_token s = s.memory_token

-- The text of a profile; a text that is no JSON is `none`, and `null` is `some none`.
pub record ProfileText (User : Type 0) : Type 0 where
  pub print : User → String
  pub parse : String → Option (Option User)
  pub parse-print : (u : User) → parse (print u) ≡ some (some u)
  pub print_nonempty : (u : User) → (print u == "") ≡ false

module _ {User : Type 0} (json : ProfileText User) where
  abbrev parsed : Option (Option User) → Option User
  parsed none = none
  parsed (some u) = u

  abbrev json_of : Option String → Option User
  json_of none = none
  json_of (some raw) = if raw == "" then none else parsed (json.parse raw)

  -- `getStoredUser`
  unfoldable pub get_stored_user : Store → Option User
  get_stored_user s = json_of (read user s)

  unfoldable pub set_stored_user : User → Store → Store
  set_stored_user u s = write user (json.print u) s

  -- `setSession`: the session of an older server, whose bearer stays in memory
  unfoldable pub set_session : String → User → Store → Store
  set_session bearer u s =
      set_stored_user u (remove token (record s { memory_token = some bearer }))

  -- `setAuthenticatedUser`: the cookie owns the session
  unfoldable pub set_authenticated_user : User → Store → Store
  set_authenticated_user u s = set_stored_user u (remove token (record s { memory_token = none }))

unfoldable pub clear_session : Store → Store
clear_session s = remove user (remove token (record s { memory_token = none }))

-- What loading the module does first.
unfoldable pub load_storage : Store → Store
load_storage s = remove token (record s { memory_token = none })

unfoldable pub is_match_sound_enabled : Store → Bool
is_match_sound_enabled s = not (is_text "0" (read match_sound s))

unfoldable pub set_match_sound_enabled : Bool → Store → Store
set_match_sound_enabled on s = set_flag match_sound on s

unfoldable pub is_match_notify_enabled : Store → Bool
is_match_notify_enabled s = get_flag match_notify s

unfoldable pub set_match_notify_enabled : Bool → Store → Store
set_match_notify_enabled on s = set_flag match_notify on s

abbrev pub get_stored_locale : Store → Option String
get_stored_locale s = read locale s

abbrev pub set_stored_locale : String → Store → Store
set_stored_locale value s = write locale value s

-- `getUiSettingsRaw` and `setUiSettingsRaw`, with JSON's text of the settings
abbrev pub get_ui_settings_raw : Store → Option String
get_ui_settings_raw s = read ui_settings s

abbrev pub set_ui_settings_raw : String → Store → Store
set_ui_settings_raw text s = write ui_settings text s
