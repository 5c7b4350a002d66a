-- ===== src/Settings/Bearer.antt =====
-- The bearer of src/utils/storage.ts stays in memory: the calls of the module, in any order.
use strangertv.Common.{List, [], ◌∷◌, Option, none, some, Bool, false, String, ◌==◌, String_eq, ◌≡◌}
use strangertv.Settings.Storage.{
  Store, StorageKey, token, prefs, set_ui_settings_raw, key_text, write, remove, ProfileText,
  set_stored_user, set_session, set_authenticated_user, clear_session, load_storage,
  set_match_sound_enabled, set_match_notify_enabled, set_stored_locale,
}
use strangertv.Settings.Clean.{IsClean}
use strangertv.Settings.Setup.{
  accept_terms, mark_devices_ready, mark_match_setup_complete, mark_age_gate_complete,
  ensure_default_setup, save_video_device_id, save_audio_device_id, set_denoise_enabled,
}

-- The calls that change what is kept; `saved` and `removed` are `set` and `remove` themselves.
pub data StorageCall (User : Type 0) : Type 0 where
  loaded signed_out defaults_ensured terms_accepted devices_checked set_up_passed : StorageCall User
  signed_in : String → User → StorageCall User
  authenticated stored : User → StorageCall User
  sound notifications denoising : Bool → StorageCall User
  saved : StorageKey → String → StorageCall User
  removed : StorageKey → StorageCall User
  language preferences interface camera microphone gate_passed : String → StorageCall User

-- A call of `set` is not for the bearer's key.
abbrev pub SparesToken : {User : Type 0} → StorageCall User → Type 0
SparesToken (saved k v) = (key_text k == key_text token) ≡ false
SparesToken _ = Unit

abbrev pub AllSpareToken : {User : Type 0} → List (StorageCall User) → Type 0
AllSpareToken [] = Unit
AllSpareToken (c ∷ cs) = SparesToken c × AllSpareToken cs

module _ {User : Type 0} (json : ProfileText User) (adult : String → Bool) where
  unfoldable pub perform : StorageCall User → Store → Store
  perform loaded s = load_storage s
  perform signed_out s = clear_session s
  perform defaults_ensured s = ensure_default_setup adult s
  perform terms_accepted s = accept_terms s
  perform devices_checked s = mark_devices_ready s
  perform set_up_passed s = mark_match_setup_complete s
  perform (signed_in bearer u) s = set_session json bearer u s
  perform (authenticated u) s = set_authenticated_user json u s
  perform (stored u) s = set_stored_user json u s
  perform (sound on) s = set_match_sound_enabled on s
  perform (notifications on) s = set_match_notify_enabled on s
  perform (denoising on) s = set_denoise_enabled on s
  perform (saved k v) s = write k v s
  perform (removed k) s = remove k s
  perform (language v) s = set_stored_locale v s
  perform (preferences v) s = write prefs v s
  perform (interface v) s = set_ui_settings_raw v s
  perform (camera v) s = save_video_device_id v s
  perform (microphone v) s = save_audio_device_id v s
  perform (gate_passed birth) s = mark_age_gate_complete adult birth s

  unfoldable pub run : List (StorageCall User) → Store → Store
  run [] s = s
  run (c ∷ cs) s = run cs (perform c s)

  -- What a call leaves of the bearer that was in memory.
  abbrev pub bearer_after : StorageCall User → Option String → Option String
  bearer_after (signed_in bearer _) _ = some bearer
  bearer_after (authenticated _) _ = none
  bearer_after signed_out _ = none
  bearer_after loaded _ = none
  bearer_after _ held = held

  abbrev pub bearer_after_all : List (StorageCall User) → Option String → Option String
  bearer_after_all [] held = held
  bearer_after_all (c ∷ cs) held = bearer_after_all cs (bearer_after c held)

  abbrev Performs : StorageCall User → Store → Store → Type 0
  Performs c s t = IsClean t × (t.memory_token ≡ bearer_after c s.memory_token)
