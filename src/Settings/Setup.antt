-- ===== src/Settings/Setup.antt =====
-- The age gate and the set-up flags: src/utils/clientStorage.ts. `adult` is `isAdult` of a text.
use strangertv.Common.{
  Option, none, some, Bool, true, false, not, ◌&&◌, ◌||◌, String, ◌==◌, String_eq, if◌then◌else◌,
}
use strangertv.Settings.Storage.{
  Store, read, write, is_text, get_flag, set_flag, get_bool, set_bool, birth_date, profile_complete,
  terms_accepted, setup_complete, devices_ready, video_device, audio_device, denoise,
}

-- TERMS_VERSION
abbrev pub terms_version : String
terms_version = "v1"

abbrev pub or_empty : Option String → String
or_empty none = ""
or_empty (some v) = v

unfoldable pub is_terms_accepted : Store → Bool
is_terms_accepted s = is_text terms_version (read terms_accepted s) || get_bool terms_accepted s

unfoldable pub accept_terms : Store → Store
accept_terms s = write terms_accepted terms_version s

unfoldable pub are_devices_ready : Store → Bool
are_devices_ready s = get_flag devices_ready s

unfoldable pub mark_devices_ready : Store → Store
mark_devices_ready s = set_flag devices_ready true s

unfoldable pub mark_match_setup_complete : Store → Store
mark_match_setup_complete s = set_flag setup_complete true (mark_devices_ready (accept_terms s))

-- `loadDeviceIds`
unfoldable pub load_device_ids : Store → String × String
load_device_ids s = (or_empty (read video_device s), or_empty (read audio_device s))

unfoldable pub save_video_device_id : String → Store → Store
save_video_device_id id s = write video_device id s

unfoldable pub save_audio_device_id : String → Store → Store
save_audio_device_id id s = write audio_device id s

abbrev on_unless_off : Option String → Bool
on_unless_off none = true
on_unless_off (some v) = v == "true"

unfoldable pub is_denoise_enabled : Store → Bool
is_denoise_enabled s = on_unless_off (read denoise s)

unfoldable pub set_denoise_enabled : Bool → Store → Store
set_denoise_enabled on s = set_bool denoise on s

-- `getStartWizardStep`: false is 0, the devices, and true is 1, the preferences.
unfoldable pub start_wizard_step : Store → Bool
start_wizard_step s = are_devices_ready s

module _ (adult : String → Bool) where
  abbrev is_birth_of_adult : Option String → Bool
  is_birth_of_adult none = false
  is_birth_of_adult (some birth) = not (birth == "") && adult birth

  unfoldable pub is_age_gate_complete : Store → Bool
  is_age_gate_complete s = get_bool profile_complete s || is_birth_of_adult (read birth_date s)

  unfoldable pub mark_age_gate_complete : String → Store → Store
  mark_age_gate_complete birth s =
      mark_match_setup_complete (set_bool profile_complete true (write birth_date birth s))

  unfoldable pub is_match_setup_complete : Store → Bool
  is_match_setup_complete s =
      get_flag setup_complete s
      && is_terms_accepted s
      && are_devices_ready s
      && is_age_gate_complete s

  -- `canQuickStart`
  unfoldable pub can_quick_start : Store → Bool
  can_quick_start s = is_age_gate_complete s

  unfoldable pub ensure_default_setup : Store → Store
  ensure_default_setup s =
      if not (is_age_gate_complete s)
      then s
      else if not (is_match_setup_complete s)
      then mark_match_setup_complete s
      else s
