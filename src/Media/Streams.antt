-- ===== src/Media/Streams.antt =====
-- The streams of src/hooks/useMedia.ts. A stream is known by its number, and `live` lists those whose
-- tracks have not been stopped. Muting, the list of devices and labels are left out.
use strangertv.Common.{
  ℕ, suc, ◌+◌, List, [], ◌∷◌, ◌++◌, Option, none, some, Bool, true, false, not, ◌&&◌, ◌||◌, String,
  ◌==◌, ℕ_eq, String_eq, any, is_some, if◌then◌else◌,
}
use strangertv.Common.Maps.{discard}
use strangertv.Media.Errors.{
  MediaErrorCode, Failure, Patterns, classify_media_error, is_final, code_text,
}

pub record Media : Type 0 where
  pub current : Option ℕ
  pub live : List ℕ
  pub next : ℕ
  pub video_id : String
  pub audio_id : String
  pub error_code : Option MediaErrorCode
  pub acquiring : Bool
  pub device_lost : Bool
  pub stream_version : ℕ

-- What `getUserMedia` is asked for.
pub data Constraints : Type 0 where
  preferred soft : String → String → Constraints
  loose : Constraints
  camera : String → String → Constraints
  video_only audio_only : String → Constraints

pub data Answer : Type 0 where
  granted : Answer
  refused : Failure → Answer

-- The browser; `cameras` is `none` where the devices cannot be enumerated.
pub record Browser : Type 0 where
  pub has_user_media : Bool
  pub secure : Bool
  pub patterns : Patterns
  pub answer : Constraints → Answer
  pub cameras : Option (List String)
  pub enumeration_failure : Failure
  pub video_live : ℕ → Bool
  pub audio_live : ℕ → Bool
  pub video_device : ℕ → String
  pub audio_device : ℕ → String

pub record Request : Type 0 where
  pub video : Option String
  pub audio : Option String
  pub force : Bool

abbrev pub stopped : Option ℕ → Media → Media
stopped none s = s
stopped (some id) s = record s { live = discard id s.live; current = none }

-- `stopTracks(streamRef.current); streamRef.current = null`
unfoldable pub stop_current : Media → Media
stop_current s = stopped s.current s

-- `stopStream`
unfoldable pub stop_stream : Media → Media
stop_stream s = record (stop_current s) { stream_version = (stop_current s).stream_version + 1 }

-- A new stream of the browser, and `publishStream`.
unfoldable pub publish_new : Media → Media
publish_new s = record s {
  current = some s.next;
  live = s.live ++ s.next ∷ [];
  next = suc s.next;
  device_lost = false;
  stream_version = s.stream_version + 1;
}

abbrev pub chosen : Option String → String → String
chosen none kept = kept
chosen (some id) kept = id

unfoldable pub choose_devices : Request → Media → Media
choose_devices r s = record s {
  video_id = chosen r.video s.video_id;
  audio_id = chosen r.audio s.audio_id;
}

-- A selection that no longer exists falls back to the default of the system.
abbrev still_there : String → List String → String
still_there id found = if any (λ d. d == id) found then id else ""

-- The listener of `devicechange`, given the ids of the cameras and of the microphones.
unfoldable pub devices_changed : List String → List String → Media → Media
devices_changed video audio s = record s {
  video_id = still_there s.video_id video;
  audio_id = still_there s.audio_id audio;
}

module _ (b : Browser) where
  abbrev is_asked : String → String → Bool
  is_asked asked actual = asked == "" || actual == asked

  abbrev pub stream_matches : Option ℕ → Media → Bool
  stream_matches none s = false
  stream_matches (some id) s =
      b.video_live id
      && b.audio_live id
      && is_asked s.video_id (b.video_device id)
      && is_asked s.audio_id (b.audio_device id)

  unfoldable pub can_reuse : Request → Media → Bool
  can_reuse r s = not r.force && stream_matches s.current s

  unfoldable pub attempts : Media → List Constraints
  attempts s =
      if s.video_id == "" && s.audio_id == ""
      then preferred "" "" ∷ soft "" "" ∷ loose ∷ []
      else preferred s.video_id s.audio_id ∷ soft s.video_id s.audio_id ∷ []

  abbrev pub code_of : Failure → MediaErrorCode
  code_of e = classify_media_error b.patterns b.secure e

  -- What an attempt's answer makes of the loop.
  abbrev pub attempted :
      Answer → Media → (Failure → Media × Option Failure) → Media × Option Failure
  attempted granted s rest = (publish_new s, none)
  attempted (refused e) s rest = if is_final (code_of e) then (s, some e) else rest e

  -- The loop over the attempts: the state, and the last failure unless a stream was granted.
  unfoldable pub try_attempts : List Constraints → Failure → Media → Media × Option Failure
  try_attempts [] last s = (s, some last)
  try_attempts (c ∷ cs) last s =
      attempted (b.answer c) (stop_current s) (λ e. try_attempts cs e (stop_current s))

  -- The loop over the other cameras, for the devices that were chosen.
  unfoldable pub try_cameras :
      String → String → List String → Failure → Media → Media × Option Failure
  try_cameras video audio [] last s = (s, some last)
  try_cameras video audio (cam ∷ cams) last s =
      let skipped : Media × Option Failure = try_cameras video audio cams last s in
      if not (video == "") && cam == video then skipped else elim (b.answer (camera cam audio)) [
        | granted ↦ (publish_new (record (stop_current s) { video_id = cam }), none)
        | refused e ↦ try_cameras video audio cams e (stop_current s)
      ]

  abbrev pub other_cameras :
      String → String → Option (List String) → Failure → Media → Media × Option Failure
  other_cameras video audio none last s = (s, some b.enumeration_failure)
  other_cameras video audio (some cams) last s = try_cameras video audio cams last s

  abbrev pub fall_back : String → String → Media × Option Failure → Media × Option Failure
  fall_back video audio (s, none) = (s, none)
  fall_back video audio (s, some last) = other_cameras video audio b.cameras last s

  abbrev pub settled : Media × Option Failure → Media
  settled (s, none) = record s { error_code = none; acquiring = false }
  settled (s, some e) = record s { error_code = some (code_of e); acquiring = false }

  abbrev pub missing_media : Failure
  missing_media = record { name = "NotFoundError"; message = "getUserMedia missing" }

  abbrev pub insecure_context : Failure
  insecure_context = record { name = "SecurityError"; message = "insecure context" }

  -- The part of `ensureStream` that opens devices, up to the state that it sets at the end.
  unfoldable pub acquire : Media → Media × Option Failure
  acquire s =
      if not b.has_user_media
      then (s, some missing_media)
      else if not b.secure
      then (s, some insecure_context)
      else fall_back s.video_id s.audio_id (try_attempts (attempts s) missing_media s)

  -- `ensureStream`; it throws where `error_code` is set.
  unfoldable pub ensure_stream : Request → Media → Media
  ensure_stream r s =
      let c : Media = choose_devices r s in
      if can_reuse r c
      then c
      else settled (acquire (record c { acquiring = true; error_code = none }))

  abbrev pub track_of : Bool → String → Constraints
  track_of true id = video_only id
  track_of false id = audio_only id

  -- The outer `catch` of `switchDevice`: what `ensureStream` throws is an `Error` with its code as text.
  abbrev pub reclassified : Option MediaErrorCode → Media → Media
  reclassified none s = s
  reclassified (some c) s = record s {
    error_code = some (code_of (record { name = "Error"; message = code_text c }));
    acquiring = false;
  }

  unfoldable pub reopened : Request → Media → Media
  reopened again s = reclassified (ensure_stream again s).error_code (ensure_stream again s)

  -- A track that is granted takes the place of the one in the current stream.
  abbrev pub switched : Answer → Request → Media → Media
  switched granted again s = record s {
    device_lost = false;
    stream_version = s.stream_version + 1;
    acquiring = false;
  }
  switched (refused e) again s = reopened again s

  abbrev pub selected : Bool → String → Media → Media
  selected is_video id s = record s {
    video_id = if is_video then id else s.video_id;
    audio_id = if is_video then s.audio_id else id;
  }

  abbrev pub both_devices : Media → Request
  both_devices s = record { video = some s.video_id; audio = some s.audio_id; force = false }

  -- `switchDevice`, of the camera or of the microphone
  unfoldable pub switch_device : Bool → String → Media → Media
  switch_device is_video id s =
      let c : Media = selected is_video id s in
      if not (is_some c.current)
      then ensure_stream (both_devices c) c
      else switched (b.answer (track_of is_video id)) (both_devices c)
          (record c { acquiring = true; error_code = none })
