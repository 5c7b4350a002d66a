-- ===== src/Media/Tests.antt =====
-- A camera that is taken, and another one.
use strangertv.Common.{List, [], ◌∷◌, [], ◌∷◌, none, some, true, false, ◌≡◌, refl}
use strangertv.Common.Maps.{discard}
use strangertv.Media.Errors.{Patterns, classify_media_error, code_of_name, is_final}
use strangertv.Media.Streams.{
  Media, Constraints, camera, Answer, granted, refused, Browser, Request, stop_current, publish_new,
  choose_devices, can_reuse, attempts, try_attempts, try_cameras, acquire, ensure_stream,
}
use strangertv.Media.Sole.{IsSole, Delivers}
use strangertv.Media.Calls.{
  MediaCall, ensured, switches, plugged, stops, performs, performs-Delivers,
}

abbrev no_pattern : Patterns
no_pattern = record {
  permission_word = λ _. false;
  refused = λ _. false;
  busy = λ _. false;
  missing = λ _. false;
}

abbrev second_camera : Constraints → Answer
second_camera (camera _ _) = granted
second_camera _ = refused (record { name = "NotReadableError"; message = "" })

abbrev two_cameras : Browser
two_cameras = record {
  has_user_media = true;
  secure = true;
  patterns = no_pattern;
  answer = second_camera;
  cameras = some ("front" ∷ "back" ∷ []);
  enumeration_failure = record { name = ""; message = "" };
  video_live = λ _. false;
  audio_live = λ _. true;
  video_device = λ _. "front";
  audio_device = λ _. "";
}

abbrev with_stream : Media
with_stream = record {
  current = some 3;
  live = 3 ∷ [];
  next = 4;
  video_id = "front";
  audio_id = "";
  error_code = none;
  acquiring = false;
  device_lost = true;
  stream_version = 1;
}

abbrev plain : Request
plain = record { video = none; audio = none; force = false }

abbrev some_calls : List MediaCall
some_calls =
    ensured two_cameras plain ∷ switches two_cameras true "front" ∷ plugged [] [] ∷ stops ∷ []

performs-Delivers_example :
    IsSole (performs some_calls with_stream)
    × Delivers (ensure_stream two_cameras plain (performs some_calls with_stream))
performs-Delivers_example = performs-Delivers some_calls two_cameras plain with_stream refl

falls_back : (ensure_stream two_cameras plain with_stream).video_id ≡ "back"
unfolding ensure_stream can_reuse choose_devices acquire attempts try_attempts try_cameras
    stop_current publish_new classify_media_error code_of_name is_final discard
falls_back = refl
