-- ===== src/Media/Calls.antt =====
-- The calls of src/hooks/useMedia.ts, one after the other.
use strangertv.Common.{
  List, [], ◌∷◌, Option, none, some, Bool, true, false, not, String, if◌then◌else◌, ◌≡◌, ap, ◌∙◌,
  inl, inr, Bool-cases, is_some,
}
use strangertv.Media.Errors.{
  MediaErrorCode, permission, in_use, not_found, security, unknown, code_text, classify_media_error,
  code_of_name, code_of_message,
}
use strangertv.Media.Streams.{
  Media, Answer, granted, refused, Browser, Request, stop_current, stop_stream, ensure_stream,
  devices_changed, reclassified, reopened, switched, selected, both_devices, track_of,
  switch_device,
}
use strangertv.Media.Sole.{
  IsSole, Delivers, ensure_stream-Delivers, stop_current-IsOff, IsOff-IsSole,
}

-- A call, with the browser as it is then.
pub data MediaCall : Type 0 where
  ensured : Browser → Request → MediaCall
  switches : Browser → Bool → String → MediaCall
  stops : MediaCall
  plugged : List String → List String → MediaCall

unfoldable pub perform : MediaCall → Media → Media
perform (ensured b r) s = ensure_stream b r s
perform (switches b is_video id) s = switch_device b is_video id s
perform stops s = stop_stream s
perform (plugged video audio) s = devices_changed video audio s

unfoldable pub performs : List MediaCall → Media → Media
performs [] s = s
performs (c ∷ cs) s = performs cs (perform c s)

module _ (b : Browser) where
  reclassified-IsSole :
      (code : Option MediaErrorCode) (s : Media) → IsSole s → IsSole (reclassified b code s)
  reclassified-IsSole none s h = h
  reclassified-IsSole (some c) s h = h

  -- A code whose text says nothing to the tests of messages is lost where both the switch and the
  -- acquisition after it fail.
  pub reclassified_lost :
      (c : MediaErrorCode) (s : Media)
      → b.secure ≡ true
      → b.patterns.refused (code_text c) ≡ false
      → b.patterns.busy (code_text c) ≡ false
      → b.patterns.missing (code_text c) ≡ false
      → (reclassified b (some c) s).error_code ≡ some unknown
  unfolding classify_media_error code_of_name code_of_message
  reclassified_lost c s safe p q r =
      ap
        (λ (t : Bool). some (
          if t
          then code_of_name b.patterns (record { name = "Error"; message = code_text c })
          else security))
        safe
      ∙ ap
          (λ (t : Bool). some (
            if t
            then permission
            else if b.patterns.busy (code_text c)
            then in_use
            else if b.patterns.missing (code_text c)
            then not_found
            else unknown))
          p
      ∙ ap
          (λ (t : Bool).
            some (
              if t
              then in_use
              else if b.patterns.missing (code_text c)
              then not_found
              else unknown))
          q
      ∙ ap (λ (t : Bool). some (if t then not_found else unknown)) r

  switched-IsSole : (a : Answer) (r : Request) (s : Media) → IsSole s → IsSole (switched b a r s)
  unfolding reopened
  switched-IsSole granted r s h = h
  switched-IsSole (refused e) r s h =
      reclassified-IsSole (ensure_stream b r s).error_code (ensure_stream b r s)
        (ensure_stream-Delivers b r s h).0

  switch_device-IsSole :
      (is_video : Bool) (id : String) (s : Media)
      → IsSole s
      → IsSole (switch_device b is_video id s)
  unfolding switch_device
  switch_device-IsSole is_video id s h =
      let c : Media = selected b is_video id s in
      elim (Bool-cases (not (is_some s.current))) [
        | inl missing ↦ rw missing ((ensure_stream-Delivers b (both_devices b c) c h).0)
        | inr there ↦
            rw there (switched-IsSole (b.answer (track_of b is_video id)) (both_devices b c) _ h)
      ]

stop_stream-IsSole : (s : Media) → IsSole s → IsSole (stop_stream s)
unfolding stop_stream
stop_stream-IsSole s h = IsOff-IsSole (stop_current s) (stop_current-IsOff s h)

perform-IsSole : (c : MediaCall) (s : Media) → IsSole s → IsSole (perform c s)
unfolding perform devices_changed
perform-IsSole (ensured b r) s h = (ensure_stream-Delivers b r s h).0
perform-IsSole (switches b is_video id) s h = switch_device-IsSole b is_video id s h
perform-IsSole stops s h = stop_stream-IsSole s h
perform-IsSole (plugged video audio) s h = h

performs-IsSole : (cs : List MediaCall) (s : Media) → IsSole s → IsSole (performs cs s)
unfolding performs
performs-IsSole [] s h = h
performs-IsSole (c ∷ cs) s h = performs-IsSole cs (perform c s) (perform-IsSole c s h)

-- After any calls, one after the other and whatever the browser answers, no stream is live but the
-- current one; and a call of `ensureStream` then ends with a stream, or else no device is in use and the
-- kind of the failure is known.
pub performs-Delivers :
    (cs : List MediaCall) (b : Browser) (r : Request) (s : Media)
    → IsSole s
    → IsSole (performs cs s) × Delivers (ensure_stream b r (performs cs s))
performs-Delivers cs b r s h =
    let sole : IsSole (performs cs s) = performs-IsSole cs s h in
    (sole, (ensure_stream-Delivers b r (performs cs s) sole).1)
