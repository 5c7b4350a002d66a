-- ===== src/Media/Sole.antt =====
-- One stream at most is live in src/hooks/useMedia.ts, while one acquisition runs at a time.
use strangertv.Common.{
  ℕ, suc, List, [], ◌∷◌, ◌++◌, Option, none, some, Bool, true, false, not, ◌&&◌, String, ◌==◌, ℕ_eq,
  String_eq, if◌then◌else◌, ◌≡◌, refl, sym, ap, ◌∙◌, ◌⊎◌, inl, inr, arith, is_some, Bool-cases,
  nat_eq_iff,
}
use strangertv.Common.Maps.{discard}
use strangertv.Media.Errors.{Failure, is_final}
use strangertv.Media.Streams.{
  Media, Constraints, camera, Answer, granted, refused, Browser, Request, stopped, stop_current,
  stream_matches, publish_new, choose_devices, can_reuse, attempts, code_of, attempted,
  try_attempts, try_cameras, other_cameras, fall_back, settled, missing_media, acquire,
  ensure_stream,
}

abbrev pub only : Option ℕ → List ℕ
only none = []
only (some id) = id ∷ []

-- What is live is the current stream.
abbrev pub IsSole : Media → Type 0
IsSole s = s.live ≡ only s.current

-- There is a stream, or else nothing is live and the failure is known.
abbrev pub Delivers : Media → Type 0
Delivers s = (is_some s.current ≡ true) ⊎ ((s.live ≡ []) × (is_some s.error_code ≡ true))

-- Nothing is live.
abbrev pub IsOff : Media → Type 0
IsOff s = (s.live ≡ []) × (s.current ≡ none)

-- A stream has been opened, or nothing is live.
abbrev Opened : Media × Option Failure → Type 0
Opened (s, none) = IsSole s × (is_some s.current ≡ true)
Opened (s, some e) = IsSole s

Answer-cases : (a : Answer) → (a ≡ granted) ⊎ ((e : Failure) × (a ≡ refused e))
Answer-cases granted = inl refl
Answer-cases (refused e) = inr (e, refl)

discard-only : (id : ℕ) → discard id (id ∷ []) ≡ []
unfolding discard
discard-only id = ground (arith, nat_eq_iff id id)

stopped-IsOff :
    (current : Option ℕ) (s : Media)
    → s.current ≡ current
    → s.live ≡ only current
    → IsOff (stopped current s)
stopped-IsOff none s c l = (l, c)
stopped-IsOff (some id) s c l = (ap (discard id) l ∙ discard-only id, refl)

pub stop_current-IsOff : (s : Media) → IsSole s → IsOff (stop_current s)
unfolding stop_current
stop_current-IsOff s h = stopped-IsOff s.current s refl h

pub IsOff-IsSole : (s : Media) → IsOff s → IsSole s
IsOff-IsSole s (l, c) = l ∙ sym (ap only c)

publish_new-Opened : (s : Media) → s.live ≡ [] → Opened (publish_new s, none)
unfolding publish_new
publish_new-Opened s l = (ap (λ (ids : List ℕ). ids ++ s.next ∷ []) l, refl)

chosen-Opened :
    (test : Bool) (x y : Media × Option Failure)
    → Opened x
    → Opened y
    → Opened (if test then x else y)
chosen-Opened true x y h k = h
chosen-Opened false x y h k = k

second_holds : (p q : Bool) → (p && q) ≡ true → q ≡ true
second_holds p q h = ground arith

module _ (b : Browser) where
  attempted-Opened :
      (a : Answer) (s : Media) (rest : Failure → Media × Option Failure)
      → IsOff s
      → ((e : Failure) → Opened (rest e))
      → Opened (attempted b a s rest)
  attempted-Opened granted s rest (l, n) k = publish_new-Opened s l
  attempted-Opened (refused e) s rest off k =
      chosen-Opened (is_final (code_of b e)) (s, some e) (rest e) (IsOff-IsSole s off) (k e)

  try_attempts-Opened :
      (cs : List Constraints) (last : Failure) (s : Media)
      → IsSole s
      → Opened (try_attempts b cs last s)
  unfolding try_attempts
  try_attempts-Opened [] last s h = h
  try_attempts-Opened (c ∷ cs) last s h =
      let (l, n) = stop_current-IsOff s h in
      let off : IsSole (stop_current s) = IsOff-IsSole (stop_current s) (l, n) in
      attempted-Opened (b.answer c) (stop_current s) (λ e. try_attempts b cs e (stop_current s))
        (l, n) (λ e. try_attempts-Opened cs e (stop_current s) off)

  try_cameras-Opened :
      (video audio : String) (cams : List String) (last : Failure) (s : Media)
      → IsSole s
      → Opened (try_cameras b video audio cams last s)
  unfolding try_cameras
  try_cameras-Opened video audio [] last s h = h
  try_cameras-Opened video audio (cam ∷ cams) last s h =
      let (l, n) = stop_current-IsOff s h in
      let off : IsSole (stop_current s) = IsOff-IsSole (stop_current s) (l, n) in
      elim (Bool-cases (not (video == "") && cam == video)) [
        | inl skip ↦ rw skip (try_cameras-Opened video audio cams last s h)
        | inr try ↦ elim (Answer-cases (b.answer (camera cam audio))) [
          | inl e ↦ rw (try, e) (publish_new-Opened (record (stop_current s) { video_id = cam }) l)
          | inr (f, e) ↦ rw (try, e) (try_cameras-Opened video audio cams f (stop_current s) off)
        ]
      ]

  other_cameras-Opened :
      (video audio : String) (cams : Option (List String)) (last : Failure) (s : Media)
      → IsSole s
      → Opened (other_cameras b video audio cams last s)
  other_cameras-Opened video audio none last s h = h
  other_cameras-Opened video audio (some cams) last s h =
      try_cameras-Opened video audio cams last s h

  fall_back-Opened :
      (video audio : String) (r : Media × Option Failure)
      → Opened r
      → Opened (fall_back b video audio r)
  fall_back-Opened video audio (s, none) h = h
  fall_back-Opened video audio (s, some last) h =
      other_cameras-Opened video audio b.cameras last s h

  -- What is left of a failure: the stream that was there, or nothing live.
  failed-Delivers :
      (current : Option ℕ) (s : Media)
      → s.current ≡ current
      → IsSole s
      → is_some s.error_code ≡ true
      → Delivers s
  failed-Delivers none s c h e = inr (h ∙ ap only c, e)
  failed-Delivers (some id) s c h e = inl (ap is_some c)

  settled-Delivers :
      (r : Media × Option Failure) → Opened r → IsSole (settled b r) × Delivers (settled b r)
  settled-Delivers (s, none) (h, there) = (h, inl there)
  settled-Delivers (s, some e) h =
      (h, failed-Delivers s.current (settled b (s, some e)) refl h refl)

  acquire-Opened : (s : Media) → IsSole s → Opened (acquire b s)
  unfolding acquire
  acquire-Opened s h = chosen-Opened (not b.has_user_media) _ _ h (
      chosen-Opened (not b.secure) _ _ h (
        fall_back-Opened s.video_id s.audio_id _
          (try_attempts-Opened (attempts b s) (missing_media b) s h)))

  matching-some :
      (current : Option ℕ) (s : Media) → stream_matches b current s ≡ true → is_some current ≡ true
  matching-some none s h = h
  matching-some (some id) s h = refl

  can_reuse-some : (r : Request) (s : Media) → can_reuse b r s ≡ true → is_some s.current ≡ true
  unfolding can_reuse
  can_reuse-some r s h =
      matching-some s.current s (second_holds (not r.force) (stream_matches b s.current s) h)

  -- Whatever the browser answers, a call of `ensureStream` that runs alone leaves no stream live but the
  -- current one; if it ends without a stream, no device is in use and the kind of the failure is known.
  pub ensure_stream-Delivers :
      (r : Request) (s : Media)
      → IsSole s
      → IsSole (ensure_stream b r s) × Delivers (ensure_stream b r s)
  unfolding ensure_stream choose_devices
  ensure_stream-Delivers r s h =
      let c : Media = choose_devices r s in
      elim (Bool-cases (can_reuse b r c)) [
        | inl reuse ↦ rw reuse (h, inl (can_reuse-some r c reuse))
        | inr open_new ↦ rw open_new (
            settled-Delivers (acquire b (record c { acquiring = true; error_code = none }))
              (acquire-Opened (record c { acquiring = true; error_code = none }) h))
      ]

stopped-next : (current : Option ℕ) (s : Media) → (stopped current s).next ≡ s.next
stopped-next none s = refl
stopped-next (some id) s = refl

stop_current-next : (s : Media) → (stop_current s).next ≡ s.next
unfolding stop_current
stop_current-next s = stopped-next s.current s

-- Two calls that overlap.
abbrev pub overlapping : Media → Media
overlapping s = publish_new (publish_new (stop_current (stop_current s)))

-- Two calls of `ensureStream` that overlap, each stopping the current stream before either is granted
-- one, leave both new streams live, of which the first is no longer known and is never stopped.
pub overlapping_leak :
    (s : Media)
    → IsSole s
    → let t : Media = overlapping s in
      (t.live ≡ s.next ∷ suc s.next ∷ []) × (t.current ≡ some (suc s.next))
unfolding publish_new
overlapping_leak s h =
    let once : Media = stop_current s in
    let (l, n) = stop_current-IsOff s h in
    let (off, _) = stop_current-IsOff once (IsOff-IsSole once (l, n)) in
    let same : (stop_current once).next ≡ s.next = stop_current-next once ∙ stop_current-next s in
    (
      ap
            (λ (ids : List ℕ).
              (ids ++ (stop_current once).next ∷ []) ++ suc (stop_current once).next ∷ [])
            off
          ∙ ap (λ (id : ℕ). id ∷ suc id ∷ []) same,
      ap (λ (id : ℕ). some (suc id)) same,
    )
