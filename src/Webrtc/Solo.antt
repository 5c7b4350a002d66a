-- ===== src/Webrtc/Solo.antt =====
-- The solo connection: candidates that come before it exists, and what `clear` leaves.
use strangertv.Common.{
  List, [], ◌∷◌, ◌++◌, map, Option, none, some, false, ◌≡◌, refl, ap, ◌∙◌, arith,
}
use mathlib.Core.List.{append-nil, append_assoc}
use strangertv.Webrtc.Browser.{Browser}
use strangertv.Webrtc.Hook.{Payload, offer, candidate, Hook, clear}
use strangertv.Webrtc.Signals.{create_peer, handle_solo}

module _ (w : Browser) where
  create_peer-solo_pending :
      (ice : Option w.IceServers) (stream : w.Stream) (s : Hook w) (cs : List w.Candidate)
      → create_peer w ice stream false (record s { solo_pending = cs })
        ≡ create_peer w ice stream false s
  unfolding create_peer clear
  create_peer-solo_pending none stream s cs = refl
  create_peer-solo_pending (some ice) stream s cs = refl

  -- Signals for the solo connection, one after the other.
  unfoldable pub solo_all :
      Option w.IceServers → Option w.Stream → List (Payload w) → Hook w → Hook w
  solo_all ice stream [] s = s
  solo_all ice stream (p ∷ ps) s = solo_all ice stream ps (handle_solo w ice stream p s)

  handle_solo_held :
      (ice : Option w.IceServers) (stream : Option w.Stream) (c : w.Candidate) (s : Hook w)
      → s.solo_pc ≡ none
      → handle_solo w ice stream (candidate c) s
        ≡ record s { solo_pending = s.solo_pending ++ c ∷ [] }
  unfolding handle_solo
  handle_solo_held ice stream c s e = ground arith

  solo_all_held :
      (ice : Option w.IceServers) (stream : Option w.Stream) (cs : List w.Candidate) (s : Hook w)
      → s.solo_pc ≡ none
      → solo_all ice stream (map (λ c. candidate c) cs) s
        ≡ record s { solo_pending = s.solo_pending ++ cs }
  unfolding solo_all
  solo_all_held ice stream [] s e = rw append-nil
  solo_all_held ice stream (c ∷ cs) s e =
      ap (solo_all ice stream (map (λ c. candidate c) cs)) (handle_solo_held ice stream c s e)
      ∙ solo_all_held ice stream cs (record s { solo_pending = s.solo_pending ++ c ∷ [] }) e
      ∙ ap (λ (held : List w.Candidate). record s { solo_pending = held })
          (append_assoc s.solo_pending (c ∷ []) cs)

  offer-solo_pending :
      (ice : Option w.IceServers) (stream : w.Stream) (d : w.Description) (s : Hook w)
      (cs : List w.Candidate)
      → s.solo_pc ≡ none
      → handle_solo w ice (some stream) (offer d) (record s { solo_pending = cs })
        ≡ handle_solo w ice (some stream) (offer d) s
  unfolding handle_solo
  offer-solo_pending ice stream d s cs e = ground (arith, create_peer-solo_pending ice stream s cs)

  -- Candidates that come before the offer, while there is no connection, are put aside, and have no
  -- effect on what the offer does: the connection that it creates never gets them.
  pub early_candidates_lost :
      (ice : Option w.IceServers) (stream : w.Stream) (d : w.Description) (s : Hook w)
      (cs : List w.Candidate)
      → s.solo_pc ≡ none
      → (solo_all ice (some stream) (map (λ c. candidate c) cs) s).solo_pending
          ≡ s.solo_pending ++ cs
        × (handle_solo w ice
              (some stream)
              (offer d)
              (solo_all ice (some stream) (map (λ c. candidate c) cs) s)
            ≡ handle_solo w ice (some stream) (offer d) s)
  early_candidates_lost ice stream d s cs e =
      rw (solo_all_held ice (some stream) cs s e)
        (refl, offer-solo_pending ice stream d s (s.solo_pending ++ cs) e)
