-- ===== src/Webrtc/Quality/Bounds.antt =====
-- What `readLinkStats` and `qualityFromLink` guarantee.
use strangertv.Common.{
  ℕ, Bool, true, false, ◌&&◌, ◌⊎◌, ◌≤◌, ◌<◌, Option, none, some, ◌≡◌, arith, ltb,
}
use strangertv.Common.Int.{ℤ, pos, negsuc}
use strangertv.Webrtc.Quality.{
  RtcState, connected, good, Loss, LinkStats, DeltaSeed, quality_from_link,
}

-- A percentage: out of something, at least nothing, and at most the whole of it.
abbrev pub IsPercentage : Option Loss → Type 0
IsPercentage none = Unit
IsPercentage (some l) = (0 < l.total) × (n : ℕ) × (l.lost ≡ pos n) × (n ≤ l.total)

abbrev pub is_negative : ℤ → Bool
is_negative (pos n) = false
is_negative (negsuc n) = true

-- A percentage, or the counter that stands below 0, out of something.
abbrev pub IsLoss : ℤ → Option Loss → Type 0
IsLoss lost none = Unit
IsLoss lost (some l) =
    IsPercentage (some l) ⊎ ((0 < l.total) × (is_negative lost ≡ true) × (l.lost ≡ lost))

-- Packets have been received since the sample before.
abbrev pub has_received_since : Option DeltaSeed → DeltaSeed → Bool
has_received_since none seed = false
has_received_since (some prev) seed =
    ltb prev.at seed.at && ltb prev.packets_received seed.packets_received

-- A link that is good stays good when its round trips get shorter, fewer of the same number of
-- packets are lost and its bitrate rises.
pub quality_from_link_mono :
    (c : RtcState) (s : LinkStats) (rtt rtt' lost lost' total rate rate' : ℕ)
    → rtt' ≤ rtt
    → lost' ≤ lost
    → rate ≤ rate'
    → quality_from_link c (record s {
      rtt_ms = some rtt;
      loss_pct = some (record { lost = pos lost; total = total });
      bitrate_kbps = some rate;
    })
      ≡ good
    → quality_from_link c (record s {
      rtt_ms = some rtt';
      loss_pct = some (record { lost = pos lost'; total = total });
      bitrate_kbps = some rate';
    })
      ≡ good
unfolding quality_from_link
quality_from_link_mono connected s rtt rtt' lost lost' total rate rate' p q r h = ground arith
quality_from_link_mono _ s rtt rtt' lost lost' total rate rate' p q r h = cc
