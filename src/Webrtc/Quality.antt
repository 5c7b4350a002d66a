-- ===== src/Webrtc/Quality.antt =====
-- src/utils/webrtcQuality.ts: link metrics and the quality tier they stand for; the tiers and the
-- connection states are those of shared/constants.ts. Times are whole milliseconds, round-trip
-- times and jitter whole microseconds, and a loss percentage is the fraction that it rounds.
pub mod Bounds
use strangertv.Common.{
  ℕ, ◌+◌, ◌*◌, ◌-◌, ◌/◌, List, [], ◌∷◌, Option, none, some, Bool, true, false, ◌&&◌, ◌||◌, not,
  if◌then◌else◌, ltb, leb, is_some, or_else,
}
use strangertv.Common.Int.{ℤ, pos, negsuc}

-- QUALITY_TIER
pub data QualityTier : Type 0 where
  idle connecting good poor failed : QualityTier

-- RTC_STATE, the values of `connectionState`
pub data RtcState : Type 0 where
  new connecting connected disconnected failed closed : RtcState

-- 100 * lost / total percent
pub record Loss : Type 0 where
  pub lost : ℤ
  pub total : ℕ

pub record LinkStats : Type 0 where
  pub rtt_ms : Option ℕ
  pub loss_pct : Option Loss
  pub bitrate_kbps : Option ℕ
  pub jitter_ms : Option ℕ

abbrev pub empty_link_stats : LinkStats
empty_link_stats = record { rtt_ms = none; loss_pct = none; bitrate_kbps = none; jitter_ms = none }

pub record DeltaSeed : Type 0 where
  pub packets_received : ℕ
  pub packets_lost : ℤ
  pub bytes_received : ℕ
  pub at : ℕ

pub data MediaKind : Type 0 where
  video audio absent other_kind : MediaKind

-- The entries of a stats report that the code reads.
pub data Stat : Type 0 where
  -- state === 'succeeded', selected === true, nominated === true, currentRoundTripTime
  candidate_pair : Bool → Bool → Bool → Option ℕ → Stat
  -- kind, packetsReceived, packetsLost, which is signed, bytesReceived, jitter
  inbound_rtp : MediaKind → Option ℕ → Option ℤ → Option ℕ → Option ℕ → Stat
  other_stat : Stat

-- The variables of the loop over the report.
pub record Reading : Type 0 where
  pub rtt : Option ℕ
  pub jitter : Option ℕ
  pub received : ℕ
  pub lost : ℤ
  pub bytes : ℕ
  pub has_rtp : Bool

abbrev is_video : MediaKind → Bool
is_video video = true
is_video _ = false

abbrev is_audio : MediaKind → Bool
is_audio audio = true
is_audio absent = true
is_audio _ = false

-- Math.round(x * 1000) of a time in seconds, given in microseconds
abbrev round_ms : ℕ → ℕ
round_ms us = (us + 500) / 1000

read_rtt : Reading → Bool → Option ℕ → Reading
read_rtt r selected none = r
read_rtt r selected (some us) =
    if selected || not (is_some r.rtt) then record r { rtt = some (round_ms us) } else r

read_jitter : Option ℕ → Option ℕ → Option ℕ
read_jitter none old = old
read_jitter (some us) old = some (round_ms us)

read_stat : Reading → Stat → Reading
unfolding read_rtt read_jitter
read_stat r other_stat = r
read_stat r (candidate_pair succeeded selected nominated rtt) =
    if succeeded then read_rtt r (selected || nominated) rtt else r
read_stat r (inbound_rtp kind received lost bytes jitter) =
    if is_video kind || not r.has_rtp && is_audio kind
    then record {
      rtt = r.rtt;
      jitter = read_jitter jitter r.jitter;
      received = or_else received 0;
      lost = or_else lost (pos 0);
      bytes = or_else bytes 0;
      has_rtp = is_video kind || r.has_rtp;
    }
    else r

read_report : Reading → List Stat → Reading
read_report r [] = r
read_report r (s ∷ rest) = read_report (read_stat r s) rest

abbrev exceeds : ℤ → ℕ → Bool
exceeds (pos n) total = ltb total n
exceeds (negsuc n) total = false

-- Math.min(100, …)
capped : Loss → Loss
capped l = if exceeds l.lost l.total then record { lost = pos l.total; total = l.total } else l

-- Math.max(0, a - b)
abbrev pub rise : ℤ → ℤ → ℕ
rise (pos a) (pos b) = a - b
rise (pos a) (negsuc b) = a + (b + 1)
rise (negsuc a) (pos b) = 0
rise (negsuc a) (negsuc b) = b - a

-- packetsReceived + packetsLost, or 0 where the sum is less
abbrev pub all_packets : ℕ → ℤ → ℕ
all_packets received (pos lost) = received + lost
all_packets received (negsuc lost) = received - (lost + 1)

-- The loss out of the packets, if there are any.
window_loss : ℤ → ℕ → Option Loss
unfolding capped
window_loss lost total =
    if ltb 0 total then some (capped (record { lost = lost; total = total })) else none

-- Math.round((bytes * 8) / dtSec / 1000) over `ms` milliseconds, if they are more than 200
window_bitrate : ℕ → ℕ → Option ℕ
window_bitrate bytes ms = if ltb 200 ms then some ((2 * (bytes * 8) + ms) / (2 * ms)) else none

-- The counters of packets received and lost since the last sample, each at least 0: `-` on numbers
-- stops at 0, as Math.max(0, …) does.
loss_since : Reading → Option DeltaSeed → ℕ → Option Loss
unfolding window_loss
loss_since r none now = none
loss_since r (some prev) now =
    let lost : ℕ = rise r.lost prev.packets_lost in
    if ltb prev.at now
    then window_loss (pos lost) (r.received - prev.packets_received + lost)
    else none

bitrate_since : Reading → Option DeltaSeed → ℕ → Option ℕ
unfolding window_bitrate
bitrate_since r none now = none
bitrate_since r (some prev) now =
    if ltb prev.at now then window_bitrate (r.bytes - prev.bytes_received) (now - prev.at) else none

-- First sample: still report cumulative loss if any packets exist.
loss_or_cumulative : Reading → Option Loss → Option Loss
unfolding window_loss
loss_or_cumulative r (some l) = some l
loss_or_cumulative r none = window_loss r.lost (all_packets r.received r.lost)

summary : Reading → Option DeltaSeed → ℕ → LinkStats × DeltaSeed
summary r prev now = (
  record {
    rtt_ms = r.rtt;
    loss_pct = loss_or_cumulative r (loss_since r prev now);
    bitrate_kbps = bitrate_since r prev now;
    jitter_ms = r.jitter;
  },
  record {
    packets_received = r.received;
    packets_lost = r.lost;
    bytes_received = r.bytes;
    at = now;
  },
)

abbrev blank : Reading
blank = record { rtt = none; jitter = none; received = 0; lost = pos 0; bytes = 0; has_rtp = false }

unfoldable pub read_link_stats : List Stat → Option DeltaSeed → ℕ → LinkStats × DeltaSeed
unfolding read_report read_stat loss_since bitrate_since loss_or_cumulative summary
read_link_stats report prev now = summary (read_report blank report) prev now

-- rtt != null && rtt >= ms
abbrev rtt_at_least : Option ℕ → ℕ → Bool
rtt_at_least none ms = false
rtt_at_least (some rtt) ms = leb ms rtt

abbrev share_at_least : ℤ → ℕ → ℕ → Bool
share_at_least (pos lost) total tenths = leb (tenths * total) (1000 * lost)
share_at_least (negsuc lost) total tenths = false

-- loss != null && loss >= tenths / 10
abbrev loss_at_least : Option Loss → ℕ → Bool
loss_at_least none tenths = false
loss_at_least (some l) tenths = share_at_least l.lost l.total tenths

-- bitrate != null && bitrate < kbps
abbrev bitrate_below : Option ℕ → ℕ → Bool
bitrate_below none kbps = false
bitrate_below (some rate) kbps = ltb rate kbps

connected_quality : LinkStats → QualityTier
connected_quality s =
    if rtt_at_least s.rtt_ms 450
    then poor
    else if loss_at_least s.loss_pct 40
    then poor
    else if rtt_at_least s.rtt_ms 280 && loss_at_least s.loss_pct 15
    then poor
    else if bitrate_below s.bitrate_kbps 40 && loss_at_least s.loss_pct 20
    then poor
    else good

unfoldable pub quality_from_link : RtcState → LinkStats → QualityTier
unfolding connected_quality
quality_from_link RtcState.failed s = QualityTier.failed
quality_from_link closed s = QualityTier.failed
quality_from_link new s = QualityTier.connecting
quality_from_link RtcState.connecting s = QualityTier.connecting
quality_from_link disconnected s = poor
quality_from_link connected s = connected_quality s
