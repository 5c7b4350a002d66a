-- ===== src/Webrtc/Hook.antt =====
-- The state of src/hooks/useWebRTC.ts and its synchronous parts. `setX` of a React state and
-- writes to a ref both set the field; timers are known by whether they run. What is not modelled:
-- the `video` elements that show a stream, the muting of a track and `console`.
use strangertv.Common.{
  ℕ, List, [], ◌∷◌, ◌++◌, Option, none, some, Bool, true, false, if◌then◌else◌, map, ℕ_eq,
}
use strangertv.Common.Maps.{get, put, remove}
use strangertv.Webrtc.Browser.{Browser}
use strangertv.Webrtc.Quality.{QualityTier, idle, LinkStats, empty_link_stats, DeltaSeed}

module _ (w : Browser) where
  open w use {Pc, Description, Candidate, Stream, add_candidate}

  pub data Payload : Type 0 where
    offer : Description → Payload
    answer : Description → Payload
    candidate : Candidate → Payload

  -- PeerConnection
  pub record Peer : Type 0 where
    pub pc : Pc
    pub peer_id : ℕ
    pub user_id : ℕ
    pub ready : Bool
    pub pending_candidates : List Candidate
    pub stats_timer : Bool
    pub stats_seed : Option DeltaSeed

  pub record Hook : Type 0 where
    pub solo_pc : Option Pc
    pub solo_pending : List Candidate
    pub solo_remote_ready : Bool
    pub solo_remote_stream : Option Stream
    pub solo_stats_timer : Bool
    pub solo_stats_seed : Option DeltaSeed
    pub peers : List (ℕ × Peer)
    pub pending_signals : List (ℕ × Payload)
    pub quality : QualityTier
    pub link_stats : LinkStats
    pub has_remote : Bool
    pub peer_streams : List (ℕ × Stream)
    pub muted_peers : List (ℕ × Bool)
    pub solo_muted : Bool
    -- the calls of `onSignal`, the latest last
    pub sent : List (Payload × Option ℕ)
    -- the connections that `close` was called on, the latest last
    pub closed : List Pc

  abbrev pub on_signal : Payload → Option ℕ → Hook → Hook
  on_signal payload target s = record s { sent = s.sent ++ (payload, target) ∷ [] }

  abbrev pub set_peer : ℕ → Peer → Hook → Hook
  set_peer id peer s = record s { peers = put id peer s.peers }

  abbrev pub stop_stats_loop : Peer → Peer
  stop_stats_loop peer = record peer { stats_timer = false; stats_seed = none }

  abbrev pub start_stats_loop : Peer → Peer
  start_stats_loop peer = record peer { stats_timer = true; stats_seed = none }

  abbrev pub stop_solo_stats_loop : Hook → Hook
  stop_solo_stats_loop s = record s { solo_stats_timer = false; solo_stats_seed = none }

  abbrev pub start_solo_stats_loop : Hook → Hook
  start_solo_stats_loop s = record s { solo_stats_timer = true; solo_stats_seed = none }

  unfoldable pub add_candidates : Pc → List Candidate → Pc
  add_candidates pc [] = pc
  add_candidates pc (c ∷ cs) = add_candidates (add_candidate pc c) cs

  -- In one piece: what comes while one candidate is awaited is not modelled.
  unfoldable pub flush_candidates : Peer → Peer
  flush_candidates peer = record peer {
    pc = add_candidates peer.pc peer.pending_candidates;
    pending_candidates = [];
  }

  abbrev pub open_pcs : List (ℕ × Peer) → Option Pc → List Pc
  open_pcs peers none = map (λ entry. entry.1.pc) peers
  open_pcs peers (some pc) = map (λ entry. entry.1.pc) peers ++ pc ∷ []

  unfoldable pub clear : Hook → Hook
  clear s = record {
    solo_pc = none;
    solo_pending = [];
    solo_remote_ready = false;
    solo_remote_stream = none;
    solo_stats_timer = false;
    solo_stats_seed = none;
    peers = [];
    pending_signals = [];
    quality = idle;
    link_stats = empty_link_stats;
    has_remote = false;
    peer_streams = [];
    muted_peers = [];
    solo_muted = false;
    sent = s.sent;
    closed = s.closed ++ open_pcs s.peers s.solo_pc;
  }

  abbrev any_left : List (ℕ × Peer) → Bool
  any_left [] = false
  any_left (p ∷ ps) = true

  unfoldable pub remove_peer : ℕ → Hook → Hook
  remove_peer id s = elim (get id s.peers) [
    | none ↦ s
    | some peer ↦
        let left = remove id s.peers in
        record s {
          peers = left;
          peer_streams = remove id s.peer_streams;
          muted_peers = remove id s.muted_peers;
          closed = s.closed ++ peer.pc ∷ [];
          has_remote = if any_left left then s.has_remote else false;
        }
  ]
