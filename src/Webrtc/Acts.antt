-- ===== src/Webrtc/Acts.antt =====
-- Everything that can happen to the hook of src/hooks/useWebRTC.ts: the calls of its functions and
-- the events of its connections. A call of `createMeshPeers` is the pieces between its `await`s, with
-- anything else in between, other such calls included; the other handlers run to their end.
use strangertv.Common.{ℕ, List, [], ◌∷◌, Option, none, Bool, false}
use strangertv.Webrtc.Browser.{Browser}
use strangertv.Webrtc.Quality.{RtcState, idle, LinkStats, empty_link_stats, DeltaSeed}
use strangertv.Webrtc.Hook.{Payload, Hook, clear, remove_peer}
use strangertv.Webrtc.Events.{
  IceState, peer_ice_candidate, peer_track, peer_state, peer_ice_state, sample_stats,
  solo_ice_candidate, solo_track, solo_state, solo_ice_state, sample_solo_stats, restart_call,
}
use strangertv.Webrtc.Signals.{handle_signal, create_peer, drain_pending_signals}
use strangertv.Webrtc.Peers.{Participant, begin_mesh, add_participant, send_offer}

module _ (w : Browser) where
  open w use {Candidate, Description, Stream, IceServers}

  pub data Act : Type 0 where
    signal : Option IceServers → Option Stream → Payload w → Option ℕ → Act
    solo_call : Option IceServers → Stream → Bool → Act
    mesh_begins : Act
    mesh_adds : IceServers → Stream → ℕ → Participant → Act
    mesh_offers : ℕ → Option Description → Act
    mesh_ends : Act
    cleared : Act
    removed : ℕ → Act
    restarted : Act
    on_peer_candidate : ℕ → Option Candidate → Act
    on_peer_track : ℕ → RtcState → Option Stream → Act
    on_peer_state : ℕ → RtcState → Act
    on_peer_ice : ℕ → Bool → IceState → Act
    on_peer_sample : ℕ → RtcState → Option (LinkStats × DeltaSeed) → Act
    on_solo_candidate : Option Candidate → Act
    on_solo_track : Option Stream → Act
    on_solo_state : RtcState → Act
    on_solo_ice : Bool → IceState → Act
    on_solo_sample : RtcState → Option (LinkStats × DeltaSeed) → Act

  unfoldable pub run_act : Act → Hook w → Hook w
  run_act (signal ice stream payload from) s = handle_signal w ice stream payload from s
  run_act (solo_call ice stream as_offerer) s = create_peer w ice stream as_offerer s
  run_act mesh_begins s = begin_mesh w s
  run_act (mesh_adds ice stream my_peer_id p) s = add_participant w ice stream my_peer_id p s
  run_act (mesh_offers id o) s = (send_offer w id o s).0
  run_act mesh_ends s = drain_pending_signals w s
  run_act cleared s = clear w s
  run_act (removed id) s = remove_peer w id s
  run_act restarted s = restart_call w s
  run_act (on_peer_candidate id c) s = peer_ice_candidate w id c s
  run_act (on_peer_track id state stream) s = peer_track w id state stream s
  run_act (on_peer_state id state) s = peer_state w id state s
  run_act (on_peer_ice id as_offerer state) s = peer_ice_state w id as_offerer state s
  run_act (on_peer_sample id state result) s = sample_stats w id state result s
  run_act (on_solo_candidate c) s = solo_ice_candidate w c s
  run_act (on_solo_track stream) s = solo_track w stream s
  run_act (on_solo_state state) s = solo_state w state s
  run_act (on_solo_ice as_offerer state) s = solo_ice_state w as_offerer state s
  run_act (on_solo_sample state result) s = sample_solo_stats w state result s

  unfoldable pub run_acts : List Act → Hook w → Hook w
  run_acts [] s = s
  run_acts (a ∷ acts) s = run_acts acts (run_act a s)

  -- The hook as it is mounted.
  abbrev pub mounted : Hook w
  mounted = record {
    solo_pc = none;
    solo_pending = [];
    solo_remote_ready = false;
    solo_remote_stream = none;
    solo_stats_timer = false;
    solo_stats_seed = none;
    peers = [];
    pending_signals = [];
    quality = idle;
    link_stats = empty_link_stats;
    has_remote = false;
    peer_streams = [];
    muted_peers = [];
    solo_muted = false;
    sent = [];
    closed = [];
  }
