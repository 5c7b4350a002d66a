-- ===== src/Webrtc/Tests.antt =====
-- A small browser, and runs of the hook over it.
use strangertv.Common.{
  ℕ, List, [], ◌∷◌, ◌++◌, none, some, true, false, ◌≡◌, refl, is_some, map, if◌then◌else◌, ◌==◌,
  ℕ_eq,
}
use strangertv.Common.Int.{pos, negsuc}
use strangertv.Common.Maps.{get, put}
use strangertv.Webrtc.Browser.{Browser, SignalingState, stable, have_local_offer, other_state}
use strangertv.Webrtc.Quality.{
  poor, connected, DeltaSeed, Stat, candidate_pair, inbound_rtp, video, read_link_stats,
  quality_from_link,
}
use strangertv.Webrtc.Hook.{Payload, offer, candidate, Peer, clear}
use strangertv.Webrtc.Signals.{handle_mesh, handle_signal, drain_pending_signals, handle_solo}
use strangertv.Webrtc.Peers.{
  Participant, Awaited, offerer, answerer, begin_mesh, add_participant, send_offer,
  create_mesh_peers,
}
use strangertv.Webrtc.Peers.Mesh.{IsSettled, invited, create_mesh_peers-IsSettled}
use strangertv.Webrtc.Acts.{
  Act, mesh_begins, mesh_adds, mesh_offers, mesh_ends, signal, run_act, run_acts, mounted,
}
use strangertv.Webrtc.Invariant.{run_acts-IsSettled}
use strangertv.Webrtc.Glare.{yields, glare_always_yields}
use strangertv.Webrtc.Solo.{solo_all, early_candidates_lost}

-- A connection is its signalling state and the candidates that it was given.
abbrev DemoPc : Type 0
DemoPc = SignalingState × List ℕ

-- Description 1 is an offer, 2 an answer; description 9 is malformed.
abbrev demo : Browser
demo = record {
  Pc = DemoPc;
  Description = ℕ;
  Candidate = ℕ;
  Stream = ℕ;
  IceServers = ℕ;
  new_pc = λ ice. (stable, []);
  add_tracks = λ pc stream. pc;
  signaling_state = λ pc. pc.0;
  create_offer = λ pc. some 1;
  create_answer = λ pc. some 2;
  set_local = λ pc d. if d == 1 then some (have_local_offer, pc.1) else some (stable, pc.1);
  set_remote = λ pc d.
      if d == 9 then none else if d == 1 then some (other_state, pc.1) else some (stable, pc.1);
  rollback = λ pc. some (stable, pc.1);
  add_candidate = λ pc c. (pc.0, pc.1 ++ c ∷ []);
  restart_ice = λ pc. pc;
  create_restart_offer = λ pc. some 1;
}

abbrev third : Participant
third = record { peer_id = 3; user_id = 30; role = answerer }

abbrev fifth : Participant
fifth = record { peer_id = 5; user_id = 50; role = offerer }

-- While the offer is made, a signal of a stranger comes.
abbrev room : List (Participant × Awaited demo)
room =
    (third, record { offer = none; signals = [] })
    ∷ (fifth, record { offer = some 1; signals = (8, offer 1) ∷ [] })
    ∷ []

abbrev offered : Peer demo
offered = record {
  pc = (have_local_offer, []);
  peer_id = 5;
  user_id = 50;
  ready = false;
  pending_candidates = [];
  stats_timer = false;
  stats_seed = none;
}

abbrev calls : List (Act demo)
calls =
    mesh_begins
    ∷ signal none none (offer 1) (some 8)
    ∷ mesh_adds 0 0 3 fifth
    ∷ mesh_offers 5 (some 1)
    ∷ mesh_ends
    ∷ []

calls_offer : get 5 (run_acts demo calls (mounted demo)).peers ≡ some offered
unfolding run_acts run_act begin_mesh add_participant send_offer drain_pending_signals clear get put
    handle_signal
calls_offer = refl

run_acts-IsSettled_example : IsSettled demo (run_acts demo calls (mounted demo))
run_acts-IsSettled_example = run_acts-IsSettled demo calls

glare_always_yields_example :
    handle_mesh demo 5 (offer 1) (run_acts demo calls (mounted demo))
    ≡ yields demo (some (stable, [])) 5 offered 1 (run_acts demo calls (mounted demo))
glare_always_yields_example = glare_always_yields demo calls 5 offered 1 calls_offer refl

-- A candidate of the fifth, and an offer of a stranger, before there are peers.
abbrev early : List (ℕ × Payload demo)
early = (5, candidate 4) ∷ (8, offer 1) ∷ []

create_mesh_peers-IsSettled_example :
    let (t, alive) = create_mesh_peers demo (some 0) 0 early room 3 (mounted demo) in
    IsSettled demo t × (alive ≡ true → (k : ℕ) → is_some (get k t.peers) ≡ invited demo 3 room k)
create_mesh_peers-IsSettled_example =
    create_mesh_peers-IsSettled demo (some 0) 0 early room 3 (mounted demo)

early_candidates_lost_example :
    ((solo_all demo (some 0) (some 0) (map (λ c. candidate c) (4 ∷ [])) (mounted demo)).solo_pending
      ≡ 4 ∷ [])
    × (handle_solo demo
          (some 0)
          (some 0)
          (offer 1)
          (solo_all demo (some 0) (some 0) (map (λ c. candidate c) (4 ∷ [])) (mounted demo))
        ≡ handle_solo demo (some 0) (some 0) (offer 1) (mounted demo))
early_candidates_lost_example = early_candidates_lost demo (some 0) 0 1 (mounted demo) (4 ∷ []) refl

abbrev report : List Stat
report =
    candidate_pair true false true (some 120400)
    ∷ inbound_rtp video (some 90) (some (pos 10)) (some 5000) none
    ∷ []

abbrev before : DeltaSeed
before = record { packets_received = 40; packets_lost = pos 12; bytes_received = 900; at = 200 }

report_is_poor : quality_from_link connected (read_link_stats report none 700).0 ≡ poor
unfolding quality_from_link read_link_stats
report_is_poor = refl

-- More duplicates than losses: 100 received, -20 lost, which is -25 percent.
negative_loss :
    (read_link_stats
      (inbound_rtp video (some 100) (some (negsuc 19)) none none ∷ [])
      none
      700).0.loss_pct
    ≡ some (record { lost = negsuc 19; total = 80 })
unfolding read_link_stats
negative_loss = refl
