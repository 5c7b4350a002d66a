-- ===== src/Webrtc/Glare.antt =====
-- Both ends offer at once: what the handler of the remote offer does.
use strangertv.Common.{ℕ, List, Option, none, some, ◌≡◌, refl, arith, ℕ_eq}
use strangertv.Common.Maps.{get}
use strangertv.Webrtc.Browser.{Browser, have_local_offer}
use strangertv.Webrtc.Hook.{offer, Peer, Hook}
use strangertv.Webrtc.Signals.{accept_offer, resolve_glare, mesh_offer, mesh_known, handle_mesh}
use strangertv.Webrtc.Keys.{get-peer_id}
use strangertv.Webrtc.Acts.{Act, run_acts, mounted}
use strangertv.Webrtc.Invariant.{run_acts-IsSettled}

module _ (w : Browser) where
  -- The own offer is given up and the remote one answered, if the browser can roll back.
  abbrev pub yields : Option w.Pc → ℕ → Peer w → w.Description → Hook w → Hook w
  yields none from peer d s = s
  yields (some pc) from peer d s = accept_offer w from (record peer { pc = pc }) d s

  resolve_glare-yields :
      (from : ℕ) (peer : Peer w) (d : w.Description) (s : Hook w) (rolled : Option w.Pc)
      → w.rollback peer.pc ≡ rolled
      → peer.peer_id ≡ from
      → resolve_glare w from peer d s ≡ yields rolled from peer d s
  unfolding resolve_glare
  resolve_glare-yields from peer d s none r e = ground arith
  resolve_glare-yields from peer d s (some pc) r e = ground arith

  -- After any calls and events: an offer that meets an own offer makes this end roll back and
  -- answer, for every pair of ids. No end ever keeps its own offer.
  pub glare_always_yields :
      (acts : List (Act w)) (from : ℕ) (peer : Peer w) (d : w.Description)
      → get from (run_acts w acts (mounted w)).peers ≡ some peer
      → w.signaling_state peer.pc ≡ have_local_offer
      → handle_mesh w from (offer d) (run_acts w acts (mounted w))
        ≡ yields (w.rollback peer.pc) from peer d (run_acts w acts (mounted w))
  unfolding handle_mesh mesh_known mesh_offer
  glare_always_yields acts from peer d known busy =
      let s = run_acts w acts (mounted w) in
      let own = get-peer_id w from s.peers (run_acts-IsSettled w acts).keyed known in
      rw (known, handle_mesh, mesh_offer, busy)
        (resolve_glare-yields from peer d s (w.rollback peer.pc) refl own)
