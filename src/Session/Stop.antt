-- ===== src/Session/Stop.antt =====
-- What `stop` of src/hooks/useMatchSession.ts ends, and what it does not.
use strangertv.Common.{
  ℕ, List, [], ◌∷◌, ◌++◌, Option, some, true, ◌≡◌, refl, String, arith, ℕ_eq, String_eq,
}
use strangertv.Common.Maps.{get}
use strangertv.Wire.{Role, MatchMeta, GroupMatchPeer, SignalPayload}
use strangertv.Session.State.{
  Session, leave, next, requeue, emit, render, clear_peer_ui, clear_group_state,
}
use strangertv.Session.Handlers.{on_matched, on_signal, on_waiting}
use strangertv.Session.Groups.{on_group_match_matched}
use strangertv.Session.Commands.{stop}
use strangertv.Session.Run.{fire, alarm_rings}

-- After `stop`, and the render that follows it, a match that arrives late is left, a group match
-- too, and a late signal changes nothing.
pub stop_is_final :
    (now later : ℕ) (id : String) (role : Role) (meta : MatchMeta) (peers : List GroupMatchPeer)
    (interests : List String) (me : ℕ) (payload : SignalPayload) (from : Option ℕ) (s : Session)
    → let stopped : Session = render now (stop s) in
      (on_matched later id role meta stopped ≡ emit leave stopped)
      × (on_group_match_matched later id peers interests me stopped ≡ emit leave stopped)
      × (on_signal payload from stopped ≡ stopped)
unfolding render stop clear_peer_ui clear_group_state on_matched on_group_match_matched on_signal
stop_is_final now later id role meta peers interests me payload from s = (refl, refl, ground arith)

-- A search that `onPeerLeft` has put off survives `stop`: when its delay ends, the socket's `next`
-- is called, and the queue's answer shows the user as searching again.
pub stop_keeps_requeue :
    (now later t : ℕ) (position online : Option ℕ) (s : Session)
    → get t s.alarms ≡ some requeue
    → ((fire t (render now (stop s))).log ≡ (stop s).log ++ next s.prefs ∷ [])
      × ((on_waiting later position online (fire t (render now (stop s)))).finding ≡ true)
unfolding render stop clear_peer_ui clear_group_state fire alarm_rings on_waiting
stop_keeps_requeue now later t position online s e = (rw (e, fire) refl, rw (e, fire) refl)
