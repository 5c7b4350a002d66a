-- ===== src/Tictactoe/Match.antt =====
-- The boards of two players converge without a referee.
use strangertv.Common.{ℕ, List, [], ◌∷◌, ◌++◌, some, ◌≡◌, refl, sym, ◌∙◌, ◌≢◌, arith}
use strangertv.Common.Int.{pos}
use strangertv.Common.Json.{Json}
use strangertv.Tictactoe.Rules.{Mark, x_mark, o_mark, Board, apply_move, turn_of}
use strangertv.Tictactoe.Client.{Client, move_update, mark_of, on_state}
use strangertv.Tictactoe.Table.{
  Table, Step, play_a, play_b, deliver_a, deliver_b, echo_a, echo_b, Reach, here, after, seated,
}
use strangertv.Tictactoe.Moves.{Played, play_inv, on_state_echo, on_state-move}
use strangertv.Tictactoe.Turns.{IsBalanced, empty_board-IsBalanced, apply_move-IsBalanced}

module _ (ua ub : ℕ) where
  -- Who sits where.
  pub record IsSeated (t : Table) : Type 0 where
    pub me_a : t.a.me ≡ some ua
    pub me_b : t.b.me ≡ some ub
    pub roster_a : t.a.roster ≡ ua ∷ ub ∷ []
    pub roster_b : t.b.roster ≡ ua ∷ ub ∷ []

  -- One player is a move ahead of the other, and the move is in flight.
  pub record IsAhead (ahead behind : Board) (user : ℕ) (mark : Mark) (queue : List Json)
      : Type 0 where
    pub index : ℕ
    pub pending : queue ≡ move_update index user ∷ []
    pub applies : apply_move behind (pos index) mark ≡ some ahead
    pub in_turn : turn_of behind ≡ mark
    pub balanced : IsBalanced behind

  pub data InSync (t : Table) : Type 0 where
    level : t.a.board ≡ t.b.board → IsBalanced t.a.board → t.to_a ≡ [] → t.to_b ≡ [] → InSync t
    a_ahead : IsAhead t.a.board t.b.board ua x_mark t.to_b → t.to_a ≡ [] → InSync t
    b_ahead : IsAhead t.b.board t.a.board ub o_mark t.to_a → t.to_b ≡ [] → InSync t

  mark_of_a : mark_of (ua ∷ ub ∷ []) ua ≡ some x_mark
  unfolding mark_of
  mark_of_a = ground arith

  module _ (ne : ua ≢ ub) where
    mark_of_b : mark_of (ua ∷ ub ∷ []) ub ≡ some o_mark
    unfolding mark_of
    mark_of_b = ground arith

    -- The player who has clicked is seat X, seat O.
    Played-x_mark :
        {c next : Client} {index me : ℕ} {mark : Mark} {sent : Json}
        → Played c next index me mark sent
        → c.me ≡ some ua
        → c.roster ≡ ua ∷ ub ∷ []
        → (me ≡ ua) × (mark ≡ x_mark)
    Played-x_mark {c} {me} {mark} w e r =
        let same : me ≡ ua = cc w.seated in
        let marked : mark_of (ua ∷ ub ∷ []) ua ≡ some mark = rw (← r, ← same) w.marked in
        (same, cc (marked, mark_of_a))

    Played-o_mark :
        {c next : Client} {index me : ℕ} {mark : Mark} {sent : Json}
        → Played c next index me mark sent
        → c.me ≡ some ub
        → c.roster ≡ ua ∷ ub ∷ []
        → (me ≡ ub) × (mark ≡ o_mark)
    Played-o_mark {c} {me} {mark} w e r =
        let same : me ≡ ub = cc w.seated in
        let marked : mark_of (ua ∷ ub ∷ []) ub ≡ some mark = rw (← r, ← same) w.marked in
        (same, cc (marked, mark_of_b))

    -- From equal boards a click puts the player ahead.
    Played-IsAhead :
        {c next : Client} {index me user : ℕ} {mark seat : Mark} {sent : Json} {other : Board}
        {queue : List Json}
        → Played c next index me mark sent
        → me ≡ user
        → mark ≡ seat
        → c.board ≡ other
        → IsBalanced c.board
        → queue ≡ []
        → IsAhead next.board other user seat (queue ++ sent ∷ [])
    Played-IsAhead {index} {sent} {queue} w same is_seat e v empty = record {
      index = index;
      pending = rw (empty, w.published, same) refl;
      applies = rw (← e, ← is_seat) w.applied;
      in_turn = rw (← e, ← is_seat) w.in_turn;
      balanced = rw (← e) v;
    }

    -- The player who is ahead cannot click on, and the one behind is not in turn.
    ahead_waits :
        {c next : Client} {index me user : ℕ} {mark seat : Mark} {sent : Json} {behind : Board}
        {queue : List Json}
        → Played c next index me mark sent
        → mark ≡ seat
        → IsAhead c.board behind user seat queue
        → ⊥
    ahead_waits {c} {seat} {behind} w is_seat d =
        let (_, turned, _) =
          apply_move-IsBalanced behind c.board (pos d.index) seat d.balanced d.in_turn d.applies in
        turned (w.in_turn ∙ is_seat)

    -- The move in flight is accepted, and brings the boards together.
    deliver-IsAhead :
        {c : Client} {ahead : Board} {me user : ℕ} {seat : Mark} {sent : Json}
        {queue rest : List Json}
        → IsAhead ahead c.board user seat queue
        → queue ≡ sent ∷ rest
        → c.me ≡ some me
        → me ≢ user
        → mark_of c.roster user ≡ some seat
        → (on_state c user sent ≡ record c { board = ahead }) × (rest ≡ []) × IsBalanced ahead
    deliver-IsAhead {c} {ahead} {me} {user} {seat} {sent} {queue} {rest} d h e other m =
        let split : sent ∷ rest ≡ move_update d.index user ∷ [] = sym h ∙ d.pending in
        let first : sent ≡ move_update d.index user = cc in
        (
          rw first (on_state-move c me user d.index seat ahead e other m d.applies),
          cc,
          (apply_move-IsBalanced c.board ahead (pos d.index) seat d.balanced d.in_turn d.applies).0,
        )

    play_a-InSync :
        (t : Table) (c : Client) (index me : ℕ) (mark : Mark) (sent : Json)
        → Played t.a c index me mark sent
        → (me ≡ ua) × (mark ≡ x_mark)
        → InSync t
        → InSync (record t { a = c; to_b = t.to_b ++ sent ∷ [] })
    play_a-InSync t c index me mark sent w (same, is_x) (level e v ea eb) =
        a_ahead (Played-IsAhead w same is_x e v eb) ea
    play_a-InSync t c index me mark sent w (same, is_x) (a_ahead d ea) =
        absurd (ahead_waits w is_x d)
    play_a-InSync t c index me mark sent w (same, is_x) (b_ahead d eb) =
        cc (w.in_turn, is_x, d.in_turn)

    play_b-InSync :
        (t : Table) (c : Client) (index me : ℕ) (mark : Mark) (sent : Json)
        → Played t.b c index me mark sent
        → (me ≡ ub) × (mark ≡ o_mark)
        → InSync t
        → InSync (record t { b = c; to_a = t.to_a ++ sent ∷ [] })
    play_b-InSync t c index me mark sent w (same, is_o) (level e v ea eb) =
        b_ahead (Played-IsAhead w same is_o (sym e) (rw (← e) v) ea) eb
    play_b-InSync t c index me mark sent w (same, is_o) (a_ahead d ea) =
        cc (w.in_turn, is_o, d.in_turn)
    play_b-InSync t c index me mark sent w (same, is_o) (b_ahead d eb) =
        absurd (ahead_waits w is_o d)

    deliver_a-InSync :
        (t : Table) (sent : Json) (rest : List Json)
        → t.to_a ≡ sent ∷ rest
        → IsSeated t
        → InSync t
        → let u = record t { a = on_state t.a ub sent; to_a = rest } in IsSeated u × InSync u
    deliver_a-InSync t sent rest h s (level e v ea eb) = cc
    deliver_a-InSync t sent rest h s (a_ahead d ea) = cc
    deliver_a-InSync t sent rest h s (b_ahead d eb) =
        let (same, empty, v) = deliver-IsAhead {c = t.a} d h s.me_a ne (rw s.roster_a mark_of_b) in
        rw (same, empty)
          (
            record { me_a = s.me_a; me_b = s.me_b; roster_a = s.roster_a; roster_b = s.roster_b },
            level refl v refl eb,
          )

    deliver_b-InSync :
        (t : Table) (sent : Json) (rest : List Json)
        → t.to_b ≡ sent ∷ rest
        → IsSeated t
        → InSync t
        → let u = record t { b = on_state t.b ua sent; to_b = rest } in IsSeated u × InSync u
    deliver_b-InSync t sent rest h s (level e v ea eb) = cc
    deliver_b-InSync t sent rest h s (b_ahead d eb) = cc
    deliver_b-InSync t sent rest h s (a_ahead d ea) =
        let (same, empty, v) =
          deliver-IsAhead {c = t.b} d h s.me_b (λ e. ne (sym e)) (rw s.roster_b mark_of_a) in
        rw (same, empty)
          (
            record { me_a = s.me_a; me_b = s.me_b; roster_a = s.roster_a; roster_b = s.roster_b },
            level refl v ea refl,
          )

    Step-InSync : {t u : Table} → Step ua ub t u → IsSeated t → InSync t → IsSeated u × InSync u
    Step-InSync (play_a t c index sent h) s v =
        let (me, mark, w) = play_inv t.a c index sent h in
        (
          record {
            me_a = w.same_me ∙ s.me_a;
            me_b = s.me_b;
            roster_a = w.same_roster ∙ s.roster_a;
            roster_b = s.roster_b;
          },
          play_a-InSync t c index me mark sent w (Played-x_mark w s.me_a s.roster_a) v,
        )
    Step-InSync (play_b t c index sent h) s v =
        let (me, mark, w) = play_inv t.b c index sent h in
        (
          record {
            me_a = s.me_a;
            me_b = w.same_me ∙ s.me_b;
            roster_a = s.roster_a;
            roster_b = w.same_roster ∙ s.roster_b;
          },
          play_b-InSync t c index me mark sent w (Played-o_mark w s.me_b s.roster_b) v,
        )
    Step-InSync (deliver_a t sent rest h) s v = deliver_a-InSync t sent rest h s v
    Step-InSync (deliver_b t sent rest h) s v = deliver_b-InSync t sent rest h s v
    Step-InSync (echo_a t index) s v = rw (on_state_echo t.a ua index s.me_a) (s, v)
    Step-InSync (echo_b t index) s v = rw (on_state_echo t.b ub index s.me_b) (s, v)

  module _ (ne : ua ≢ ub) where
    seated-InSync : IsSeated (seated ua ub) × InSync (seated ua ub)
    seated-InSync = (
      record { me_a = refl; me_b = refl; roster_a = refl; roster_b = refl },
      level refl empty_board-IsBalanced refl refl,
    )

    Reach-InSync : {t : Table} → Reach ua ub (seated ua ub) t → IsSeated t × InSync t
    Reach-InSync here = seated-InSync
    Reach-InSync (after r st) = let (s, v) = Reach-InSync r in Step-InSync ne st s v

    InSync-level : {t : Table} → InSync t → t.to_a ≡ [] → t.to_b ≡ [] → t.a.board ≡ t.b.board
    InSync-level (level e v ea eb) pa pb = e
    InSync-level (a_ahead d ea) pa pb = cc (d.pending, pb)
    InSync-level (b_ahead d eb) pa pb = cc (d.pending, pa)

    -- From an empty board, in one game between two different users, in whatever order the clicks,
    -- the deliveries and the echoes of own moves come: when no update is in flight, the two
    -- boards are the same.
    pub boards_converge :
        {t : Table}
        → Reach ua ub (seated ua ub) t
        → t.to_a ≡ []
        → t.to_b ≡ []
        → t.a.board ≡ t.b.board
    boards_converge r pa pb = InSync-level (Reach-InSync r).1 pa pb
