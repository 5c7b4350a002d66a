-- ===== src/Tictactoe/Moves.antt =====
-- What a click and an update do, when they do something.
use strangertv.Common.{ℕ, ◌<◌, some, true, ◌≡◌, ◌≢◌, arith, Option-cases, inl, inr}
use strangertv.Common.Int.{pos}
use strangertv.Common.Json.{Json}
use strangertv.Tictactoe.Rules.{Mark, x_mark, o_mark, Board, apply_move, turn_of}
use strangertv.Tictactoe.Client.{Client, is_game_update, move_update, mark_of, play, on_state}
use strangertv.Tictactoe.Lines.{apply_move_inv}

-- What a click that publishes something has done.
pub record Played (c next : Client) (index : ℕ) (me : ℕ) (mark : Mark) (sent : Json) : Type 0 where
  pub seated : c.me ≡ some me
  pub marked : mark_of c.roster me ≡ some mark
  pub in_turn : turn_of c.board ≡ mark
  pub applied : apply_move c.board (pos index) mark ≡ some next.board
  pub same_me : next.me ≡ c.me
  pub same_roster : next.roster ≡ c.roster
  pub published : sent ≡ move_update index me

play_seated :
    (c next : Client) (index me : ℕ) (mark : Mark) (sent : Json)
    → c.me ≡ some me
    → mark_of c.roster me ≡ some mark
    → play c index ≡ (next, some sent)
    → Played c next index me mark sent
unfolding play
play_seated c next index me x_mark sent e m h = ground arith
play_seated c next index me o_mark sent e m h = ground arith

pub play_inv :
    (c next : Client) (index : ℕ) (sent : Json)
    → play c index ≡ (next, some sent)
    → (me : ℕ) × (mark : Mark) × Played c next index me mark sent
unfolding play
play_inv c next index sent h = elim (Option-cases c.me) [
  | inl e ↦ absurd (ground arith)
  | inr (me, e) ↦ elim (Option-cases (mark_of c.roster me)) [
    | inl m ↦ absurd (ground arith)
    | inr (mark, m) ↦ (me, mark, play_seated c next index me mark sent e m h)
  ]
]

is_game_update-move : (index by : ℕ) → index < 9 → is_game_update (move_update index by) ≡ true
unfolding is_game_update
is_game_update-move index by h = ground arith

-- A player's own move comes back and changes nothing.
pub on_state_echo :
    (c : Client) (me index : ℕ) → c.me ≡ some me → on_state c me (move_update index me) ≡ c
unfolding on_state
on_state_echo c me index h = ground arith

pub on_state-move :
    (c : Client) (me user index : ℕ) (mark : Mark) (next : Board)
    → c.me ≡ some me
    → me ≢ user
    → mark_of c.roster user ≡ some mark
    → apply_move c.board (pos index) mark ≡ some next
    → on_state c user (move_update index user) ≡ record c { board = next }
unfolding on_state
on_state-move c me user index mark next h ne m a =
    let (i, e, range, _, _, _) = apply_move_inv c.board next (pos index) mark a in
    ground (arith, is_game_update-move index user)
