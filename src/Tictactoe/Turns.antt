-- ===== src/Tictactoe/Turns.antt =====
-- Alternation: whose turn it is, and how long a game can last.
use strangertv.Common.{
  ℕ, zero, suc, ◌+◌, ◌≤◌, ◌<◌, [], ◌∷◌, none, some, ◌≡◌, refl, ◌≢◌, arith, length, length-set, set,
}
use strangertv.Common.Int.{ℤ}
use strangertv.Tictactoe.Rules.{
  Mark, x_mark, o_mark, Board, cell, count_mark, turn_of, apply_move, empty_board,
}
use strangertv.Tictactoe.Lines.{apply_move_inv}

-- X opens and the marks alternate.
pub record IsBalanced (board : Board) : Type 0 where
  pub size : length board ≡ 9
  pub low : count_mark o_mark board ≤ count_mark x_mark board
  pub high : count_mark x_mark board ≤ count_mark o_mark board + 1

-- The marks on the board.
abbrev pub moves : Board → ℕ
moves board = count_mark x_mark board + count_mark o_mark board

pub empty_board-IsBalanced : IsBalanced empty_board
unfolding empty_board
empty_board-IsBalanced = ground arith

count_mark-set_self :
    (board : Board) (i : ℕ) (mark : Mark)
    → i < length board
    → cell board i ≡ none
    → count_mark mark (set board i (some mark)) ≡ suc (count_mark mark board)
count_mark-set_self [] i mark h e = elim h [ ]
count_mark-set_self (c ∷ cs) zero mark h e = ground arith
count_mark-set_self (c ∷ cs) (suc i) mark h e = ground (arith, count_mark-set_self cs i mark)

count_mark-set_other :
    (board : Board) (i : ℕ) (mark other : Mark)
    → other ≢ mark
    → cell board i ≡ none
    → count_mark other (set board i (some mark)) ≡ count_mark other board
count_mark-set_other [] i mark other h e = refl
count_mark-set_other (c ∷ cs) zero mark other h e = ground arith
count_mark-set_other (c ∷ cs) (suc i) mark other h e =
    ground (arith, count_mark-set_other cs i mark other)

IsBalanced-set :
    (board : Board) (i : ℕ) (mark : Mark)
    → IsBalanced board
    → turn_of board ≡ mark
    → i < 9
    → cell board i ≡ none
    → let next = set board i (some mark) in
      IsBalanced next × (turn_of next ≢ mark) × (moves next ≡ suc (moves board))
unfolding turn_of
IsBalanced-set board i x_mark v t range free =
    let size = length-set board i (some x_mark) in
    let more = count_mark-set_self board i x_mark (omega arith) free in
    let same = count_mark-set_other board i x_mark o_mark (λ e. cc) free in
    (ground arith, ground arith, ground arith)
IsBalanced-set board i o_mark v t range free =
    let size = length-set board i (some o_mark) in
    let more = count_mark-set_self board i o_mark (omega arith) free in
    let same = count_mark-set_other board i o_mark x_mark (λ e. cc) free in
    (ground arith, ground arith, ground arith)

-- A move in turn keeps the balance, hands the turn on and puts one more mark on the board.
pub apply_move-IsBalanced :
    (board next : Board) (index : ℤ) (mark : Mark)
    → IsBalanced board
    → turn_of board ≡ mark
    → apply_move board index mark ≡ some next
    → IsBalanced next × (turn_of next ≢ mark) × (moves next ≡ suc (moves board))
apply_move-IsBalanced board next index mark v t h =
    let (i, _, range, free, _, same) = apply_move_inv board next index mark h in
    rw same (IsBalanced-set board i mark v t range free)

-- A game: moves in turn from the empty board.
pub data Game : Board → Type 0 where
  start : Game empty_board
  move :
      {board next : Board} (index : ℤ) (mark : Mark)
      → Game board
      → turn_of board ≡ mark
      → apply_move board index mark ≡ some next
      → Game next

pub Game-IsBalanced : {board : Board} → Game board → IsBalanced board
Game-IsBalanced start = empty_board-IsBalanced
Game-IsBalanced (move {board} {next} index mark g t h) =
    (apply_move-IsBalanced board next index mark (Game-IsBalanced g) t h).0
