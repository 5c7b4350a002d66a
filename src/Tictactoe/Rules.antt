-- ===== src/Tictactoe/Rules.antt =====
-- src/activities/tictactoe/logic.ts. `null` cells are `none`, and a board is a list of cells; a
-- read out of range gives `undefined`, which the code treats as it treats `null`.
use strangertv.Common.{
  ℕ, suc, List, [], ◌∷◌, Option, none, some, Bool, true, false, ◌&&◌, ◌||◌, if◌then◌else◌, ltb, leb,
  is_some, or_else, get_elem?, set, replicate, every,
}
use strangertv.Common.Int.{ℤ, pos, negsuc}

pub data Mark : Type 0 where
  x_mark o_mark : Mark

abbrev pub Cell : Type 0
Cell = Option Mark

abbrev pub Board : Type 0
Board = List Cell

pub data Winner : Type 0 where
  won : Mark → Winner
  draw : Winner

abbrev pub lines : List (ℕ × ℕ × ℕ)
lines =
    (0, 1, 2)
    ∷ (3, 4, 5)
    ∷ (6, 7, 8)
    ∷ (0, 3, 6)
    ∷ (1, 4, 7)
    ∷ (2, 5, 8)
    ∷ (0, 4, 8)
    ∷ (2, 4, 6)
    ∷ []

unfoldable pub empty_board : Board
empty_board = replicate 9 none

-- `board[i]`
abbrev pub cell : Board → ℕ → Cell
cell board i = or_else (get_elem? board i) none

abbrev pub cell_is : Mark → Cell → Bool
cell_is x_mark (some x_mark) = true
cell_is o_mark (some o_mark) = true
cell_is _ _ = false

-- One round of the loop over `LINES`.
unfoldable pub line_mark : Board → ℕ × ℕ × ℕ → Option Mark
line_mark board (a, b, c) = elim (cell board a) [
  | none ↦ none
  | some mark ↦
      if cell_is mark (cell board b) && cell_is mark (cell board c) then some mark else none
]

unfoldable pub first_line : Board → List (ℕ × ℕ × ℕ) → Option Mark
first_line board [] = none
first_line board (l ∷ ls) = elim (line_mark board l) [
  | some mark ↦ some mark
  | none ↦ first_line board ls
]

unfoldable pub winner_of : Board → Option Winner
winner_of board = elim (first_line board lines) [
  | some mark ↦ some (won mark)
  | none ↦ if every is_some board then some draw else none
]

-- A negative index fails the range test.
unfoldable pub apply_move : Board → ℤ → Mark → Option Board
apply_move board (negsuc _) mark = none
apply_move board (pos index) mark =
    if ltb 8 index || is_some (cell board index) || is_some (winner_of board)
    then none
    else some (set board index (some mark))

abbrev pub count_mark : Mark → Board → ℕ
count_mark mark [] = 0
count_mark mark (c ∷ cs) = if cell_is mark c then suc (count_mark mark cs) else count_mark mark cs

unfoldable pub turn_of : Board → Mark
turn_of board = if leb (count_mark x_mark board) (count_mark o_mark board) then x_mark else o_mark
