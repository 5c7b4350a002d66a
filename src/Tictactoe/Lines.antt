-- ===== src/Tictactoe/Lines.antt =====
-- Who can have a line: `winnerOf` against the plain reading of the rules.
use strangertv.Common.{
  ℕ, zero, suc, ◌<◌, List, [], ◌∷◌, none, some, false, ◌≡◌, refl, ap, ◌≢◌, ◌⊎◌, inl, inr, arith,
  set, Option-cases, is_some, every,
}
use strangertv.Common.Int.{ℤ, pos, negsuc}
use strangertv.Tictactoe.Rules.{
  Mark, x_mark, o_mark, Board, won, lines, cell, line_mark, first_line, winner_of, apply_move,
}
use mathlib.Core.List.{Memᴰ}
use mathlib.Core.Path.{subst}

-- The three cells of a line hold the mark.
abbrev pub Holds : Board → Mark → ℕ × ℕ × ℕ → Type 0
Holds board mark (a, b, c) =
    (cell board a ≡ some mark) × (cell board b ≡ some mark) × (cell board c ≡ some mark)

abbrev pub HasLine : Board → Mark → List (ℕ × ℕ × ℕ) → Type 0
HasLine board mark ls = (l : ℕ × ℕ × ℕ) × Memᴰ l ls × Holds board mark l

line_mark_sound :
    (board : Board) (l : ℕ × ℕ × ℕ) (mark : Mark)
    → line_mark board l ≡ some mark
    → Holds board mark l
unfolding line_mark
line_mark_sound board (a, b, c) x_mark h = ground arith
line_mark_sound board (a, b, c) o_mark h = ground arith

line_mark_complete :
    (board : Board) (l : ℕ × ℕ × ℕ) (mark : Mark)
    → Holds board mark l
    → line_mark board l ≡ some mark
unfolding line_mark
line_mark_complete board (a, b, c) x_mark h = ground arith
line_mark_complete board (a, b, c) o_mark h = ground arith

pub first_line_sound :
    (board : Board) (ls : List (ℕ × ℕ × ℕ)) (mark : Mark)
    → first_line board ls ≡ some mark
    → HasLine board mark ls
unfolding first_line
first_line_sound board [] mark h = cc
first_line_sound board (l ∷ ls) mark h = elim (Option-cases (line_mark board l)) [
  | inl e ↦
      let (k, m, w) = first_line_sound board ls mark (rw (e, first_line) at h) in
      (k, Memᴰ.tail m, w)
  | inr (w, e) ↦ (l, Memᴰ.head refl, line_mark_sound board l mark (ground arith))
]

first_line-none :
    (board : Board) (ls : List (ℕ × ℕ × ℕ)) (mark : Mark) (l : ℕ × ℕ × ℕ)
    → first_line board ls ≡ none
    → Memᴰ l ls
    → Holds board mark l
    → ⊥
unfolding first_line
first_line-none board [] mark l h m w = elim m [ ]
first_line-none board (k ∷ ls) mark l h (Memᴰ.head e) w =
    let done = line_mark_complete board l mark w in ground (arith, ap (line_mark board) e)
first_line-none board (k ∷ ls) mark l h (Memᴰ.tail m) w =
    first_line-none board ls mark l (ground arith) m w

pub winner_of_sound :
    (board : Board) (mark : Mark) → winner_of board ≡ some (won mark) → HasLine board mark lines
unfolding winner_of
winner_of_sound board mark h = first_line_sound board lines mark (ground arith)

-- A live game has no line.
pub winner_of_live :
    (board : Board) (mark : Mark) → winner_of board ≡ none → ¬ HasLine board mark lines
unfolding winner_of
winner_of_live board mark h (l, m, w) = first_line-none board lines mark l (ground arith) m w

pub winner_of_full : (board : Board) → winner_of board ≡ none → every is_some board ≡ false
unfolding winner_of
winner_of_full board h = ground arith

cell-set :
    (board : Board) (i j : ℕ) (mark : Mark)
    → (cell (set board i (some mark)) j ≡ cell board j)
      ⊎ (cell (set board i (some mark)) j ≡ some mark)
cell-set [] i j mark = inl refl
cell-set (c ∷ cs) zero zero mark = inr refl
cell-set (c ∷ cs) zero (suc j) mark = inl refl
cell-set (c ∷ cs) (suc i) zero mark = inl refl
cell-set (c ∷ cs) (suc i) (suc j) mark = cell-set cs i j mark

cell-set_other :
    (board : Board) (i j : ℕ) (mark other : Mark)
    → other ≢ mark
    → cell (set board i (some mark)) j ≡ some other
    → cell board j ≡ some other
cell-set_other board i j mark other ne h = ground (arith, cell-set board i j mark)

Holds-set :
    (board : Board) (i : ℕ) (mark other : Mark) (l : ℕ × ℕ × ℕ)
    → other ≢ mark
    → Holds (set board i (some mark)) other l
    → Holds board other l
Holds-set board i mark other (a, b, c) ne (p, q, r) = (
  cell-set_other board i a mark other ne p,
  cell-set_other board i b mark other ne q,
  cell-set_other board i c mark other ne r,
)

Mark-discrete : Discrete Mark
Mark-discrete = hlevel

-- What an accepted move is: an empty cell on the board of a live game, and the board with the mark.
pub apply_move_inv :
    (board next : Board) (index : ℤ) (mark : Mark)
    → apply_move board index mark ≡ some next
    → (i : ℕ) × (index ≡ pos i)
      × (i < 9)
      × (cell board i ≡ none)
      × (winner_of board ≡ none)
      × (next ≡ set board i (some mark))
unfolding apply_move
apply_move_inv board next (negsuc n) mark h = cc
apply_move_inv board next (pos i) mark h =
    (i, refl, ground arith, ground arith, ground arith, ground arith)

-- A move that ends the game with a line gives the line to the player who made it.
pub apply_move-winner_of :
    (board next : Board) (index : ℤ) (mark winner : Mark)
    → apply_move board index mark ≡ some next
    → winner_of next ≡ some (won winner)
    → winner ≡ mark
apply_move-winner_of board next index mark winner h w = elim (Mark-discrete winner mark) [
  | yes e ↦ e
  | no ne ↦
      let (i, _, _, _, live, same) = apply_move_inv board next index mark h in
      let (l, m, held) = winner_of_sound next winner w in
      absurd (
        winner_of_live board winner live
          (l, m, Holds-set board i mark winner l ne (subst (λ b. Holds b winner l) same held)))
]
