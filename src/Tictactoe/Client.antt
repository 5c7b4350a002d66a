-- ===== src/Tictactoe/Client.antt =====
-- src/activities/tictactoe/logic.ts (`isGameUpdate`) and TicTacToe.tsx: what one player's side does
-- with a click and with an update from the host. Only the user ids of the roster matter to the
-- moves, so a seat is its user's id.
use strangertv.Common.{
  ℕ, List, Option, none, some, Bool, true, false, ◌&&◌, ◌||◌, not, if◌then◌else◌, ltb, ◌==◌, ℕ_eq,
  is_some, get_elem?,
}
use strangertv.Common.Int.{ℤ, pos, negsuc}
use strangertv.Common.Json.{
  Json, Number, int, fraction, num, bool, obj, end, field, prop, has_prop, is_record, as_number,
  is_true,
}
use strangertv.Tictactoe.Rules.{
  Mark, x_mark, o_mark, Board, cell, empty_board, winner_of, apply_move, turn_of,
}

pub record Client : Type 0 where
  pub me : Option ℕ
  pub roster : List ℕ
  pub board : Board

abbrev pub is_cell_index : Option Number → Bool
is_cell_index (some (int (pos i))) = ltb i 9
is_cell_index _ = false

unfoldable pub is_game_update : Json → Bool
is_game_update v =
    if not (is_record v)
    then false
    else if not (is_some (as_number (prop v "by")))
    then false
    else if is_true (prop v "reset")
    then true
    else is_cell_index (as_number (prop v "move"))

-- The object that `play` publishes.
abbrev pub move_update : ℕ → ℕ → Json
move_update index by =
    obj (field "move" (num (int (pos index))) (field "by" (num (int (pos by))) end))

-- The object that `playAgain` publishes.
abbrev pub reset_update : ℕ → Json
reset_update by = obj (field "reset" (bool true) (field "by" (num (int (pos by))) end))

abbrev seat_is : Option ℕ → ℕ → Bool
seat_is none user = false
seat_is (some seat) user = seat == user

-- Seat order decides marks: first joined plays X.
unfoldable pub mark_of : List ℕ → ℕ → Option Mark
mark_of seats user =
    if seat_is (get_elem? seats 0) user
    then some x_mark
    else if seat_is (get_elem? seats 1) user
    then some o_mark
    else none

abbrev mark_eq : Mark → Mark → Bool
mark_eq x_mark x_mark = true
mark_eq o_mark o_mark = true
mark_eq _ _ = false

abbrev my_turn : Option Mark → Board → Bool
my_turn none board = false
my_turn (some mark) board = not (is_some (winner_of board)) && mark_eq mark (turn_of board)

-- A click on a cell: the new state, and the update that is published.
unfoldable pub play : Client → ℕ → Client × Option Json
play c index = elim c.me [
  | none ↦ (c, none)
  | some me ↦ elim (mark_of c.roster me) [
    | none ↦ (c, none)
    | some mark ↦
        if not (my_turn (some mark) c.board)
          || is_some (cell c.board index)
          || is_some (winner_of c.board)
        then (c, none)
        else elim (apply_move c.board (pos index) mark) [
          | none ↦ (c, none)
          | some next ↦ (record c { board = next }, some (move_update index me))
        ]
  ]
]

unfoldable pub play_again : Client → Client × Option Json
play_again c = elim c.me [
  | none ↦ (c, none)
  | some me ↦
      if is_some (winner_of c.board)
      then (record c { board = empty_board }, some (reset_update me))
      else (c, none)
]

abbrev is_me : Option ℕ → ℕ → Bool
is_me none user = false
is_me (some me) user = user == me

-- `state.move`, which `is_game_update` has checked.
abbrev move_of : Json → ℤ
move_of state = elim (as_number (prop state "move")) [
  | some (int i) ↦ i
  | some (fraction _) ↦ negsuc 0
  | none ↦ negsuc 0
]

abbrev apply_remote : Client → Json → Option Mark → Client
apply_remote c state none = c
apply_remote c state (some mark) = elim (apply_move c.board (move_of state) mark) [
  | none ↦ c
  | some next ↦ record c { board = next }
]

-- An update from the host, by `user`.
unfoldable pub on_state : Client → ℕ → Json → Client
on_state c user state =
    if not (is_game_update state)
    then c
    else if is_me c.me user && has_prop state "move"
    then c
    else if has_prop state "reset"
    then if is_some (winner_of c.board) then record c { board = empty_board } else c
    else apply_remote c state (mark_of c.roster user)
