-- ===== src/Tictactoe/Tests.antt =====
-- Runs of the rules and of a game between users 7 and 9.
use strangertv.Common.{[], ◌∷◌, none, some, ◌≡◌, refl, arith}
use strangertv.Common.Int.{pos, negsuc}
use strangertv.Common.Json.{num, bool, obj, end, field, fraction}
use strangertv.Common.{true, false}
use strangertv.Tictactoe.Rules.{
  x_mark, o_mark, Board, empty_board, line_mark, first_line, winner_of, apply_move, turn_of,
}
use strangertv.Tictactoe.Client.{is_game_update, move_update, mark_of, play, on_state}
use strangertv.Tictactoe.Lines.{apply_move-winner_of}
use strangertv.Tictactoe.Table.{Table, Reach, here, after, play_a, deliver_b, seated}
use strangertv.Tictactoe.Match.{boards_converge}

-- X to win on the diagonal.
abbrev diagonal : Board
diagonal =
    some x_mark ∷ some o_mark ∷ none ∷ none ∷ some x_mark ∷ some o_mark ∷ none ∷ none ∷ none ∷ []

abbrev diagonal_won : Board
diagonal_won =
    some x_mark
    ∷ some o_mark
    ∷ none
    ∷ none
    ∷ some x_mark
    ∷ some o_mark
    ∷ none
    ∷ none
    ∷ some x_mark
    ∷ []

moves_refused :
    (apply_move diagonal (pos 4) o_mark ≡ none)
    × (apply_move diagonal (negsuc 0) o_mark ≡ none)
    × (apply_move diagonal (pos 9) o_mark ≡ none)
    × (apply_move diagonal_won (pos 2) o_mark ≡ none)
unfolding apply_move winner_of first_line line_mark
moves_refused = (refl, refl, refl, refl)

updates_checked :
    (is_game_update (move_update 8 1) ≡ true)
    × (is_game_update (move_update 9 1) ≡ false)
    × (is_game_update (obj (field "by" (num (fraction 0)) (field "reset" (bool true) end))) ≡ true)
    × (is_game_update (obj (field "reset" (bool true) end)) ≡ false)
unfolding is_game_update
updates_checked = (refl, refl, refl, refl)

apply_move-winner_of_example : x_mark ≡ x_mark
unfolding apply_move winner_of first_line line_mark
apply_move-winner_of_example =
    apply_move-winner_of diagonal diagonal_won (pos 8) x_mark x_mark refl refl

abbrev centre : Board
centre = none ∷ none ∷ none ∷ none ∷ some x_mark ∷ none ∷ none ∷ none ∷ none ∷ []

abbrev moved : Table
moved = record {
  a = record { me = some 7; roster = 7 ∷ 9 ∷ []; board = centre };
  b = record { me = some 9; roster = 7 ∷ 9 ∷ []; board = empty_board };
  to_a = [];
  to_b = move_update 4 7 ∷ [];
}

abbrev delivered : Table
delivered = record moved { b = on_state moved.b 7 (move_update 4 7); to_b = [] }

reached : Reach 7 9 (seated 7 9) delivered
unfolding play apply_move winner_of first_line line_mark turn_of empty_board mark_of
reached =
    after (after here (play_a (seated 7 9) moved.a 4 (move_update 4 7) refl))
      (deliver_b moved (move_update 4 7) [] refl)

boards_converge_example : centre ≡ delivered.b.board
boards_converge_example = boards_converge 7 9 (omega arith) reached refl refl
