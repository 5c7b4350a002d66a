-- ===== src/Tictactoe/Table.antt =====
-- Two players and the updates in flight between them.
use strangertv.Common.{ℕ, List, [], ◌∷◌, ◌++◌, some, ◌≡◌}
use strangertv.Common.Json.{Json}
use strangertv.Tictactoe.Rules.{empty_board}
use strangertv.Tictactoe.Client.{Client, move_update, play, on_state}

-- Two players at one table, in the order of their seats, and the updates in flight to each.
pub record Table : Type 0 where
  pub a : Client
  pub b : Client
  pub to_a : List Json
  pub to_b : List Json

module _ (ua ub : ℕ) where
  -- A click by either player, the delivery of an update to the other, and its echo.
  pub data Step : Table → Table → Type 0 where
    play_a :
        (t : Table) (next : Client) (index : ℕ) (sent : Json)
        → play t.a index ≡ (next, some sent)
        → Step t (record t { a = next; to_b = t.to_b ++ sent ∷ [] })
    play_b :
        (t : Table) (next : Client) (index : ℕ) (sent : Json)
        → play t.b index ≡ (next, some sent)
        → Step t (record t { b = next; to_a = t.to_a ++ sent ∷ [] })
    deliver_a :
        (t : Table) (sent : Json) (rest : List Json)
        → t.to_a ≡ sent ∷ rest
        → Step t (record t { a = on_state t.a ub sent; to_a = rest })
    deliver_b :
        (t : Table) (sent : Json) (rest : List Json)
        → t.to_b ≡ sent ∷ rest
        → Step t (record t { b = on_state t.b ua sent; to_b = rest })
    echo_a :
        (t : Table) (index : ℕ) → Step t (record t { a = on_state t.a ua (move_update index ua) })
    echo_b :
        (t : Table) (index : ℕ) → Step t (record t { b = on_state t.b ub (move_update index ub) })

  pub data Reach (s : Table) : Table → Type 0 where
    here : Reach s s
    after : {t u : Table} → Reach s t → Step t u → Reach s u

  -- Both players at the start of a game.
  abbrev pub seated : Table
  seated = record {
    a = record { me = some ua; roster = ua ∷ ub ∷ []; board = empty_board };
    b = record { me = some ub; roster = ua ∷ ub ∷ []; board = empty_board };
    to_a = [];
    to_b = [];
  }
