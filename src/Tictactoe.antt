-- ===== src/Tictactoe.antt =====
-- The reference activity, src/activities/tictactoe: the rules (logic.ts) and the moves of the
-- component that two players run (TicTacToe.tsx).
pub mod Rules
pub mod Lines
pub mod Turns
pub mod Client
pub mod Moves
pub mod Table
pub mod Match
mod Tests
