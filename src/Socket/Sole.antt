-- ===== src/Socket/Sole.antt =====
-- The sockets that src/hooks/useMatchSocket.ts keeps open.
use strangertv.Common.{ℕ, List, [], Option, some, ◌≡◌, ℕ_eq, true}
use strangertv.Common.Maps.{get}
use strangertv.Socket.State.{Socket, Hook, opened, closed, is_usable, ready_of}

-- A socket that is connecting or open is the hook's current one.
abbrev pub Only : Option ℕ → List (ℕ × Socket) → Type 0
Only current sockets = (j : ℕ) → is_usable (ready_of (get j sockets)) ≡ true → current ≡ some j

abbrev pub OnlyCurrent : Hook → Type 0
OnlyCurrent s = Only s.current s.sockets

abbrev now_open : Socket → Socket
now_open ws = record ws { ready = opened; on_open = [] }

abbrev now_closed : Socket → Socket
now_closed ws = record ws { ready = closed }
