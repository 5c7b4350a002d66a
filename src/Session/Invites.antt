-- ===== src/Session/Invites.antt =====
-- The countdown of a group invitation in src/hooks/useMatchSession.ts.
use strangertv.Common.{
  ℕ, List, Option, none, some, Bool, true, false, ◌≡◌, String, arith, ℕ_eq, String_eq, nat_eq_iff,
}
use strangertv.Common.Maps.{get, put, remove, get-put, get-remove}
use strangertv.Session.State.{Session, Alarm, auto_decline, clear_alarm}

-- An alarm that declines an invitation is the one that the hook can clear.
abbrev pub Only : Option ℕ → List (ℕ × Alarm) → Type 0
Only timeout alarms =
    (t : ℕ) (id : String) → get t alarms ≡ some (auto_decline id) → timeout ≡ some t

abbrev pub OneCountdown : Session → Type 0
OneCountdown s = Only s.group_invite_timeout_ref s.alarms

abbrev is_decline : Alarm → Bool
is_decline (auto_decline _) = true
is_decline _ = false

pub put-Only :
    (timeout : Option ℕ) (alarms : List (ℕ × Alarm)) (n : ℕ) (a : Alarm)
    → Only timeout alarms
    → is_decline a ≡ false
    → Only timeout (put n a alarms)
put-Only timeout alarms n a h k t id e =
    ground (arith, h t id, get-put n t a alarms, nat_eq_iff n t)

pub clear_alarm-Only :
    (timeout : Option ℕ) (alarms : List (ℕ × Alarm))
    → Only timeout alarms
    → Only none (clear_alarm timeout alarms)
clear_alarm-Only none alarms h t id e = h t id e
clear_alarm-Only (some n) alarms h t id e =
    ground (arith, h t id, get-remove n t alarms, nat_eq_iff n t)

pub put_decline-Only :
    (alarms : List (ℕ × Alarm)) (n : ℕ) (room : String)
    → Only none alarms
    → Only (some n) (put n (auto_decline room) alarms)
put_decline-Only alarms n room h t id e =
    ground (arith, h t id, get-put n t (auto_decline room) alarms, nat_eq_iff n t)

pub remove-Only :
    (timeout : Option ℕ) (alarms : List (ℕ × Alarm)) (n : ℕ)
    → Only timeout alarms
    → Only timeout (remove n alarms)
remove-Only timeout alarms n h t id e =
    ground (arith, h t id, get-remove n t alarms, nat_eq_iff n t)

pub remove_decline-Only :
    (timeout : Option ℕ) (alarms : List (ℕ × Alarm)) (n : ℕ) (room : String)
    → Only timeout alarms
    → get n alarms ≡ some (auto_decline room)
    → Only none (remove n alarms)
remove_decline-Only timeout alarms n room h g t id e =
    ground (arith, h t id, h n room, get-remove n t alarms, nat_eq_iff n t)
