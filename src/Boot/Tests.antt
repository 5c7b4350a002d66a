-- ===== src/Boot/Tests.antt =====
-- An API that answers at the third probe, and an account whose session is refreshed.
use strangertv.Common.{ℕ, ◌+◌, ◌*◌, [], some, none, true, false, ltb, ◌≡◌, refl, arith}
use strangertv.Boot.Wait.{World, Result, rounds, goes_on, wait_for_api, wait_for_api-Result}
use strangertv.Settings.Storage.{Store, ProfileText}
use strangertv.Boot.Account.{Agrees, check_account, check_account-Agrees}

abbrev third_time : World ℕ
third_time = record {
  is_ok = λ i. ltb 1 i;
  answer = λ i. i;
  clock = λ i. 10 + i * 1000;
  left_at_test = λ _. false;
  left_after_pause = λ _. false;
  left_at_end = λ _. false;
}

wait_for_api-Result_example : Result third_time 10010 0 10 (wait_for_api third_time 10 10000 11)
wait_for_api-Result_example =
    wait_for_api-Result third_time 10 10000 1000 10 (λ i. omega arith) (omega arith) (omega arith)

third_answer : wait_for_api third_time 10 10000 11 ≡ some (some 2)
unfolding wait_for_api rounds goes_on
third_answer = refl

-- Accounts that are told apart by nothing.
abbrev anybody : ProfileText Unit
anybody = record {
  print = λ _. "{}";
  parse = λ _. some (some tt);
  parse-print = λ u. refl;
  print_nonempty = λ u. refl;
}

abbrev returning : Store
returning = record {
  items = [];
  readable = true;
  writable = true;
  removable = true;
  memory_token = some "old";
}

-- `me` fails, and `refresh` gives a new bearer.
check_account-Agrees_example :
    Agrees anybody returning
      (some ("new", tt))
      (check_account anybody none (some ("new", tt)) returning)
check_account-Agrees_example = check_account-Agrees anybody none (some ("new", tt)) returning refl
