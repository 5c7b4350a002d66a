-- ===== src/Boot/Wait.antt =====
-- The wait for the API of src/utils/waitForApi.ts, round by round.
use mathlib.Core.Path.{subst}
use strangertv.Common.{
  ℕ, zero, suc, ◌+◌, ◌*◌, ◌≤◌, ◌<◌, Option, none, some, Bool, true, false, not, ◌&&◌, if◌then◌else◌,
  ltb, ◌≡◌, refl, ◌⊎◌, inl, inr, arith, Bool-cases,
}

-- What the loop meets: the answers of the probes, the clock at the tests, and whether the caller has
-- left at the test of a round, after its pause and where it returns.
pub record World (A : Type 0) : Type 0 where
  pub is_ok : A → Bool
  pub answer : ℕ → A
  pub clock : ℕ → ℕ
  pub left_at_test : ℕ → Bool
  pub left_after_pause : ℕ → Bool
  pub left_at_end : ℕ → Bool

module _ {A : Type 0} (w : World A) (deadline : ℕ) where
  -- The condition of the loop.
  unfoldable pub goes_on : ℕ → Bool
  goes_on i = not (w.is_ok (w.answer i)) && not (w.left_at_test i) && ltb (w.clock i) deadline

  abbrev pub at_end : ℕ → Option A
  at_end i = if w.left_at_end i then none else some (w.answer i)

  -- `none` where the fuel runs out; `some none` is the null that the code returns.
  unfoldable pub rounds : ℕ → ℕ → Option (Option A)
  rounds zero i = none
  rounds (suc fuel) i =
      let rest : Option (Option A) = rounds fuel (suc i) in
      if goes_on i then (if w.left_after_pause i then some none else rest) else some (at_end i)

  -- How the wait ends in round `i`: with the answer of its probe, which is good unless the caller has
  -- left or the time is over, or with nothing, as the caller has left.
  abbrev pub EndsAt : ℕ → Option A → Type 0
  EndsAt i none = (w.left_at_end i ≡ true) ⊎ (w.left_after_pause i ≡ true)
  EndsAt i (some a) =
      (a ≡ w.answer i)
      × (w.left_at_end i ≡ false)
      × ((w.is_ok a ≡ true) ⊎ ((w.left_at_test i ≡ true) ⊎ (deadline ≤ w.clock i)))

  abbrev pub Fails : ℕ → ℕ → Type 0
  Fails first i = (j : ℕ) → first ≤ j → j < i → w.is_ok (w.answer j) ≡ false

  abbrev pub Result : ℕ → ℕ → Option (Option A) → Type 0
  Result first fuel r =
      (i : ℕ) × (o : Option A) × (r ≡ some o) × (i ≤ first + fuel) × Fails first i × EndsAt i o

  goes_on-end :
      (i : ℕ)
      → goes_on i ≡ false
      → (w.is_ok (w.answer i) ≡ true) ⊎ ((w.left_at_test i ≡ true) ⊎ (deadline ≤ w.clock i))
  unfolding goes_on
  goes_on-end i stop = elim (Bool-cases (w.is_ok (w.answer i))) [
    | inl fine ↦ inl fine
    | inr bad ↦ elim (Bool-cases (w.left_at_test i)) [
      | inl gone ↦ inr (inl gone)
      | inr here ↦ inr (inr (ground arith))
    ]
  ]

  at_end-EndsAt : (i : ℕ) → goes_on i ≡ false → EndsAt i (at_end i)
  at_end-EndsAt i stop = elim (Bool-cases (w.left_at_end i)) [
    | inl e ↦ rw e (inl e)
    | inr e ↦ rw e (refl, e, goes_on-end i stop)
  ]

  goes_on-not_ok : (i : ℕ) → goes_on i ≡ true → w.is_ok (w.answer i) ≡ false
  unfolding goes_on
  goes_on-not_ok i h = ground arith

  goes_on-lt : (i : ℕ) → goes_on i ≡ true → w.clock i < deadline
  unfolding goes_on
  goes_on-lt i h = ground arith

  goes_on-now : (i : ℕ) → goes_on i ≡ true → deadline ≤ w.clock i → ⊥
  goes_on-now i h late = omega (arith, goes_on-lt i h)

  nothing-Fails : (i : ℕ) → Fails i i
  nothing-Fails i j lo hi = ground arith

  le_cases : (a b : ℕ) → a ≤ b → (a ≡ b) ⊎ (suc a ≤ b)
  le_cases a b h = omega arith

  failed_first : (i j : ℕ) → w.is_ok (w.answer i) ≡ false → Fails (suc i) j → Fails i j
  failed_first i j h rest k lo hi = elim (le_cases i k lo) [
    | inl e ↦ subst (λ (n : ℕ). w.is_ok (w.answer n) ≡ false) e h
    | inr more ↦ rest k more hi
  ]

  -- One round, where the rounds after it have a result.
  round-Result :
      (fuel i : ℕ)
      → (goes_on i ≡ true → w.left_after_pause i ≡ false → Result i fuel (rounds fuel (suc i)))
      → Result i fuel (rounds (suc fuel) i)
  unfolding rounds
  round-Result fuel i rest = elim (Bool-cases (goes_on i)) [
    | inl go ↦ elim (Bool-cases (w.left_after_pause i)) [
      | inl gone ↦ (i, none, rw (go, gone) refl, omega arith, nothing-Fails i, inr gone)
      | inr here ↦ rw (go, here) (rest go here)
    ]
    | inr stop ↦ (i, at_end i, rw stop refl, omega arith, nothing-Fails i, at_end-EndsAt i stop)
  ]

  later-Result :
      (fuel i : ℕ) (r : Option (Option A))
      → w.is_ok (w.answer i) ≡ false
      → Result (suc i) fuel r
      → Result i (suc fuel) r
  later-Result fuel i r failed (j, o, e, near, before, ends) =
      (j, o, e, omega arith, failed_first i j failed before, ends)

  module _ (retry : ℕ) (pauses : (i : ℕ) → w.clock i + retry ≤ w.clock (suc i)) where
    pub rounds-Result :
        (fuel i : ℕ) → deadline ≤ w.clock i + fuel * retry → Result i fuel (rounds (suc fuel) i)
    rounds-Result zero i enough =
        round-Result zero i (λ go here. elim (goes_on-now i go (omega arith)) [ ])
    rounds-Result (suc fuel) i enough = round-Result (suc fuel) i (λ go here.
        later-Result fuel i (rounds (suc fuel) (suc i)) (goes_on-not_ok i go)
          (rounds-Result fuel (suc i) (omega (arith, pauses i))))

-- `waitForApi`, given what `Date.now()` reads after the first probe.
unfoldable pub wait_for_api : {A : Type 0} → World A → ℕ → ℕ → ℕ → Option (Option A)
wait_for_api w started timeout fuel = rounds w (started + timeout) fuel 0

-- Where each pause takes the retry time at least, the wait comes to an end after at most `n` pauses,
-- `n` times the retry time being the time-out: with the last answer, all before it having failed,
-- unless the caller has left.
pub wait_for_api-Result :
    {A : Type 0} (w : World A) (started timeout retry n : ℕ)
    → ((i : ℕ) → w.clock i + retry ≤ w.clock (suc i))
    → started ≤ w.clock 0
    → timeout ≤ n * retry
    → Result w (started + timeout) 0 n (wait_for_api w started timeout (suc n))
unfolding wait_for_api
wait_for_api-Result w started timeout retry n pauses later enough =
    rounds-Result w (started + timeout) retry pauses n 0 (omega arith)
