-- ===== src/Client/Retry/Ends.antt =====
-- retry.go: how often an operation is called, and what is returned.
use mathlib.Core.Bool.{true, false}
use aliyun_log_go_sdk.Prelude.{
  ℕ, zero, suc, ◌≤◌, ◌<◌, ◌≡◌, refl, ap, ◌∙◌, ◌⊎◌, inl, inr, Option, none, some, List, [], ◌∷◌,
  Bool, Bool-cases, Option-cases, arith,
}
use aliyun_log_go_sdk.Prelude.Int.{pos}
use aliyun_log_go_sdk.Client.Retry.{
  Found, AttemptFound, done_first, wait_closed, waited, ctx_done, ticker_closed, tick, Outcome,
  returned, stopped, waiting, backoff_loop, retry_with_back_off, attempt_loop, retry_with_attempt,
  condition_loop, retry_with_condition,
}

-- The first k things found are ticks.
abbrev pub Ticks : ℕ → List AttemptFound → Type 0
Ticks zero found = Unit {0}
Ticks (suc k) (waited ∷ found) = Ticks k found
Ticks (suc k) _ = ⊥

-- What is found after k rounds, if anything.
abbrev pub after : ℕ → List AttemptFound → Option AttemptFound
after k [] = none
after zero (f ∷ found) = some f
after (suc k) (f ∷ found) = after k found

abbrev pub is_some : {A : Type 0} → Option A → Bool
is_some none = false
is_some (some a) = true

module _ {E : Type 0} where
  -- The error of the last of k calls, or the one before them.
  abbrev pub last_error : ℕ → (ℕ → Bool × Option E) → Option E → Option E
  last_error zero o err = err
  last_error (suc k) o err = (o k).1

  -- Why a run of `tries` attempts at most ends after k calls: the last call is not to be tried
  -- again, or the attempts are used up; the context is done; the ticker is closed; nothing more is
  -- found yet.
  abbrev pub Reason :
      ℕ → ℕ → List AttemptFound → (ℕ → Bool × Option E) → Option E → Outcome E → Type 0
  Reason k tries found o err r =
      ((r ≡ returned (last_error k o err))
        × ((k ≡ tries) ⊎ ((n : ℕ) × (k ≡ suc n) × ((o n).0 ≡ false))))
      ⊎ (((r ≡ stopped (last_error k o err)) × (after k found ≡ some done_first))
          ⊎ (((r ≡ returned (last_error k o err)) × (after k found ≡ some wait_closed))
              ⊎ ((r ≡ waiting (last_error k o err)) × (after k found ≡ none))))

  -- The run makes k calls, one for each tick, and those before the last ask to be tried again.
  abbrev pub Ended : ℕ → List AttemptFound → (ℕ → Bool × Option E) → Option E → Outcome E → Type 0
  Ended tries found o err r =
      (k : ℕ) × (k ≤ tries)
      × Ticks k found
      × ((j : ℕ) → suc j < k → (o j).0 ≡ true)
      × Reason k tries found o err r

  last-shift :
      (k : ℕ) (o : ℕ → Bool × Option E) (err : Option E)
      → last_error k (λ k. o (suc k)) (o 0).1 ≡ last_error (suc k) o err
  last-shift zero o err = refl
  last-shift (suc k) o err = refl

  tried_before :
      (k : ℕ) (o : ℕ → Bool × Option E)
      → (o 0).0 ≡ true
      → ((j : ℕ) → suc j < k → (o (suc j)).0 ≡ true)
      → (j : ℕ) → suc j < suc k
      → (o j).0 ≡ true
  tried_before k o first rest zero h = first
  tried_before k o first rest (suc j) h = rest j (omega arith)

  Ended-waited :
      (tries : ℕ) (found : List AttemptFound) (o : ℕ → Bool × Option E) (err : Option E)
      (r : Outcome E)
      → (o 0).0 ≡ true
      → Ended tries found (λ k. o (suc k)) (o 0).1 r
      → Ended (suc tries) (waited ∷ found) o err r
  Ended-waited tries found o err r again (k, few, ticks, before, ended) =
      (suc k, omega arith, ticks, tried_before k o again before, shift ended)
    where
      shift :
          Reason k tries found (λ k. o (suc k)) (o 0).1 r
          → Reason (suc k) (suc tries) (waited ∷ found) o err r
      shift (inl (e, inl all)) = inl (e ∙ ap returned (last-shift k o err), inl (ap suc all))
      shift (inl (e, inr (n, is_n, over))) =
          inl (e ∙ ap returned (last-shift k o err), inr (suc n, ap suc is_n, over))
      shift (inr (inl (e, f))) = inr (inl (e ∙ ap stopped (last-shift k o err), f))
      shift (inr (inr (inl (e, f)))) = inr (inr (inl (e ∙ ap returned (last-shift k o err), f)))
      shift (inr (inr (inr (e, f)))) = inr (inr (inr (e ∙ ap waiting (last-shift k o err), f)))

  pub attempt-Ended :
      (tries : ℕ) (found : List AttemptFound) (o : ℕ → Bool × Option E) (err : Option E)
      → Ended tries found o err (attempt_loop tries found o err)
  unfolding attempt_loop
  attempt-Ended zero found o err =
      (0, omega arith, tt, (λ j h. absurd (omega arith)), inl (refl, inl refl))
  attempt-Ended (suc tries) [] o err =
      (0, omega arith, tt, (λ j h. absurd (omega arith)), inr (inr (inr (refl, refl))))
  attempt-Ended (suc tries) (done_first ∷ found) o err =
      (0, omega arith, tt, (λ j h. absurd (omega arith)), inr (inl (refl, refl)))
  attempt-Ended (suc tries) (wait_closed ∷ found) o err =
      (0, omega arith, tt, (λ j h. absurd (omega arith)), inr (inr (inl (refl, refl))))
  attempt-Ended (suc tries) (waited ∷ found) o err = elim (Bool-cases (o 0).0) [
    | inl again ↦ rw again (
        Ended-waited tries found o err _ again (attempt-Ended tries found (λ k. o (suc k)) (o 0).1))
    | inr over ↦
        rw over (1, omega arith, tt, (λ j h. absurd (omega arith)), inl (refl, inr (0, refl, over)))
  ]

-- RetryWithAttempt, for a number of attempts that is not negative, calls the operation that many
-- times at most, one call for each tick, and each call but the last has asked to be tried again.
-- It returns the error of the last call, when that is not to be tried again, the attempts are
-- used up, or the ticker is closed; and the context's error when the context is done.
pub retry_with_attempt_ends :
    {E : Type 0} (max_attempt : ℕ) (found : List AttemptFound) (o : ℕ → Bool × Option E)
    → Ended max_attempt found o none (retry_with_attempt (pos max_attempt) found o)
unfolding retry_with_attempt
retry_with_attempt_ends max_attempt found o = attempt-Ended max_attempt found o none

back_off-condition :
    {E : Type 0} (found : List Found) (o : ℕ → Option E) (err : Option E)
    → backoff_loop found o err ≡ condition_loop found (λ k. (is_some (o k), o k)) err
unfolding backoff_loop condition_loop
back_off-condition [] o err = refl
back_off-condition (ctx_done ∷ found) o err = refl
back_off-condition (ticker_closed ∷ found) o err = refl
back_off-condition (tick ∷ found) o err = elim (Option-cases (o 0)) [
  | inl done ↦ rw (done, backoff_loop) refl
  | inr (e, bad) ↦ rw (bad, backoff_loop) (back_off-condition found (λ k. o (suc k)) (some e))
]

-- RetryWithBackOff is RetryWithCondition on an operation that asks to be tried again just at an
-- error, whatever the two selects of each round, which are the same in both, find.
pub retry_with_back_off-condition :
    {E : Type 0} (found : List Found) (o : ℕ → Option E)
    → retry_with_back_off found o ≡ retry_with_condition found (λ k. (is_some (o k), o k))
unfolding retry_with_back_off retry_with_condition
retry_with_back_off-condition found o = back_off-condition found o none
