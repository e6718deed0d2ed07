-- ===== src/Client/Retry.antt =====
-- retry.go: an operation that is tried again. The ticker of the backoff package and the context
-- are arguments: what each select finds, in order. A context that is done before the select of a
-- tick is one more thing that it may find.
pub mod Ends
use aliyun_log_go_sdk.Prelude.{
  ℕ, zero, suc, Option, none, some, List, [], ◌∷◌, Bool, true, false, ltb, if◌then◌else◌,
}
use aliyun_log_go_sdk.Prelude.Int.{ℤ, pos, negsuc}

-- What a round of `RetryWithBackOff` and of `RetryWithCondition` finds: the context done, by either
-- select; the ticker's channel closed; a tick.
pub data Found : Type 0 where
  ctx_done ticker_closed tick : Found

-- What a round of `RetryWithAttempt` finds: the context done by the first select; or not, and then,
-- by the second, which waits for the ticker alone, its channel closed, or a tick.
pub data AttemptFound : Type 0 where
  done_first wait_closed waited : AttemptFound

-- What a call returns: no error; an error of the operation; the context's error around the last
-- error of the operation. `waiting` is a loop that has found nothing more.
pub data Outcome (E : Type 0) : Type 0 where
  returned : Option E → Outcome E
  stopped : Option E → Outcome E
  waiting : Option E → Outcome E

module _ {E : Type 0} where
  -- The loop of `RetryWithBackOff`: `o k` is the answer to the k-th call from here.
  unfoldable pub backoff_loop : List Found → (ℕ → Option E) → Option E → Outcome E
  backoff_loop [] o err = waiting err
  backoff_loop (ctx_done ∷ found) o err = stopped err
  backoff_loop (ticker_closed ∷ found) o err = returned err
  backoff_loop (tick ∷ found) o err = elim (o 0) [
    | none ↦ returned none
    | some e ↦ backoff_loop found (λ k. o (suc k)) (some e)
  ]

  unfoldable pub retry_with_back_off : List Found → (ℕ → Option E) → Outcome E
  unfolding backoff_loop
  retry_with_back_off found o = backoff_loop found o none

  -- The loop of `RetryWithCondition`: a call also says whether it is to be tried again.
  unfoldable pub condition_loop : List Found → (ℕ → Bool × Option E) → Option E → Outcome E
  condition_loop [] o err = waiting err
  condition_loop (ctx_done ∷ found) o err = stopped err
  condition_loop (ticker_closed ∷ found) o err = returned err
  condition_loop (tick ∷ found) o err =
      let rest = condition_loop found (λ k. o (suc k)) (o 0).1 in
      if (o 0).0 then rest else returned (o 0).1

  unfoldable pub retry_with_condition : List Found → (ℕ → Bool × Option E) → Outcome E
  unfolding condition_loop
  retry_with_condition found o = condition_loop found o none

  -- The loop of `RetryWithAttempt`, for the attempts that are left. Its second select does not
  -- look at the context.
  unfoldable pub attempt_loop : ℕ → List AttemptFound → (ℕ → Bool × Option E) → Option E → Outcome E
  attempt_loop zero found o err = returned err
  attempt_loop (suc tries) [] o err = waiting err
  attempt_loop (suc tries) (done_first ∷ found) o err = stopped err
  attempt_loop (suc tries) (wait_closed ∷ found) o err = returned err
  attempt_loop (suc tries) (waited ∷ found) o err =
      let rest = attempt_loop tries found (λ k. o (suc k)) (o 0).1 in
      if (o 0).0 then rest else returned (o 0).1

  unfoldable pub retry_with_attempt : ℤ → List AttemptFound → (ℕ → Bool × Option E) → Outcome E
  unfolding attempt_loop
  retry_with_attempt (pos max_attempt) found o = attempt_loop max_attempt found o none
  retry_with_attempt (negsuc n) found o = returned none
