-- ===== src/Producer/IoWorker/Outcomes.antt =====
-- producer/io_worker.go: what one attempt leads to, branch by branch.
use mathlib.Core.Bool.{false}
use mathlib.Core.List.{Perm}
use aliyun_log_go_sdk.Prelude.{
  ℕ, suc, ◌+◌, ◌≡◌, refl, ap, ◌∙◌, Option, none, some, List, [], ◌∷◌, Bool, true, if◌then◌else◌,
  ◌>>=◌,
}
use aliyun_log_go_sdk.Prelude.Int.{ℤ, pos, ◌-ℤ◌, ltb_ℤ}
use aliyun_log_go_sdk.Heap.Multiset.{push-perm}
use aliyun_log_go_sdk.Producer.Batch.{ProducerBatch}
use aliyun_log_go_sdk.Producer.Result.{Attempt, create_attempt}
use aliyun_log_go_sdk.Producer.RetryQueue.{less, send_to_retry_queue}
use aliyun_log_go_sdk.Producer.State.{Producer}
use aliyun_log_go_sdk.Producer.IoWorker.{
  SlsError, Err, sls_error, foreign, Call, Sent, bill, append_attempt, success_calls,
  execute_failed_callback, not_retried, succeeded, with_next_retry, requeue, send_to_server,
}
use aliyun_log_go_sdk.Producer.IoWorker.Calls.{
  CallsAll, fail_calls-all, success_calls-all, noted, add_error-noted, shut_down-calls, noted-keeps,
}

-- The branch that an answer takes.
pub data Fate : Type 0 where
  delivered dropped failed retried : Fate

unfoldable pub fate : Option Err → ProducerBatch → Producer → Fate
fate none b p = delivered
fate (some err) b p =
    if p.retry_queue_shut_down_flag
    then dropped
    else if not_retried p.producer_config err
    then failed
    else if ltb_ℤ (pos b.attempt_count) b.max_retry_times
    then retried
    else failed

-- What is promised of an attempt, by its fate.
abbrev pub Promise : Fate → ProducerBatch → Producer → Sent → Type 0
Promise delivered b p s =
    (s.producer ≡ bill b p) × (s.batch.result.successful ≡ true) × CallsAll true b s.calls
Promise failed b p s = (s.producer ≡ bill b p) × CallsAll false b s.calls
Promise dropped b p s = (s.producer ≡ p) × CallsAll false b s.calls
Promise retried b p s =
    (s.calls ≡ [])
    × (s.batch.attempt_count ≡ b.attempt_count + 1)
    × (s.producer.producer_log_group_size ≡ p.producer_log_group_size)
    × (s.producer.queue ≡ p.queue)
    × (s.producer.log_group_data ≡ p.log_group_data)
    × (s.producer.io_worker ≡ p.io_worker)
    × (s.batch.call_back_list ≡ b.call_back_list)
    × Perm s.producer.retry_queue.batch (s.batch ∷ p.retry_queue.batch)

module _ (pow2 : ℕ → ℤ) (e : SlsError) (clock : ℕ → ℤ) (b : ProducerBatch) (p : Producer) where
  abbrev Kept : Option Sent → Fate → Type 0
  Kept o f = (s : Sent) × (o ≡ some s) × Promise f b p s

  by_fate :
      (closing never again : Bool) {x₁ x₂ x₃ x₄ : Option Sent}
      → Kept x₁ dropped
      → Kept x₂ failed
      → Kept x₃ retried
      → Kept x₄ failed
      → Kept
          (if closing then x₁ else if never then x₂ else if again then x₃ else x₄)
          (if closing then dropped else if never then failed else if again then retried else failed)
  by_fate true never again a b c d = a
  by_fate false true again a b c d = b
  by_fate false false true a b c d = c
  by_fate false false false a b c d = d

  failing_calls :
      (n : ProducerBatch)
      → n.call_back_list ≡ b.call_back_list
      → n.total_data_size ≡ b.total_data_size
      → Promise failed b p (execute_failed_callback n p)
  unfolding execute_failed_callback
  failing_calls n listeners size =
      let (all, kind) = fail_calls-all n.result n.call_back_list in
      (
        ap (λ z. record p { producer_log_group_size = p.producer_log_group_size -ℤ z }) size,
        (all ∙ listeners, kind),
      )

  requeued : Promise retried b p (requeue pow2 (clock 2) (noted e (clock 0) (clock 1) b) p)
  unfolding requeue with_next_retry send_to_retry_queue
  requeued =
      let (listeners, size, count) = noted-keeps e (clock 0) (clock 1) b in
      (refl, count, refl, refl, refl, refl, listeners, push-perm less _ p.retry_queue.batch)

  send-failing :
      Kept (send_to_server pow2 (some (sls_error e)) clock b p) (fate (some (sls_error e)) b p)
  unfolding send_to_server fate
  send-failing =
      let n = noted e (clock 0) (clock 1) b in
      let (listeners, size, count) = noted-keeps e (clock 0) (clock 1) b in
      let is_noted = add_error-noted e (clock 0) (clock 1) b in
      let (r, made, all, kind) =
        shut_down-calls e (clock 0) (λ k. clock (suc k)) b b.call_back_list in
      let finish : ProducerBatch × List Call → Option Sent =
        λ (c, calls). some (record { producer = p; batch = c; calls = calls }) in
      by_fate p.retry_queue_shut_down_flag (not_retried p.producer_config (sls_error e))
        (ltb_ℤ (pos b.attempt_count) b.max_retry_times)
        (
          record { producer = p; batch = r.0; calls = r.1 },
          ap (λ o. o >>= finish) made,
          (refl, (all, kind)),
        )
        (
          execute_failed_callback n p,
          ap (λ o. o >>= λ c. some (execute_failed_callback c p)) is_noted,
          failing_calls n listeners size,
        )
        (
          requeue pow2 (clock 2) n p,
          ap (λ o. o >>= λ c. some (requeue pow2 (clock 2) c p)) is_noted,
          requeued,
        )
        (execute_failed_callback b p, refl, failing_calls b refl refl)

same_size :
    (t : Bool) (a : Attempt) (b : ProducerBatch)
    → (if t then append_attempt a b else b).total_data_size ≡ b.total_data_size
unfolding append_attempt
same_size true a b = refl
same_size false a b = refl

send-succeeding :
    (pow2 : ℕ → ℤ) (clock : ℕ → ℤ) (b : ProducerBatch) (p : Producer)
    → (s : Sent) × (send_to_server pow2 none clock b p ≡ some s) × Promise delivered b p s
unfolding send_to_server
send-succeeding pow2 clock b p =
    let done = succeeded clock b in
    let size =
      same_size (ltb_ℤ (pos b.attempt_count) b.max_reserved_attempts)
        (create_attempt true [] [] [] (clock 1) (clock 1 -ℤ clock 0)) b in
    (
      record {
        producer = bill done p;
        batch = done;
        calls = success_calls done.result b.call_back_list;
      },
      refl,
      (
        ap (λ z. record p { producer_log_group_size = p.producer_log_group_size -ℤ z }) size,
        refl,
        success_calls-all done.result b.call_back_list,
      ),
    )

abbrev pub OwnError : Option Err → Type 0
OwnError none = Unit
OwnError (some foreign) = ⊥
OwnError (some (sls_error e)) = Unit

-- An attempt whose error, if any, is the client's own never panics. Delivered and failed, it takes
-- the batch's size off the counter and calls each callback once, with success and failure; dropped
-- at shutdown, it calls each once with failure and leaves the producer alone; retried, it calls
-- none, counts the attempt and puts the batch with its callbacks, and nothing else, into the retry
-- queue.
pub send_to_server_keeps :
    (pow2 : ℕ → ℤ) (answer : Option Err) (clock : ℕ → ℤ) (b : ProducerBatch) (p : Producer)
    → OwnError answer
    → (s : Sent) × (send_to_server pow2 answer clock b p ≡ some s) × Promise (fate answer b p) b p s
send_to_server_keeps pow2 none clock b p h = unfold fate in send-succeeding pow2 clock b p
send_to_server_keeps pow2 (some foreign) clock b p h = absurd h
send_to_server_keeps pow2 (some (sls_error e)) clock b p h = send-failing pow2 e clock b p
