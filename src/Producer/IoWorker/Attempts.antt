-- ===== src/Producer/IoWorker/Attempts.antt =====
-- producer/io_worker.go: the attempts that a batch's result keeps.
use mathlib.Core.Bool.{false}
use aliyun_log_go_sdk.Prelude.{
  ℕ, suc, ◌≡◌, ◌≤◌, refl, Option, none, some, List, [], ◌∷◌, Bool, true, arith, if◌then◌else◌,
  length, length-append, ◌>>=◌,
}
use aliyun_log_go_sdk.Prelude.Int.{ℤ, pos, ◌-ℤ◌, ◌≤ℤ◌, ltb_ℤ}
use aliyun_log_go_sdk.Producer.Batch.{ProducerBatch}
use aliyun_log_go_sdk.Producer.Result.{Attempt, Result, create_attempt}
use aliyun_log_go_sdk.Producer.State.{Producer}
use aliyun_log_go_sdk.Producer.IoWorker.{
  SlsError, Err, sls_error, foreign, Call, fail_call, Sent, append_attempt, mark_failed,
  execute_failed_callback, shut_down_calls, not_retried, with_next_retry, requeue, send_to_server,
}
use aliyun_log_go_sdk.Producer.IoWorker.Calls.{noted, add_error-noted}
use aliyun_log_go_sdk.Producer.IoWorker.Outcomes.{OwnError}

-- As many attempts as the counter says at most, and at most the reserved number.
pub record IsReserved (b : ProducerBatch) : Type 0 where
  pub counted : length b.result.attempt_list ≤ b.attempt_count
  pub reserved : pos (length b.result.attempt_list) ≤ℤ b.max_reserved_attempts

-- What is left of it when a batch is done with.
abbrev pub FitsReserve : ProducerBatch → Type 0
FitsReserve b = pos (length b.result.attempt_list) ≤ℤ b.max_reserved_attempts

append_failed :
    (t : Bool) (a : Attempt) (b : ProducerBatch)
    → ltb_ℤ (pos b.attempt_count) b.max_reserved_attempts ≡ t
    → IsReserved b
    → IsReserved (mark_failed (if t then append_attempt a b else b))
unfolding mark_failed append_attempt
append_failed true a b room v =
    let longer = length-append b.result.attempt_list (a ∷ []) in
    record { counted = ground arith; reserved = ground arith }
append_failed false a b full v = record { counted = ground arith; reserved = ground arith }

append_done :
    (t : Bool) (a : Attempt) (b : ProducerBatch)
    → ltb_ℤ (pos b.attempt_count) b.max_reserved_attempts ≡ t
    → IsReserved b
    → FitsReserve (if t then append_attempt a b else b)
unfolding append_attempt
append_done true a b room v =
    let longer = length-append b.result.attempt_list (a ∷ []) in ground arith
append_done false a b full v = v.reserved

noted-IsReserved :
    (e : SlsError) (begin_ms now_ms : ℤ) (b : ProducerBatch)
    → IsReserved b
    → IsReserved (noted e begin_ms now_ms b)
unfolding noted
noted-IsReserved e begin_ms now_ms b v = append_failed _ _ b refl v

abbrev Fits : Option (ProducerBatch × List Call) → Type 0
Fits none = Unit
Fits (some (b, calls)) = IsReserved b

bind-Fits :
    (c : ℕ) (r : Result) (o : Option (ProducerBatch × List Call))
    → Fits o
    → Fits (o >>= λ rest. some (rest.0, fail_call c r ∷ rest.1))
bind-Fits c r none v = v
bind-Fits c r (some (b, calls)) v = v

shut_down-Fits :
    (e : SlsError) (begin_ms : ℤ) (clock : ℕ → ℤ) (b : ProducerBatch) (cs : List ℕ)
    → IsReserved b
    → Fits (shut_down_calls (sls_error e) begin_ms clock b cs)
unfolding shut_down_calls
shut_down-Fits e begin_ms clock b [] v = v
shut_down-Fits e begin_ms clock b (c ∷ cs) v = rw (add_error-noted e begin_ms (clock 0) b) (
    bind-Fits c (noted e begin_ms (clock 0) b).result _ (
      shut_down-Fits e begin_ms (λ k. clock (suc k)) (noted e begin_ms (clock 0) b) cs
        (noted-IsReserved e begin_ms (clock 0) b v)))

abbrev pub SentFits : Option Sent → Type 0
SentFits none = Unit
SentFits (some s) = FitsReserve s.batch

four_ways :
    (P : Option Sent → Type 0) (closing never again : Bool) {x₁ x₂ x₃ x₄ : Option Sent}
    → P x₁
    → P x₂
    → P x₃
    → P x₄
    → P (if closing then x₁ else if never then x₂ else if again then x₃ else x₄)
four_ways P true never again a b c d = a
four_ways P false true again a b c d = b
four_ways P false false true a b c d = c
four_ways P false false false a b c d = d

finish-Fits :
    (p : Producer) (o : Option (ProducerBatch × List Call))
    → Fits o
    → SentFits (o >>= λ (b, calls). some (record { producer = p; batch = b; calls = calls }))
finish-Fits p none v = v
finish-Fits p (some (b, calls)) v = v.reserved

-- An attempt never leaves a batch with more attempts in its result than the reserved number, if
-- the batch had at most that number and at most as many as it has failed.
pub send_to_server_reserve :
    (pow2 : ℕ → ℤ) (answer : Option Err) (clock : ℕ → ℤ) (b : ProducerBatch) (p : Producer)
    → OwnError answer
    → IsReserved b
    → SentFits (send_to_server pow2 answer clock b p)
unfolding send_to_server requeue with_next_retry execute_failed_callback
send_to_server_reserve pow2 none clock b p h v =
    append_done _ (create_attempt true [] [] [] (clock 1) (clock 1 -ℤ clock 0)) b refl v
send_to_server_reserve pow2 (some foreign) clock b p h v = absurd h
send_to_server_reserve pow2 (some (sls_error e)) clock b p h v =
    let n = noted-IsReserved e (clock 0) (clock 1) b v in
    let is_noted = add_error-noted e (clock 0) (clock 1) b in
    four_ways SentFits p.retry_queue_shut_down_flag (not_retried p.producer_config (sls_error e))
      (ltb_ℤ (pos b.attempt_count) b.max_retry_times)
      (finish-Fits p _ (shut_down-Fits e (clock 0) (λ k. clock (suc k)) b b.call_back_list v))
      (rw is_noted n.reserved) (rw is_noted n.reserved) v.reserved
