-- ===== src/Producer/IoWorker.antt =====
-- producer/io_worker.go: one attempt to send a batch, and what follows from the answer.
-- The server's answer and the clock are arguments; `clock k` is the k-th reading in one call.
-- `int64(math.Pow(2, n))` is an argument: it is 2 ^ n below 2 ^ 63, and Go leaves the
-- conversion of larger values to the machine. The request's own fields are the client's.
pub mod Backoff
pub mod Calls
pub mod Outcomes
pub mod Attempts
pub mod Failures
use aliyun_log_go_sdk.Prelude.{
  ℕ, zero, suc, ◌+◌, ◌-◌, ◌%◌, ◌^◌, Option, none, some, List, [], ◌∷◌, ◌++◌, Bool, true, false,
  ◌||◌, Str, ltb, ◌==◌, ◌>>=◌, if◌then◌else◌,
}
use aliyun_log_go_sdk.Prelude.Int.{
  ℤ, pos, negsuc, pos_part, neg_part, sub_ℕ, ◌+ℤ◌, ◌-ℤ◌, ◌*ℤ◌, ltb_ℤ,
}
use aliyun_log_go_sdk.Producer.Config.{ProducerConfig}
use aliyun_log_go_sdk.Producer.Batch.{ProducerBatch}
use aliyun_log_go_sdk.Producer.Result.{Attempt, Result, create_attempt}
use aliyun_log_go_sdk.Producer.RetryQueue.{send_to_retry_queue}
use aliyun_log_go_sdk.Producer.State.{Producer, IoWorker}

-- An error of the client: an *sls.Error of client.go, or one of another type.
pub record SlsError : Type 0 where
  pub http_code : ℤ
  pub code : Str
  pub message : Str
  pub request_id : Str

pub data Err : Type 0 where
  sls_error : SlsError → Err
  foreign : Err

unfoldable pub init_io_worker : IoWorker
init_io_worker = record { task_count = pos 0; retry_queue_shut_down_flag = false; sending = [] }

-- int64 arithmetic wraps.
unfoldable pub to_int64 : ℤ → ℤ
to_int64 z =
    let r = (pos_part z + 2 ^ 64 - neg_part z % 2 ^ 64) % 2 ^ 64 in
    if ltb r (2 ^ 63) then pos r else sub_ℕ r (2 ^ 64)

-- A call of a user's callback, with the result as it is then.
pub data Call : Type 0 where
  success_call : ℕ → Result → Call
  fail_call : ℕ → Result → Call

unfoldable pub append_attempt : Attempt → ProducerBatch → ProducerBatch
append_attempt attempt b = record b {
  result = record (b.result) { attempt_list = b.result.attempt_list ++ attempt ∷ [] };
}

-- `addErrorMessageToBatchAttempt`; `none` is the panic of `err.(*sls.Error)`.
unfoldable pub mark_failed : ProducerBatch → ProducerBatch
mark_failed b = record b {
  result = record (b.result) { successful = false };
  attempt_count = b.attempt_count + 1;
}

unfoldable pub add_error_message_to_batch_attempt :
    Err → ℤ → ℤ → ProducerBatch → Option ProducerBatch
add_error_message_to_batch_attempt err begin_ms now_ms b =
    if ltb_ℤ (pos b.attempt_count) b.max_reserved_attempts
    then elim err [
      | foreign ↦ none
      | sls_error e ↦ some (
          mark_failed (
            append_attempt
              (create_attempt false e.request_id e.code e.message now_ms (now_ms -ℤ begin_ms)) b))
    ]
    else some (mark_failed b)

unfoldable pub fail_calls : Result → List ℕ → List Call
fail_calls result [] = []
fail_calls result (c ∷ cs) = fail_call c result ∷ fail_calls result cs

unfoldable pub success_calls : Result → List ℕ → List Call
success_calls result [] = []
success_calls result (c ∷ cs) = success_call c result ∷ success_calls result cs

-- What one attempt leads to: the producer, the batch as it is left, and the calls made, in order.
pub record Sent : Type 0 where
  pub producer : Producer
  pub batch : ProducerBatch
  pub calls : List Call

abbrev pub bill : ProducerBatch → Producer → Producer
bill b p = record p { producer_log_group_size = p.producer_log_group_size -ℤ b.total_data_size }

-- `excuteFailedCallback`
unfoldable pub execute_failed_callback : ProducerBatch → Producer → Sent
execute_failed_callback b p = record {
  producer = bill b p;
  batch = b;
  calls = fail_calls b.result b.call_back_list;
}

-- The loop at shutdown: the error is noted once for each callback. `clock` is read each time.
unfoldable pub shut_down_calls :
    Err → ℤ → (ℕ → ℤ) → ProducerBatch → List ℕ → Option (ProducerBatch × List Call)
shut_down_calls err begin_ms clock b [] = some (b, [])
shut_down_calls err begin_ms clock b (c ∷ cs) = do
  noted ← add_error_message_to_batch_attempt err begin_ms (clock 0) b
  rest ← shut_down_calls err begin_ms (λ k. clock (suc k)) noted cs
  some (rest.0, fail_call c noted.result ∷ rest.1)

-- `_, ok := noRetryStatusCodeMap[int(slsError.HTTPCode)]`
int_eq : ℤ → ℤ → Bool
int_eq (pos a) (pos b) = a == b
int_eq (negsuc a) (negsuc b) = a == b
int_eq _ _ = false

member_code : ℤ → List ℤ → Bool
unfolding int_eq
member_code code [] = false
member_code code (c ∷ cs) = int_eq code c || member_code code cs

unfoldable pub not_retried : ProducerConfig → Err → Bool
unfolding member_code
not_retried config (sls_error e) = member_code e.http_code config.no_retry_status_code_list
not_retried config foreign = false

abbrev pub succeeded : (ℕ → ℤ) → ProducerBatch → ProducerBatch
succeeded clock b =
    let attempt = create_attempt true [] [] [] (clock 1) (clock 1 -ℤ clock 0) in
    let noted =
      if ltb_ℤ (pos b.attempt_count) b.max_reserved_attempts then append_attempt attempt b else b in
    record noted { result = record (noted.result) { successful = true } }

module _ (pow2 : ℕ → ℤ) where
  -- `attemptCount` counts the attempt that has just failed, so it is not 0.
  unfoldable pub retry_wait_time : ProducerBatch → ℤ
  unfolding to_int64
  retry_wait_time b = to_int64 (b.base_retry_backoff_ms *ℤ pow2 (b.attempt_count - 1))

  unfoldable pub with_next_retry : ℤ → ProducerBatch → ProducerBatch
  with_next_retry now_ms b =
      let wait = retry_wait_time b in
      record b {
        next_retry_ms =
            if ltb_ℤ wait b.max_retry_interval_in_ms
            then now_ms +ℤ wait
            else now_ms +ℤ b.max_retry_interval_in_ms;
      }

  -- The branch of `sendToServer` that hands the batch to the retry queue.
  unfoldable pub requeue : ℤ → ProducerBatch → Producer → Sent
  requeue now_ms b p =
      let queued = with_next_retry now_ms b in
      record {
        producer = record p { retry_queue = send_to_retry_queue (some queued) p.retry_queue };
        batch = queued;
        calls = [];
      }

  -- `sendToServer` after the client's answer, nil being `none`; the result is `none` at a panic.
  unfoldable pub send_to_server : Option Err → (ℕ → ℤ) → ProducerBatch → Producer → Option Sent
  send_to_server none clock b p =
      let done = succeeded clock b in
      some (record {
        producer = bill done p;
        batch = done;
        calls = success_calls done.result b.call_back_list;
      })
  send_to_server (some err) clock b p =
      if p.retry_queue_shut_down_flag
      then (do
        (noted, calls) ← shut_down_calls err (clock 0) (λ k. clock (suc k)) b b.call_back_list
        some (record { producer = p; batch = noted; calls = calls }))
      else if not_retried p.producer_config err
      then (do
        noted ← add_error_message_to_batch_attempt err (clock 0) (clock 1) b
        some (execute_failed_callback noted p))
      else if ltb_ℤ (pos b.attempt_count) b.max_retry_times
      then (do
        noted ← add_error_message_to_batch_attempt err (clock 0) (clock 1) b
        some (requeue (clock 2) noted p))
      else some (execute_failed_callback b p)
