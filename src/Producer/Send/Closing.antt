-- ===== src/Producer/Send/Closing.antt =====
-- producer/producer.go, log_accumulator.go and io_worker.go: a producer that is being closed.
use mathlib.Core.Bool.{true, false}
use aliyun_log_go_sdk.Prelude.{ℕ, ◌≡◌, refl, Option, none, some, List, ◌>>=◌, Bool, Str}
use aliyun_log_go_sdk.Prelude.Int.{ℤ}
use aliyun_log_go_sdk.Producer.Batch.{ProducerBatch, LogData, Env}
use aliyun_log_go_sdk.Producer.State.{Producer, RetryQueue}
use aliyun_log_go_sdk.Producer.Accumulator.{
  Target, Outcome, Refusal, producer_shut_down, accepted, refused, add_log_to_producer_batch,
}
use aliyun_log_go_sdk.Producer.IoWorker.{Err, Call, Sent, send_to_server}
use aliyun_log_go_sdk.Producer.Send.{
  SendOutcome, waiting, timed_out, finished, after_wait, send_data, send_close_prodcer_signal,
}

-- No log was taken in.
abbrev pub IsRejected : SendOutcome → Type 0
IsRejected waiting = Unit {0}
IsRejected timed_out = Unit {0}
IsRejected (finished (accepted p)) = ⊥
IsRejected (finished (refused r)) = Unit {0}

abbrev pub KeepsRetryQueue : RetryQueue → Option Sent → Type 0
KeepsRetryQueue q none = Unit {0}
KeepsRetryQueue q (some s) = s.producer.retry_queue ≡ q

rejected :
    (w : Option Bool) (o : Outcome) (r : Refusal) → o ≡ refused r → IsRejected (after_wait w o)
unfolding after_wait
rejected none o r e = tt
rejected (some false) o r e = tt
rejected (some true) o r e = rw e tt

finished-KeepsRetryQueue :
    (p : Producer) (o : Option (ProducerBatch × List Call))
    → KeepsRetryQueue p.retry_queue
        (o >>= λ (b, calls). some (record { producer = p; batch = b; calls = calls }))
finished-KeepsRetryQueue p none = tt
finished-KeepsRetryQueue p (some (b, calls)) = refl

send-KeepsRetryQueue :
    (pow2 : ℕ → ℤ) (answer : Option Err) (clock : ℕ → ℤ) (b : ProducerBatch) (p : Producer)
    → KeepsRetryQueue p.retry_queue
        (send_to_server pow2 answer clock b (send_close_prodcer_signal p))
unfolding send_to_server send_close_prodcer_signal
send-KeepsRetryQueue pow2 none clock b p = refl
send-KeepsRetryQueue pow2 (some err) clock b p =
    finished-KeepsRetryQueue (send_close_prodcer_signal p) _

-- A call of a Send method that begins when sendCloseProdcerSignal has set its three flags takes no
-- log; and an attempt whose worker reads its flag after that, and fails, does not put its batch
-- into the retry queue, whatever the server and the clock say.
pub closing_stops :
    (md5 : Str → Str) (patience : ℕ) (size : ℕ → ℤ) (env : Env) (t : Target) (pow2 : ℕ → ℤ)
    (answer : Option Err) (clock : ℕ → ℤ) (b : ProducerBatch) (p : Producer)
    → let q = send_close_prodcer_signal p in
      ((hashed : Bool) (log_data : LogData) (call_back : Option ℕ)
        → IsRejected (send_data hashed md5 patience size env t log_data call_back q))
      × KeepsRetryQueue p.retry_queue (send_to_server pow2 answer clock b q)
unfolding send_data send_close_prodcer_signal add_log_to_producer_batch
closing_stops md5 patience size env t pow2 answer clock b p = (
  λ hashed log_data call_back. rejected _ _ producer_shut_down refl,
  send-KeepsRetryQueue pow2 answer clock b p,
)
