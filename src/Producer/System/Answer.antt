-- ===== src/Producer/System/Answer.antt =====
-- producer/io_worker.go: a worker that acts on an answer calls the batch's callbacks, or leaves
-- them to the retry queue.
use aliyun_log_go_sdk.Prelude.{ℕ, ◌+◌, ◌≡◌, ap, subst, Option, some, arith, map}
use aliyun_log_go_sdk.Prelude.Int.{ℤ}
use aliyun_log_go_sdk.Producer.Batch.{ProducerBatch}
use aliyun_log_go_sdk.Producer.State.{Producer}
use aliyun_log_go_sdk.Producer.IoWorker.{Err, Sent, send_to_server}
use aliyun_log_go_sdk.Producer.IoWorker.Calls.{caller}
use aliyun_log_go_sdk.Producer.IoWorker.Outcomes.{
  Fate, delivered, dropped, failed, retried, fate, Promise, OwnError, send_to_server_keeps,
}
use aliyun_log_go_sdk.Producer.System.Weight.{weight, weight-perm}
use aliyun_log_go_sdk.Producer.System.Accept.{times, listens}

-- What is done with the callbacks of the batch, and what stays as it is.
pub record Acts (c : ℕ) (b : ProducerBatch) (p : Producer) (s : Sent) : Type 0 where
  pub settled :
      weight (listens c) s.producer.retry_queue.batch + times c (map caller s.calls)
      ≡ weight (listens c) p.retry_queue.batch + listens c b
  pub queued : s.producer.queue ≡ p.queue
  pub mapped : s.producer.log_group_data ≡ p.log_group_data
  pub worker : s.producer.io_worker ≡ p.io_worker

-- An attempt that calls the callbacks and bills the batch, or not even that.
calling-Acts :
    (c : ℕ) (b : ProducerBatch) (p : Producer) (s : Sent) (size : ℤ)
    → s.producer ≡ (record p { producer_log_group_size = size })
    → map caller s.calls ≡ b.call_back_list
    → Acts c b p s
calling-Acts c b p s size same all = record {
  settled =
      omega (
        arith,
        ap (times c) all,
        ap (λ (q : Producer). weight (listens c) q.retry_queue.batch) same,
      );
  queued = ap (λ (q : Producer). q.queue) same;
  mapped = ap (λ (q : Producer). q.log_group_data) same;
  worker = ap (λ (q : Producer). q.io_worker) same;
}

Promise-Acts :
    (c : ℕ) (f : Fate) (b : ProducerBatch) (p : Producer) (s : Sent)
    → Promise f b p s
    → Acts c b p s
Promise-Acts c delivered b p s (same, successful, (all, kind)) = calling-Acts c b p s _ same all
Promise-Acts c failed b p s (same, (all, kind)) = calling-Acts c b p s _ same all
Promise-Acts c dropped b p s (same, (all, kind)) =
    calling-Acts c b p s p.producer_log_group_size same all
Promise-Acts c retried b p s (silent, counted, size, queue, entries, worker, listeners, kept) =
    record {
      settled = omega (
        arith,
        ap (λ calls. times c (map caller calls)) silent,
        ap (times c) listeners,
        weight-perm (listens c) kept,
      );
      queued = queue;
      mapped = entries;
      worker = worker;
    }

pub send-Acts :
    (c : ℕ) (pow2 : ℕ → ℤ) (answer : Option Err) (clock : ℕ → ℤ) (b : ProducerBatch) (p : Producer)
    (s : Sent)
    → OwnError answer
    → send_to_server pow2 answer clock b p ≡ some s
    → Acts c b p s
send-Acts c pow2 answer clock b p s own e =
    let (t, is_t, promise) = send_to_server_keeps pow2 answer clock b p own in
    let same : t ≡ s = cc in
    subst (Acts c b p) same (Promise-Acts c (fate answer b p) b p t promise)
