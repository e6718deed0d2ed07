-- ===== src/Producer/RetryQueue.antt =====
-- producer/retry_queue.go: batches that wait for their next attempt, the earliest first.
pub mod Due
use aliyun_log_go_sdk.Prelude.{
  ℕ, zero, suc, ◌+◌, ◌-◌, Option, none, some, List, [], ◌∷◌, ◌++◌, Bool, true, false, if◌then◌else◌,
  length,
}
use aliyun_log_go_sdk.Prelude.Int.{ℤ, ltb_ℤ}
use aliyun_log_go_sdk.Heap
use aliyun_log_go_sdk.Producer.Batch.{ProducerBatch}
use aliyun_log_go_sdk.Producer.State.{RetryQueue}

-- `Less`, on the two entries
unfoldable pub less : ProducerBatch → ProducerBatch → Bool
less a b = ltb_ℤ a.next_retry_ms b.next_retry_ms

-- `heap.Init` of an empty slice makes no move.
unfoldable pub init_retry_queue : RetryQueue
init_retry_queue = record { batch = [] }

-- `none` is a nil batch.
unfoldable pub send_to_retry_queue : Option ProducerBatch → RetryQueue → RetryQueue
send_to_retry_queue none q = q
send_to_retry_queue (some b) q = record q { batch = Heap.push less b q.batch }

-- The loop while the mover runs: due batches are taken until one is not due, which goes back.
-- The clock is read once a round; the length of the slice bounds the rounds.
unfoldable pub take_due : ℕ → (ℕ → ℤ) → List ProducerBatch → List ProducerBatch × List ProducerBatch
take_due zero clock h = ([], h)
take_due (suc fuel) clock h = elim (Heap.pop less h) [
  | none ↦ ([], h)
  | some (b, rest) ↦
      let (due, left) = take_due fuel (λ k. clock (suc k)) rest in
      elim (ltb_ℤ b.next_retry_ms (clock 0)) [
        | true ↦ (b ∷ due, left)
        | false ↦ ([], Heap.push less b rest)
      ]
]

-- The loop at shutdown takes every batch.
unfoldable pub take_all : ℕ → List ProducerBatch → List ProducerBatch × List ProducerBatch
take_all zero h = ([], h)
take_all (suc fuel) h = elim (Heap.pop less h) [
  | none ↦ ([], h)
  | some (b, rest) ↦ let (all, left) = take_all fuel rest in (b ∷ all, left)
]

unfoldable pub get_retry_batch : Bool → (ℕ → ℤ) → RetryQueue → List ProducerBatch × RetryQueue
get_retry_batch mover_shut_down_flag clock q =
    let (taken, left) =
      if mover_shut_down_flag
      then take_all (length q.batch) q.batch
      else take_due (length q.batch) clock q.batch in
    (taken, record q { batch = left })
