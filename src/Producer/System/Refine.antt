-- ===== src/Producer/System/Refine.antt =====
-- producer/: every step of the running producer is a step of its ledger.
use aliyun_log_go_sdk.Prelude.{ℕ, refl, ap, arith}
use aliyun_log_go_sdk.Prelude.Int.{ℤ}
use aliyun_log_go_sdk.Map.{Distinct, str_eq_instance}
use aliyun_log_go_sdk.Producer.Batch.{ProducerBatch}
use aliyun_log_go_sdk.Producer.State.{IoWorker, RetryQueue}
use aliyun_log_go_sdk.Producer.ThreadPool.{add_task, pop_task-queue}
use aliyun_log_go_sdk.Producer.System.{System}
use aliyun_log_go_sdk.Producer.System.Steps.{
  Step, enter, accept, go_on, lock_map, scan, unlock_map, ask, take_retries, hand, handed,
  leave_loop, empty_map, hand_entry, handed_entries, ask_last, take_last, hand_last, handed_last,
  pop, pop_none, count, take_place, launch, sleep, stop, answer, act, call, called_all, free_place,
  close_task, stop_mover, stop_accumulator, stop_retries, close_pool,
}
use aliyun_log_go_sdk.Producer.System.Weight.{weight}
use aliyun_log_go_sdk.Producer.System.Conserve.{weight-push, visit-Moves}
use aliyun_log_go_sdk.Producer.System.Ledger.{in_hand, task, total, ledger}
use aliyun_log_go_sdk.Producer.System.Changes.{
  Refines, quiet, weight-out, taken-weight, accept-Refines, empty_map-Refines, act-Refines,
}
use aliyun_log_go_sdk.Producer.System.Calling.{call-Refines, called_all-Refines}

module _ (pow2 : ℕ → ℤ) (s : System) (d : Distinct s.producer.log_group_data) where
  -- Every step of a producer whose map has one entry a key is a step of its ledger: calls that are
  -- asked for become due, calls that are made were due, no step does both, and all other steps
  -- leave the three counts of each callback as they are. The map keeps one entry a key.
  pub Step-Refines : (t : System) → Step pow2 s t → Refines s t
  unfolding total add_task ledger
  Step-Refines t (enter e open_still) = (quiet s t (λ w. refl) refl refl refl, d)
  Step-Refines t (accept before after e q at_gate free taken) =
      accept-Refines s d before after e q at_gate taken
  Step-Refines t (go_on at running) =
      (quiet s t (λ w. omega (arith, ap (λ m. weight w (in_hand m)) at)) refl refl refl, d)
  Step-Refines t (lock_map now_ms at) =
      (quiet s t (λ w. omega (arith, ap (λ m. weight w (in_hand m)) at)) refl refl refl, d)
  Step-Refines t (scan now_ms seen clock key b at found unseen) =
      let moves : (w : ProducerBatch → ℕ) → _ =
        λ w. visit-Moves w now_ms clock key b s.producer d found in
      (
        quiet s t
            (λ w. omega (
              arith,
              (moves w).total,
              ap (λ (r : RetryQueue). weight w r.batch) (moves w).retries,
              ap (λ (r : IoWorker). weight w r.sending) (moves w).worker,
              ap (λ m. weight w (in_hand m)) at,
            ))
            refl refl refl,
        (moves (λ b. 0)).distinct,
      )
  Step-Refines t (unlock_map now_ms seen at all) =
      (quiet s t (λ w. omega (arith, ap (λ m. weight w (in_hand m)) at)) refl refl refl, d)
  Step-Refines t (ask at) =
      (quiet s t (λ w. omega (arith, ap (λ m. weight w (in_hand m)) at)) refl refl refl, d)
  Step-Refines t (take_retries flag clock retries queue at taken) = (
    quiet s t
        (λ w. omega (
          arith,
          ap (λ m. weight w (in_hand m)) at,
          taken-weight w flag clock retries s.producer.retry_queue queue taken,
        ))
        refl refl refl,
    d,
  )
  Step-Refines t (hand b bs at) = (
    quiet s t
        (λ w. omega (arith, ap (λ m. weight w (in_hand m)) at, weight-push w s.producer.queue b))
        refl refl refl,
    d,
  )
  Step-Refines t (handed at) =
      (quiet s t (λ w. omega (arith, ap (λ m. weight w (in_hand m)) at)) refl refl refl, d)
  Step-Refines t (leave_loop at shut) =
      (quiet s t (λ w. omega (arith, ap (λ m. weight w (in_hand m)) at)) refl refl refl, d)
  Step-Refines t (empty_map entries at de same) = empty_map-Refines s d entries at de same
  Step-Refines t (hand_entry b bs at) = (
    quiet s t
        (λ w. omega (arith, ap (λ m. weight w (in_hand m)) at, weight-push w s.producer.queue b))
        refl refl refl,
    d,
  )
  Step-Refines t (handed_entries at) =
      (quiet s t (λ w. omega (arith, ap (λ m. weight w (in_hand m)) at)) refl refl refl, d)
  Step-Refines t (ask_last at) =
      (quiet s t (λ w. omega (arith, ap (λ m. weight w (in_hand m)) at)) refl refl refl, d)
  Step-Refines t (take_last flag clock retries queue at taken) = (
    quiet s t
        (λ w. omega (
          arith,
          ap (λ m. weight w (in_hand m)) at,
          taken-weight w flag clock retries s.producer.retry_queue queue taken,
        ))
        refl refl refl,
    d,
  )
  Step-Refines t (hand_last b bs at) = (
    quiet s t
        (λ w. omega (arith, ap (λ m. weight w (in_hand m)) at, weight-push w s.producer.queue b))
        refl refl refl,
    d,
  )
  Step-Refines t (handed_last at) =
      (quiet s t (λ w. omega (arith, ap (λ m. weight w (in_hand m)) at)) refl refl refl, d)
  Step-Refines t (pop b pool at front) = (
    quiet s t
        (λ w. omega (
          arith,
          ap (λ m. weight w (task m)) at,
          ap (weight w) (pop_task-queue s.producer.thread_pool pool b front),
        ))
        refl refl refl,
    d,
  )
  Step-Refines t (pop_none at empty) =
      (quiet s t (λ w. omega (arith, ap (λ m. weight w (task m)) at)) refl refl refl, d)
  Step-Refines t (count b at) =
      (quiet s t (λ w. omega (arith, ap (λ m. weight w (task m)) at)) refl refl refl, d)
  Step-Refines t (take_place b at room) =
      (quiet s t (λ w. omega (arith, ap (λ m. weight w (task m)) at)) refl refl refl, d)
  Step-Refines t (launch b at) =
      (quiet s t (λ w. omega (arith, ap (λ m. weight w (task m)) at)) refl refl refl, d)
  Step-Refines t (sleep at going) =
      (quiet s t (λ w. omega (arith, ap (λ m. weight w (task m)) at)) refl refl refl, d)
  Step-Refines t (stop at shut) =
      (quiet s t (λ w. omega (arith, ap (λ m. weight w (task m)) at)) refl refl refl, d)
  Step-Refines t (answer before after b given at own) = (
    quiet s t (λ w. omega (arith, ap (weight w) at, weight-out w before after b)) refl refl refl,
    d,
  )
  Step-Refines t (act before after a clock sent at own made) =
      act-Refines pow2 s d before after a clock sent at own made
  Step-Refines t (call before after c cs at) = call-Refines s d before after c cs at
  Step-Refines t (called_all before after at) = called_all-Refines s d before after at
  Step-Refines t (free_place n at) = (quiet s t (λ w. refl) refl refl refl, d)
  Step-Refines t (close_task n at) = (quiet s t (λ w. refl) refl refl refl, d)
  Step-Refines t stop_mover = (quiet s t (λ w. refl) refl refl refl, d)
  Step-Refines t (stop_accumulator before) = (quiet s t (λ w. refl) refl refl refl, d)
  Step-Refines t (stop_retries before) = (quiet s t (λ w. refl) refl refl refl, d)
  Step-Refines t (close_pool at before) = (quiet s t (λ w. refl) refl refl refl, d)
