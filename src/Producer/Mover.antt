-- ===== src/Producer/Mover.antt =====
-- producer/mover.go: the goroutine that moves batches to the thread pool when their time is up.
-- The round of the loop and what follows the loop are one function each. Go ranges over a map in
-- any order, so the entries come as an argument, in the order they are visited.
pub mod Drain
pub mod Rounds
use aliyun_log_go_sdk.Prelude.{
  ℕ, suc, Option, none, some, List, [], ◌∷◌, Bool, true, false, Str, if◌then◌else◌,
}
use aliyun_log_go_sdk.Prelude.Int.{ℤ, pos, ◌+ℤ◌, ◌-ℤ◌, ltb_ℤ}
use aliyun_log_go_sdk.Map.{str_eq_instance, lookup, delete}
use aliyun_log_go_sdk.Producer.Config.{leb_ℤ}
use aliyun_log_go_sdk.Producer.Batch.{ProducerBatch}
use aliyun_log_go_sdk.Producer.RetryQueue.{get_retry_batch}
use aliyun_log_go_sdk.Producer.State.{Producer}
use aliyun_log_go_sdk.Producer.ThreadPool.{add_task}
use aliyun_log_go_sdk.Producer.Accumulator.{set_data}

-- The mover's own `sendToServer`.
unfoldable pub mover_send_to_server : ℤ → Str → ProducerBatch → Producer → Producer
mover_send_to_server now_ms key batch p = elim (lookup key p.log_group_data) [
  | none ↦ p
  | some value ↦
      if ltb_ℤ (now_ms -ℤ value.create_time_ms) p.producer_config.linger_ms
      then p
      else (record (set_data (delete key p.log_group_data) p) {
        thread_pool = add_task batch p.thread_pool;
      })
]

-- The loop over the map. `clock` is read once for each batch whose time is up.
unfoldable pub scan_map : ℤ → (ℕ → ℤ) → List (Str × ProducerBatch) → ℤ → Producer → ℤ × Producer
scan_map now_ms clock [] sleep_ms p = (sleep_ms, p)
scan_map now_ms clock ((key, batch) ∷ entries) sleep_ms p =
    let time_interval = batch.create_time_ms +ℤ p.producer_config.linger_ms -ℤ now_ms in
    elim (leb_ℤ time_interval (pos 0)) [
      | true ↦
          scan_map now_ms (λ k. clock (suc k)) entries sleep_ms
            (mover_send_to_server (clock 0) key batch p)
      | false ↦
          scan_map now_ms clock entries
            (if ltb_ℤ time_interval sleep_ms then time_interval else sleep_ms) p
    ]

unfoldable pub add_tasks : List ProducerBatch → Producer → Producer
add_tasks [] p = p
add_tasks (b ∷ bs) p = add_tasks bs (record p { thread_pool = add_task b p.thread_pool })

abbrev pub entries_values : List (Str × ProducerBatch) → List ProducerBatch
entries_values [] = []
entries_values ((key, batch) ∷ entries) = batch ∷ entries_values entries

-- With no batch in the map the mover sleeps for the whole of the linger time.
abbrev sleep_for : List (Str × ProducerBatch) → ℤ → ℤ → ℤ
sleep_for [] linger_ms sleep_ms = linger_ms
sleep_for (e ∷ entries) linger_ms sleep_ms = sleep_ms

-- With nothing to retry the mover sleeps, for so many milliseconds.
abbrev sleep_unless : List ProducerBatch → ℤ → Option ℤ
sleep_unless [] sleep_ms = some sleep_ms
sleep_unless (b ∷ bs) sleep_ms = none

-- One round of the loop of `run`; the flag is what its second reading gives.
unfoldable pub run_round :
    (ℕ → ℤ) → (ℕ → ℤ) → List (Str × ProducerBatch) → Bool → Producer → Option ℤ × Producer
run_round clock retry_clock entries mover_shut_down_flag p =
    let (sleep_ms, moved) =
      scan_map (clock 0) (λ k. clock (suc k)) entries p.producer_config.linger_ms p in
    let (retries, queue) = get_retry_batch mover_shut_down_flag retry_clock moved.retry_queue in
    (
      sleep_unless retries (sleep_for entries p.producer_config.linger_ms sleep_ms),
      add_tasks retries (record moved { retry_queue = queue }),
    )

-- What `run` does after its loop; its flag is set then.
unfoldable pub run_end : (ℕ → ℤ) → List (Str × ProducerBatch) → Producer → Producer
run_end retry_clock entries p =
    let emptied = set_data [] (add_tasks (entries_values entries) p) in
    let (retries, queue) = get_retry_batch true retry_clock emptied.retry_queue in
    add_tasks retries (record emptied { retry_queue = queue })
