-- ===== src/Producer/SystemTests.antt =====
-- producer/: a run of a producer: one log is taken in, moved to the thread pool at closing,
-- and delivered by a worker.
use mathlib.Core.Bool.{true, false}
use aliyun_log_go_sdk.Prelude.{
  Str, List, str_eq, length, ℕ, ◌+◌, ◌^◌, ◌≡◌, refl, none, some, [], ◌∷◌, map,
}
use aliyun_log_go_sdk.Prelude.Int.{ℤ, pos, ◌+ℤ◌, ◌-ℤ◌, ◌≤ℤ◌}
use aliyun_log_go_sdk.Map.{str_eq_instance, lookup, insert, delete}
use aliyun_log_go_sdk.Producer.Config.{
  ProducerConfig, get_default_producer_config, validate_producer_config,
}
use aliyun_log_go_sdk.Producer.Batch.{single, init_producer_batch, ProducerBatch}
use aliyun_log_go_sdk.Producer.ThreadPool.{init_io_thread_pool, add_task, pop_task}
use aliyun_log_go_sdk.Producer.RetryQueue.{init_retry_queue, get_retry_batch, take_all, take_due}
use aliyun_log_go_sdk.Producer.IoWorker.{init_io_worker, send_to_server, success_calls}
use aliyun_log_go_sdk.Producer.IoWorker.Calls.{caller}
use aliyun_log_go_sdk.Producer.Accumulator.{
  get_key_string, create_new_producer_batch, init_log_accumulator, add_by_type, add_data,
}
use aliyun_log_go_sdk.Producer.Mover.{scan_map, mover_send_to_server}
use aliyun_log_go_sdk.Producer.Send.{shut_mover}
use aliyun_log_go_sdk.Producer.System.{
  is_seen, System, running, start, init_producer, all_done, Entering, moved_all,
}
use aliyun_log_go_sdk.Producer.System.Steps.{
  Steps, here, then, enter, accept, go_on, lock_map, scan, unlock_map, ask, take_retries, handed,
  leave_loop, empty_map, hand_entry, handed_entries, ask_last, take_last, handed_last, pop, count,
  take_place, launch, answer, act, call, stop_mover, stop_accumulator, stop_retries,
}
use aliyun_log_go_sdk.Producer.System.Ledger.{total, owed, task}
use aliyun_log_go_sdk.Producer.System.Accept.{times, listens}
use aliyun_log_go_sdk.Producer.System.Changes.{Refines}
use aliyun_log_go_sdk.Producer.System.Refine.{Step-Refines}
use aliyun_log_go_sdk.Producer.System.Callbacks.{callbacks_called_once}
use aliyun_log_go_sdk.Producer.System.Workers.{waiting, reserved, workers_counted}
use aliyun_log_go_sdk.Producer.System.Stopped.{IsStopped, late_log_lost}
use aliyun_log_go_sdk.Producer.System.Closing.{close_returns_early}
use aliyun_log_go_sdk.Producer.Tests.{env, target, idle, log_of}

abbrev pow2 : ℕ → ℤ
pow2 n = pos (2 ^ n)

abbrev config : ProducerConfig
config = idle.producer_config

abbrev one_log : Entering
one_log = record { env = env; target = target; log_data = single (log_of 1); call_back = some 7 }

abbrev Run : Type 0
Run = (s : System) × Steps pow2 (start config) s

taken_in : Run
unfolding start init_producer validate_producer_config init_log_accumulator init_io_thread_pool
    init_retry_queue init_io_worker add_by_type add_data lookup create_new_producer_batch
    init_producer_batch get_retry_batch take_all add_task pop_task send_to_server
    get_default_producer_config insert
taken_in = (_, then (then here (enter one_log refl)) (accept [] [] one_log _ refl refl refl))

drained : Run
unfolding taken_in start init_producer validate_producer_config init_log_accumulator
    init_io_thread_pool init_retry_queue init_io_worker add_by_type add_data lookup
    create_new_producer_batch init_producer_batch get_retry_batch take_all add_task pop_task
    send_to_server get_default_producer_config insert
drained = (
  _,
  then
      (then
        (then
          (then
            (then
              (then
                (then
                  (then
                    (then
                      (then (then (then taken_in.1 (stop_mover)) (stop_accumulator refl))
                        (stop_retries refl))
                      (leave_loop refl refl))
                    (empty_map taken_in.0.producer.log_group_data refl (refl, tt) (λ k. refl)))
                  (hand_entry _ [] refl))
                (handed_entries refl))
              (ask_last refl))
            (take_last true (λ k. pos 0) [] init_retry_queue refl refl))
          (handed_last refl))
        (pop _ _ refl refl))
      (count _ refl),
)

delivered_run : Run
unfolding success_calls taken_in drained start init_producer validate_producer_config
    init_log_accumulator init_io_thread_pool init_retry_queue init_io_worker add_by_type add_data
    lookup create_new_producer_batch init_producer_batch get_retry_batch take_all add_task pop_task
    send_to_server get_default_producer_config insert
delivered_run = (
  _,
  then
      (then
        (then (then (then drained.1 (take_place _ refl refl)) (launch _ refl))
          (answer [] [] _ none refl tt))
        (act [] [] _ (λ k. pos 2000) _ refl tt refl))
      (call [] [] _ [] refl),
)

found_nowhere :
    (key : Str) (b : ProducerBatch) (seen : List Str)
    → lookup key [] ≡ some b
    → is_seen key seen ≡ true
unfolding lookup
found_nowhere key b seen found = cc

-- While the mover runs, it moves the batch when its linger time is over.
scanned_run : Run
unfolding take_due ◌-ℤ◌ ◌+ℤ◌ get_key_string str_eq taken_in start init_producer
    validate_producer_config init_log_accumulator init_io_thread_pool init_retry_queue
    init_io_worker add_by_type add_data lookup create_new_producer_batch init_producer_batch
    get_retry_batch take_all add_task pop_task send_to_server get_default_producer_config insert
    scan_map mover_send_to_server delete
scanned_run = (
  _,
  then
      (then
        (then
          (then
            (then (then (then taken_in.1 (go_on refl refl)) (lock_map (pos 90000) refl))
              (scan (pos 90000) [] (λ k. pos 90000) (get_key_string target) _ refl refl refl))
            (unlock_map (pos 90000) (get_key_string target ∷ []) refl
              (λ key b found. found_nowhere key b (get_key_string target ∷ []) found)))
          (ask refl))
        (take_retries false (λ k. pos 90000) [] init_retry_queue refl refl))
      (handed refl),
)

scanned_once : length scanned_run.0.producer.queue ≡ 1
unfolding take_due ◌-ℤ◌ ◌+ℤ◌ get_key_string str_eq scanned_run taken_in start init_producer
    validate_producer_config init_log_accumulator init_io_thread_pool init_retry_queue
    init_io_worker add_by_type add_data lookup create_new_producer_batch init_producer_batch
    get_retry_batch take_all add_task pop_task send_to_server get_default_producer_config insert
    scan_map mover_send_to_server delete
scanned_once = refl

callbacks_called_once_example :
    let s = delivered_run.0 in
    times 7 s.accepted_callbacks
    ≡ times 7 (map caller s.calls) + (total (listens 7) s + owed 7 s.calling)
callbacks_called_once_example = callbacks_called_once pow2 config delivered_run.0 7 delivered_run.1

Step-Refines_example :
    Refines taken_in.0 (record (taken_in.0) { producer = shut_mover taken_in.0.producer })
unfolding taken_in start init_producer validate_producer_config init_log_accumulator
    init_io_thread_pool init_retry_queue init_io_worker add_by_type add_data lookup
    create_new_producer_batch init_producer_batch get_retry_batch take_all add_task pop_task
    send_to_server get_default_producer_config insert
Step-Refines_example = Step-Refines pow2 taken_in.0 (refl, tt) _ stop_mover

workers_counted_example :
    let s = drained.0 in
    (pos (running s + reserved s.pool) ≤ℤ s.max_io_worker)
    × (s.producer.task_count ≡ pos (running s + s.leaving + waiting s.pool))
workers_counted_example = workers_counted pow2 config drained.0 drained.1

close_returns_early_example :
    (s : System) × (t : System) × Steps pow2 (start config) s
    × Steps pow2 s t
    × (s.mover ≡ moved_all)
    × (s.producer.thread_pool_shut_down_flag ≡ true)
    × (all_done s.producer t.producer ≡ true)
    × (t.accepted_callbacks ≡ 7 ∷ [])
    × (t.calls ≡ [])
    × (map ProducerBatch.call_back_list (task t.pool) ≡ (7 ∷ []) ∷ [])
close_returns_early_example = close_returns_early pow2 config env target (log_of 1) (some 7)

late_log_lost_example :
    (s : System) × Steps pow2 (start config) s
    × (s.accepted_callbacks ≡ 7 ∷ [])
    × (s.mover ≡ moved_all)
    × IsStopped s
    × ((t : System) → Steps pow2 s t → t.calls ≡ [])
late_log_lost_example = late_log_lost pow2 config env target (log_of 1) (some 7)
