-- ===== src/Producer/System/Closing.antt =====
-- producer/producer.go: the loop in which Close waits.
use mathlib.Core.List.{append-nil}
use aliyun_log_go_sdk.Prelude.{map, ℕ, ◌≡◌, refl, Option, true, [], ◌∷◌}
use aliyun_log_go_sdk.Prelude.Int.{ℤ, pos}
use aliyun_log_go_sdk.LogPb.{Log}
use aliyun_log_go_sdk.Map.{str_eq_instance, lookup, insert}
use aliyun_log_go_sdk.Producer.Config.{ProducerConfig}
use aliyun_log_go_sdk.Producer.Batch.{Env, single, callbacks, init_producer_batch, ProducerBatch}
use aliyun_log_go_sdk.Producer.ThreadPool.{init_io_thread_pool, pop_task, has_task, add_task}
use aliyun_log_go_sdk.Producer.RetryQueue.{init_retry_queue, get_retry_batch, take_all}
use aliyun_log_go_sdk.Producer.IoWorker.{init_io_worker}
use aliyun_log_go_sdk.Producer.Accumulator.{
  Target, get_key_string, create_new_producer_batch, init_log_accumulator, add_by_type, add_data,
}
use aliyun_log_go_sdk.Producer.System.{
  all_done, eq_zero, System, start, init_producer, Entering, moved_all,
}
use aliyun_log_go_sdk.Producer.System.Ledger.{task}
use aliyun_log_go_sdk.Producer.System.Steps.{
  Steps, here, then, enter, accept, leave_loop, empty_map, hand_entry, handed_entries, ask_last,
  take_last, handed_last, pop, stop_mover, stop_accumulator, stop_retries, close_pool,
}

-- Close reads the count of tasks and then looks at the queue. A task that the loop of the thread pool
-- takes from the queue in between is in neither, since it is counted later: for every
-- configuration, target, log and callback there is a run in which the log is accepted, the mover has
-- ended and Close has told the thread pool, the test of Close finds the producer done, so that Close
-- returns no error, and the log's batch is still in the hands of that loop, with no call made.
pub close_returns_early :
    (pow2 : ℕ → ℤ) (config : ProducerConfig) (env : Env) (target : Target) (log : Log)
    (call_back : Option ℕ)
    → (s : System) × (t : System) × Steps pow2 (start config) s
      × Steps pow2 s t
      × (s.mover ≡ moved_all)
      × (s.producer.thread_pool_shut_down_flag ≡ true)
      × (all_done s.producer t.producer ≡ true)
      × (t.accepted_callbacks ≡ callbacks call_back)
      × (t.calls ≡ [])
      × (map ProducerBatch.call_back_list (task t.pool) ≡ callbacks call_back ∷ [])
unfolding start init_producer init_log_accumulator init_io_thread_pool init_retry_queue
    init_io_worker pop_task get_retry_batch take_all add_by_type add_data lookup insert add_task
    create_new_producer_batch init_producer_batch all_done eq_zero has_task
close_returns_early pow2 config env target log call_back =
    let e : Entering = record {
      env = env;
      target = target;
      log_data = single log;
      call_back = call_back;
    } in
    let b =
      (init_producer_batch env (single log) call_back target.project target.logstore
        target.log_topic target.log_source target.shard_hash
        (start config).producer.producer_config).0 in
    let run =
      then
        (then
          (then
            (then
              (then
                (then
                  (then
                    (then
                      (then
                        (then
                          (then (then (then here (enter e refl)) (accept [] [] e _ refl refl refl))
                            (stop_mover))
                          (stop_accumulator refl))
                        (stop_retries refl))
                      (leave_loop refl refl))
                    (empty_map ((get_key_string target, b) ∷ []) refl (refl, tt) (λ k. refl)))
                  (hand_entry _ [] refl))
                (handed_entries refl))
              (ask_last refl))
            (take_last true (λ k. pos 0) [] init_retry_queue refl refl))
          (handed_last refl))
        (close_pool refl refl) in
    (
      _,
      _,
      run,
      then here (pop b _ refl refl),
      refl,
      refl,
      refl,
      append-nil (callbacks call_back),
      refl,
      refl,
    )
