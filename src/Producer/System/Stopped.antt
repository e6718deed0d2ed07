-- ===== src/Producer/System/Stopped.antt =====
-- producer/: what SafeClose waits for, and a log that comes too late.
use mathlib.Core.List.{append-nil}
use aliyun_log_go_sdk.Prelude.{
  ℕ, ◌+◌, ◌≡◌, refl, sym, ap, ◌∙◌, Option, true, List, [], ◌∷◌, ◌++◌, arith, length, length-append,
}
use aliyun_log_go_sdk.Prelude.Int.{ℤ, pos}
use aliyun_log_go_sdk.LogPb.{Log}
use aliyun_log_go_sdk.Map.{Distinct, str_eq_instance, lookup}
use aliyun_log_go_sdk.Producer.Config.{ProducerConfig}
use aliyun_log_go_sdk.Producer.Batch.{Env, single, callbacks, init_producer_batch}
use aliyun_log_go_sdk.Producer.ThreadPool.{init_io_thread_pool, pop_task}
use aliyun_log_go_sdk.Producer.RetryQueue.{init_retry_queue, get_retry_batch, take_all}
use aliyun_log_go_sdk.Producer.IoWorker.{init_io_worker}
use aliyun_log_go_sdk.Producer.Accumulator.{
  Target, create_new_producer_batch, init_log_accumulator, add_by_type, add_data,
}
use aliyun_log_go_sdk.Producer.Mover.{add_tasks}
use aliyun_log_go_sdk.Producer.System.{
  System, running, start, init_producer, Entering, moved_all, stopped,
}
use aliyun_log_go_sdk.Producer.System.Steps.{
  Step, Steps, here, then, enter, accept, go_on, lock_map, scan, unlock_map, ask, take_retries,
  hand, handed, leave_loop, empty_map, hand_entry, handed_entries, ask_last, take_last, hand_last,
  handed_last, pop, pop_none, count, take_place, launch, sleep, stop, answer, act, call, called_all,
  free_place, close_task, stop_mover, stop_accumulator, stop_retries, close_pool,
}
use aliyun_log_go_sdk.Producer.System.Conserve.{visit-Moves}
use aliyun_log_go_sdk.Producer.System.Accept.{by_type-Frame}
use aliyun_log_go_sdk.Producer.System.Refine.{Step-Refines}
use aliyun_log_go_sdk.Producer.System.Callbacks.{Steps-Balanced}

-- The loop of the thread pool has ended and no worker runs.
abbrev pub IsStopped : System → Type 0
IsStopped s = (s.pool ≡ stopped) × (running s + s.leaving ≡ 0)

not_nothing :
    {A : Type 0} (l before after : List A) (a : A) → l ≡ before ++ a ∷ after → length l ≡ 0 → ⊥
not_nothing l before after a e h =
    absurd (omega (arith, ap length e, length-append before (a ∷ after)))

module _ (pow2 : ℕ → ℤ) (s : System) (d : Distinct s.producer.log_group_data)
    (h : IsStopped s) where
  abbrev Still : System → Type 0
  Still t = IsStopped t × (t.calls ≡ s.calls)

  idle :
      (t : System)
      → t.producer.sending ≡ s.producer.sending
      → t.answered ≡ s.answered
      → t.calling ≡ s.calling
      → t.finishing ≡ s.finishing
      → t.leaving ≡ s.leaving
      → t.pool ≡ s.pool
      → t.calls ≡ s.calls
      → Still t
  idle t sending answered calling finishing leaving place calls =
      let same : running t + t.leaving ≡ running s + s.leaving = λ i.
        length (sending i) + length (answered i) + length (calling i) + finishing i + leaving i in
      ((place ∙ h.0, same ∙ h.1), calls)

  Step-Still : (t : System) → Step pow2 s t → Still t
  Step-Still t (enter e open_still) = idle t refl refl refl refl refl refl refl
  Step-Still t (accept before after e q at_gate free taken) =
      idle t
        (ap (λ w. w.sending)
          (by_type-Frame e.env e.target e.log_data e.call_back s.producer q taken).1)
        refl refl refl refl refl refl
  Step-Still t (scan now_ms seen clock key b at found unseen) =
      idle t
        (ap (λ w. w.sending) (visit-Moves (λ b. 0) now_ms clock key b s.producer d found).worker)
        refl refl refl refl refl refl
  Step-Still t (go_on at running) = idle t refl refl refl refl refl refl refl
  Step-Still t (lock_map now_ms at) = idle t refl refl refl refl refl refl refl
  Step-Still t (unlock_map now_ms seen at all) = idle t refl refl refl refl refl refl refl
  Step-Still t (ask at) = idle t refl refl refl refl refl refl refl
  Step-Still t (take_retries flag clock retries queue at taken) =
      idle t refl refl refl refl refl refl refl
  Step-Still t (hand b bs at) = idle t refl refl refl refl refl refl refl
  Step-Still t (handed at) = idle t refl refl refl refl refl refl refl
  Step-Still t (leave_loop at shut) = idle t refl refl refl refl refl refl refl
  Step-Still t (empty_map entries at de same) = idle t refl refl refl refl refl refl refl
  Step-Still t (hand_entry b bs at) = idle t refl refl refl refl refl refl refl
  Step-Still t (handed_entries at) = idle t refl refl refl refl refl refl refl
  Step-Still t (ask_last at) = idle t refl refl refl refl refl refl refl
  Step-Still t (take_last flag clock retries queue at taken) =
      idle t refl refl refl refl refl refl refl
  Step-Still t (hand_last b bs at) = idle t refl refl refl refl refl refl refl
  Step-Still t (handed_last at) = idle t refl refl refl refl refl refl refl
  Step-Still t stop_mover = idle t refl refl refl refl refl refl refl
  Step-Still t (stop_accumulator before) = idle t refl refl refl refl refl refl refl
  Step-Still t (stop_retries before) = idle t refl refl refl refl refl refl refl
  Step-Still t (close_pool at before) = idle t refl refl refl refl refl refl refl
  Step-Still t (pop b pool at front) = absurd (cc (sym at ∙ h.0))
  Step-Still t (pop_none at empty) = absurd (cc (sym at ∙ h.0))
  Step-Still t (count b at) = absurd (cc (sym at ∙ h.0))
  Step-Still t (take_place b at room) = absurd (cc (sym at ∙ h.0))
  Step-Still t (launch b at) = absurd (cc (sym at ∙ h.0))
  Step-Still t (sleep at going) = absurd (cc (sym at ∙ h.0))
  Step-Still t (stop at shut) = absurd (cc (sym at ∙ h.0))
  Step-Still t (answer before after b given at own) =
      absurd (not_nothing s.producer.sending before after b at (omega (arith, h.1)))
  Step-Still t (act before after a clock sent at own made) =
      absurd (not_nothing s.answered before after a at (omega (arith, h.1)))
  Step-Still t (call before after c cs at) =
      absurd (not_nothing s.calling before after (c ∷ cs) at (omega (arith, h.1)))
  Step-Still t (called_all before after at) =
      absurd (not_nothing s.calling before after [] at (omega (arith, h.1)))
  Step-Still t (free_place n at) = absurd (omega (arith, h.1))
  Step-Still t (close_task n at) = absurd (omega (arith, h.1))

-- Once the loop of the thread pool has ended and no worker runs, no callback is called any more.
pub Steps-IsStopped :
    (pow2 : ℕ → ℤ) (config : ProducerConfig) (s t : System)
    → Steps pow2 (start config) s
    → IsStopped s
    → Steps pow2 s t
    → IsStopped t × (t.calls ≡ s.calls)
Steps-IsStopped pow2 config s t run h later =
    let (still, d) = after s (Steps-Balanced pow2 config s run).1 h t later in still
  where
    after :
        (s : System)
        → Distinct s.producer.log_group_data
        → IsStopped s
        → (t : System) → Steps pow2 s t
        → (IsStopped t × (t.calls ≡ s.calls)) × Distinct t.producer.log_group_data
    after s d h t here = ((h, refl), d)
    after s d h t (then {t = u} first step) =
        let ((is_stopped, calls), d') = after s d h u first in
        let (still, same) = Step-Still pow2 u d' is_stopped t step in
        ((still, same ∙ calls), (Step-Refines pow2 u d' t step).1)

-- A log may pass the test of the shutdown flag before SafeClose sets it, and be taken in when the
-- mover has emptied the map: for every configuration, target, log and callback there is a run in
-- which the call returns no error, the mover and the thread pool have ended and no worker runs,
-- all that SafeClose waits for, and the callback is never called, however the run goes on.
pub late_log_lost :
    (pow2 : ℕ → ℤ) (config : ProducerConfig) (env : Env) (target : Target) (log : Log)
    (call_back : Option ℕ)
    → (s : System) × Steps pow2 (start config) s
      × (s.accepted_callbacks ≡ callbacks call_back)
      × (s.mover ≡ moved_all)
      × IsStopped s
      × ((t : System) → Steps pow2 s t → t.calls ≡ [])
unfolding start init_producer init_log_accumulator init_io_thread_pool init_retry_queue
    init_io_worker pop_task get_retry_batch take_all add_by_type add_data lookup add_tasks
    create_new_producer_batch init_producer_batch
late_log_lost pow2 config env target log call_back =
    let e : Entering = record {
      env = env;
      target = target;
      log_data = single log;
      call_back = call_back;
    } in
    let run =
      then
        (then
          (then
            (then
              (then
                (then
                  (then
                    (then
                      (then
                        (then
                          (then
                            (then (then (then here (enter e refl)) (stop_mover))
                              (stop_accumulator refl))
                            (stop_retries refl))
                          (leave_loop refl refl))
                        (empty_map [] refl tt (λ k. refl)))
                      (handed_entries refl))
                    (ask_last refl))
                  (take_last true (λ k. pos 0) [] init_retry_queue refl refl))
                (handed_last refl))
              (close_pool refl refl))
            (pop_none refl refl))
          (stop refl refl))
        (accept [] [] e _ refl refl refl) in
    (
      _,
      run,
      append-nil (callbacks call_back),
      refl,
      (refl, refl),
      λ t later. (Steps-IsStopped pow2 config _ t run (refl, refl) later).1,
    )
