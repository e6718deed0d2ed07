-- ===== src/Producer/System/Workers.antt =====
-- producer/io_thread_pool.go and io_worker.go: how many workers there are, and the count that
-- Close waits for.
use aliyun_log_go_sdk.Prelude.{
  ℕ, suc, ◌+◌, ◌≡◌, refl, sym, ap, subst, ◌∙◌, List, [], ◌∷◌, ◌++◌, arith, length, length-append,
}
use aliyun_log_go_sdk.Prelude.Int.{ℤ, pos, ◌≤ℤ◌, int_laws, parts}
use aliyun_log_go_sdk.Producer.Config.{ProducerConfig}
use aliyun_log_go_sdk.Producer.State.{IoWorker}
use aliyun_log_go_sdk.Map.{Distinct, str_eq_instance}
use aliyun_log_go_sdk.Producer.Config.Valid.{validate_producer_config-IsValid}
use aliyun_log_go_sdk.Producer.IoWorker.{init_io_worker}
use aliyun_log_go_sdk.Producer.System.Conserve.{visit-Moves}
use aliyun_log_go_sdk.Producer.State.{Producer}
use aliyun_log_go_sdk.Producer.IoWorker.{Call}
use aliyun_log_go_sdk.Producer.System.Accept.{by_type-Frame}
use aliyun_log_go_sdk.Producer.System.Answer.{send-Acts}
use aliyun_log_go_sdk.Producer.System.Callbacks.{Steps-Balanced}
use aliyun_log_go_sdk.Producer.System.{
  System, running, start, init_producer, as_read, Answered, PoolPc, counted, placed,
}
use aliyun_log_go_sdk.Producer.System.Steps.{
  Step, Steps, here, then, enter, accept, go_on, lock_map, scan, unlock_map, ask, take_retries,
  hand, handed, leave_loop, empty_map, hand_entry, handed_entries, ask_last, take_last, hand_last,
  handed_last, pop, pop_none, count, take_place, launch, sleep, stop, answer, act, call, called_all,
  free_place, close_task, stop_mover, stop_accumulator, stop_retries, close_pool,
}

-- The task that is counted and has no worker yet.
abbrev pub waiting : PoolPc → ℕ
waiting (counted b) = 1
waiting (placed b) = 1
waiting _ = 0

-- The place that the loop of the thread pool has taken for it.
abbrev pub reserved : PoolPc → ℕ
reserved (placed b) = 1
reserved _ = 0

pub record Staffed (s : System) : Type 0 where
  pub counts : s.producer.task_count ≡ pos (running s + s.leaving + waiting s.pool)
  pub bounded : pos (running s + reserved s.pool) ≤ℤ s.max_io_worker

-- A step after which the same workers are there.
same_staff :
    (s t : System)
    → t.producer.task_count ≡ s.producer.task_count
    → running t ≡ running s
    → t.leaving ≡ s.leaving
    → waiting t.pool ≡ waiting s.pool
    → reserved t.pool ≡ reserved s.pool
    → t.max_io_worker ≡ s.max_io_worker
    → Staffed s
    → Staffed t
same_staff s t tasks workers leaving place room capacity h = record {
  counts = tasks ∙ h.counts ∙ λ i. pos (sym workers i + sym leaving i + sym place i);
  bounded =
      subst (λ z. pos (running t + reserved t.pool) ≤ℤ z) (sym capacity) (omega (arith, h.bounded));
}

one_out :
    {A : Type 0} (before after : List A) (a : A)
    → length (before ++ a ∷ after) ≡ suc (length (before ++ after))
one_out before after a = omega (arith, length-append before (a ∷ after), length-append before after)

module _ (pow2 : ℕ → ℤ) (s : System) (d : Distinct s.producer.log_group_data) (h : Staffed s) where
  unmoved :
      (t : System)
      → t.producer.io_worker ≡ s.producer.io_worker
      → t.answered ≡ s.answered
      → t.calling ≡ s.calling
      → t.finishing ≡ s.finishing
      → t.leaving ≡ s.leaving
      → t.pool ≡ s.pool
      → t.max_io_worker ≡ s.max_io_worker
      → Staffed t
  unmoved t io answered calling finishing leaving place capacity =
      same_staff s t (ap (λ w. w.task_count) io)
        (λ i.
          length (IoWorker.sending (io i)) + length (answered i) + length (calling i) + finishing i)
        leaving (ap waiting place) (ap reserved place) capacity h

  -- The loop of the thread pool goes on, with no task in `startSendTask`.
  repooled :
      {m : PoolPc} (q : Producer)
      → q.io_worker ≡ s.producer.io_worker
      → waiting m ≡ waiting s.pool
      → reserved m ≡ reserved s.pool
      → Staffed (record s { producer = q; pool = m })
  repooled q io place room =
      same_staff s _ (ap (λ w. w.task_count) io)
        (λ i. length (IoWorker.sending (io i)) + length s.answered + length s.calling + s.finishing)
        refl place room refl h

  pub Step-Staffed : (t : System) → Step pow2 s t → Staffed t
  Step-Staffed t (enter e open_still) = unmoved t refl refl refl refl refl refl refl
  Step-Staffed t (accept before after e q at_gate free taken) =
      unmoved t (by_type-Frame e.env e.target e.log_data e.call_back s.producer q taken).1 refl refl
        refl refl refl refl
  Step-Staffed t (scan now_ms seen clock key b at found unseen) =
      unmoved t (visit-Moves (λ b. 0) now_ms clock key b s.producer d found).worker refl refl refl
        refl refl refl
  Step-Staffed t (go_on at running) = unmoved t refl refl refl refl refl refl refl
  Step-Staffed t (lock_map now_ms at) = unmoved t refl refl refl refl refl refl refl
  Step-Staffed t (unlock_map now_ms seen at all) = unmoved t refl refl refl refl refl refl refl
  Step-Staffed t (ask at) = unmoved t refl refl refl refl refl refl refl
  Step-Staffed t (take_retries flag clock retries queue at taken) =
      unmoved t refl refl refl refl refl refl refl
  Step-Staffed t (hand b bs at) = unmoved t refl refl refl refl refl refl refl
  Step-Staffed t (handed at) = unmoved t refl refl refl refl refl refl refl
  Step-Staffed t (leave_loop at shut) = unmoved t refl refl refl refl refl refl refl
  Step-Staffed t (empty_map entries at de same) = unmoved t refl refl refl refl refl refl refl
  Step-Staffed t (hand_entry b bs at) = unmoved t refl refl refl refl refl refl refl
  Step-Staffed t (handed_entries at) = unmoved t refl refl refl refl refl refl refl
  Step-Staffed t (ask_last at) = unmoved t refl refl refl refl refl refl refl
  Step-Staffed t (take_last flag clock retries queue at taken) =
      unmoved t refl refl refl refl refl refl refl
  Step-Staffed t (hand_last b bs at) = unmoved t refl refl refl refl refl refl refl
  Step-Staffed t (handed_last at) = unmoved t refl refl refl refl refl refl refl
  Step-Staffed t (pop b pool at front) =
      repooled (record (s.producer) { thread_pool = pool }) refl (sym (ap waiting at))
        (sym (ap reserved at))
  Step-Staffed t (pop_none at empty) =
      repooled s.producer refl (sym (ap waiting at)) (sym (ap reserved at))
  Step-Staffed t (count b at) = record {
    counts = omega (int_laws, parts h.counts, ap waiting at);
    bounded = omega (arith, h.bounded, ap reserved at);
  }
  Step-Staffed t (take_place b at room) = record {
    counts = omega (int_laws, parts h.counts, ap waiting at);
    bounded = ground arith;
  }
  Step-Staffed t (launch b at) = record {
    counts = omega (int_laws, parts h.counts, ap waiting at);
    bounded = omega (arith, h.bounded, ap reserved at);
  }
  Step-Staffed t (sleep at going) =
      repooled s.producer refl (sym (ap waiting at)) (sym (ap reserved at))
  Step-Staffed t (stop at shut) =
      repooled s.producer refl (sym (ap waiting at)) (sym (ap reserved at))
  Step-Staffed t (answer before after b given at own) =
      same_staff s t refl (omega (arith, one_out before after b, ap length at)) refl refl refl refl
        h
  Step-Staffed t (act before after a clock sent at own made) =
      let io =
        (send-Acts 0 pow2 a.answer clock a.batch (as_read a.shut_down s.producer) sent own
          made).worker in
      same_staff s t (ap (λ w. w.task_count) io)
        (omega (
          arith,
          ap (λ (w : IoWorker). length w.sending) io,
          one_out before after a,
          ap (λ (l : List Answered). length l) at,
        ))
        refl refl refl refl h
  Step-Staffed t (call before after c cs at) =
      same_staff s t refl
        (omega (
          arith,
          one_out before after (c ∷ cs),
          one_out before after cs,
          ap (λ (l : List (List Call)). length l) at,
        ))
        refl refl refl refl h
  Step-Staffed t (called_all before after at) =
      same_staff s t refl
        (omega (arith, one_out before after [], ap (λ (l : List (List Call)). length l) at)) refl
        refl refl refl h
  Step-Staffed t (free_place n at) = record {
    counts = omega (int_laws, parts h.counts, at);
    bounded = omega (arith, h.bounded, at);
  }
  Step-Staffed t (close_task n at) = record {
    counts = omega (int_laws, parts h.counts, at);
    bounded = h.bounded;
  }
  Step-Staffed t stop_mover = same_staff s t refl refl refl refl refl refl h
  Step-Staffed t (stop_accumulator before) = same_staff s t refl refl refl refl refl refl h
  Step-Staffed t (stop_retries before) = same_staff s t refl refl refl refl refl refl h
  Step-Staffed t (close_pool at before) = unmoved t refl refl refl refl refl refl refl

Steps-Staffed :
    (pow2 : ℕ → ℤ) (config : ProducerConfig) (s : System) → Steps pow2 (start config) s → Staffed s
unfolding start init_producer init_io_worker
Steps-Staffed pow2 config s here = record {
  counts = refl;
  bounded = omega (arith, (validate_producer_config-IsValid config).workers);
}
Steps-Staffed pow2 config s (then {t} run step) =
    Step-Staffed pow2 t (Steps-Balanced pow2 config t run).1 (Steps-Staffed pow2 config t run) s
      step

-- In every state that a new producer comes to there are at most as many workers, with the one that
-- the loop of the thread pool has a place for, as the channel has places; and `taskCount` is the
-- number of the workers, of those that have given up their place in `closeSendTask` and not counted
-- down yet, and of the task that is counted and has no worker yet.
pub workers_counted :
    (pow2 : ℕ → ℤ) (config : ProducerConfig) (s : System)
    → Steps pow2 (start config) s
    → (pos (running s + reserved s.pool) ≤ℤ s.max_io_worker)
      × (s.producer.task_count ≡ pos (running s + s.leaving + waiting s.pool))
workers_counted pow2 config s run =
    let staff = Steps-Staffed pow2 config s run in (staff.bounded, staff.counts)
