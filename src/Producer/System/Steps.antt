-- ===== src/Producer/System/Steps.antt =====
-- producer/: the steps of the goroutines, and the runs that they make up.
use aliyun_log_go_sdk.Prelude.{
  ℕ, ◌+◌, ◌≡◌, Option, none, some, Bool, List, [], ◌∷◌, ◌++◌, true, false, Str,
}
use aliyun_log_go_sdk.Prelude.Int.{ℤ, pos, ltb_ℤ}
use aliyun_log_go_sdk.Map.{Distinct, str_eq_instance, lookup}
use aliyun_log_go_sdk.Producer.Batch.{ProducerBatch, callbacks}
use aliyun_log_go_sdk.Producer.State.{Producer, RetryQueue, IoThreadPool}
use aliyun_log_go_sdk.Producer.ThreadPool.{add_task, pop_task}
use aliyun_log_go_sdk.Producer.Accumulator.{accepted, add_by_type, set_data}
use aliyun_log_go_sdk.Producer.IoWorker.{Err, Call, Sent, send_to_server}
use aliyun_log_go_sdk.Producer.IoWorker.Outcomes.{OwnError}
use aliyun_log_go_sdk.Producer.RetryQueue.{get_retry_batch}
use aliyun_log_go_sdk.Producer.Mover.{entries_values}
use aliyun_log_go_sdk.Producer.Send.{shut_mover, shut_accumulator, shut_retries}
use aliyun_log_go_sdk.Producer.System.Weight.{SameMap}
use aliyun_log_go_sdk.Producer.System.{
  Entering, looping, going, scanning, scanned, asking, handing, ending, emptying, emptied,
  asking_last, handing_last, moved_all, locked, is_seen, visit, popping, found_empty, popped,
  counted, placed, stopped, Answered, System, running, start_send_task, close_send_task, as_read,
  set_sending,
}

-- `pow2` stands for the floating point power, as in io_worker.go. An error of the client that is
-- not its own type panics, and ends the program, while attempts are still written down: a worker
-- is given errors of the client's own type here.
module _ (pow2 : ℕ → ℤ) (s : System) where
  abbrev p : Producer
  p = s.producer

  pub data Step : System → Type 0 where
    -- log_accumulator.go
    enter :
        (e : Entering) → p.shut_down_flag ≡ false → Step (record s { entering = e ∷ s.entering })
    accept :
        (before after : List Entering) (e : Entering) (q : Producer)
        → s.entering ≡ before ++ e ∷ after
        → locked s.mover ≡ false
        → add_by_type e.env e.target e.log_data e.call_back p ≡ accepted q
        → Step (record s {
          producer = q;
          entering = before ++ after;
          accepted_callbacks = callbacks e.call_back ++ s.accepted_callbacks;
        })
    -- mover.go
    go_on : s.mover ≡ looping → p.mover_shut_down_flag ≡ false → Step (record s { mover = going })
    lock_map : (now_ms : ℤ) → s.mover ≡ going → Step (record s { mover = scanning now_ms [] })
    scan :
        (now_ms : ℤ) (seen : List Str) (clock : ℕ → ℤ) (key : Str) (b : ProducerBatch)
        → s.mover ≡ scanning now_ms seen
        → lookup key p.log_group_data ≡ some b
        → is_seen key seen ≡ false
        → Step (record s {
          producer = visit now_ms clock key b p;
          mover = scanning now_ms (key ∷ seen);
        })
    unlock_map :
        (now_ms : ℤ) (seen : List Str)
        → s.mover ≡ scanning now_ms seen
        → ((key : Str) (b : ProducerBatch)
            → lookup key p.log_group_data ≡ some b
            → is_seen key seen ≡ true)
        → Step (record s { mover = scanned })
    ask : s.mover ≡ scanned → Step (record s { mover = asking p.mover_shut_down_flag })
    take_retries :
        (flag : Bool) (clock : ℕ → ℤ) (retries : List ProducerBatch) (queue : RetryQueue)
        → s.mover ≡ asking flag
        → get_retry_batch flag clock p.retry_queue ≡ (retries, queue)
        → Step (record s { producer = record p { retry_queue = queue }; mover = handing retries })
    hand :
        (b : ProducerBatch) (bs : List ProducerBatch)
        → s.mover ≡ handing (b ∷ bs)
        → Step (record s {
          producer = record p { thread_pool = add_task b p.thread_pool };
          mover = handing bs;
        })
    handed : s.mover ≡ handing [] → Step (record s { mover = looping })
    leave_loop :
        s.mover ≡ looping → p.mover_shut_down_flag ≡ true → Step (record s { mover = ending })
    -- The map is reset after its batches are handed over, under the same lock.
    empty_map :
        (entries : List (Str × ProducerBatch))
        → s.mover ≡ ending
        → Distinct entries
        → SameMap entries p.log_group_data
        → Step (record s { producer = set_data [] p; mover = emptying (entries_values entries) })
    hand_entry :
        (b : ProducerBatch) (bs : List ProducerBatch)
        → s.mover ≡ emptying (b ∷ bs)
        → Step (record s {
          producer = record p { thread_pool = add_task b p.thread_pool };
          mover = emptying bs;
        })
    handed_entries : s.mover ≡ emptying [] → Step (record s { mover = emptied })
    ask_last : s.mover ≡ emptied → Step (record s { mover = asking_last p.mover_shut_down_flag })
    take_last :
        (flag : Bool) (clock : ℕ → ℤ) (retries : List ProducerBatch) (queue : RetryQueue)
        → s.mover ≡ asking_last flag
        → get_retry_batch flag clock p.retry_queue ≡ (retries, queue)
        → Step
            (record s { producer = record p { retry_queue = queue }; mover = handing_last retries })
    hand_last :
        (b : ProducerBatch) (bs : List ProducerBatch)
        → s.mover ≡ handing_last (b ∷ bs)
        → Step (record s {
          producer = record p { thread_pool = add_task b p.thread_pool };
          mover = handing_last bs;
        })
    handed_last : s.mover ≡ handing_last [] → Step (record s { mover = moved_all })
    -- io_thread_pool.go
    pop :
        (b : ProducerBatch) (pool : IoThreadPool)
        → s.pool ≡ popping
        → pop_task p.thread_pool ≡ (some b, pool)
        → Step (record s { producer = record p { thread_pool = pool }; pool = popped b })
    pop_none :
        s.pool ≡ popping
        → (pop_task p.thread_pool).0 ≡ none
        → Step (record s { pool = found_empty })
    count :
        (b : ProducerBatch)
        → s.pool ≡ popped b
        → Step (record s { producer = start_send_task p; pool = counted b })
    take_place :
        (b : ProducerBatch)
        → s.pool ≡ counted b
        → ltb_ℤ (pos (running s)) s.max_io_worker ≡ true
        → Step (record s { pool = placed b })
    launch :
        (b : ProducerBatch)
        → s.pool ≡ placed b
        → Step (record s { producer = set_sending (b ∷ p.sending) p; pool = popping })
    sleep :
        s.pool ≡ found_empty
        → p.thread_pool_shut_down_flag ≡ false
        → Step (record s { pool = popping })
    stop :
        s.pool ≡ found_empty
        → p.thread_pool_shut_down_flag ≡ true
        → Step (record s { pool = stopped })
    -- io_worker.go
    answer :
        (before after : List ProducerBatch) (b : ProducerBatch) (answer : Option Err)
        → p.sending ≡ before ++ b ∷ after
        → OwnError answer
        → Step (record s {
          producer = set_sending (before ++ after) p;
          answered =
              record { answer = answer; shut_down = p.retry_queue_shut_down_flag; batch = b }
              ∷ s.answered;
        })
    act :
        (before after : List Answered) (a : Answered) (clock : ℕ → ℤ) (sent : Sent)
        → s.answered ≡ before ++ a ∷ after
        → OwnError a.answer
        → send_to_server pow2 a.answer clock a.batch (as_read a.shut_down p) ≡ some sent
        → Step (record s {
          producer = as_read p.retry_queue_shut_down_flag sent.producer;
          answered = before ++ after;
          calling = sent.calls ∷ s.calling;
        })
    call :
        (before after : List (List Call)) (c : Call) (cs : List Call)
        → s.calling ≡ before ++ (c ∷ cs) ∷ after
        → Step (record s { calling = before ++ cs ∷ after; calls = s.calls ++ c ∷ [] })
    called_all :
        (before after : List (List Call))
        → s.calling ≡ before ++ [] ∷ after
        → Step (record s { calling = before ++ after; finishing = s.finishing + 1 })
    free_place :
        (n : ℕ) → s.finishing ≡ n + 1 → Step (record s { finishing = n; leaving = s.leaving + 1 })
    close_task :
        (n : ℕ) → s.leaving ≡ n + 1 → Step (record s { producer = close_send_task p; leaving = n })
    -- producer.go: the three stores of `sendCloseProdcerSignal`, in their order
    stop_mover : Step (record s { producer = shut_mover p })
    stop_accumulator :
        p.mover_shut_down_flag ≡ true → Step (record s { producer = shut_accumulator p })
    stop_retries : p.shut_down_flag ≡ true → Step (record s { producer = shut_retries p })
    close_pool :
        s.mover ≡ moved_all
        → p.retry_queue_shut_down_flag ≡ true
        → Step (record s {
          producer = record p {
            thread_pool = record (p.thread_pool) { thread_pool_shut_down_flag = true };
          };
        })

-- The states that a run comes to.
pub data Steps (pow2 : ℕ → ℤ) (s : System) : System → Type 0 where
  here : Steps pow2 s s
  then : {t u : System} → Steps pow2 s t → Step pow2 t u → Steps pow2 s u
