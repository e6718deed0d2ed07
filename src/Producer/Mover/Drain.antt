-- ===== src/Producer/Mover/Drain.antt =====
-- producer/mover.go: closing the producer leaves no batch behind in the map or the retry queue.
use mathlib.Core.Bool.{true}
use mathlib.Core.List.{Perm, append-nil, append_assoc}
use aliyun_log_go_sdk.Prelude.{ℕ, ◌≡◌, refl, sym, subst, ◌∙◌, ap, List, [], ◌∷◌, ◌++◌, Str}
use aliyun_log_go_sdk.Prelude.Int.{ℤ}
use aliyun_log_go_sdk.Producer.Batch.{ProducerBatch}
use aliyun_log_go_sdk.Producer.State.{Producer}
use aliyun_log_go_sdk.Producer.ThreadPool.{add_task}
use aliyun_log_go_sdk.Producer.RetryQueue.{get_retry_batch}
use aliyun_log_go_sdk.Producer.RetryQueue.Due.{get_retry_batch_drains}
use aliyun_log_go_sdk.Producer.Mover.{add_tasks, entries_values, run_end}

-- Adding tasks puts them behind those that wait, in order, and changes nothing else.
pub add_tasks-queue :
    (bs : List ProducerBatch) (p : Producer) → (add_tasks bs p).queue ≡ p.queue ++ bs
unfolding add_tasks add_task
add_tasks-queue [] p = sym (append-nil p.queue)
add_tasks-queue (b ∷ bs) p = add_tasks-queue bs _ ∙ append_assoc p.queue (b ∷ []) bs

pub add_tasks-data :
    (bs : List ProducerBatch) (p : Producer) → (add_tasks bs p).log_group_data ≡ p.log_group_data
unfolding add_tasks
add_tasks-data [] p = refl
add_tasks-data (b ∷ bs) p = add_tasks-data bs _

pub add_tasks-retry :
    (bs : List ProducerBatch) (p : Producer) → (add_tasks bs p).retry_queue ≡ p.retry_queue
unfolding add_tasks
add_tasks-retry [] p = refl
add_tasks-retry (b ∷ bs) p = add_tasks-retry bs _

pub add_tasks-worker :
    (bs : List ProducerBatch) (p : Producer) → (add_tasks bs p).io_worker ≡ p.io_worker
unfolding add_tasks
add_tasks-worker [] p = refl
add_tasks-worker (b ∷ bs) p = add_tasks-worker bs _

-- Nothing of the map or of the retry queue is left, and what the loop had not sent waits in the
-- thread pool behind the tasks there: the map's batches as they are visited, then the others.
pub run_end_drains :
    (retry_clock : ℕ → ℤ) (entries : List (Str × ProducerBatch)) (p : Producer)
    → let q = run_end retry_clock entries p in
      (q.log_group_data ≡ [])
      × (q.retry_queue.batch ≡ [])
      × ((retries : List ProducerBatch) × Perm retries p.retry_queue.batch
          × (q.queue ≡ p.queue ++ (entries_values entries ++ retries)))
unfolding run_end
run_end_drains retry_clock entries p =
    let moved = add_tasks (entries_values entries) p in
    let (kept, empty) = get_retry_batch_drains retry_clock moved.retry_queue in
    let retries = (get_retry_batch true retry_clock moved.retry_queue).0 in
    (
      add_tasks-data retries _,
      ap (λ r. r.batch) (add_tasks-retry retries _) ∙ empty,
      (
        retries,
        subst (λ r. Perm retries r.batch) (add_tasks-retry (entries_values entries) p) kept,
        add_tasks-queue retries _
            ∙ ap (λ r. r ++ retries) (add_tasks-queue (entries_values entries) p)
            ∙ append_assoc p.queue (entries_values entries) retries,
      ),
    )
