-- ===== src/Producer/ThreadPool.antt =====
-- producer/io_thread_pool.go: a queue of batches to send, first in first out.
use aliyun_log_go_sdk.Prelude.{
  ◌≡◌, ap, Option, none, some, List, [], ◌∷◌, ◌++◌, Bool, false, ltb, length,
}
use aliyun_log_go_sdk.Producer.Batch.{ProducerBatch}
use aliyun_log_go_sdk.Producer.State.{IoThreadPool}

unfoldable pub init_io_thread_pool : IoThreadPool
init_io_thread_pool = record { queue = []; thread_pool_shut_down_flag = false }

unfoldable pub add_task : ProducerBatch → IoThreadPool → IoThreadPool
add_task batch pool = record pool { queue = pool.queue ++ batch ∷ [] }

-- `popTask`: `none` is the nil of an empty queue.
pop_front : List ProducerBatch → IoThreadPool → Option ProducerBatch × IoThreadPool
pop_front [] pool = (none, pool)
pop_front (ele ∷ rest) pool = (some ele, record pool { queue = rest })

unfoldable pub pop_task : IoThreadPool → Option ProducerBatch × IoThreadPool
unfolding pop_front
pop_task pool = pop_front pool.queue pool

pop_front-queue :
    (q : List ProducerBatch) (pool pool' : IoThreadPool) (b : ProducerBatch)
    → pop_front q pool ≡ (some b, pool')
    → q ≡ b ∷ pool'.queue
unfolding pop_front
pop_front-queue [] pool pool' b e = cc (ap (λ t. t.0) e)
pop_front-queue (ele ∷ rest) pool pool' b e =
    let front : ele ≡ b = cc (ap (λ t. t.0) e) in λ i. front i ∷ ap (λ t. t.1.queue) e i

pub pop_task-queue :
    (pool pool' : IoThreadPool) (b : ProducerBatch)
    → pop_task pool ≡ (some b, pool')
    → pool.queue ≡ b ∷ pool'.queue
unfolding pop_task
pop_task-queue pool pool' b e = pop_front-queue pool.queue pool pool' b e

unfoldable pub has_task : IoThreadPool → Bool
has_task pool = ltb 0 (length pool.queue)
