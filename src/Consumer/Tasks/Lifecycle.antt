-- ===== src/Consumer/Tasks/Lifecycle.antt =====
-- consumer/shard_worker.go, consumer/tasks.go: every task moves a worker along its state machine.
use mathlib.Core.Bool.{true, false}
use aliyun_log_go_sdk.Prelude.{ℕ, ◌≡◌, ◌≢◌, refl, List, Bool, if◌then◌else◌}
use aliyun_log_go_sdk.Prelude.Int.{ℤ}
use aliyun_log_go_sdk.Consumer.Config.{LogHubConfig}
use aliyun_log_go_sdk.Consumer.ShardWorker.{
  ConsumerStatus, initializing, pulling, processing, shutting_down, shutdown_complete,
  ShardConsumerWorker, init_shard_consumer_worker,
}
use aliyun_log_go_sdk.Consumer.Tasks.{consume}
use aliyun_log_go_sdk.Consumer.Tasks.Endings.{run-Fine}
use aliyun_log_go_sdk.Consumer.Tasks.Status.{Move, stay, HasWork, Step, start, finish, tell}

-- A running worker is not done, and one that processes has logs.
abbrev pub IsConsistent : ShardConsumerWorker → Type 0
IsConsistent w = (w.is_current_done ≡ false → w.consumer_status ≢ shutdown_complete) × HasWork w

-- A task is started only when none runs, and never once the worker has completed its shutdown.
abbrev Begun : ShardConsumerWorker → Type 0
Begun w =
    ((consume w).1 ≡ record w { is_current_done = false })
    × (w.is_current_done ≡ true)
    × (w.consumer_status ≢ shutdown_complete)

abbrev chosen : Bool → ConsumerStatus → ShardConsumerWorker → Bool × ShardConsumerWorker
chosen done s w =
    if done
    then elim s [
      | shutdown_complete ↦ (false, w)
      | _ ↦ (true, record w { is_current_done = false })
    ]
    else (false, w)

chosen-cases :
    (done : Bool) (s : ConsumerStatus) (w : ShardConsumerWorker)
    → (chosen done s w).0 ≡ true
    → ((chosen done s w).1 ≡ record w { is_current_done = false })
      × (done ≡ true)
      × (s ≢ shutdown_complete)
chosen-cases false s w h = absurd cc
chosen-cases true initializing w h = (refl, refl, λ f. cc)
chosen-cases true pulling w h = (refl, refl, λ f. cc)
chosen-cases true processing w h = (refl, refl, λ f. cc)
chosen-cases true shutting_down w h = (refl, refl, λ f. cc)
chosen-cases true shutdown_complete w h = absurd cc

consume-Begun : (w : ShardConsumerWorker) → (consume w).0 ≡ true → Begun w
unfolding consume
consume-Begun w h = chosen-cases w.is_current_done w.consumer_status w h

Step-IsConsistent :
    (o : LogHubConfig) (w v : ShardConsumerWorker)
    → Step o w v
    → IsConsistent w
    → Move w.consumer_status v.consumer_status × IsConsistent v
Step-IsConsistent o _ _ (start w begins) (alive, work) =
    let (same, idle, ready) = consume-Begun w begins in
    rw same (stay w.consumer_status, (λ f. ready, work))
Step-IsConsistent o _ _ (finish w env runs) (alive, work) =
    let (move, still, done) = run-Fine o env w.consumer_status w refl (alive runs) work in
    (move, (λ f. absurd (cc), still))
Step-IsConsistent o _ _ (tell w) (alive, work) = (stay w.consumer_status, (alive, work))

-- What a worker can come to from another.
pub data Reach (o : LogHubConfig) : ShardConsumerWorker → ShardConsumerWorker → Type 0 where
  here : (w : ShardConsumerWorker) → Reach o w w
  there : (u w v : ShardConsumerWorker) → Reach o u w → Step o w v → Reach o u v

Reach-IsConsistent :
    (o : LogHubConfig) (u v : ShardConsumerWorker) → Reach o u v → IsConsistent u → IsConsistent v
Reach-IsConsistent o _ _ (here w) c = c
Reach-IsConsistent o _ _ (there u w v before last) c =
    (Step-IsConsistent o w v last (Reach-IsConsistent o u w before c)).1

-- From a new worker on, whatever the server and the processor answer and whenever shutdown is
-- asked for, every step keeps the status or makes one of the seven moves of the state machine,
-- and a worker in its processing state holds at least one log group.
pub shard_worker_lifecycle :
    (o : LogHubConfig) (zero_time now : ℤ) (shard_id : ℕ) (heart_shards : List ℕ)
    (w v : ShardConsumerWorker)
    → Reach o (init_shard_consumer_worker zero_time now shard_id heart_shards) w
    → Step o w v
    → Move w.consumer_status v.consumer_status × HasWork v
unfolding init_shard_consumer_worker
shard_worker_lifecycle o zero_time now shard_id heart_shards w v before last =
    let (move, (alive, work)) =
      Step-IsConsistent o w v last
        (Reach-IsConsistent o _ w before ((λ f. absurd cc), (λ f. absurd cc))) in
    (move, work)
