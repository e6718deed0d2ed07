-- ===== src/Consumer/Tasks/Status.antt =====
-- consumer/shard_worker.go: the states of a shard's worker and the order they come in.
use mathlib.Core.Bool.{true, false}
use aliyun_log_go_sdk.Prelude.{
  ◌≡◌, ◌≢◌, refl, sym, ◌∙◌, subst, some, List, ◌∷◌, Bool, if◌then◌else◌,
}
use aliyun_log_go_sdk.LogPb.{LogGroup}
use aliyun_log_go_sdk.Consumer.Config.{LogHubConfig}
use aliyun_log_go_sdk.Consumer.ShardWorker.{
  ConsumerStatus, initializing, pulling, processing, shutting_down, shutdown_complete,
  ShardConsumerWorker, is_shutting_down, update_status, next_status,
}
use aliyun_log_go_sdk.Consumer.Tasks.{TaskEnv, consume, run_task}

-- The moves of the state machine.
pub data Move : ConsumerStatus → ConsumerStatus → Type 0 where
  stay : (s : ConsumerStatus) → Move s s
  started : Move initializing pulling
  got_logs : Move pulling processing
  processed : Move processing pulling
  stop_initializing : Move initializing shutting_down
  stop_pulling : Move pulling shutting_down
  stop_processing : Move processing shutting_down
  completed : Move shutting_down shutdown_complete

-- A worker in its processing state holds log groups, at least one.
abbrev pub HasWork : ShardConsumerWorker → Type 0
HasWork w =
    w.consumer_status ≡ processing
    → (g : LogGroup) × ((gs : List LogGroup) × (w.last_fetch_log_group_list ≡ some (g ∷ gs)))

-- The steps of one worker, in any order the goroutines take.
pub data Step (o : LogHubConfig) : ShardConsumerWorker → ShardConsumerWorker → Type 0 where
  start : (w : ShardConsumerWorker) → (consume w).0 ≡ true → Step o w (consume w).1
  finish :
      (w : ShardConsumerWorker) (env : TaskEnv)
      → w.is_current_done ≡ false
      → Step o w (run_task o env w)
  tell : (w : ShardConsumerWorker) → Step o w (record w { shutdown_flag = true })

abbrev pub Work : ShardConsumerWorker → Type 0
Work w = (g : LogGroup) × ((gs : List LogGroup) × (w.last_fetch_log_group_list ≡ some (g ∷ gs)))

abbrev pub new_status : ConsumerStatus → Bool → Bool → ConsumerStatus
new_status s told ok =
    if is_shutting_down s
    then (if ok then shutdown_complete else s)
    else if told
    then shutting_down
    else if ok
    then next_status s
    else s

new_status-Move :
    (s : ConsumerStatus) (told ok : Bool) → s ≢ shutdown_complete → Move s (new_status s told ok)
unfolding next_status
new_status-Move initializing true ok h = stop_initializing
new_status-Move initializing false true h = started
new_status-Move initializing false false h = stay initializing
new_status-Move pulling true ok h = stop_pulling
new_status-Move pulling false true h = got_logs
new_status-Move pulling false false h = stay pulling
new_status-Move processing true ok h = stop_processing
new_status-Move processing false true h = processed
new_status-Move processing false false h = stay processing
new_status-Move shutting_down told true h = completed
new_status-Move shutting_down told false h = stay shutting_down
new_status-Move shutdown_complete told ok h = absurd (h refl)

new_status-processing :
    (W : Type 0) (s : ConsumerStatus) (told ok : Bool)
    → (s ≡ pulling → ok ≡ true → W)
    → (s ≡ processing → ok ≡ false → W)
    → new_status s told ok ≡ processing
    → W
unfolding next_status
new_status-processing W initializing true ok p q e = absurd cc
new_status-processing W initializing false true p q e = absurd cc
new_status-processing W initializing false false p q e = absurd cc
new_status-processing W pulling true ok p q e = absurd cc
new_status-processing W pulling false true p q e = p refl refl
new_status-processing W pulling false false p q e = absurd cc
new_status-processing W processing true ok p q e = absurd cc
new_status-processing W processing false true p q e = absurd cc
new_status-processing W processing false false p q e = q refl refl
new_status-processing W shutting_down told true p q e = absurd cc
new_status-processing W shutting_down told false p q e = absurd cc
new_status-processing W shutdown_complete true ok p q e = absurd cc
new_status-processing W shutdown_complete false true p q e = absurd cc
new_status-processing W shutdown_complete false false p q e = absurd cc

-- What one task is to leave behind, from the status `s`.
abbrev pub Fine : ConsumerStatus → ShardConsumerWorker → Type 0
Fine s v = Move s v.consumer_status × HasWork v × (v.is_current_done ≡ true)

-- The end of every task.
pub update-Fine :
    (s : ConsumerStatus) (ok : Bool) (d : ShardConsumerWorker)
    → d.consumer_status ≡ s
    → s ≢ shutdown_complete
    → (s ≡ pulling → ok ≡ true → Work d)
    → (s ≡ processing → ok ≡ false → Work d)
    → Fine s (update_status ok d)
unfolding update_status
update-Fine s ok d e h p q = (
  subst (λ t. Move s (new_status t d.shutdown_flag ok)) (sym e)
      (new_status-Move s d.shutdown_flag ok h),
  λ now.
      new_status-processing (Work d) d.consumer_status d.shutdown_flag ok (λ f. p (sym e ∙ f))
        (λ f. q (sym e ∙ f)) now,
  refl,
)
