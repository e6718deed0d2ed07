-- ===== src/Consumer/Tasks/Endings.antt =====
-- consumer/tasks.go: what each task leaves behind.
use mathlib.Core.Bool.{true, false}
use aliyun_log_go_sdk.Prelude.{
  ℕ, ◌≡◌, ◌≢◌, refl, ◌∙◌, Option, none, some, List, [], ◌∷◌, Bool, arith, ◌&&◌, not, Str, str_eq,
  length, if◌then◌else◌,
}
use aliyun_log_go_sdk.Prelude.Int.{ℤ, pos, ◌-ℤ◌, ◌*ℤ◌, ltb_ℤ}
use aliyun_log_go_sdk.LogPb.{LogGroup}
use aliyun_log_go_sdk.Producer.IoWorker.{Err}
use aliyun_log_go_sdk.Consumer.Config.{LogHubConfig}
use aliyun_log_go_sdk.Consumer.Tracker.{
  DefaultCheckPointTracker, init_check_point, flush_check_point,
}
use aliyun_log_go_sdk.Consumer.ShardWorker.{
  ConsumerStatus, initializing, pulling, processing, shutting_down, shutdown_complete,
  ShardConsumerWorker, update_status, save_check_point_if_needed, should_fetch,
}
use aliyun_log_go_sdk.Consumer.Tasks.{
  TaskEnv, Pulled, Processed, returned, panicked, run_task, consumer_initialize_task,
  next_fetch_task, consumer_process_task, run_pull, run_process, run_shutdown, ask_cursor,
  cursor_from, after_fetch, after_get_check_point, run_initialize, fetched, after_pull,
  after_process, process_list, flush_at_shutdown,
}
use aliyun_log_go_sdk.Consumer.Tasks.Status.{HasWork, Work, Fine, update-Fine}

pub one_of_three :
    (P : ShardConsumerWorker → Type 0) (t u : Bool) (x y : ShardConsumerWorker)
    → P x
    → P y
    → P (if t then x else if u then y else x)
one_of_three P true u x y p q = p
one_of_three P false true x y p q = q
one_of_three P false false x y p q = p

-- Saving the checkpoint leaves the status and the fetched logs alone.
abbrev pub Same : ShardConsumerWorker → ShardConsumerWorker → Type 0
Same w v =
    (v.consumer_status ≡ w.consumer_status)
    × (v.last_fetch_log_group_list ≡ w.last_fetch_log_group_list)
    × (v.last_fetch_group_count ≡ w.last_fetch_group_count)

pub save-Same :
    (o : LogHubConfig) (answers : ℕ → Option Err) (now after : ℤ) (w : ShardConsumerWorker)
    → Same w (save_check_point_if_needed o answers now after w)
unfolding save_check_point_if_needed
save-Same o answers now after w =
    one_of_three (Same w) o.auto_commit_disabled
      (ltb_ℤ (pos 1000000 *ℤ o.auto_commit_interval_in_ms) (now -ℤ w.last_checkpoint_save_time)) w
      (record w {
        tracker = (flush_check_point answers w.tracker).1;
        last_checkpoint_save_time = after;
      })
      (refl, refl, refl) (refl, refl, refl)

found-Fine :
    (r : Option Str × ShardConsumerWorker)
    → r.1.consumer_status ≡ initializing
    → Fine initializing (run_initialize r)
found-Fine (none, w) e =
    update-Fine initializing false w e (λ f. cc) (λ f. absurd cc) (λ f. absurd cc)
found-Fine (some cursor, w) e =
    update-Fine initializing true (record w { next_fetch_cursor = cursor }) e (λ f. cc)
      (λ f. absurd cc) (λ f. absurd cc)

pub one_of_two :
    {A : Type 0} (P : A → Type 0) (t : Bool) (x y : A) → P x → P y → P (if t then x else y)
one_of_two P true x y p q = p
one_of_two P false x y p q = q

initialize-Fine :
    (o : LogHubConfig) (env : TaskEnv) (a : Option Str) (w : ShardConsumerWorker)
    → w.consumer_status ≡ initializing
    → Fine initializing (run_initialize (after_get_check_point o env a w))
initialize-Fine o env none w e = found-Fine (none, w) e
initialize-Fine o env (some checkpoint) w e = found-Fine _ (
    one_of_two {A = Option Str × ShardConsumerWorker} (λ r. r.1.consumer_status ≡ initializing)
      (not (str_eq checkpoint []))
      (some checkpoint, record w { tracker = init_check_point checkpoint w.tracker })
      (ask_cursor env.get_cursor (cursor_from o), w) e e)

no_logs : (z : ℤ) → z ≡ pos (length {A = LogGroup} []) → ltb_ℤ (pos 0) z ≡ true → ⊥
no_logs z e h = ground arith

fetch-Fine :
    (o : LogHubConfig) (env : TaskEnv) (groups : List LogGroup) (d : ShardConsumerWorker)
    → d.consumer_status ≡ pulling
    → d.last_fetch_log_group_list ≡ some groups
    → d.last_fetch_group_count ≡ pos (length groups)
    → let done = after_fetch o env groups d in
      Fine pulling (update_status (ltb_ℤ (pos 0) done.last_fetch_group_count) done)
fetch-Fine o env [] d e l c =
    let done = after_fetch o env [] d in
    let (status, list, count) =
      save-Same o env.flush_answers (env.clock 2) (env.clock 3)
        (record d { last_fetch_log_group_list = none }) in
    update-Fine pulling (ltb_ℤ (pos 0) done.last_fetch_group_count) done (status ∙ e) (λ f. cc)
      (λ f some_logs. absurd (no_logs _ (count ∙ c) some_logs)) (λ f. absurd cc)
fetch-Fine o env (g ∷ gs) d e l c =
    update-Fine pulling _ d e (λ f. cc) (λ f some_logs. (g, (gs, l))) (λ f. absurd cc)

pull-Fine :
    (o : LogHubConfig) (env : TaskEnv) (a : Option Pulled) (w : ShardConsumerWorker)
    → w.consumer_status ≡ pulling
    → let (ok, done) = after_pull o env a w in
      Fine pulling (update_status (ok && ltb_ℤ (pos 0) done.last_fetch_group_count) done)
pull-Fine o env none w e =
    update-Fine pulling false w e (λ f. cc) (λ f g. absurd cc) (λ f. absurd cc)
pull-Fine o env (some pulled) w e =
    fetch-Fine o env pulled.log_groups (fetched o pulled w) e refl refl

ended-Fine :
    (o : LogHubConfig) (env : TaskEnv) (a : Processed) (w : ShardConsumerWorker)
    → w.consumer_status ≡ processing
    → Work w
    → let (rollback, ok, done) = after_process o env a w in
      Fine processing (
        update_status ok (
          if not (str_eq rollback [])
          then (record done { next_fetch_cursor = rollback })
          else done))
unfolding str_eq
ended-Fine o env panicked w e k =
    update-Fine processing false w e (λ f. cc) (λ f. absurd cc) (λ f g. k)
ended-Fine o env (returned rollback true) w e (g, (gs, l)) =
    let saved = save_check_point_if_needed o env.flush_answers (env.clock 0) (env.clock 1) w in
    let (status, list, count) = save-Same o env.flush_answers (env.clock 0) (env.clock 1) w in
    let rolled = record saved { next_fetch_cursor = rollback } in
    update-Fine processing false (if not (str_eq rollback []) then rolled else saved)
      (one_of_two (λ (d : ShardConsumerWorker). d.consumer_status ≡ processing)
        (not (str_eq rollback [])) rolled saved (status ∙ e) (status ∙ e))
      (λ f. cc) (λ f. absurd cc)
      (λ f h.
        one_of_two Work (not (str_eq rollback [])) rolled saved (g, (gs, list ∙ l))
          (g, (gs, list ∙ l)))
ended-Fine o env (returned rollback false) w e k =
    let saved = save_check_point_if_needed o env.flush_answers (env.clock 0) (env.clock 1) w in
    let (status, list, count) = save-Same o env.flush_answers (env.clock 0) (env.clock 1) w in
    let done = record saved { last_fetch_log_group_list = none } in
    let rolled = record done { next_fetch_cursor = rollback } in
    update-Fine processing true (if not (str_eq rollback []) then rolled else done)
      (one_of_two (λ (d : ShardConsumerWorker). d.consumer_status ≡ processing)
        (not (str_eq rollback [])) rolled done (status ∙ e) (status ∙ e))
      (λ f. cc) (λ f. absurd cc) (λ f h. absurd cc)

process-Fine :
    (o : LogHubConfig) (env : TaskEnv) (a : Option (List LogGroup)) (w : ShardConsumerWorker)
    → w.consumer_status ≡ processing
    → w.last_fetch_log_group_list ≡ a
    → Work w
    → let (rollback, ok, done) = process_list o env a w in
      Fine processing (
        update_status ok (
          if not (str_eq rollback [])
          then (record done { next_fetch_cursor = rollback })
          else done))
process-Fine o env none w e l k = absurd cc
process-Fine o env (some groups) w e l k =
    let (ended, tracker) = env.process groups w.tracker in
    ended-Fine o env ended (record w { tracker = tracker }) e k

shutdown-Fine :
    (a : Option Err × DefaultCheckPointTracker) (w : ShardConsumerWorker)
    → w.consumer_status ≡ shutting_down
    → Fine shutting_down (flush_at_shutdown a w)
shutdown-Fine (none, t) w e =
    update-Fine shutting_down true (record w { tracker = t }) e (λ f. cc) (λ f. absurd cc)
      (λ f. absurd cc)
shutdown-Fine (some err, t) w e =
    update-Fine shutting_down false (record w { tracker = t }) e (λ f. cc) (λ f. absurd cc)
      (λ f. absurd cc)

pulling-Fine :
    (o : LogHubConfig) (env : TaskEnv) (w : ShardConsumerWorker)
    → w.consumer_status ≡ pulling
    → Fine pulling (run_pull o env w)
unfolding run_pull next_fetch_task
pulling-Fine o env w e =
    let (ok, done) = next_fetch_task o env w in
    one_of_two (Fine pulling) (should_fetch o (env.clock 0) w)
      (update_status (ok && ltb_ℤ (pos 0) done.last_fetch_group_count) done) (update_status false w)
      (pull-Fine o env env.pull_logs (record w { last_fetch_time = env.clock 1 }) e)
      (update-Fine pulling false w e (λ f. cc) (λ f g. absurd cc) (λ f. absurd cc))

stopping-Fine :
    (env : TaskEnv) (w : ShardConsumerWorker)
    → w.consumer_status ≡ shutting_down
    → Fine shutting_down (run_shutdown env w)
unfolding run_shutdown
stopping-Fine env w e =
    let (failed, tracker) = env.shutdown w.tracker in
    let told = record w { tracker = tracker } in
    one_of_two (Fine shutting_down) failed (update_status false told)
      (flush_at_shutdown (flush_check_point env.flush_answers tracker) w)
      (update-Fine shutting_down false told e (λ f. cc) (λ f. absurd cc) (λ f. absurd cc))
      (shutdown-Fine (flush_check_point env.flush_answers tracker) w e)

pub run-Fine :
    (o : LogHubConfig) (env : TaskEnv) (s : ConsumerStatus) (w : ShardConsumerWorker)
    → w.consumer_status ≡ s
    → s ≢ shutdown_complete
    → HasWork w
    → Fine s (run_task o env w)
unfolding run_task consumer_initialize_task run_process consumer_process_task
run-Fine o env initializing w e h k =
    rw (e, run_task) (initialize-Fine o env env.get_check_point w e)
run-Fine o env pulling w e h k = rw (e, run_task) (pulling-Fine o env w e)
run-Fine o env processing w e h k =
    rw (e, run_task) (process-Fine o env w.last_fetch_log_group_list w e refl (k e))
run-Fine o env shutting_down w e h k = rw (e, run_task) (stopping-Fine env w e)
run-Fine o env shutdown_complete w e h k = absurd (h refl)
