-- ===== src/Producer/Accumulator/Change.antt =====
-- producer/log_accumulator.go: what an accepted log does to the map, the queue and the size.
use mathlib.Core.Bool.{false}
use aliyun_log_go_sdk.Prelude.{
  ℕ, ◌≡◌, refl, inl, inr, Option, none, some, [], ◌∷◌, ◌++◌, Bool, true, Bool-cases, subst,
  Option-cases, Str, if◌then◌else◌,
}
use aliyun_log_go_sdk.Prelude.Int.{pos, ◌+ℤ◌}
use aliyun_log_go_sdk.Map.{str_eq_instance, lookup, insert, delete}
use aliyun_log_go_sdk.Producer.Config.{ProducerConfig}
use aliyun_log_go_sdk.Producer.Batch.{
  LogData, single, many, other, ProducerBatch, Env, logs_of, batch_logs, callbacks,
  init_producer_batch,
}
use aliyun_log_go_sdk.Producer.State.{Producer}
use aliyun_log_go_sdk.Producer.ThreadPool.{add_task}
use aliyun_log_go_sdk.Producer.Accumulator.{
  Target, get_key_string, with_log, grow_batch, grow_producer, inner_send_to_server,
  create_new_producer_batch, add_or_send_producer_batch, Outcome, accepted, refused, Refusal,
  producer_shut_down, add_log_to_producer_batch, add_data, add_by_type, size_of_data,
  sends_with_log, takes_log,
}

-- A batch that holds the given logs and callback and nothing else.
pub record IsNew (log_data : LogData) (call_back : Option ℕ) (b : ProducerBatch) : Type 0 where
  pub logs : batch_logs b ≡ logs_of log_data
  pub listeners : b.call_back_list ≡ callbacks call_back
  pub unsent : b.attempt_count ≡ 0

-- The four ways in which a log is taken in: into a first batch of its key; into the key's batch;
-- into the key's batch, which is sent with it; into a new batch, after the old one is sent.
module _ (key : Str) (d : LogData) (call_back : Option ℕ) (p q : Producer) where
  pub data Change : Type 0 where
    fresh :
        (b : ProducerBatch)
        → lookup key p.log_group_data ≡ none
        → IsNew d call_back b
        → q.log_group_data ≡ insert key b p.log_group_data
        → q.queue ≡ p.queue
        → q.producer_log_group_size ≡ p.producer_log_group_size
        → Change
    joined :
        (b : ProducerBatch) (n : ℕ)
        → lookup key p.log_group_data ≡ some b
        → takes_log p.producer_config (grow_batch n b) ≡ true
        → q.log_group_data ≡ insert key (with_log d call_back (grow_batch n b)) p.log_group_data
        → q.queue ≡ p.queue
        → q.producer_log_group_size ≡ p.producer_log_group_size +ℤ pos n
        → Change
    sent :
        (b : ProducerBatch) (n : ℕ)
        → lookup key p.log_group_data ≡ some b
        → sends_with_log p.producer_config (grow_batch n b) ≡ true
        → q.log_group_data ≡ delete key p.log_group_data
        → q.queue ≡ p.queue ++ with_log d call_back (grow_batch n b) ∷ []
        → q.producer_log_group_size ≡ p.producer_log_group_size +ℤ pos n
        → Change
    replaced :
        (b new : ProducerBatch) (n : ℕ)
        → lookup key p.log_group_data ≡ some b
        → sends_with_log p.producer_config (grow_batch n b) ≡ false
        → takes_log p.producer_config (grow_batch n b) ≡ false
        → IsNew d call_back new
        → q.log_group_data ≡ insert key new (delete key p.log_group_data)
        → q.queue ≡ p.queue ++ grow_batch n b ∷ []
        → q.producer_log_group_size ≡ p.producer_log_group_size +ℤ pos n
        → Change

pub accepted_inj : {p q : Producer} → accepted p ≡ accepted q → p ≡ q
accepted_inj e = cc

module _ (env : Env) (t : Target) (d : LogData) (call_back : Option ℕ) where
  new_batch : ProducerConfig → ProducerBatch
  new_batch c =
      (init_producer_batch env d call_back t.project t.logstore t.log_topic t.log_source
        t.shard_hash c).0

  new_batch-IsNew : (c : ProducerConfig) → IsNew d call_back (new_batch c)
  unfolding new_batch init_producer_batch
  new_batch-IsNew c = record { logs = refl; listeners = refl; unsent = refl }

  taken-Change :
      (key : Str) (p : Producer) (b : ProducerBatch) (n : ℕ)
      → lookup key p.log_group_data ≡ some b
      → Change key d call_back p
          (add_or_send_producer_batch env key t (grow_batch n b) d call_back (grow_producer n p))
  unfolding add_or_send_producer_batch inner_send_to_server create_new_producer_batch add_task
      new_batch init_producer_batch
  taken-Change key p b n e = elim (Bool-cases (sends_with_log p.producer_config (grow_batch n b))) [
    | inl sends ↦ rw sends (sent b n e sends refl refl refl)
    | inr keeps ↦ elim (Bool-cases (takes_log p.producer_config (grow_batch n b))) [
      | inl takes ↦ rw (keeps, takes) (joined b n e takes refl refl refl)
      | inr full ↦
          rw (keeps, full)
            (replaced b (new_batch p.producer_config) n e keeps full
              (new_batch-IsNew p.producer_config) refl refl refl)
    ]
  ]

  add_data-Change :
      (p q : Producer)
      → add_data env t d call_back p ≡ accepted q
      → Change (get_key_string t) d call_back p q
  unfolding add_data create_new_producer_batch new_batch init_producer_batch
  add_data-Change p q e = elim (Option-cases (lookup (get_key_string t) p.log_group_data)) [
    | inl missing ↦
        subst (Change (get_key_string t) d call_back p) (accepted_inj (rw (missing, add_data) at e))
          (fresh (new_batch p.producer_config) missing (new_batch-IsNew p.producer_config) refl refl
            refl)
    | inr (b, found) ↦ elim (Option-cases (size_of_data d)) [
      | inl torn ↦ cc (rw (found, torn, add_data) at e)
      | inr (n, sized) ↦
          subst (Change (get_key_string t) d call_back p)
            (accepted_inj (rw (found, sized, add_data) at e))
            (taken-Change (get_key_string t) p b n found)
    ]
  ]

pub by_type-Change :
    (env : Env) (t : Target) (d : LogData) (call_back : Option ℕ) (p q : Producer)
    → add_by_type env t d call_back p ≡ accepted q
    → Change (get_key_string t) d call_back p q
unfolding add_by_type
by_type-Change env t (single log) call_back p q e =
    add_data-Change env t (single log) call_back p q e
by_type-Change env t (many logs) call_back p q e = add_data-Change env t (many logs) call_back p q e
by_type-Change env t other call_back p q e = cc

-- An accepting call has passed its guard.
pub guard-accepted :
    (b : Bool) (r : Refusal) {o : Outcome} {q : Producer}
    → (if b then refused r else o) ≡ accepted q
    → o ≡ accepted q
guard-accepted true r e = cc
guard-accepted false r e = e

-- A log that is accepted changes the producer in one of the four ways.
pub add_log-Change :
    (env : Env) (t : Target) (d : LogData) (call_back : Option ℕ) (p q : Producer)
    → add_log_to_producer_batch env t d call_back p ≡ accepted q
    → Change (get_key_string t) d call_back p q
unfolding add_log_to_producer_batch
add_log-Change env t d call_back p q e =
    by_type-Change env t d call_back p q (guard-accepted p.shut_down_flag producer_shut_down e)
