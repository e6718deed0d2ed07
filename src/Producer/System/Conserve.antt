-- ===== src/Producer/System/Conserve.antt =====
-- producer/: what each operation of the producer does to the total of a measure of batches.
use mathlib.Core.Bool.{true, false}
use aliyun_log_go_sdk.Prelude.{
  ℕ, suc, ◌+◌, ◌≡◌, refl, sym, ap, subst, ◌∙◌, inl, inr, none, some, List, [], ◌∷◌, ◌++◌, Bool,
  Bool-cases, Str, arith,
}
use aliyun_log_go_sdk.Prelude.Int.{ℤ, pos, ◌+ℤ◌, ◌-ℤ◌, ltb_ℤ}
use aliyun_log_go_sdk.Map.{str_eq_instance, lookup, delete, Distinct, delete-Distinct}
use aliyun_log_go_sdk.Producer.Config.{leb_ℤ}
use aliyun_log_go_sdk.Producer.Batch.{ProducerBatch}
use aliyun_log_go_sdk.Producer.State.{Producer, RetryQueue}
use aliyun_log_go_sdk.Producer.ThreadPool.{add_task}
use aliyun_log_go_sdk.Producer.RetryQueue.{get_retry_batch}
use aliyun_log_go_sdk.Producer.RetryQueue.Due.{get_retry_batch_splits, get_retry_batch_drains}
use aliyun_log_go_sdk.Producer.Accumulator.{set_data}
use aliyun_log_go_sdk.Producer.Mover.{mover_send_to_server, scan_map, entries_values}
use aliyun_log_go_sdk.Producer.Mover.Rounds.{scan_up, scan_early}
use aliyun_log_go_sdk.Producer.System.{visit}
use aliyun_log_go_sdk.Producer.System.Weight.{
  weight, map_weight, weight-append, weight-perm, map_weight-delete, SubMap, SubMap-head,
  SubMap-tail, SubMap-delete,
}

-- What stays as it is when batches move from the map to the queue.
pub record Moves (w : ProducerBatch → ℕ) (p q : Producer) : Type 0 where
  pub total :
      weight w q.queue + map_weight w q.log_group_data
      ≡ weight w p.queue + map_weight w p.log_group_data
  pub distinct : Distinct q.log_group_data
  pub retries : q.retry_queue ≡ p.retry_queue
  pub worker : q.io_worker ≡ p.io_worker
  pub config : q.producer_config ≡ p.producer_config

module _ (w : ProducerBatch → ℕ) where
  pub weight-push :
      (bs : List ProducerBatch) (b : ProducerBatch) → weight w (bs ++ b ∷ []) ≡ weight w bs + w b
  weight-push bs b = omega (arith, weight-append w bs (b ∷ []))

  send-early :
      (now_ms : ℤ) (key : Str) (b : ProducerBatch) (p : Producer)
      → lookup key p.log_group_data ≡ some b
      → ltb_ℤ (now_ms -ℤ b.create_time_ms) p.producer_config.linger_ms ≡ true
      → mover_send_to_server now_ms key b p ≡ p
  unfolding mover_send_to_server
  send-early now_ms key b p found early = rw (found, early, mover_send_to_server) refl

  send-late :
      (now_ms : ℤ) (key : Str) (b : ProducerBatch) (p : Producer)
      → lookup key p.log_group_data ≡ some b
      → ltb_ℤ (now_ms -ℤ b.create_time_ms) p.producer_config.linger_ms ≡ false
      → mover_send_to_server now_ms key b p ≡ (record (set_data (delete key p.log_group_data) p) {
        thread_pool = add_task b p.thread_pool;
      })
  unfolding mover_send_to_server
  send-late now_ms key b p found late = rw (found, late, mover_send_to_server) refl

  send-Moves :
      (now_ms : ℤ) (key : Str) (b : ProducerBatch) (p : Producer)
      → Distinct p.log_group_data
      → lookup key p.log_group_data ≡ some b
      → Moves w p (mover_send_to_server now_ms key b p)
  unfolding add_task
  send-Moves now_ms key b p d found =
      elim (Bool-cases (ltb_ℤ (now_ms -ℤ b.create_time_ms) p.producer_config.linger_ms)) [
        | inl early ↦
            subst (Moves w p) (sym (send-early now_ms key b p found early))
              (record { total = refl; distinct = d; retries = refl; worker = refl; config = refl })
        | inr late ↦ subst (Moves w p) (sym (send-late now_ms key b p found late)) (record {
          total =
              omega
                (arith, weight-push p.queue b, map_weight-delete w key b p.log_group_data d found);
          distinct = delete-Distinct key p.log_group_data d;
          retries = refl;
          worker = refl;
          config = refl;
        })
      ]

  send-SubMap :
      (now_ms : ℤ) (key : Str) (b : ProducerBatch) (p : Producer) (a : List (Str × ProducerBatch))
      → lookup key p.log_group_data ≡ some b
      → lookup key a ≡ none
      → SubMap a p.log_group_data
      → SubMap a (mover_send_to_server now_ms key b p).log_group_data
  send-SubMap now_ms key b p a found missing h =
      elim (Bool-cases (ltb_ℤ (now_ms -ℤ b.create_time_ms) p.producer_config.linger_ms)) [
        | inl early ↦
            subst (λ q. SubMap a q.log_group_data) (sym (send-early now_ms key b p found early)) h
        | inr late ↦
            subst (λ q. SubMap a q.log_group_data) (sym (send-late now_ms key b p found late))
              (SubMap-delete key a p.log_group_data missing h)
      ]

  Moves-trans : (p q r : Producer) → Moves w p q → Moves w q r → Moves w p r
  Moves-trans p q r a b = record {
    total = b.total ∙ a.total;
    distinct = b.distinct;
    retries = b.retries ∙ a.retries;
    worker = b.worker ∙ a.worker;
    config = b.config ∙ a.config;
  }

  -- A scan keeps the total, whatever the order of the entries.
  pub scan-Moves :
      (now_ms : ℤ) (clock : ℕ → ℤ) (entries : List (Str × ProducerBatch)) (sleep_ms : ℤ)
      (p : Producer)
      → Distinct p.log_group_data
      → Distinct entries
      → SubMap entries p.log_group_data
      → Moves w p (scan_map now_ms clock entries sleep_ms p).1
  unfolding scan_map
  scan-Moves now_ms clock [] sleep_ms p d de h = record {
    total = refl;
    distinct = d;
    retries = refl;
    worker = refl;
    config = refl;
  }
  scan-Moves now_ms clock ((key, b) ∷ entries) sleep_ms p d de h =
      let interval = b.create_time_ms +ℤ p.producer_config.linger_ms -ℤ now_ms in
      let found = SubMap-head key b entries p.log_group_data h in
      let rest = SubMap-tail key b entries p.log_group_data de h in
      elim (Bool-cases (leb_ℤ interval (pos 0))) [
        | inl up ↦
            let q = mover_send_to_server (clock 0) key b p in
            let one = send-Moves (clock 0) key b p d found in
            subst (λ r. Moves w p r.1) (sym (scan_up now_ms clock key b entries sleep_ms p up))
              (Moves-trans p q _ one (
                scan-Moves now_ms (λ k. clock (suc k)) entries sleep_ms q one.distinct de.1
                  (send-SubMap (clock 0) key b p entries found de.0 rest)))
        | inr early ↦
            subst (λ r. Moves w p r.1)
              (sym (scan_early now_ms clock key b entries sleep_ms p early))
              (scan-Moves now_ms clock entries _ p d de.1 rest)
      ]

  pub weight-entries_values :
      (m : List (Str × ProducerBatch)) → weight w (entries_values m) ≡ map_weight w m
  weight-entries_values [] = refl
  weight-entries_values ((k, b) ∷ m) = ap (λ n. w b + n) (weight-entries_values m)

  -- What is taken from the retry queue and what stays there, together.
  pub retry-weight :
      (flag : Bool) (clock : ℕ → ℤ) (q : RetryQueue)
      → let (taken, left) = get_retry_batch flag clock q in
        weight w taken + weight w left.batch ≡ weight w q.batch
  retry-weight true clock q =
      let (all, empty) = get_retry_batch_drains clock q in
      omega (arith, weight-perm w all, ap (weight w) empty)
  retry-weight false clock q =
      let (taken, left) = get_retry_batch false clock q in
      omega
        (arith, weight-append w taken left.batch, weight-perm w (get_retry_batch_splits clock q).0)

-- One entry of the map, as the map of the entries that are visited.
SubMap-one :
    (k : Str) (b : ProducerBatch) (m : List (Str × ProducerBatch))
    → lookup k m ≡ some b
    → SubMap ((k, b) ∷ []) m
unfolding lookup
SubMap-one k b m found j v e = elim (Bool-cases (str_eq_instance.beq k j)) [
  | inl same ↦
      subst (λ i. lookup i m ≡ some b) ((str_eq_instance.beq_iff k j).0 same) found ∙ rw same at e
  | inr differ ↦ cc (rw differ at e)
]

pub visit-Moves :
    (w : ProducerBatch → ℕ) (now_ms : ℤ) (clock : ℕ → ℤ) (k : Str) (b : ProducerBatch)
    (p : Producer)
    → Distinct p.log_group_data
    → lookup k p.log_group_data ≡ some b
    → Moves w p (visit now_ms clock k b p)
visit-Moves w now_ms clock k b p d found =
    scan-Moves w now_ms clock ((k, b) ∷ []) p.producer_config.linger_ms p d
      ((unfold lookup in refl), tt) (SubMap-one k b p.log_group_data found)
