-- ===== src/Producer/System/Accept.antt =====
-- producer/log_accumulator.go: a log that is taken in brings its callback, and nothing else.
use aliyun_log_go_sdk.Prelude.{
  ℕ, ◌+◌, ◌≡◌, refl, ap, subst, inl, inr, Option, List, [], ◌∷◌, ◌++◌, Bool-cases, Option-cases,
  Str, arith, ◌==◌, if◌then◌else◌,
}
use aliyun_log_go_sdk.Map.{
  str_eq_instance, lookup, delete, Distinct, insert-Distinct, delete-Distinct, lookup-delete_self,
}
use aliyun_log_go_sdk.Producer.Batch.{
  LogData, single, many, other, ProducerBatch, Env, callbacks, init_producer_batch,
  add_log_to_log_group, add_producer_batch_call_back,
}
use aliyun_log_go_sdk.Producer.State.{Producer}
use aliyun_log_go_sdk.Producer.Accumulator.{
  Target, get_key_string, with_log, grow_batch, grow_producer, inner_send_to_server,
  create_new_producer_batch, add_or_send_producer_batch, accepted, add_data, add_by_type,
  size_of_data, sends_with_log, takes_log,
}
use aliyun_log_go_sdk.Producer.Accumulator.Change.{
  Change, fresh, joined, sent, replaced, accepted_inj, by_type-Change,
}
use aliyun_log_go_sdk.Producer.System.Weight.{
  weight, map_weight, map_weight-insert, map_weight-delete, map_weight-replace,
}
use aliyun_log_go_sdk.Producer.System.Conserve.{weight-push}

-- The parts of the producer that taking in a log leaves alone.
abbrev pub Frame : Producer → Producer → Type 0
Frame p q = (q.retry_queue ≡ p.retry_queue) × (q.io_worker ≡ p.io_worker)

module _ (env : Env) (t : Target) (d : LogData) (call_back : Option ℕ) where
  taken-Frame :
      (key : Str) (p : Producer) (b : ProducerBatch) (n : ℕ)
      → Frame p
          (add_or_send_producer_batch env key t (grow_batch n b) d call_back (grow_producer n p))
  unfolding add_or_send_producer_batch inner_send_to_server create_new_producer_batch
      init_producer_batch
  taken-Frame key p b n = elim (Bool-cases (sends_with_log p.producer_config (grow_batch n b))) [
    | inl sends ↦ rw sends (refl, refl)
    | inr keeps ↦ elim (Bool-cases (takes_log p.producer_config (grow_batch n b))) [
      | inl takes ↦ rw (keeps, takes) (refl, refl)
      | inr full ↦ rw (keeps, full) (refl, refl)
    ]
  ]

  data-Frame : (p q : Producer) → add_data env t d call_back p ≡ accepted q → Frame p q
  unfolding add_data create_new_producer_batch init_producer_batch
  data-Frame p q e = elim (Option-cases (lookup (get_key_string t) p.log_group_data)) [
    | inl missing ↦ subst (Frame p) (accepted_inj (rw (missing, add_data) at e)) (refl, refl)
    | inr (b, found) ↦ elim (Option-cases (size_of_data d)) [
      | inl torn ↦ cc (rw (found, torn, add_data) at e)
      | inr (n, sized) ↦
          subst (Frame p) (accepted_inj (rw (found, sized, add_data) at e))
            (taken-Frame (get_key_string t) p b n)
    ]
  ]

pub by_type-Frame :
    (env : Env) (t : Target) (d : LogData) (call_back : Option ℕ) (p q : Producer)
    → add_by_type env t d call_back p ≡ accepted q
    → Frame p q
unfolding add_by_type
by_type-Frame env t (single log) call_back p q e = data-Frame env t (single log) call_back p q e
by_type-Frame env t (many logs) call_back p q e = data-Frame env t (many logs) call_back p q e
by_type-Frame env t other call_back p q e = cc

-- How often a number stands in a list.
abbrev pub times : ℕ → List ℕ → ℕ
times c [] = 0
times c (x ∷ xs) = (if x == c then 1 else 0) + times c xs

pub times-append : (c : ℕ) (xs ys : List ℕ) → times c (xs ++ ys) ≡ times c xs + times c ys
times-append c [] ys = omega arith
times-append c (x ∷ xs) ys = omega (arith, times-append c xs ys)

-- How often a batch is to call a callback.
abbrev pub listens : ℕ → ProducerBatch → ℕ
listens c b = times c b.call_back_list

Change-listens :
    (c : ℕ) (key : Str) (d : LogData) (call_back : Option ℕ) (p q : Producer)
    → Distinct p.log_group_data
    → Change key d call_back p q
    → weight (listens c) q.queue + map_weight (listens c) q.log_group_data
      ≡ weight (listens c) p.queue
        + map_weight (listens c) p.log_group_data
        + times c (callbacks call_back)
unfolding add_log_to_log_group add_producer_batch_call_back
Change-listens c key d call_back p q v (fresh b missing is_new mapped queued sized) =
    let w = listens c in
    let mine = ap (times c) is_new.listeners in
    omega (
      arith,
      ap (map_weight w) mapped,
      map_weight-insert w key b p.log_group_data missing,
      ap (weight w) queued,
    )
Change-listens c key d call_back p q v (joined b n found takes mapped queued sized) =
    let w = listens c in
    let mine = times-append c b.call_back_list (callbacks call_back) in
    omega (
      arith,
      ap (map_weight w) mapped,
      map_weight-replace w key b (with_log d call_back (grow_batch n b)) p.log_group_data found,
      ap (weight w) queued,
    )
Change-listens c key d call_back p q v (sent b n found sends mapped queued sized) =
    let w = listens c in
    let mine = times-append c b.call_back_list (callbacks call_back) in
    omega (
      arith,
      ap (map_weight w) mapped,
      map_weight-delete w key b p.log_group_data v found,
      ap (weight w) queued,
      weight-push w p.queue (with_log d call_back (grow_batch n b)),
    )
Change-listens c key d call_back p q v
      (replaced b new n found keeps full is_new mapped queued sized) =
    let w = listens c in
    let mine = ap (times c) is_new.listeners in
    omega (
      arith,
      ap (map_weight w) mapped,
      map_weight-insert w key new (delete key p.log_group_data)
          (lookup-delete_self key p.log_group_data),
      map_weight-delete w key b p.log_group_data v found,
      ap (weight w) queued,
      weight-push w p.queue (grow_batch n b),
    )

Change-Distinct :
    (key : Str) (d : LogData) (call_back : Option ℕ) (p q : Producer)
    → Distinct p.log_group_data
    → Change key d call_back p q
    → Distinct q.log_group_data
Change-Distinct key d call_back p q v (fresh b missing is_new mapped queued sized) =
    rw mapped (insert-Distinct key _ p.log_group_data v)
Change-Distinct key d call_back p q v (joined b n found takes mapped queued sized) =
    rw mapped (insert-Distinct key _ p.log_group_data v)
Change-Distinct key d call_back p q v (sent b n found sends mapped queued sized) =
    rw mapped (delete-Distinct key p.log_group_data v)
Change-Distinct key d call_back p q v
      (replaced b new n found keeps full is_new mapped queued sized) =
    rw mapped (insert-Distinct key new _ (delete-Distinct key p.log_group_data v))

-- What taking in a log does to a callback's calls to come.
pub by_type-listens :
    (c : ℕ) (env : Env) (t : Target) (d : LogData) (call_back : Option ℕ) (p q : Producer)
    → Distinct p.log_group_data
    → add_by_type env t d call_back p ≡ accepted q
    → (weight (listens c) q.queue + map_weight (listens c) q.log_group_data
        ≡ weight (listens c) p.queue
          + map_weight (listens c) p.log_group_data
          + times c (callbacks call_back))
      × Distinct q.log_group_data
by_type-listens c env t d call_back p q v e =
    let change = by_type-Change env t d call_back p q e in
    (
      Change-listens c (get_key_string t) d call_back p q v change,
      Change-Distinct (get_key_string t) d call_back p q v change,
    )
