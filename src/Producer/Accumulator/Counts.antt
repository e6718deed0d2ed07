-- ===== src/Producer/Accumulator/Counts.antt =====
-- producer/log_accumulator.go: how many logs a batch may hold.
use mathlib.Core.Bool.{false}
use aliyun_log_go_sdk.Prelude.{
  ℕ, ◌+◌, ◌≡◌, refl, sym, ap, subst, inl, inr, Option, none, some, List, [], ◌∷◌, ◌++◌, true,
  Bool-cases, arith, Str, length, length-append,
}
use aliyun_log_go_sdk.Prelude.Int.{ℤ, pos, ◌+ℤ◌, ◌≤ℤ◌, int_laws}
use aliyun_log_go_sdk.Map.{str_eq_instance, lookup, insert, delete, lookup-insert_self}
use aliyun_log_go_sdk.LogPb.{Log}
use aliyun_log_go_sdk.Producer.Config.{ProducerConfig}
use aliyun_log_go_sdk.Producer.Batch.{
  single, many, ProducerBatch, Env, batch_logs, get_log_list_size, add_log_to_log_group,
  add_producer_batch_call_back, get_log_group_count,
}
use aliyun_log_go_sdk.Producer.State.{Producer}
use aliyun_log_go_sdk.Producer.Accumulator.{
  Target, get_key_string, with_log, grow_batch, grow_producer, set_data, sends_with_log, takes_log,
  accepted, add_log_to_producer_batch, add_by_type, add_data, add_or_send_producer_batch,
}
use aliyun_log_go_sdk.Producer.Accumulator.Change.{
  Change, IsNew, fresh, joined, sent, replaced, add_log-Change,
}

module _ (P : ProducerBatch → Type 0) where
  abbrev pub All : List ProducerBatch → Type 0
  All [] = Unit
  All (b ∷ bs) = P b × All bs

  abbrev pub AllValues : List (Str × ProducerBatch) → Type 0
  AllValues [] = Unit
  AllValues ((k, b) ∷ m) = P b × AllValues m

  -- Every batch of the map and of the queue.
  abbrev pub AllBatches : Producer → Type 0
  AllBatches p = All p.queue × AllValues p.log_group_data

  abbrev WhenSome : Option ProducerBatch → Type 0
  WhenSome none = Unit
  WhenSome (some b) = P b

  pub All-push : (bs : List ProducerBatch) (b : ProducerBatch) → All bs → P b → All (bs ++ b ∷ [])
  All-push [] b h hb = (hb, tt)
  All-push (c ∷ bs) b h hb = (h.0, All-push bs b h.1 hb)

  pub AllValues-insert :
      (k : Str) (b : ProducerBatch) (m : List (Str × ProducerBatch))
      → AllValues m
      → P b
      → AllValues (insert k b m)
  unfolding insert
  AllValues-insert k b [] h hb = (hb, tt)
  AllValues-insert k b ((j, c) ∷ m) h hb = elim (Bool-cases (str_eq_instance.beq j k)) [
    | inl same ↦ rw same (hb, h.1)
    | inr differ ↦ rw differ (h.0, AllValues-insert k b m h.1 hb)
  ]

  pub AllValues-delete :
      (k : Str) (m : List (Str × ProducerBatch)) → AllValues m → AllValues (delete k m)
  unfolding delete
  AllValues-delete k [] h = tt
  AllValues-delete k ((j, c) ∷ m) h = elim (Bool-cases (str_eq_instance.beq j k)) [
    | inl same ↦ rw same (AllValues-delete k m h.1)
    | inr differ ↦ rw differ (h.0, AllValues-delete k m h.1)
  ]

  pub AllValues-lookup :
      (k : Str) (b : ProducerBatch) (m : List (Str × ProducerBatch))
      → AllValues m
      → lookup k m ≡ some b
      → P b
  unfolding lookup
  AllValues-lookup k b [] h e = cc
  AllValues-lookup k b ((j, c) ∷ m) h e = elim (Bool-cases (str_eq_instance.beq j k)) [
    | inl same ↦ subst WhenSome (rw same at e) h.0
    | inr differ ↦ AllValues-lookup k b m h.1 (rw differ at e)
  ]

abbrev pub IsWithin : ℤ → ProducerBatch → Type 0
IsWithin max b = pos (length (batch_logs b)) ≤ℤ max

IsWithin-one :
    (max : ℤ) (log : Log) (call_back : Option ℕ) (n : ℕ) (b : ProducerBatch)
    → pos (length (batch_logs b) + 1) ≤ℤ max
    → IsWithin max (with_log (single log) call_back (grow_batch n b))
unfolding add_log_to_log_group add_producer_batch_call_back
IsWithin-one max log call_back n b h = omega (arith, length-append (batch_logs b) (log ∷ []))

room_takes :
    (c : ProducerConfig) (b : ProducerBatch)
    → takes_log c b ≡ true
    → pos (length (batch_logs b) + 1) ≤ℤ c.max_batch_count
unfolding takes_log get_log_group_count
room_takes c b e = ground arith

room_sends :
    (c : ProducerConfig) (b : ProducerBatch)
    → sends_with_log c b ≡ true
    → pos (length (batch_logs b) + 1) ≤ℤ c.max_batch_count
unfolding sends_with_log get_log_group_count
room_sends c b e = ground arith

IsWithin-new :
    (max : ℤ) (log : Log) (call_back : Option ℕ) (b : ProducerBatch)
    → pos 1 ≤ℤ max
    → IsNew (single log) call_back b
    → IsWithin max b
IsWithin-new max log call_back b h v = omega (arith, ap (length {A = Log}) v.logs)

single-Change :
    (max : ℤ) (key : Str) (log : Log) (call_back : Option ℕ) (p q : Producer)
    → p.producer_config.max_batch_count ≡ max
    → pos 1 ≤ℤ max
    → AllBatches (IsWithin max) p
    → Change key (single log) call_back p q
    → AllBatches (IsWithin max) q
single-Change max key log call_back p q m h v (fresh b missing is_new mapped queued sized) = (
  subst (All (IsWithin max)) (sym queued) v.0,
  subst (AllValues (IsWithin max)) (sym mapped) (
      AllValues-insert (IsWithin max) key b p.log_group_data v.1
        (IsWithin-new max log call_back b h is_new)),
)
single-Change max key log call_back p q m h v (joined b n found takes mapped queued sized) =
    let room =
      subst (λ c. pos (length (batch_logs b) + 1) ≤ℤ c) m
        (room_takes p.producer_config (grow_batch n b) takes) in
    (
      subst (All (IsWithin max)) (sym queued) v.0,
      subst (AllValues (IsWithin max)) (sym mapped) (
          AllValues-insert (IsWithin max) key _ p.log_group_data v.1
            (IsWithin-one max log call_back n b room)),
    )
single-Change max key log call_back p q m h v (sent b n found sends mapped queued sized) =
    let room =
      subst (λ c. pos (length (batch_logs b) + 1) ≤ℤ c) m
        (room_sends p.producer_config (grow_batch n b) sends) in
    (
      subst (All (IsWithin max)) (sym queued)
          (All-push (IsWithin max) p.queue _ v.0 (IsWithin-one max log call_back n b room)),
      subst (AllValues (IsWithin max)) (sym mapped)
          (AllValues-delete (IsWithin max) key p.log_group_data v.1),
    )
single-Change max key log call_back p q m h v
      (replaced b new n found keeps full is_new mapped queued sized) =
    (
      subst (All (IsWithin max)) (sym queued) (
          All-push (IsWithin max) p.queue _ v.0
            (AllValues-lookup (IsWithin max) key b p.log_group_data v.1 found)),
      subst (AllValues (IsWithin max)) (sym mapped) (
          AllValues-insert (IsWithin max) key new _
            (AllValues-delete (IsWithin max) key p.log_group_data v.1)
            (IsWithin-new max log call_back new h is_new)),
    )

-- When a single log is accepted under a positive maximum count, no batch of the map or of the
-- queue holds more logs than the maximum, if none did before.
pub single_log-count :
    (env : Env) (t : Target) (log : Log) (call_back : Option ℕ) (p q : Producer)
    → let max = p.producer_config.max_batch_count in
      pos 1 ≤ℤ max
      → AllBatches (IsWithin max) p
      → add_log_to_producer_batch env t (single log) call_back p ≡ accepted q
      → AllBatches (IsWithin max) q
single_log-count env t log call_back p q h v e =
    single-Change p.producer_config.max_batch_count (get_key_string t) log call_back p q refl h v
      (add_log-Change env t (single log) call_back p q e)

overfull_list :
    (max : ℤ) (logs : List Log) (call_back : Option ℕ) (n : ℕ) (b : ProducerBatch)
    → (max +ℤ pos 1) ≤ℤ pos (length (batch_logs b) + length logs)
    → ¬ IsWithin max (with_log (many logs) call_back (grow_batch n b))
unfolding add_log_to_log_group add_producer_batch_call_back
overfull_list max logs call_back n b h w = omega (int_laws, length-append (batch_logs b) logs)

-- A list of logs is counted as one log: where a batch has room for one log, the whole list joins
-- it, also one that takes it past the maximum count.
pub log_list_overfills :
    (env : Env) (t : Target) (logs : List Log) (call_back : Option ℕ) (p : Producer)
    (b : ProducerBatch) (n : ℕ)
    → p.shut_down_flag ≡ false
    → lookup (get_key_string t) p.log_group_data ≡ some b
    → get_log_list_size logs ≡ some n
    → sends_with_log p.producer_config (grow_batch n b) ≡ false
    → takes_log p.producer_config (grow_batch n b) ≡ true
    → (p.producer_config.max_batch_count +ℤ pos 1) ≤ℤ pos (length (batch_logs b) + length logs)
    → (q : Producer) × (c : ProducerBatch) × (add_log_to_producer_batch env t
          (many logs)
          call_back
          p
        ≡ accepted q)
      × (lookup (get_key_string t) q.log_group_data ≡ some c)
      × ¬ IsWithin p.producer_config.max_batch_count c
unfolding add_log_to_producer_batch add_by_type add_data add_or_send_producer_batch
log_list_overfills env t logs call_back p b n running found sized keeps takes beyond =
    let c = with_log (many logs) call_back (grow_batch n b) in
    (
      set_data (insert (get_key_string t) c p.log_group_data) (grow_producer n p),
      c,
      ground arith,
      lookup-insert_self (get_key_string t) c p.log_group_data,
      λ w. overfull_list p.producer_config.max_batch_count logs call_back n b beyond w,
    )
