-- ===== src/Producer/Accumulator/Accounting.antt =====
-- producer/log_accumulator.go: the producer's size counter against the sizes of its batches.
use aliyun_log_go_sdk.Prelude.{
  ◌≡◌, subst, ap, ◌⊎◌, inl, inr, Option, none, some, List, [], ◌∷◌, ◌++◌, Bool-cases, Str,
}
use aliyun_log_go_sdk.Prelude.Int.{ℤ, pos, ◌+ℤ◌, int_laws, parts}
use aliyun_log_go_sdk.Map.{str_eq_instance, lookup, insert, delete, Distinct, delete-none}
use aliyun_log_go_sdk.Producer.Batch.{batch_logs, logs_of, LogData, ProducerBatch}
use aliyun_log_go_sdk.Producer.State.{Producer}
use aliyun_log_go_sdk.Producer.Accumulator.Change.{Change}

abbrev pub total_size : List ProducerBatch → ℤ
total_size [] = pos 0
total_size (b ∷ bs) = b.total_data_size +ℤ total_size bs

abbrev pub map_size : List (Str × ProducerBatch) → ℤ
map_size [] = pos 0
map_size ((k, b) ∷ m) = b.total_data_size +ℤ map_size m

-- What the batches of the map and the queue weigh.
abbrev pub outstanding : Producer → ℤ
outstanding p = total_size p.queue +ℤ map_size p.log_group_data

pub total_size-push :
    (bs : List ProducerBatch) (b : ProducerBatch)
    → total_size (bs ++ b ∷ []) ≡ total_size bs +ℤ b.total_data_size
total_size-push [] b = omega int_laws
total_size-push (c ∷ bs) b = omega (int_laws, parts (total_size-push bs b))

abbrev size_or_0 : Option ProducerBatch → ℤ
size_or_0 none = pos 0
size_or_0 (some b) = b.total_data_size

module _ (k : Str) where
  pub map_size-insert :
      (b : ProducerBatch) (m : List (Str × ProducerBatch))
      → lookup k m ≡ none
      → map_size (insert k b m) ≡ map_size m +ℤ b.total_data_size
  unfolding lookup insert
  map_size-insert b [] h = omega int_laws
  map_size-insert b ((j, c) ∷ m) h = elim (Bool-cases (str_eq_instance.beq j k)) [
    | inl same ↦ cc (rw same at h)
    | inr differ ↦ rw differ (omega (int_laws, parts (map_size-insert b m (rw differ at h))))
  ]

  pub map_size-delete :
      (b : ProducerBatch) (m : List (Str × ProducerBatch))
      → Distinct m
      → lookup k m ≡ some b
      → map_size (delete k m) +ℤ b.total_data_size ≡ map_size m
  unfolding lookup delete
  map_size-delete b [] v h = cc
  map_size-delete b ((j, c) ∷ m) v h = elim (Bool-cases (str_eq_instance.beq j k)) [
    | inl same ↦
        let gone : lookup k m ≡ none =
          subst (λ i. lookup i m ≡ none) ((str_eq_instance.beq_iff j k).0 same) v.0 in
        let weight : c.total_data_size ≡ b.total_data_size = ap size_or_0 (rw same at h) in
        rw (same, delete-none k m gone) (omega (int_laws, parts weight))
    | inr differ ↦ rw differ (omega (int_laws, parts (map_size-delete b m v.1 (rw differ at h))))
  ]

  pub map_size-replace :
      (b c : ProducerBatch) (m : List (Str × ProducerBatch))
      → lookup k m ≡ some b
      → map_size (insert k c m) +ℤ b.total_data_size ≡ map_size m +ℤ c.total_data_size
  unfolding lookup insert
  map_size-replace b c [] h = cc
  map_size-replace b c ((j, d) ∷ m) h = elim (Bool-cases (str_eq_instance.beq j k)) [
    | inl same ↦
        let weight : d.total_data_size ≡ b.total_data_size = ap size_or_0 (rw same at h) in
        rw same (omega (int_laws, parts weight))
    | inr differ ↦ rw differ (omega (int_laws, parts (map_size-replace b c m (rw differ at h))))
  ]

-- The logs went into the batch that the key had, which was sent or holds them behind its own.
abbrev pub IsJoined : Str → LogData → ProducerBatch → Producer → Type 0
IsJoined key d b q =
    (lookup key q.log_group_data ≡ none)
    ⊎ ((c : ProducerBatch) × (lookup key q.log_group_data ≡ some c)
        × (batch_logs c ≡ batch_logs b ++ logs_of d))

-- The two ways in which a log is billed: it went into the key's batch, and the counter follows the
-- batches; or a new batch was made, which holds the logs alone, and whose own size the counter does
-- not get.
abbrev pub Billing : Str → LogData → Producer → Producer → Type 0
Billing key d p q =
    ((b : ProducerBatch) × (lookup key p.log_group_data ≡ some b)
      × IsJoined key d b q
      × (outstanding q +ℤ p.producer_log_group_size ≡ outstanding p +ℤ q.producer_log_group_size))
    ⊎ ((new : ProducerBatch) × (lookup key q.log_group_data ≡ some new)
        × (batch_logs new ≡ logs_of d)
        × (outstanding q +ℤ p.producer_log_group_size
            ≡ outstanding p +ℤ q.producer_log_group_size +ℤ new.total_data_size))
