-- ===== src/Producer/RetryQueue/Due.antt =====
-- producer/retry_queue.go: what getRetryBatch hands out and what it keeps.
use mathlib.Core.Bool.{false}
use mathlib.Core.List.{Perm}
use mathlib.Core.List.Perm
use aliyun_log_go_sdk.Prelude.{
  ℕ, zero, suc, ◌≡◌, ◌≤◌, refl, ◌⊎◌, inl, inr, List, [], ◌∷◌, ◌++◌, true, Bool-cases, arith, length,
}
use aliyun_log_go_sdk.Prelude.Int.{ℤ, ltb_ℤ}
use aliyun_log_go_sdk.Heap.Multiset.{push-perm, pop_cases, length-perm}
use aliyun_log_go_sdk.Producer.Batch.{ProducerBatch}
use aliyun_log_go_sdk.Producer.State.{RetryQueue}
use aliyun_log_go_sdk.Producer.RetryQueue.{less, take_due, take_all, get_retry_batch}

-- The two ways in which a queue is emptied step by step keep every batch.
take_due-perm :
    (fuel : ℕ) (clock : ℕ → ℤ) (h : List ProducerBatch)
    → let (due, left) = take_due fuel clock h in Perm (due ++ left) h
unfolding take_due
take_due-perm zero clock h = Perm.refl h
take_due-perm (suc fuel) clock h = elim (pop_cases less h) [
  | inl (e, none_left) ↦ rw (none_left, take_due) (Perm.refl h)
  | inr (b, rest, popped, kept) ↦ elim (Bool-cases (ltb_ℤ b.next_retry_ms (clock 0))) [
    | inl due ↦
        rw (popped, due, take_due)
          (Perm.trans (Perm.cons b (take_due-perm fuel (λ k. clock (suc k)) rest)) kept)
    | inr early ↦ rw (popped, early, take_due) (Perm.trans (push-perm less b rest) kept)
  ]
]

-- Each batch was due at the reading of the clock of its own round.
abbrev pub AllDue : (ℕ → ℤ) → List ProducerBatch → Type 0
AllDue clock [] = Unit
AllDue clock (b ∷ bs) = (ltb_ℤ b.next_retry_ms (clock 0) ≡ true) × AllDue (λ k. clock (suc k)) bs

take_due-AllDue :
    (fuel : ℕ) (clock : ℕ → ℤ) (h : List ProducerBatch) → AllDue clock (take_due fuel clock h).0
unfolding take_due
take_due-AllDue zero clock h = tt
take_due-AllDue (suc fuel) clock h = elim (pop_cases less h) [
  | inl (e, none_left) ↦ rw (none_left, take_due) tt
  | inr (b, rest, popped, kept) ↦ elim (Bool-cases (ltb_ℤ b.next_retry_ms (clock 0))) [
    | inl due ↦ rw (popped, due, take_due) (due, take_due-AllDue fuel (λ k. clock (suc k)) rest)
    | inr early ↦ rw (popped, early, take_due) tt
  ]
]

take_all-all :
    (fuel : ℕ) (h : List ProducerBatch)
    → length h ≤ fuel
    → ((take_all fuel h).1 ≡ []) × Perm (take_all fuel h).0 h
unfolding take_all
take_all-all zero [] f = (refl, Perm.refl [])
take_all-all zero (b ∷ h) f = absurd (omega arith)
take_all-all (suc fuel) h f = elim (pop_cases less h) [
  | inl (e, none_left) ↦ rw (none_left, take_all) (e, rw e (Perm.refl []))
  | inr (b, rest, popped, kept) ↦
      let (empty, all) = take_all-all fuel rest (omega (arith, length-perm kept)) in
      rw (popped, take_all) (empty, Perm.trans (Perm.cons b all) kept)
]

-- Nothing is left, or a batch that is left was not due at the reading behind the last one.
abbrev pub IsOver : (ℕ → ℤ) → List ProducerBatch → List ProducerBatch → Type 0
IsOver clock [] left =
    (left ≡ [])
    ⊎ ((b : ProducerBatch) × (rest : List ProducerBatch) × Perm left (b ∷ rest)
        × (ltb_ℤ b.next_retry_ms (clock 0) ≡ false))
IsOver clock (t ∷ taken) left = IsOver (λ k. clock (suc k)) taken left

take_due-IsOver :
    (fuel : ℕ) (clock : ℕ → ℤ) (h : List ProducerBatch)
    → length h ≤ fuel
    → let (due, left) = take_due fuel clock h in IsOver clock due left
unfolding take_due
take_due-IsOver zero clock [] f = inl refl
take_due-IsOver zero clock (b ∷ h) f = absurd (omega arith)
take_due-IsOver (suc fuel) clock h f = elim (pop_cases less h) [
  | inl (e, none_left) ↦ rw (none_left, take_due) (inl e)
  | inr (b, rest, popped, kept) ↦ elim (Bool-cases (ltb_ℤ b.next_retry_ms (clock 0))) [
    | inl due ↦
        rw (popped, due, take_due)
          (take_due-IsOver fuel (λ k. clock (suc k)) rest (omega (arith, length-perm kept)))
    | inr early ↦ rw (popped, early, take_due) (inr (b, rest, push-perm less b rest, early))
  ]
]

-- While the mover runs, `getRetryBatch` splits the queue's batches in two: each batch that it hands
-- out was due at the clock's reading of its round, and then nothing is left, or a batch that is
-- left was not due at the next reading.
pub get_retry_batch_splits :
    (clock : ℕ → ℤ) (q : RetryQueue)
    → let (taken, left) = get_retry_batch false clock q in
      Perm (taken ++ left.batch) q.batch × AllDue clock taken × IsOver clock taken left.batch
unfolding get_retry_batch
get_retry_batch_splits clock q = (
  take_due-perm (length q.batch) clock q.batch,
  take_due-AllDue (length q.batch) clock q.batch,
  take_due-IsOver (length q.batch) clock q.batch (omega arith),
)

-- At shutdown it hands out every batch and leaves the queue empty.
pub get_retry_batch_drains :
    (clock : ℕ → ℤ) (q : RetryQueue)
    → let (taken, left) = get_retry_batch true clock q in Perm taken q.batch × (left.batch ≡ [])
unfolding get_retry_batch
get_retry_batch_drains clock q =
    let (empty, all) = take_all-all (length q.batch) q.batch (omega arith) in (all, empty)
