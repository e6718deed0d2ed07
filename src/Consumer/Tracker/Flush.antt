-- ===== src/Consumer/Tracker/Flush.antt =====
-- consumer/checkpoint_tracker.go: what a flush leaves behind.
use mathlib.Core.Bool.{true, false}
use aliyun_log_go_sdk.Prelude.{
  Bool, [], ℕ, zero, suc, ◌≡◌, ◌≤◌, refl, ◌⊎◌, inl, inr, Option, none, some, Bool-cases, arith,
}
use aliyun_log_go_sdk.Producer.IoWorker.{Err}
use aliyun_log_go_sdk.Consumer.Tracker.{
  DefaultCheckPointTracker, gone, FlushEnd, written, removed, failed, after_update, flush_loop,
}

-- Up to this answer, every one was an error that is tried again.
abbrev pub Retried : (ℕ → Option Err) → ℕ → Type 0
Retried answers n = (k : ℕ) → suc k ≤ n → (e : Err) × (answers k ≡ some e) × (gone e ≡ false)

-- How the loop of at most n + 1 rounds ends, by the answers.
abbrev pub Ends : ℕ → (ℕ → Option Err) → FlushEnd → Type 0
Ends n answers written = (k : ℕ) × (k ≤ n) × Retried answers k × (answers k ≡ none)
Ends n answers removed =
    (k : ℕ) × (k ≤ n) × Retried answers k × ((e : Err) × (answers k ≡ some e) × (gone e ≡ true))
Ends n answers (failed err) = Retried answers (suc n) × (answers n ≡ some err)

later :
    (answers : ℕ → Option Err) (e : Err)
    → answers 0 ≡ some e
    → gone e ≡ false
    → (k : ℕ) → Retried (λ i. answers (suc i)) k
    → Retried answers (suc k)
later answers e now again k rest zero h = (e, now, again)
later answers e now again k rest (suc i) h = rest i (omega arith)

later-Ends :
    (answers : ℕ → Option Err) (e : Err) (n : ℕ)
    → answers 0 ≡ some e
    → gone e ≡ false
    → (f : FlushEnd) → Ends n (λ i. answers (suc i)) f
    → Ends (suc n) answers f
later-Ends answers e n now again written (k, at_most, rest, ok) =
    (suc k, omega arith, later answers e now again k rest, ok)
later-Ends answers e n now again removed (k, at_most, rest, ok) =
    (suc k, omega arith, later answers e now again k rest, ok)
later-Ends answers e n now again (failed err) (rest, last) =
    (later answers e now again (suc n) rest, last)

at_once : (answers : ℕ → Option Err) → Retried answers 0
at_once answers k h = absurd (omega arith)

first-Ends :
    (n : ℕ) (answers : ℕ → Option Err) (a : Option Err) (again : Err → FlushEnd)
    → answers 0 ≡ a
    → ((e : Err) → a ≡ some e → gone e ≡ false → Ends n answers (again e))
    → Ends n answers (after_update a again)
unfolding after_update
first-Ends n answers none again now next = (0, omega arith, at_once answers, now)
first-Ends n answers (some err) again now next = elim (Bool-cases (gone err)) [
  | inl over ↦ rw over (0, omega arith, at_once answers, (err, now, over))
  | inr on ↦ rw on (next err refl on)
]

pub flush_loop-Ends : (n : ℕ) (answers : ℕ → Option Err) → Ends n answers (flush_loop n answers)
unfolding flush_loop
flush_loop-Ends zero answers =
    first-Ends zero answers (answers 0) _ refl
      (λ e now on. (later answers e now on 0 (at_once (λ i. answers (suc i))), now))
flush_loop-Ends (suc n) answers =
    first-Ends (suc n) answers (answers 0) _ refl
      (λ e now on. later-Ends answers e n now on _ (flush_loop-Ends n (λ k. answers (suc k))))

-- The answer that ended the loop without an error: the update was made, or the shard is gone.
abbrev pub Settled : (ℕ → Option Err) → ℕ → Type 0
Settled answers k = (answers k ≡ none) ⊎ ((e : Err) × (answers k ≡ some e) × (gone e ≡ true))

abbrev pub FlushResult :
    (ℕ → Option Err) → DefaultCheckPointTracker → Option Err × DefaultCheckPointTracker → Type 0
FlushResult answers t (none, u) =
    ((t.pending_check_point ≡ []) ⊎ (u.saved_check_point ≡ t.pending_check_point))
    × ((u ≡ t) ⊎ ((k : ℕ) × (k ≤ 2) × Retried answers k × Settled answers k))
FlushResult answers t (some err, u) = (u ≡ t) × Retried answers 3 × (answers 2 ≡ some err)
