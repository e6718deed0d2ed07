-- ===== src/Producer/IoWorker/Backoff.antt =====
-- producer/io_worker.go: how long a failed batch waits.
use Prim.Native.Nat.{min}
use mathlib.Core.Path.{ap₂}
use aliyun_log_go_sdk.Prelude.{
  ℕ, ◌-◌, ◌*◌, ◌^◌, ◌≡◌, ◌≤◌, ◌<◌, refl, ap, ◌∙◌, inl, inr, true, Bool-cases, arith, if◌then◌else◌,
}
use aliyun_log_go_sdk.Prelude.Int.{ℤ, pos, ◌+ℤ◌, ◌*ℤ◌, ◌≤ℤ◌, ltb_ℤ, +ℤ_parts}
use aliyun_log_go_sdk.Producer.Batch.{ProducerBatch}
use aliyun_log_go_sdk.Producer.IoWorker.{to_int64, retry_wait_time, with_next_retry}

to_int64-small : (n : ℕ) → n < 2 ^ 63 → to_int64 (pos n) ≡ pos n
unfolding to_int64
to_int64-small n h = ground arith

to_int64-large : (n : ℕ) → 2 ^ 63 ≤ n → n < 2 ^ 64 → ltb_ℤ (to_int64 (pos n)) (pos 0) ≡ true
unfolding to_int64
to_int64-large n h k = ground arith

mul_pos : (a b : ℕ) → pos a *ℤ pos b ≡ pos (a * b)
unfolding ◌*ℤ◌
mul_pos a b = ground arith

capped :
    (now : ℤ) (w m : ℕ)
    → (if ltb_ℤ (pos w) (pos m) then now +ℤ pos w else now +ℤ pos m) ≡ now +ℤ pos (min w m)
capped now w m = elim (Bool-cases (ltb_ℤ (pos w) (pos m))) [
  | inl less ↦ let least : min w m ≡ w = ground arith in rw (less, least) refl
  | inr more ↦ let least : min w m ≡ m = ground arith in rw (more, least) refl
]

earlier :
    (now w m : ℤ)
    → ltb_ℤ w (pos 0) ≡ true
    → pos 0 ≤ℤ m
    → ltb_ℤ (if ltb_ℤ w m then now +ℤ w else now +ℤ m) now ≡ true
earlier now w m negative h = elim (Bool-cases (ltb_ℤ w m)) [
  | inl less ↦ rw less (ground (arith, +ℤ_parts now w))
  | inr more ↦ absurd (ground arith)
]

module _ (pow2 : ℕ → ℤ) (exact : (n : ℕ) → n < 63 → pow2 n ≡ pos (2 ^ n)) where
  wait_exact :
      (b : ProducerBatch) (base : ℕ)
      → b.base_retry_backoff_ms ≡ pos base
      → b.attempt_count - 1 < 63
      → retry_wait_time pow2 b ≡ to_int64 (pos (base * 2 ^ (b.attempt_count - 1)))
  unfolding retry_wait_time
  wait_exact b base eb few =
      ap₂ (λ x y. to_int64 (x *ℤ y)) eb (exact (b.attempt_count - 1) few)
      ∙ ap to_int64 (mul_pos base (2 ^ (b.attempt_count - 1)))

  -- After the n-th failed attempt a batch waits for the base time doubled n - 1 times, or for the
  -- maximum if that is less, as long as the product fits int64.
  pub next_retry_backoff :
      (b : ProducerBatch) (now_ms : ℤ) (base max : ℕ)
      → b.base_retry_backoff_ms ≡ pos base
      → b.max_retry_interval_in_ms ≡ pos max
      → b.attempt_count - 1 < 63
      → base * 2 ^ (b.attempt_count - 1) < 2 ^ 63
      → (with_next_retry pow2 now_ms b).next_retry_ms
        ≡ now_ms +ℤ pos (min (base * 2 ^ (b.attempt_count - 1)) max)
  unfolding with_next_retry
  next_retry_backoff b now_ms base max eb em few fits =
      let wait =
        wait_exact b base eb few ∙ to_int64-small (base * 2 ^ (b.attempt_count - 1)) fits in
      ap₂ (λ w m. if ltb_ℤ w m then now_ms +ℤ w else now_ms +ℤ m) wait em
      ∙ capped now_ms (base * 2 ^ (b.attempt_count - 1)) max

  -- Where the product is past int64 but not past 64 bits the wait is negative, so that the batch
  -- is due at once.
  pub next_retry_overflow :
      (b : ProducerBatch) (now_ms : ℤ) (base : ℕ)
      → b.base_retry_backoff_ms ≡ pos base
      → pos 0 ≤ℤ b.max_retry_interval_in_ms
      → b.attempt_count - 1 < 63
      → 2 ^ 63 ≤ base * 2 ^ (b.attempt_count - 1)
      → base * 2 ^ (b.attempt_count - 1) < 2 ^ 64
      → ltb_ℤ (with_next_retry pow2 now_ms b).next_retry_ms now_ms ≡ true
  unfolding with_next_retry
  next_retry_overflow b now_ms base eb em few big fits =
      let wait = wait_exact b base eb few in
      let negative =
        ap (λ w. ltb_ℤ w (pos 0)) wait
        ∙ to_int64-large (base * 2 ^ (b.attempt_count - 1)) big fits in
      earlier now_ms (retry_wait_time pow2 b) b.max_retry_interval_in_ms negative em
