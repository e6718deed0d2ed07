-- ===== src/Producer/Send/Waiting.antt =====
-- producer/producer.go: how long a Send method waits for memory to become free.
use mathlib.Core.Bool.{true}
use aliyun_log_go_sdk.Prelude.{ℕ, zero, suc, ◌≡◌, ◌<◌, refl, ◌↔◌, inl, inr, some, Bool-cases, arith}
use aliyun_log_go_sdk.Prelude.Int.{ℤ, pos, negsuc, ltb_ℤ, ◌≤ℤ◌}
use aliyun_log_go_sdk.Producer.Config.{ProducerConfig}
use aliyun_log_go_sdk.Producer.Send.{wait_loop, wait_time}

abbrev pub FreeBy : ℕ → (ℕ → ℤ) → ℤ → Type 0
FreeBy seconds size limit = (k : ℕ) × (k < seconds) × (size k ≤ℤ limit)

loop-FreeBy :
    (n : ℕ) (size : ℕ → ℤ) (limit : ℤ) → wait_loop n size limit ≡ true → FreeBy n size limit
unfolding wait_loop
loop-FreeBy zero size limit h = absurd (ground arith)
loop-FreeBy (suc n) size limit h = elim (Bool-cases (ltb_ℤ limit (size 0))) [
  | inl large ↦
      let (k, lt, free) = loop-FreeBy n (λ k. size (suc k)) limit (ground arith) in
      (suc k, omega arith, free)
  | inr small ↦ (0, omega arith, ground arith)
]

FreeBy-loop :
    (n : ℕ) (size : ℕ → ℤ) (limit : ℤ) → FreeBy n size limit → wait_loop n size limit ≡ true
unfolding wait_loop
FreeBy-loop zero size limit (k, lt, free) = absurd (omega arith)
FreeBy-loop (suc n) size limit (zero, lt, free) = ground arith
FreeBy-loop (suc n) size limit (suc k, lt, free) =
    let later = FreeBy-loop n (λ k. size (suc k)) limit (k, omega arith, free) in ground arith

-- How often the size is read before a Send method gives up.
abbrev pub rounds : ℕ → ℤ → ℕ
rounds patience (pos zero) = 1
rounds patience (pos (suc n)) = suc n
rounds patience (negsuc n) = patience

wait_by :
    (patience : ℕ) (size : ℕ → ℤ) (c : ProducerConfig) (sec : ℤ)
    → c.max_block_sec ≡ sec
    → (wait_time patience size c ≡ some true)
      ↔ (wait_loop (rounds patience sec) size c.total_size_ln_bytes ≡ true)
unfolding wait_time wait_loop
wait_by patience size c (pos zero) e = rw (e, wait_time) (ground arith)
wait_by patience size c (pos (suc n)) e = rw (e, wait_time) (ground arith)
wait_by patience size c (negsuc n) e = rw (e, wait_time) (ground arith)

-- `waitTime` lets a log through just when one of its readings of the producer's size is at most
-- TotalSizeLnBytes: one reading when MaxBlockSec is 0, that many when it is positive, and
-- as many as there is patience for when it is negative.
pub wait_time_iff :
    (patience : ℕ) (size : ℕ → ℤ) (c : ProducerConfig)
    → (wait_time patience size c ≡ some true)
      ↔ FreeBy (rounds patience c.max_block_sec) size c.total_size_ln_bytes
wait_time_iff patience size c =
    let (there, back) = wait_by patience size c c.max_block_sec refl in
    (
      λ h. loop-FreeBy _ size c.total_size_ln_bytes (there h),
      λ free. back (FreeBy-loop _ size c.total_size_ln_bytes free),
    )
