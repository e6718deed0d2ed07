-- ===== src/Producer/Hash/BitCount.antt =====
-- producer/adjusthash.go: BitCount computes the binary logarithm of a power of two.
use native.Mathlib.Nat.{pow-suc, one-le-pow}
use native.Mathlib.Numerals.{towards_suc}
use mathlib.Core.Bool.{false}
use aliyun_log_go_sdk.Prelude.{
  ℕ, zero, suc, ◌+◌, ◌*◌, ◌/◌, ◌%◌, ◌^◌, ◌≤◌, ◌<◌, ◌≡◌, refl, ap, ◌∙◌, [], ◌∷◌, ◌++◌, ◌↔◌, inl, inr,
  Bool-cases, ◌||◌, Str, arith, ◌==◌,
}
use aliyun_log_go_sdk.Prelude.Int.{pos}
use aliyun_log_go_sdk.Producer.Hash.{format_bin, contains_byte, count_byte, tail, bit_count, bits}

contains_byte-append :
    (c : ℕ) (s t : Str) → contains_byte c (s ++ t) ≡ (contains_byte c s || contains_byte c t)
unfolding contains_byte
contains_byte-append c [] t = refl
contains_byte-append c (x ∷ s) t = ground (arith, contains_byte-append c s t)

count_byte-append : (c : ℕ) (s t : Str) → count_byte c (s ++ t) ≡ count_byte c s + count_byte c t
unfolding count_byte
count_byte-append c [] t = omega arith
count_byte-append c (x ∷ s) t = omega (arith, count_byte-append c s t)

-- A positive number's binary digits: a '1' and a rest that holds no '1' for powers of two alone.
abbrev Digits : ℕ → Str → Type 0
Digits n bin =
    (s : Str) × (bin ≡ b'1' ∷ s) × (contains_byte b'1' s ≡ false → n ≡ 2 ^ count_byte b'0' s)

double_pow : (n k : ℕ) → n ≡ 2 * 2 ^ k → n ≡ 2 ^ (k + 1)
double_pow n k e = simp towards_suc (omega arith)

Digits-grow :
    (n : ℕ) (s : Str)
    → (contains_byte b'1' s ≡ false → n / 2 ≡ 2 ^ count_byte b'0' s)
    → contains_byte b'1' (s ++ (b'0' + n % 2) ∷ []) ≡ false
    → n ≡ 2 ^ count_byte b'0' (s ++ (b'0' + n % 2) ∷ [])
unfolding contains_byte count_byte
Digits-grow n s power e =
    let last = b'0' + n % 2 in
    let split = contains_byte-append b'1' s (last ∷ []) in
    let even : n % 2 ≡ 0 = ground arith in
    let none_left : contains_byte b'1' s ≡ false = ground arith in
    let one_more : count_byte b'0' (s ++ last ∷ []) ≡ count_byte b'0' s + 1 =
      ground (arith, count_byte-append b'0' s (last ∷ [])) in
    rw one_more (double_pow n (count_byte b'0' s) (omega (arith, power none_left)))

format_bin-Digits : (f n : ℕ) → 0 < n → n ≤ f → Digits n (format_bin f n)
unfolding format_bin
format_bin-Digits zero n p h = absurd (omega arith)
format_bin-Digits (suc f) n p h = elim (Bool-cases (n / 2 == 0)) [
  | inl last ↦
      let one : n ≡ 1 = ground arith in ([], rw last (ground arith), unfold count_byte in λ _. one)
  | inr more ↦
      let (s, shape, power) = format_bin-Digits f (n / 2) (ground arith) (omega arith) in
      (s ++ (b'0' + n % 2) ∷ [], rw (more, shape), Digits-grow n s power)
]

-- The digits of 2 ^ k.
Power : ℕ → Str → Type 0
Power k bin =
    (s : Str) × (bin ≡ b'1' ∷ s) × (contains_byte b'1' s ≡ false) × (count_byte b'0' s ≡ k)

format_bin-Power : (k f n : ℕ) → n ≡ 2 ^ k → n ≤ f → Power k (format_bin f n)
unfolding format_bin Power contains_byte count_byte
format_bin-Power k zero n e h = absurd (omega (arith, one-le-pow k 2 (omega arith)))
format_bin-Power zero (suc f) n e h = ([], ground arith, refl, refl)
format_bin-Power (suc k) (suc f) n e h =
    let double = pow-suc 2 k in
    let some_left = one-le-pow k 2 (omega arith) in
    let (s, shape, clean, zeros) = format_bin-Power k f (n / 2) (omega arith) (omega arith) in
    let more : (n / 2 == 0) ≡ false = ground arith in
    let even : n % 2 ≡ 0 = omega arith in
    (
      s ++ b'0' ∷ [],
      rw (more, shape, even),
      rw (contains_byte-append b'1' s (b'0' ∷ []), clean),
      rw (count_byte-append b'0' s (b'0' ∷ []), zeros) (omega arith),
    )

bit_count-only :
    (n k : ℕ) → 0 < n → Digits n (format_bin n n) → bit_count (pos n) ≡ bits k → n ≡ 2 ^ k
unfolding bit_count count_byte
bit_count-only n k p (s, shape, power) e =
    let cut : tail (format_bin n n) ≡ s = ap tail shape in
    let zeros : count_byte b'0' (format_bin n n) ≡ 0 + count_byte b'0' s =
      ap (count_byte b'0') shape in
    let clean : contains_byte b'1' (tail (format_bin n n)) ≡ false = ground arith in
    let same : count_byte b'0' (format_bin n n) ≡ k = ground arith in
    power (rw cut at clean) ∙ ap (λ j. 2 ^ j) (omega arith)

bit_count-back : (n k : ℕ) → 0 < n → Power k (format_bin n n) → bit_count (pos n) ≡ bits k
unfolding bit_count count_byte Power
bit_count-back n k p (s, shape, clean, zeros) = rw (shape, clean) (ground arith)

-- `BitCount` succeeds exactly on the powers of two, and returns the exponent.
pub bit_count_iff : (n k : ℕ) → (bit_count (pos n) ≡ bits k) ↔ (n ≡ 2 ^ k)
unfolding bit_count
bit_count_iff zero k = (λ e. cc, λ e. absurd (omega (arith, one-le-pow k 2 (omega arith))))
bit_count_iff (suc n) k = (
  bit_count-only (suc n) k (omega arith)
      (format_bin-Digits (suc n) (suc n) (omega arith) (omega arith)),
  λ e. bit_count-back (suc n) k (omega arith) (format_bin-Power k (suc n) (suc n) e (omega arith)),
)
