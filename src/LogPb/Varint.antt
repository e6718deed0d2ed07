-- ===== src/LogPb/Varint.antt =====
-- log.pb.go: the varint writer against its size and against the reader.
use native.Mathlib.Nat.{pow-suc}
use native.Mathlib.Numerals.{towards_suc}
use aliyun_log_go_sdk.Prelude.{
  ℕ, zero, suc, ◌+◌, ◌*◌, ◌/◌, ◌%◌, ◌^◌, ◌≤◌, ◌<◌, ◌≡◌, refl, ap, ◌∙◌, ◌∷◌, ◌++◌, inl, inr,
  Bool-cases, Str, arith, leb, length,
}
use aliyun_log_go_sdk.LogPb.{
  len64, or_one, sov_log, encode_varint_log, decode_bytes, decode_varint_log, done,
}

len64-or_one : (n x : ℕ) → 0 < x → len64 n (or_one x) ≡ len64 n x
unfolding len64
len64-or_one zero x h = refl
len64-or_one (suc n) x h = let half : or_one x / 2 ≡ x / 2 = omega arith in rw half (ground arith)

-- Seven bits less for a number of more than seven bits.
len64-septet : (n x : ℕ) → 64 ≤ x → len64 (n + 7) x ≡ 7 + len64 n (x / 128)
unfolding len64
len64-septet n x h =
    let folded : x / 2 / 2 / 2 / 2 / 2 / 2 / 2 ≡ x / 128 = omega arith in
    simp towards_suc (ground (arith, folded))

len64-le : (k n x : ℕ) → x < 2 ^ k → len64 n x ≤ k
unfolding len64
len64-le k zero x h = omega arith
len64-le zero (suc n) x h = ground arith
len64-le (suc k) (suc n) x h = ground (arith, len64-le k n (x / 2) (omega (arith, pow-suc 2 k)))

len64-pos : (n x : ℕ) → 0 < x → 0 < len64 (suc n) x
unfolding len64
len64-pos n x h = ground arith

-- The writer's bytes counted with the bits of a writer of 7 f + 1 bits.
length-encode :
    (f v : ℕ)
    → v < 2 * 128 ^ f
    → length (encode_varint_log f v) ≡ (len64 (f * 7 + 1) (or_one v) + 6) / 7
unfolding encode_varint_log
length-encode zero v h =
    let few = len64-le 1 1 (or_one v) (omega arith) in
    omega (arith, len64-pos 0 (or_one v) (omega arith))
length-encode (suc f) v h = elim (Bool-cases (leb 128 v)) [
  | inl long ↦
      let big : 128 ≤ v = ground arith in
      let rest = length-encode f (v / 128) (omega (arith, pow-suc 128 f)) in
      let odd : len64 (f * 7 + 1) (or_one (v / 128)) ≡ len64 (f * 7 + 1) (v / 128) =
        len64-or_one (f * 7 + 1) (v / 128) (omega arith) in
      let same : or_one v / 128 ≡ v / 128 = omega arith in
      let shift = len64-septet (f * 7 + 1) (or_one v) (omega arith) in
      let fuel : suc f * 7 + 1 ≡ f * 7 + 1 + 7 = omega arith in
      rw (long, fuel, shift, same) (omega arith)
  | inr short ↦
      let small : v < 128 = ground arith in
      let few = len64-le 7 (suc f * 7 + 1) (or_one v) (omega arith) in
      let fuel : suc f * 7 + 1 ≡ suc (suc f * 7) = omega arith in
      let some_bit = len64-pos (suc f * 7) (or_one v) (omega arith) in
      rw short (omega (arith, ap (λ n. len64 n (or_one v)) fuel))
]

-- `encodeVarintLog` writes exactly the `sovLog(v)` bytes by which it has moved the offset back.
pub length-encode_varint_log : (v : ℕ) → v < 2 ^ 64 → length (encode_varint_log 9 v) ≡ sov_log v
unfolding sov_log
length-encode_varint_log v h = length-encode 9 v h

decode_bytes-more :
    (f b v : ℕ) (s r : Str)
    → 128 ≤ b
    → decode_bytes f s ≡ done (v, r)
    → decode_bytes (suc f) (b ∷ s) ≡ done (b % 128 + 128 * v, r)
unfolding decode_bytes
decode_bytes-more f b v s r h e = rw e (ground arith)

encode-decode :
    (f v : ℕ) (s : Str)
    → v < 2 * 128 ^ f
    → decode_bytes (suc f) (encode_varint_log f v ++ s) ≡ done (v, s)
unfolding encode_varint_log
encode-decode zero v s h = unfold decode_bytes in ground arith
encode-decode (suc f) v s h = elim (Bool-cases (leb 128 v)) [
  | inl long ↦
      let rest = encode-decode f (v / 128) s (omega (arith, pow-suc 128 f)) in
      let whole : (v % 128 + 128) % 128 + 128 * (v / 128) ≡ v = omega arith in
      rw long (
        decode_bytes-more (suc f) (v % 128 + 128) (v / 128) (encode_varint_log f (v / 128) ++ s) s
          (omega arith) rest
        ∙ ap (λ n. done (n, s)) whole)
  | inr short ↦ rw short (unfold decode_bytes in ground arith)
]

-- Reading back what was written returns the number and the bytes that follow it.
pub decode_varint_log-encode_varint_log :
    (v : ℕ) (s : Str) → v < 2 ^ 64 → decode_varint_log (encode_varint_log 9 v ++ s) ≡ done (v, s)
unfolding decode_varint_log
decode_varint_log-encode_varint_log v s h = rw (encode-decode 9 v s h) (ground arith)
