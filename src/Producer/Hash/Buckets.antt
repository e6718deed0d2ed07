-- ===== src/Producer/Hash/Buckets.antt =====
-- producer/adjusthash.go: which hash `AdjustHash` returns for a power of two of buckets.
use Prim.Native.Nat.{bit_and}
use aliyun_log_go_sdk.Prelude.{
  ℕ, zero, suc, ◌-◌, ◌*◌, ◌/◌, ◌%◌, ◌^◌, ◌<◌, ◌≡◌, refl, ◌∷◌, ◌++◌, Bool, true, ◌&&◌, Str, arith,
  leb, ◌==◌, ==_iff, if◌then◌else◌, length, all_below, take, replicate,
}
use aliyun_log_go_sdk.Prelude.Int.{pos}
use aliyun_log_go_sdk.Producer.Hash.{
  get_bit_value, to_hex, adjust_digit, adjust_loop, adjust_hash, zero32_str,
}
use aliyun_log_go_sdk.Producer.Hash.Adjust.{all_below_sound, bit_and-low}

-- The first byte of a digest with all but its `k` high bits cleared.
abbrev pub keep_high : ℕ → ℕ → ℕ
keep_high k b = b / 2 ^ (8 - k) * 2 ^ (8 - k)

-- A byte as the first two digits of a hash, the other thirty being zeros.
abbrev pub hash_of_byte : ℕ → Str
hash_of_byte m = to_hex (m / 16) ∷ to_hex (m % 16) ∷ replicate 30 b'0'

-- What the two digits of a byte have to be, `low` being the nibble that `b & 0xF` gives.
abbrev digits_ok : ℕ → ℕ → Bool
digits_ok k b =
    to_hex (get_bit_value (b / 16) (2 ^ k)) == to_hex (keep_high k b / 16)
    && (if leb 4 k then to_hex (get_bit_value (b % 16) (2 ^ k / 16)) else b'0')
      == to_hex (keep_high k b % 16)

digits_table : all_below 9 (λ k. all_below 256 (digits_ok k)) ≡ true
unfolding to_hex get_bit_value
digits_table = refl

zero_table : all_below 16 (λ x. to_hex (get_bit_value x 1) == b'0') ≡ true
unfolding to_hex get_bit_value
zero_table = refl

facts :
    (k b c : ℕ)
    → k < 9
    → b < 256
    → c < 256
    → (digits_ok k b ≡ true) × (bit_and b 0xF ≡ b % 16) × (to_hex (get_bit_value (c / 16) 1) ≡ b'0')
facts k b c hk hb hc = (
  all_below_sound 256 (digits_ok k) b
      (all_below_sound 9 (λ j. all_below 256 (digits_ok j)) k digits_table hk) hb,
  bit_and-low b hb,
  (==_iff _ b'0').0 (
      all_below_sound 16 (λ x. to_hex (get_bit_value x 1) == b'0') (c / 16) zero_table
        (omega arith)),
)

abbrev padded : Str → Str
padded dest_buf = dest_buf ++ take (32 - length dest_buf) zero32_str

adjust_loop-buckets :
    (k b c : ℕ) (r : Str)
    → k < 9
    → b < 256
    → c < 256
    → padded (adjust_loop 16 (b ∷ c ∷ r) 0 (2 ^ k)) ≡ hash_of_byte (keep_high k b)
unfolding adjust_loop adjust_digit
adjust_loop-buckets zero b c r hk hb hc = ground (arith, facts 0 b c hk hb hc)
adjust_loop-buckets (suc zero) b c r hk hb hc = ground (arith, facts 1 b c hk hb hc)
adjust_loop-buckets (suc (suc zero)) b c r hk hb hc = ground (arith, facts 2 b c hk hb hc)
adjust_loop-buckets (suc (suc (suc zero))) b c r hk hb hc = ground (arith, facts 3 b c hk hb hc)
adjust_loop-buckets (suc (suc (suc (suc zero)))) b c r hk hb hc =
    ground (arith, facts 4 b c hk hb hc)
adjust_loop-buckets (suc (suc (suc (suc (suc zero))))) b c r hk hb hc =
    ground (arith, facts 5 b c hk hb hc)
adjust_loop-buckets (suc (suc (suc (suc (suc (suc zero)))))) b c r hk hb hc =
    ground (arith, facts 6 b c hk hb hc)
adjust_loop-buckets (suc (suc (suc (suc (suc (suc (suc zero))))))) b c r hk hb hc =
    ground (arith, facts 7 b c hk hb hc)
adjust_loop-buckets (suc (suc (suc (suc (suc (suc (suc (suc zero)))))))) b c r hk hb hc =
    ground (arith, facts 8 b c hk hb hc)
adjust_loop-buckets (suc (suc (suc (suc (suc (suc (suc (suc (suc x))))))))) b c r hk hb hc =
    absurd (omega arith)

-- For 2 ^ k buckets, k at most 8, a hash is the first byte of the digest with all but its k high
-- bits cleared, as two digits, and thirty zeros.
pub adjust_hash-buckets :
    (md5 : Str → Str) (s : Str) (k b c : ℕ) (r : Str)
    → md5 s ≡ b ∷ c ∷ r
    → length r ≡ 14
    → k < 9
    → b < 256
    → c < 256
    → adjust_hash md5 s (pos (2 ^ k)) ≡ hash_of_byte (keep_high k b)
unfolding adjust_hash
adjust_hash-buckets md5 s k b c r digest sized hk hb hc =
    rw (digest, sized) (adjust_loop-buckets k b c r hk hb hc)
