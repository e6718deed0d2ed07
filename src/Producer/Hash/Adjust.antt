-- ===== src/Producer/Hash/Adjust.antt =====
-- producer/adjusthash.go: the form of an adjusted hash.
use Prim.Native.Nat.{bit_and}
use aliyun_log_go_sdk.Prelude.{
  ℕ, zero, suc, ◌+◌, ◌-◌, ◌/◌, ◌%◌, ◌≤◌, ◌<◌, ◌≡◌, refl, [], ◌∷◌, ◌++◌, Bool, true, ◌&&◌, ◌||◌, Str,
  arith, ltb, leb, ◌==◌, length, length-append, length-take, get_or, all_below, take, replicate,
}
use aliyun_log_go_sdk.Prelude.Int.{ℤ, pos_part}
use aliyun_log_go_sdk.Producer.Hash.{
  get_bit_value, to_hex, adjust_digit, adjust_loop, adjust_hash, zero32_str,
}

pub all_below_sound : (n : ℕ) (p : ℕ → Bool) (x : ℕ) → all_below n p ≡ true → x < n → p x ≡ true
all_below_sound zero p x h lt = absurd (omega arith)
all_below_sound (suc n) p x h lt = ground (arith, all_below_sound n p x)

-- '0'..'9' and 'a'..'f'
abbrev pub is_hex : ℕ → Bool
is_hex c = (leb b'0' c && leb c b'9') || (leb b'a' c && leb c b'f')

abbrev pub all_hex : Str → Bool
all_hex [] = true
all_hex (c ∷ s) = is_hex c && all_hex s

all_hex-append : (s t : Str) → all_hex s ≡ true → all_hex t ≡ true → all_hex (s ++ t) ≡ true
all_hex-append [] t hs ht = ht
all_hex-append (c ∷ s) t hs ht = ground (arith, all_hex-append s t)

all_hex-take_zeros : (n : ℕ) (k : ℕ) → all_hex (take n (replicate k b'0')) ≡ true
all_hex-take_zeros zero k = refl
all_hex-take_zeros (suc n) zero = refl
all_hex-take_zeros (suc n) (suc k) = all_hex-take_zeros n k

pub mask_table :
    all_below 16 (λ x.
      ltb (bit_and x 14) 16 && ltb (bit_and x 12) 16 && ltb (bit_and x 8) 16 && bit_and x 0 == 0)
    ≡ true
mask_table = refl

low_table : all_below 256 (λ x. bit_and x 0xF == x % 16) ≡ true
low_table = refl

pub bit_and-low : (x : ℕ) → x < 256 → bit_and x 0xF ≡ x % 16
bit_and-low x h = ground (arith, all_below_sound 256 (λ y. bit_and y 0xF == y % 16) x low_table)

get_bit_value-lt : (val bits : ℕ) → val < 16 → get_bit_value val bits < 16
unfolding get_bit_value
get_bit_value-lt val bits h = ground (
  arith,
  all_below_sound 16
      (λ x.
        ltb (bit_and x 14) 16 && ltb (bit_and x 12) 16 && ltb (bit_and x 8) 16 && bit_and x 0 == 0)
      val mask_table,
)

to_hex-hex : (x : ℕ) → x < 16 → is_hex (to_hex x) ≡ true
unfolding to_hex
to_hex-hex x h = ground arith

-- every entry is a byte
abbrev pub IsBytes : Str → Type 0
IsBytes [] = Unit {0}
IsBytes (b ∷ s) = (b < 256) × IsBytes s

pub get_or-lt : (s : Str) (i : ℕ) → IsBytes s → get_or s i 0 < 256
get_or-lt [] i h = omega arith
get_or-lt (b ∷ s) zero h = h.0
get_or-lt (b ∷ s) (suc i) h = get_or-lt s i h.1

adjust_digit-hex : (s : Str) (i buckets : ℕ) → IsBytes s → is_hex (adjust_digit s i buckets) ≡ true
unfolding adjust_digit
adjust_digit-hex s i buckets h =
    let b = get_or s (i / 2) 0 in
    let small = get_or-lt s (i / 2) h in
    let low = bit_and-low b small in
    ground (
      arith,
      to_hex-hex (get_bit_value (b / 16) buckets) (get_bit_value-lt (b / 16) buckets (omega arith)),
      to_hex-hex (get_bit_value (bit_and b 0xF) buckets)
          (get_bit_value-lt (bit_and b 0xF) buckets (omega arith)),
    )

adjust_loop-hex :
    (left : ℕ) (s : Str) (i buckets : ℕ) → IsBytes s → all_hex (adjust_loop left s i buckets) ≡ true
unfolding adjust_loop
adjust_loop-hex zero s i buckets h = refl
adjust_loop-hex (suc left) s i buckets h =
    ground (arith, adjust_digit-hex s i buckets h, adjust_loop-hex left s (i + 1) (buckets / 16) h)

length-adjust_loop :
    (left : ℕ) (s : Str) (i buckets : ℕ) → length (adjust_loop left s i buckets) ≤ left
unfolding adjust_loop
length-adjust_loop zero s i buckets = omega arith
length-adjust_loop (suc left) s i buckets =
    ground (arith, length-adjust_loop left s (i + 1) (buckets / 16))

module _ (md5 : Str → Str) (digest : (s : Str) → (length (md5 s) ≡ 16) × IsBytes (md5 s)) where
  -- For any number of buckets the result has 32 characters, and all are lower-case hex digits.
  pub adjust_hash_shape :
      (s : Str) (buckets : ℤ)
      → (length (adjust_hash md5 s buckets) ≡ 32) × (all_hex (adjust_hash md5 s buckets) ≡ true)
  unfolding adjust_hash
  adjust_hash_shape s buckets =
      let (sized, small) = digest s in
      let dest = adjust_loop (length (md5 s)) (md5 s) 0 (pos_part buckets) in
      let fits = length-adjust_loop (length (md5 s)) (md5 s) 0 (pos_part buckets) in
      (
        omega (
          arith,
          length-append dest (take (32 - length dest) zero32_str),
          length-take (32 - length dest) zero32_str,
        ),
        all_hex-append dest _ (adjust_loop-hex (length (md5 s)) (md5 s) 0 (pos_part buckets) small)
            (all_hex-take_zeros (32 - length dest) 32),
      )
