-- ===== src/Producer/Hash/Agreement.antt =====
-- producer/adjusthash.go: where AdjustHashOld agrees with AdjustHash.
use aliyun_log_go_sdk.Prelude.{
  ℕ, zero, suc, ◌+◌, ◌*◌, ◌/◌, ◌%◌, ◌^◌, ◌≤◌, ◌<◌, ◌≡◌, refl, ap, ◌∙◌, List, [], ◌∷◌, ◌++◌, Bool,
  true, ◌↔◌, ◌⊎◌, ◌&&◌, ◌||◌, Str, str_eq, str_eq_iff, arith, ltb, leb, ◌==◌, ==_iff, if◌then◌else◌,
  length, all_below, take,
}
use aliyun_log_go_sdk.Prelude.Int.{pos}
use aliyun_log_go_sdk.Producer.Hash.{
  to_hex, hex_encode, hex_decode, hex_value, to_md5, md5_to_bin, bin_bytes, byte_bits,
  parse_int_2_10, fill_zero, format_hex_9, adjust_hash, adjust_hash_old, hashed,
}
use aliyun_log_go_sdk.Producer.Hash.Adjust.{all_below_sound}
use aliyun_log_go_sdk.Producer.Hash.Buckets.{keep_high, hash_of_byte, adjust_hash-buckets}
use aliyun_log_go_sdk.Producer.Hash.BitCount.{bit_count_iff}

abbrev hex_ok : ℕ → Bool
hex_ok b = hex_value (to_hex (b / 16)) * 16 + hex_value (to_hex (b % 16)) == b

hex_table : all_below 256 hex_ok ≡ true
unfolding to_hex
hex_table = refl

-- The number that the old hash parses is the same truncated byte.
abbrev value_ok : ℕ → ℕ → Bool
value_ok k b = parse_int_2_10 (fill_zero (take k (byte_bits b)) 8) == keep_high k b

value_table : all_below 9 (λ k. all_below 256 (value_ok k)) ≡ true
unfolding parse_int_2_10 fill_zero
value_table = refl

value_fact :
    (k b : ℕ)
    → k < 9
    → b < 256
    → parse_int_2_10 (fill_zero (take k (byte_bits b)) 8) ≡ keep_high k b
value_fact k b hk hb = (==_iff _ (keep_high k b)).0 (
    all_below_sound 256 (value_ok k) b
      (all_below_sound 9 (λ j. all_below 256 (value_ok j)) k value_table hk) hb)

agrees : ℕ → Bool
agrees m = str_eq (fill_zero (format_hex_9 m) 32) (hash_of_byte m)

abbrev agrees_ok : ℕ → Bool
agrees_ok m = if agrees m then m == 0 || leb 16 m else leb 1 m && ltb m 16

agrees_table : all_below 256 agrees_ok ≡ true
unfolding agrees str_eq fill_zero format_hex_9
agrees_table = refl

agrees_iff :
    (m : ℕ) → m < 256 → (fill_zero (format_hex_9 m) 32 ≡ hash_of_byte m) ↔ ((m ≡ 0) ⊎ (16 ≤ m))
unfolding agrees
agrees_iff m h =
    let fact = all_below_sound 256 agrees_ok m agrees_table h in
    let same = str_eq_iff (fill_zero (format_hex_9 m) 32) (hash_of_byte m) in
    (λ e. ground (arith, same.1 e), λ e. same.0 (ground arith))

take-append {ℓ} :
    {A : Type ℓ} (k : ℕ) (xs ys : List A) → k ≤ length xs → take k (xs ++ ys) ≡ take k xs
take-append zero xs ys h = refl
take-append (suc k) [] ys h = absurd (omega arith)
take-append (suc k) (x ∷ xs) ys h = ap (◌∷◌ x) (take-append k xs ys (omega arith))

-- The old hash parses the digest's hexadecimal text back: the bits of its first byte come first.
md5_to_bin-first :
    (md5 : Str → Str) (s : Str) (b : ℕ) (r : Str)
    → md5 s ≡ b ∷ r
    → b < 256
    → md5_to_bin (to_md5 md5 s) ≡ byte_bits b ++ bin_bytes (hex_decode (hex_encode r))
unfolding md5_to_bin to_md5 hex_encode hex_decode
md5_to_bin-first md5 s b r digest hb = rw digest (
    ap (λ c. byte_bits c ++ bin_bytes (hex_decode (hex_encode r)))
      ((==_iff _ b).0 (all_below_sound 256 hex_ok b hex_table hb)))

hashed_inj : {x y : Str} → hashed x ≡ hashed y → x ≡ y
hashed_inj e = cc

module _ (md5 : Str → Str) (s : Str) (k b c : ℕ) (r : Str) (digest : md5 s ≡ b ∷ c ∷ r) (hk : k < 9)
    (hb : b < 256) where
  adjust_hash_old-buckets :
      adjust_hash_old md5 s (pos (2 ^ k)) ≡ hashed (fill_zero (format_hex_9 (keep_high k b)) 32)
  unfolding adjust_hash_old
  adjust_hash_old-buckets =
      rw ((bit_count_iff (2 ^ k) k).1 refl, adjust_hash_old)
        (rw (md5_to_bin-first md5 s b (c ∷ r) digest hb) (
          ap (λ t. hashed (fill_zero (format_hex_9 (parse_int_2_10 (fill_zero t 8))) 32))
            (take-append k (byte_bits b) (bin_bytes (hex_decode (hex_encode (c ∷ r))))
              (omega arith))
          ∙ ap (λ m. hashed (fill_zero (format_hex_9 m) 32)) (value_fact k b hk hb)))

  -- For 2 ^ k buckets, k at most 8, the two hashes are equal exactly if the first byte of the
  -- digest, with all but its k high bits cleared, is zero or at least 16.
  pub adjust_hash_old_iff :
      length r ≡ 14
      → c < 256
      → (adjust_hash_old md5 s (pos (2 ^ k)) ≡ hashed (adjust_hash md5 s (pos (2 ^ k))))
        ↔ ((keep_high k b ≡ 0) ⊎ (16 ≤ keep_high k b))
  adjust_hash_old_iff sized hc =
      let kept = agrees_iff (keep_high k b) (grind arith) in
      rw (adjust_hash_old-buckets, adjust_hash-buckets md5 s k b c r digest sized hk hb hc)
        (λ e. kept.0 (hashed_inj e), λ e. ap hashed (kept.1 e))
