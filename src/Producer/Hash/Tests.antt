-- ===== src/Producer/Hash/Tests.antt =====
-- producer/adjusthash.go and producer/adjusthash_test.go: the hashes of two addresses.
use aliyun_log_go_sdk.Prelude.{◌^◌, ◌≤◌, ◌≡◌, refl, [], ◌∷◌, ◌↔◌, ◌⊎◌, Str, bytes, arith, replicate}
use aliyun_log_go_sdk.Prelude.Int.{pos, negsuc}
use aliyun_log_go_sdk.Producer.Hash.{
  to_md5, md5_to_bin, parse_int_2_10, fill_zero, format_hex_9, adjust_hash, bit_count,
  not_power_of_two, adjust_hash_old, hashed,
}
use aliyun_log_go_sdk.Producer.Hash.Buckets.{keep_high, hash_of_byte, adjust_hash-buckets}
use aliyun_log_go_sdk.Producer.Hash.Agreement.{adjust_hash_old_iff}

-- The digests of "127.0.0.1" and of the other address of the test, each as the whole of md5.
abbrev localhost_rest : Str
localhost_rest =
    0x76 ∷ 0x4d ∷ 0x62 ∷ 0x4d ∷ 0xb1 ∷ 0x29 ∷ 0xb3 ∷ 0x2c ∷ 0x21 ∷ 0xfb ∷ 0xca ∷ 0x0c ∷ 0xb8 ∷ 0xd6
    ∷ []

abbrev localhost_md5 : Str → Str
localhost_md5 s = 0xf5 ∷ 0x28 ∷ localhost_rest

abbrev low_md5 : Str → Str
low_md5 s = 0x0b ∷ 0x28 ∷ localhost_rest

adjust_hash_64 :
    adjust_hash localhost_md5 (bytes "127.0.0.1") (pos 64)
    ≡ bytes "f4000000000000000000000000000000"
unfolding adjust_hash
adjust_hash_64 = refl

adjust_hash_negative : adjust_hash localhost_md5 (bytes "127.0.0.1") (negsuc 4) ≡ replicate 32 b'0'
unfolding adjust_hash
adjust_hash_negative = refl

old_drops_zero :
    adjust_hash_old low_md5 [] (pos 256) ≡ hashed (bytes "b0000000000000000000000000000000")
unfolding adjust_hash_old to_md5 md5_to_bin bit_count fill_zero parse_int_2_10 format_hex_9
old_drops_zero = refl

new_keeps_zero : adjust_hash low_md5 [] (pos 256) ≡ bytes "0b000000000000000000000000000000"
unfolding adjust_hash
new_keeps_zero = refl

bit_count_7 : bit_count (pos 7) ≡ not_power_of_two (pos 7)
unfolding bit_count
bit_count_7 = refl

adjust_hash-buckets_example :
    adjust_hash localhost_md5 [] (pos (2 ^ 5)) ≡ hash_of_byte (keep_high 5 0xf5)
adjust_hash-buckets_example =
    adjust_hash-buckets localhost_md5 [] 5 0xf5 0x28 localhost_rest refl refl (omega arith)
      (omega arith) (omega arith)

adjust_hash_old_iff_example :
    (adjust_hash_old low_md5 [] (pos (2 ^ 8)) ≡ hashed (adjust_hash low_md5 [] (pos (2 ^ 8))))
    ↔ ((keep_high 8 0x0b ≡ 0) ⊎ (16 ≤ keep_high 8 0x0b))
adjust_hash_old_iff_example =
    adjust_hash_old_iff low_md5 [] 8 0x0b 0x28 localhost_rest refl (omega arith) (omega arith) refl
      (omega arith)
