-- ===== src/Producer/Hash.antt =====
-- producer/adjusthash.go: the shard hash of a log, cut down to one of `buckets` values.
-- crypto/md5 is a parameter; a byte and a nibble are numbers; `int` fits 63 bits, so a
-- negative `buckets` reads as 0 in the loop's test `buckets > 0`.
pub mod Adjust
pub mod Buckets
pub mod BitCount
pub mod Agreement
mod Tests
use Prim.Native.Nat.{bit_and}
use aliyun_log_go_sdk.Prelude.{
  ℕ, zero, suc, ◌+◌, ◌-◌, ◌*◌, ◌/◌, ◌%◌, List, [], ◌∷◌, ◌++◌, Bool, true, false, ◌||◌, Str, ltb,
  leb, ◌==◌, if◌then◌else◌, length, get_or, take, replicate,
}
use aliyun_log_go_sdk.Prelude.Int.{ℤ, pos, negsuc, pos_part}

-- `zero32Str`
abbrev pub zero32_str : Str
zero32_str = replicate 32 b'0'

unfoldable pub to_hex : ℕ → ℕ
to_hex x = if ltb x 10 then b'0' + x else (b'a' - 10 + x) % 256

unfoldable pub get_bit_value : ℕ → ℕ → ℕ
get_bit_value val bits =
    if leb 16 bits
    then val
    else if leb 8 bits
    then bit_and val (0xf - 1)
    else if leb 4 bits
    then bit_and val (0xf - 3)
    else if leb 2 bits
    then bit_and val (0xf - 7)
    else bit_and val (0xf - 15)

-- One digit of the loop: the high nibble of a byte at an even `i`, the low one at an odd `i`.
unfoldable pub adjust_digit : Str → ℕ → ℕ → ℕ
unfolding to_hex get_bit_value
adjust_digit cipher_str i buckets =
    let byte = get_or cipher_str (i / 2) 0 in
    if i % 2 == 0
    then to_hex (get_bit_value (byte / 16) buckets)
    else to_hex (get_bit_value (bit_and byte 0xF) buckets)

-- The `for` loop; the first argument is `len(cipherStr) - i`.
unfoldable pub adjust_loop : ℕ → Str → ℕ → ℕ → Str
unfolding adjust_digit
adjust_loop zero cipher_str i buckets = []
adjust_loop (suc left) cipher_str i buckets =
    if ltb 0 buckets
    then adjust_digit cipher_str i buckets ∷ adjust_loop left cipher_str (i + 1) (buckets / 16)
    else []

-- binary digits of a number, most significant first: `strconv.FormatInt(n, 2)` for 0 ≤ n
unfoldable pub format_bin : ℕ → ℕ → Str
format_bin zero n = (b'0' + n % 2) ∷ []
format_bin (suc fuel) n =
    let rest = format_bin fuel (n / 2) in
    if n / 2 == 0 then (b'0' + n % 2) ∷ [] else rest ++ (b'0' + n % 2) ∷ []

-- `strings.Contains(s, "1")` and `strings.Count(s, "0")`
unfoldable pub contains_byte : ℕ → Str → Bool
contains_byte c [] = false
contains_byte c (x ∷ s) = x == c || contains_byte c s

unfoldable pub count_byte : ℕ → Str → ℕ
count_byte c [] = 0
count_byte c (x ∷ s) = (if x == c then 1 else 0) + count_byte c s

abbrev pub tail : Str → Str
tail [] = []
tail (x ∷ s) = s

-- The error of `BitCount` is a formatted text; the model keeps the bucket number that it cites.
pub data BitCountResult : Type 0 where
  bits : ℕ → BitCountResult
  not_power_of_two : ℤ → BitCountResult

-- `BitCount`; at a negative number the first character of the text is the sign.
unfoldable pub bit_count : ℤ → BitCountResult
unfolding format_bin contains_byte count_byte
bit_count (negsuc n) = not_power_of_two (negsuc n)
bit_count (pos n) =
    let bin = format_bin n n in
    if contains_byte b'1' (tail bin) || n == 0
    then not_power_of_two (pos n)
    else bits (count_byte b'0' bin)

-- `FillZero` on ASCII text
unfoldable pub fill_zero : Str → ℕ → Str
fill_zero x n = x ++ replicate (n - length x) b'0'

-- encoding/hex
unfoldable pub hex_encode : Str → Str
unfolding to_hex
hex_encode [] = []
hex_encode (b ∷ s) = to_hex (b / 16) ∷ to_hex (b % 16) ∷ hex_encode s

abbrev pub hex_value : ℕ → ℕ
hex_value c = if leb c b'9' then c - b'0' else c - b'a' + 10

-- `hex.DecodeString` of lower-case hex digits
unfoldable pub hex_decode : Str → Str
hex_decode [] = []
hex_decode (x ∷ []) = []
hex_decode (x ∷ y ∷ s) = (hex_value x * 16 + hex_value y) ∷ hex_decode s

-- `%.8b`
abbrev pub byte_bits : ℕ → Str
byte_bits b =
    (b'0' + b / 128 % 2)
    ∷ (b'0' + b / 64 % 2)
    ∷ (b'0' + b / 32 % 2)
    ∷ (b'0' + b / 16 % 2)
    ∷ (b'0' + b / 8 % 2)
    ∷ (b'0' + b / 4 % 2)
    ∷ (b'0' + b / 2 % 2)
    ∷ (b'0' + b % 2)
    ∷ []

abbrev bin_bytes : Str → Str
bin_bytes [] = []
bin_bytes (b ∷ s) = byte_bits b ++ bin_bytes s

-- `Md5ToBin`
unfoldable pub md5_to_bin : Str → Str
unfolding hex_decode
md5_to_bin md5_hex = bin_bytes (hex_decode md5_hex)

-- `strconv.ParseInt(s, 2, 10)` of a text of binary digits, its range error ignored: the value is
-- held to a signed integer of ten bits.
abbrev pub parse_bin_from : ℕ → Str → ℕ
parse_bin_from acc [] = acc
parse_bin_from acc (c ∷ s) = parse_bin_from (acc * 2 + (c - b'0')) s

unfoldable pub parse_int_2_10 : Str → ℕ
parse_int_2_10 s = if ltb (parse_bin_from 0 s) 512 then parse_bin_from 0 s else 511

-- `strconv.FormatInt(base, 16)` for 0 ≤ base < 512
unfoldable pub format_hex_9 : ℕ → Str
unfolding to_hex
format_hex_9 n =
    if ltb n 16
    then to_hex n ∷ []
    else if ltb n 256
    then to_hex (n / 16) ∷ to_hex (n % 16) ∷ []
    else to_hex (n / 256) ∷ to_hex (n / 16 % 16) ∷ to_hex (n % 16) ∷ []

pub data OldHash : Type 0 where
  hashed : Str → OldHash
  refused : BitCountResult → OldHash

module _ (md5 : Str → Str) where
  -- `AdjustHash`; its error is always nil.
  unfoldable pub adjust_hash : Str → ℤ → Str
  unfolding adjust_loop
  adjust_hash shardhash buckets =
      let cipher_str = md5 shardhash in
      let dest_buf = adjust_loop (length cipher_str) cipher_str 0 (pos_part buckets) in
      dest_buf ++ take (32 - length dest_buf) zero32_str

  unfoldable pub to_md5 : Str → Str
  unfolding hex_encode
  to_md5 name = hex_encode (md5 name)

  -- `AdjustHashOld`
  unfoldable pub adjust_hash_old : Str → ℤ → OldHash
  adjust_hash_old shardhash buckets =
      let res = md5_to_bin (to_md5 shardhash) in
      elim (bit_count buckets) [
        | bits x ↦
            let tt = fill_zero (take x res) 8 in
            hashed (fill_zero (format_hex_9 (parse_int_2_10 tt)) 32)
        | not_power_of_two n ↦ refused (not_power_of_two n)
      ]
