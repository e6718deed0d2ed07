-- ===== src/LogPb.antt =====
-- log.pb.go: the messages that carry logs, their encoded sizes, and the varint writer.
-- A pointer to a scalar is an Option; a repeated field holds no nil entry; `XXX_unrecognized` is
-- a byte list, nil being the empty one.
pub mod Varint
pub mod Wire
pub mod Marshal
pub mod Unmarshal
mod Tests
mod WireTests
use aliyun_log_go_sdk.Prelude.{
  ℕ, zero, suc, ◌+◌, ◌/◌, ◌%◌, ◌^◌, Option, none, some, List, [], ◌∷◌, Str, ltb, leb, ◌-◌, ◌*◌,
  ◌==◌, if◌then◌else◌, length,
}

pub record LogContent : Type 0 where
  pub key : Option Str
  pub value : Option Str
  pub xxx_unrecognized : Str

pub record Log : Type 0 where
  pub time : Option ℕ  -- uint32
  pub contents : List LogContent
  pub time_ns : Option ℕ  -- uint32
  pub xxx_unrecognized : Str

pub record LogTag : Type 0 where
  pub key : Option Str
  pub value : Option Str
  pub xxx_unrecognized : Str

pub record LogGroup : Type 0 where
  pub logs : List Log
  pub category : Option Str
  pub topic : Option Str
  pub source : Option Str
  pub machine_uuid : Option Str
  pub log_tags : List LogTag
  pub xxx_unrecognized : Str

-- `math_bits.Len64`, with fuel for the 64 bits
unfoldable pub len64 : ℕ → ℕ → ℕ
len64 zero x = 0
len64 (suc fuel) x = let rest = len64 fuel (x / 2) in if x == 0 then 0 else suc rest

-- x | 1
abbrev pub or_one : ℕ → ℕ
or_one x = x - x % 2 + 1

-- `sovLog`
unfoldable pub sov_log : ℕ → ℕ
unfolding len64
sov_log x = (len64 64 (or_one x) + 6) / 7

-- the field tag's byte, the length and the bytes
unfoldable pub size_delimited : ℕ → ℕ
size_delimited l = 1 + l + sov_log l

abbrev pub size_string : Option Str → ℕ
size_string none = 0
size_string (some s) = size_delimited (length s)

unfoldable pub size_log_content : LogContent → ℕ
unfolding size_delimited
size_log_content m = size_string m.key + size_string m.value + length m.xxx_unrecognized

-- The loop over a repeated field of messages.
abbrev pub size_each : {M : Type 0} → (M → ℕ) → List M → ℕ
size_each size [] = 0
size_each size (e ∷ es) = size_delimited (size e) + size_each size es

abbrev pub size_time : Option ℕ → ℕ
size_time none = 0
size_time (some t) = 1 + sov_log t

abbrev pub size_time_ns : Option ℕ → ℕ
size_time_ns none = 0
size_time_ns (some t) = 5

unfoldable pub size_log : Log → ℕ
unfolding size_delimited size_log_content
size_log m =
    size_time m.time
    + size_each size_log_content m.contents
    + size_time_ns m.time_ns
    + length m.xxx_unrecognized

unfoldable pub size_log_tag : LogTag → ℕ
unfolding size_delimited
size_log_tag m = size_string m.key + size_string m.value + length m.xxx_unrecognized

unfoldable pub size_log_group : LogGroup → ℕ
unfolding size_delimited size_log size_log_tag
size_log_group m =
    size_each size_log m.logs
    + size_string m.category
    + size_string m.topic
    + size_string m.source
    + size_string m.machine_uuid
    + size_each size_log_tag m.log_tags
    + length m.xxx_unrecognized

-- `encodeVarintLog`: the bytes that it writes from the moved offset on, with fuel for the loop;
-- v & 0x7f | 0x80 is written as a sum.
unfoldable pub encode_varint_log : ℕ → ℕ → Str
encode_varint_log zero v = (v % 256) ∷ []
encode_varint_log (suc fuel) v =
    let rest = encode_varint_log fuel (v / 2 ^ 7) in
    if leb (2 ^ 7) v then (v % 2 ^ 7 + 0x80) ∷ rest else (v % 256) ∷ []

-- The errors of `Unmarshal` and `skipLog`: the three variables, io.ErrUnexpectedEOF, the texts of
-- fmt.Errorf, and RequiredNotSetError.
pub data PbError : Type 0 where
  int_overflow_log invalid_length_log unexpected_end_of_group_log unexpected_eof : PbError
  end_group_for_non_group illegal_tag wrong_wire_type illegal_wire_type : PbError
  required_not_set : PbError

pub data Read {ℓ} (A : Type ℓ) : Type ℓ where
  done : A → Read A
  failed : PbError → Read A

infixl 5 ◌>>=◌
abbrev pub ◌>>=◌ {ℓ κ} : {A : Type ℓ} {B : Type κ} → Read A → (A → Read B) → Read B
done a >>= f = f a
failed e >>= f = failed e

-- The varint loop that `Unmarshal` repeats, over unbounded numbers: bytes are added at growing
-- shifts until one is below 0x80.
unfoldable pub decode_bytes : ℕ → Str → Read (ℕ × Str)
decode_bytes zero s = failed int_overflow_log
decode_bytes (suc fuel) [] = failed unexpected_eof
decode_bytes (suc fuel) (b ∷ s) =
    let more = decode_bytes fuel s >>= λ (v, rest). done (b % 2 ^ 7 + 2 ^ 7 * v, rest) in
    if ltb b 0x80 then done (b, s) else more

-- The loop in 64 bits, whose shift ends at ten bytes; bits shifted beyond the word are lost.
unfoldable pub decode_varint_log : Str → Read (ℕ × Str)
unfolding decode_bytes
decode_varint_log s = do (v, rest) ← decode_bytes 10 s; done (v % 2 ^ 64, rest)
