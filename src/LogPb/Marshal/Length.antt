-- ===== src/LogPb/Marshal/Length.antt =====
-- log.pb.go: Size against what the Marshal methods write: the buffer is filled to the byte.
use aliyun_log_go_sdk.Prelude.{
  ℕ, ◌+◌, ◌^◌, ◌<◌, ◌≡◌, refl, ap, ◌∙◌, Option, none, some, List, [], ◌∷◌, Str, arith, length,
  length-append,
}
use aliyun_log_go_sdk.LogPb.{
  encode_varint_log, size_delimited, size_string, size_each, size_time_ns,
}
use aliyun_log_go_sdk.LogPb.Varint.{length-encode_varint_log}
use aliyun_log_go_sdk.LogPb.Marshal.{delimited, optional, marshal_each, marshal_fixed32}
use aliyun_log_go_sdk.LogPb.Unmarshal.Repeated.{All, marshal_each-Parts, delimited-room}

pub length-delimited :
    (tag : ℕ) (v : Str) → length v < 2 ^ 64 → length (delimited tag v) ≡ size_delimited (length v)
unfolding delimited size_delimited
length-delimited tag v h =
    omega (
      arith,
      length-append (encode_varint_log 9 (length v)) v,
      length-encode_varint_log (length v) h,
    )

pub length-optional :
    (tag : ℕ) (v : Option Str)
    → length (optional tag v) < 2 ^ 63
    → length (optional tag v) ≡ size_string v
length-optional tag none h = refl
length-optional tag (some v) h =
    length-delimited tag v
      (omega (arith, delimited-room tag v [], length-append (delimited tag v) []))

pub length-marshal_fixed32 :
    (tag : ℕ) (v : Option ℕ) → length (marshal_fixed32 tag v) ≡ size_time_ns v
length-marshal_fixed32 tag none = refl
length-marshal_fixed32 tag (some v) = refl

module _ {M : Type 0} (marshal : M → Option Str) (size : M → ℕ) (Good : M → Type 0)
    (fits : (m : M) (b : Str)
      → Good m
      → marshal m ≡ some b
      → length b < 2 ^ 63
      → length b ≡ size m) where
  pub length-marshal_each :
      (tag : ℕ) (ms : List M) (b : Str)
      → All Good ms
      → marshal_each marshal tag ms ≡ some b
      → length b < 2 ^ 63
      → length b ≡ size_each size ms
  unfolding marshal_each
  length-marshal_each tag [] b good e small = let empty : b ≡ [] = cc in ap length empty
  length-marshal_each tag (m ∷ ms) b good e small =
      let (one, rest, e₁, e₂, whole) = marshal_each-Parts marshal tag m ms b e in
      let total : length b ≡ length (delimited tag one) + length rest =
        ap length whole ∙ length-append (delimited tag one) rest in
      let room = delimited-room tag one rest in
      let split = length-append (delimited tag one) rest in
      let of_one = fits m one good.0 e₁ (omega arith) in
      let of_rest = length-marshal_each tag ms rest good.1 e₂ (omega arith) in
      total
      ∙ (ap (λ n. n + length rest)
            (length-delimited tag one (omega arith) ∙ ap size_delimited of_one)
          ∙ ap (λ n. size_delimited (size m) + n) of_rest)
