-- ===== src/LogPb/Unmarshal/Repeated.antt =====
-- log.pb.go: a repeated field of messages, and the number fields, read back.
use mathlib.Core.List.{append_assoc, append-nil}
use aliyun_log_go_sdk.Prelude.{
  ℕ, ◌+◌, ◌*◌, ◌/◌, ◌%◌, ◌^◌, ◌≤◌, ◌<◌, ◌≡◌, refl, sym, ap, subst, ◌∙◌, Option, none, some, List,
  [], ◌∷◌, ◌++◌, Str, arith, length, length-append,
}
use aliyun_log_go_sdk.LogPb.{Read, done, ◌>>=◌, encode_varint_log}
use aliyun_log_go_sdk.LogPb.Varint.{decode_varint_log-encode_varint_log}
use aliyun_log_go_sdk.LogPb.Wire.{Switch}
use aliyun_log_go_sdk.LogPb.Marshal.{
  delimited, join_parts, marshal_each, marshal_varint, marshal_fixed32,
}
use aliyun_log_go_sdk.LogPb.Unmarshal.{message_field, uint32_field, read_fixed32}
use aliyun_log_go_sdk.LogPb.Unmarshal.Fields.{Decodes, IsTag, field-Decodes, message-Decodes}

abbrev pub All : {N : Type 0} → (N → Type 0) → List N → Type 0
All P [] = Unit {0}
All P (n ∷ ns) = P n × All P ns

-- What the writer of a non-empty list has put together.
abbrev Parts : {N : Type 0} → (N → Option Str) → ℕ → N → List N → Str → Type 0
Parts marshal tag n ns b =
    (one : Str) × (rest : Str) × (marshal n ≡ some one)
    × (marshal_each marshal tag ns ≡ some rest)
    × (b ≡ delimited tag one ++ rest)

each-Parts :
    {N : Type 0} (marshal : N → Option Str) (tag : ℕ) (n : N) (ns : List N) (b : Str)
    (x y : Option Str)
    → x ≡ marshal_each marshal tag ns
    → y ≡ marshal n
    → join_parts tag x y ≡ some b
    → Parts marshal tag n ns b
each-Parts marshal tag n ns b none y ex ey e = absurd cc
each-Parts marshal tag n ns b (some rest) none ex ey e = absurd cc
each-Parts marshal tag n ns b (some rest) (some one) ex ey e = (one, rest, sym ey, sym ex, cc)

pub marshal_each-Parts :
    {N : Type 0} (marshal : N → Option Str) (tag : ℕ) (n : N) (ns : List N) (b : Str)
    → marshal_each marshal tag (n ∷ ns) ≡ some b
    → Parts marshal tag n ns b
unfolding marshal_each
marshal_each-Parts marshal tag n ns b e =
    each-Parts marshal tag n ns b (marshal_each marshal tag ns) (marshal n) refl refl e

pub delimited-room : (tag : ℕ) (v r : Str) → length v + length r < length (delimited tag v ++ r)
unfolding delimited
delimited-room tag v r =
    let code = encode_varint_log 9 (length v) in
    omega (arith, length-append (code ++ v) r, length-append code v)

module _ {M N : Type 0} (field : Switch M) (l : ℕ) (small : l < 2 ^ 63) (tag num : ℕ)
    (is_tag : IsTag tag num 2) (marshal : N → Option Str) (unmarshal : Str → Read N)
    (Good : N → Type 0)
    (back : (n : N) (one : Str)
      → Good n
      → marshal n ≡ some one
      → length one < 2 ^ 63
      → unmarshal one ≡ done n)
    (put : List N → M)
    (h : (ns : List N) (w s : Str)
      → field num 2 l w s (put ns) ≡ message_field unmarshal (λ n. put (ns ++ n ∷ [])) 2 l s) where
  pub each-Decodes :
      (ns ms : List N) (b r : Str) (m' : M)
      → All Good ms
      → marshal_each marshal tag ms ≡ some b
      → length (b ++ r) ≤ l
      → Decodes field l r (put (ns ++ ms)) m'
      → Decodes field l (b ++ r) (put ns) m'
  unfolding marshal_each
  each-Decodes ns [] b r m' g e fits rest =
      let empty : b ≡ [] = cc in
      rw empty (subst (λ t. Decodes field l r (put t) m') (append-nil ns) rest)
  each-Decodes ns (n ∷ ms) b r m' g e fits rest =
      let (one, more, e₁, e₂, whole) = marshal_each-Parts marshal tag n ms b e in
      let split : b ++ r ≡ delimited tag one ++ (more ++ r) =
        ap (λ t. t ++ r) whole ∙ append_assoc (delimited tag one) more r in
      let room : length (delimited tag one ++ (more ++ r)) ≤ l =
        subst (λ t. length t ≤ l) split fits in
      subst (λ t. Decodes field l t (put ns) m') (sym split)
        (message-Decodes field l small tag num is_tag unmarshal (λ k. put (ns ++ k ∷ [])) one
          (more ++ r) n (put ns) m' (h ns)
          (back n one g.0 e₁ (omega (arith, delimited-room tag one (more ++ r)))) room
          (each-Decodes (ns ++ n ∷ []) ms more r m' g.1 e₂
            (omega (arith, delimited-room tag one (more ++ r)))
            (subst (λ t. Decodes field l r (put t) m') (sym (append_assoc ns (n ∷ []) ms)) rest)))

-- A uint32, if there is one.
abbrev pub IsUint32 : Option ℕ → Type 0
IsUint32 none = Unit {0}
IsUint32 (some v) = v < 2 ^ 32

module _ {M : Type 0} (field : Switch M) (l tag num : ℕ) where
  pub uint32-Decodes :
      (put : ℕ → M) (v : ℕ) (r : Str) (m m' : M)
      → IsTag tag num 0
      → ((w s : Str) → field num 0 l w s m ≡ uint32_field put 0 s)
      → v < 2 ^ 32
      → Decodes field l r (put v) m'
      → Decodes field l (marshal_varint tag v ++ r) m m'
  unfolding marshal_varint
  uint32-Decodes put v r m m' is_tag h small rest =
      let body = encode_varint_log 9 v in
      let whole : v % 2 ^ 32 ≡ v = omega arith in
      field-Decodes field l tag num 0 body r m (put v) m' (is_tag (body ++ r))
        (h (tag ∷ (body ++ r)) (body ++ r)
          ∙ ap (λ (t : Read (ℕ × Str)). t >>= λ (v, rest). done (put (v % 2 ^ 32), rest))
              (decode_varint_log-encode_varint_log v r (omega arith))
          ∙ ap (λ n. done (put n, r)) whole)
        rest

  pub fixed32-Decodes :
      (put : Option ℕ → M) (v : Option ℕ) (r : Str) (m' : M)
      → IsTag tag num 5
      → ((w s : Str)
          → field num 5 l w s (put none)
            ≡ (read_fixed32 s >>= λ (v, rest). done (put (some v), rest)))
      → IsUint32 v
      → Decodes field l r (put v) m'
      → Decodes field l (marshal_fixed32 tag v ++ r) (put none) m'
  fixed32-Decodes put none r m' is_tag h small rest = rest
  fixed32-Decodes put (some v) r m' is_tag h small rest =
      let body = v % 256 ∷ v / 2 ^ 8 % 256 ∷ v / 2 ^ 16 % 256 ∷ v / 2 ^ 24 % 256 ∷ [] in
      let whole : v % 256
            + 2 ^ 8 * (v / 2 ^ 8 % 256)
            + 2 ^ 16 * (v / 2 ^ 16 % 256)
            + 2 ^ 24 * (v / 2 ^ 24 % 256)
          ≡ v =
        omega arith in
      field-Decodes field l tag num 5 body r (put none) (put (some v)) m' (is_tag (body ++ r))
        (h (tag ∷ (body ++ r)) (body ++ r) ∙ ap (λ n. done (put (some n), r)) whole) rest
