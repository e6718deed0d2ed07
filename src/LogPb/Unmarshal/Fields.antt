-- ===== src/LogPb/Unmarshal/Fields.antt =====
-- log.pb.go: one field that has been written, read back by the loop of Unmarshal.
use mathlib.Core.List.{append_assoc}
use mathlib.Core.Bool.{false}
use aliyun_log_go_sdk.Prelude.{
  ℕ, zero, suc, ◌+◌, ◌-◌, ◌^◌, ◌≤◌, ◌<◌, ◌≡◌, refl, ap, ◌∙◌, Option, none, some, [], ◌∷◌, ◌++◌, Str,
  ltb, leb, arith, length, length-append, take, drop,
}
use aliyun_log_go_sdk.LogPb.{Read, done, ◌>>=◌, encode_varint_log}
use aliyun_log_go_sdk.LogPb.Varint.{decode_varint_log-encode_varint_log}
use aliyun_log_go_sdk.LogPb.Wire.{cut, read_delimited, read_tag, Switch, unmarshal_loop}
use aliyun_log_go_sdk.LogPb.Marshal.{delimited, optional}
use aliyun_log_go_sdk.LogPb.Unmarshal.{string_field, message_field}

take-append : (v r : Str) → take (length v) (v ++ r) ≡ v
take-append [] r = refl
take-append (x ∷ v) r = ap (λ t. x ∷ t) (take-append v r)

drop-append : (v r : Str) → drop (length v) (v ++ r) ≡ r
drop-append [] r = refl
drop-append (x ∷ v) r = drop-append v r

cut-append :
    (l : ℕ) (v r : Str) → l < 2 ^ 63 → length (v ++ r) ≤ l → cut l (length v) (v ++ r) ≡ done (v, r)
unfolding cut
cut-append l v r small fits =
    let total = length-append v r in
    let n : leb (2 ^ 63) (length v) ≡ false = ground arith in
    let e : leb (2 ^ 63) (l - length (v ++ r) + length v) ≡ false = ground arith in
    let w : ltb (length (v ++ r)) (length v) ≡ false = ground arith in
    rw (n, e, w, take-append v r, drop-append v r) refl

-- A length and its bytes are read back.
pub read_delimited-encode :
    (l : ℕ) (v r : Str)
    → l < 2 ^ 63
    → length ((encode_varint_log 9 (length v) ++ v) ++ r) ≤ l
    → read_delimited l ((encode_varint_log 9 (length v) ++ v) ++ r) ≡ done (v, r)
unfolding read_delimited
read_delimited-encode l v r small fits =
    let code = encode_varint_log 9 (length v) in
    let whole = length-append (code ++ v) r in
    let parts = length-append code v in
    let rest = length-append v r in
    rw
      (append_assoc code v r, decode_varint_log-encode_varint_log (length v) (v ++ r) (omega arith))
      (cut-append l v r small (omega arith))

-- The loop reads `s` into `m` and ends with `m'`, whatever fuel is enough for the bytes.
abbrev pub Decodes : {M : Type 0} → Switch M → ℕ → Str → M → M → Type 0
Decodes field l s m m' = (f : ℕ) → length s ≤ f → unmarshal_loop field f l s m ≡ done m'

pub Decodes-nil : {M : Type 0} (field : Switch M) (l : ℕ) (m : M) → Decodes field l [] m m
unfolding unmarshal_loop
Decodes-nil field l m f h = refl

pub field-Decodes :
    {M : Type 0} (field : Switch M) (l tag num wt : ℕ) (body r : Str) (m m₁ m' : M)
    → read_tag (tag ∷ (body ++ r)) ≡ done (num, wt, body ++ r)
    → field num wt l (tag ∷ (body ++ r)) (body ++ r) m ≡ done (m₁, r)
    → Decodes field l r m₁ m'
    → Decodes field l (tag ∷ (body ++ r)) m m'
unfolding unmarshal_loop
field-Decodes field l tag num wt body r m m₁ m' e₁ e₂ rest zero h = absurd (omega arith)
field-Decodes field l tag num wt body r m m₁ m' e₁ e₂ rest (suc f) h =
    rw (e₁, e₂) (rest f (omega (arith, length-append body r)))

-- One byte below 128 is a whole tag.
abbrev pub IsTag : ℕ → ℕ → ℕ → Type 0
IsTag tag num wt = (s : Str) → read_tag (tag ∷ s) ≡ done (num, wt, s)

module _ {M : Type 0} (field : Switch M) (l : ℕ) (small : l < 2 ^ 63) (tag num : ℕ)
    (is_tag : IsTag tag num 2) where
  pub string-Decodes :
      (put : Str → M) (v r : Str) (m m' : M)
      → ((w s : Str) → field num 2 l w s m ≡ string_field put 2 l s)
      → length (delimited tag v ++ r) ≤ l
      → Decodes field l r (put v) m'
      → Decodes field l (delimited tag v ++ r) m m'
  unfolding delimited
  string-Decodes put v r m m' h fits rest =
      let body = encode_varint_log 9 (length v) ++ v in
      let found = read_delimited-encode l v r small (omega arith) in
      field-Decodes field l tag num 2 body r m (put v) m' (is_tag (body ++ r))
        (h (tag ∷ (body ++ r)) (body ++ r)
          ∙ ap (λ (t : Read (Str × Str)). t >>= λ (v, rest). done (put v, rest)) found)
        rest

  pub optional-Decodes :
      (put : Option Str → M) (v : Option Str) (r : Str) (m' : M)
      → ((w s : Str) → field num 2 l w s (put none) ≡ string_field (λ t. put (some t)) 2 l s)
      → length (optional tag v ++ r) ≤ l
      → Decodes field l r (put v) m'
      → Decodes field l (optional tag v ++ r) (put none) m'
  optional-Decodes put none r m' h fits rest = rest
  optional-Decodes put (some v) r m' h fits rest =
      string-Decodes (λ t. put (some t)) v r (put none) m' h fits rest

  pub message-Decodes :
      {N : Type 0} (unmarshal : Str → Read N) (put : N → M) (v r : Str) (n : N) (m m' : M)
      → ((w s : Str) → field num 2 l w s m ≡ message_field unmarshal put 2 l s)
      → unmarshal v ≡ done n
      → length (delimited tag v ++ r) ≤ l
      → Decodes field l r (put n) m'
      → Decodes field l (delimited tag v ++ r) m m'
  unfolding delimited
  message-Decodes {N = N} unmarshal put v r n m m' h read fits rest =
      let body = encode_varint_log 9 (length v) ++ v in
      let found = read_delimited-encode l v r small (omega arith) in
      field-Decodes field l tag num 2 body r m (put n) m' (is_tag (body ++ r))
        (h (tag ∷ (body ++ r)) (body ++ r)
          ∙ ap
              (λ (t : Read (Str × Str)). t >>= λ (v, rest). unmarshal v >>= λ n. done (put n, rest))
              found
          ∙ ap (λ (t : Read N). t >>= λ n. done (put n, r)) read)
        rest
