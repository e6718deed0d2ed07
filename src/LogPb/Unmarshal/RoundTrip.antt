-- ===== src/LogPb/Unmarshal/RoundTrip.antt =====
-- log.pb.go: what Marshal writes is what Unmarshal reads.
use aliyun_log_go_sdk.Prelude.{
  ℕ, ◌^◌, ◌≤◌, ◌<◌, ◌≡◌, refl, sym, ap, subst, ◌∙◌, Option, none, some, [], ◌++◌, Str, arith,
  length, length-append,
}
use aliyun_log_go_sdk.LogPb.{LogContent, LogTag, done, ◌>>=◌, decode_varint_log, decode_bytes}
use aliyun_log_go_sdk.LogPb.Wire.{read_tag}
use aliyun_log_go_sdk.LogPb.Marshal.{delimited, marshal_log_content, marshal_log_tag}
use aliyun_log_go_sdk.LogPb.Unmarshal.{
  require, log_content_field, new_log_content, unmarshal_log_content, log_tag_field, new_log_tag,
  unmarshal_log_tag,
}
use aliyun_log_go_sdk.LogPb.Unmarshal.Fields.{Decodes-nil, IsTag, string-Decodes}

-- The tags that the writers use.
pub byte_1_2-IsTag : IsTag 0xa 1 2
unfolding read_tag decode_varint_log decode_bytes
byte_1_2-IsTag s = refl

pub byte_2_2-IsTag : IsTag 0x12 2 2
unfolding read_tag decode_varint_log decode_bytes
byte_2_2-IsTag s = refl

pub byte_3_2-IsTag : IsTag 0x1a 3 2
unfolding read_tag decode_varint_log decode_bytes
byte_3_2-IsTag s = refl

pub byte_4_2-IsTag : IsTag 0x22 4 2
unfolding read_tag decode_varint_log decode_bytes
byte_4_2-IsTag s = refl

pub byte_5_2-IsTag : IsTag 0x2a 5 2
unfolding read_tag decode_varint_log decode_bytes
byte_5_2-IsTag s = refl

pub byte_6_2-IsTag : IsTag 0x32 6 2
unfolding read_tag decode_varint_log decode_bytes
byte_6_2-IsTag s = refl

pub byte_1_0-IsTag : IsTag 0x8 1 0
unfolding read_tag decode_varint_log decode_bytes
byte_1_0-IsTag s = refl

pub byte_4_5-IsTag : IsTag 0x25 4 5
unfolding read_tag decode_varint_log decode_bytes
byte_4_5-IsTag s = refl

-- The two strings of a content or a tag, and their bytes.
abbrev pub Pair : Option Str → Option Str → Str → Str → Type 0
Pair key value x b =
    (k : Str) × (v : Str) × (key ≡ some k)
    × (value ≡ some v)
    × (b ≡ delimited 0xa k ++ (delimited 0x12 v ++ x))

pub content-Pair :
    (m : LogContent) (key value : Option Str) (b : Str)
    → m.key ≡ key
    → m.value ≡ value
    → marshal_log_content m ≡ some b
    → Pair key value m.xxx_unrecognized b
unfolding marshal_log_content
content-Pair m none none b ek ev e = absurd (ground arith)
content-Pair m none (some v) b ek ev e = absurd (ground arith)
content-Pair m (some k) none b ek ev e = absurd (ground arith)
content-Pair m (some k) (some v) b ek ev e = (k, v, refl, refl, ground arith)

-- The tail of a text is no longer than the text.
pub tail-le : (a r : Str) (l : ℕ) → length (a ++ r) ≤ l → length r ≤ l
tail-le a r l h = omega (arith, length-append a r)

content-back :
    (k v : Str)
    → let b = delimited 0xa k ++ (delimited 0x12 v ++ []) in
      length b < 2 ^ 63
      → unmarshal_log_content b
        ≡ done (record { key = some k; value = some v; xxx_unrecognized = [] })
unfolding unmarshal_log_content log_content_field
content-back k v small =
    let rest = delimited 0x12 v ++ [] in
    let b = delimited 0xa k ++ rest in
    let l = length b in
    let with_key : LogContent = record { key = some k; value = none; xxx_unrecognized = [] } in
    let m : LogContent = record { key = some k; value = some v; xxx_unrecognized = [] } in
    let second =
      string-Decodes log_content_field l small 0x12 2 byte_2_2-IsTag
        (λ t. record with_key { value = some t }) v [] with_key m (λ w s. refl)
        (tail-le (delimited 0xa k) rest l (omega arith)) (Decodes-nil log_content_field l m) in
    let first =
      string-Decodes log_content_field l small 0xa 1 byte_1_2-IsTag
        (λ t. record new_log_content { key = some t }) k rest new_log_content m (λ w s. refl)
        (omega arith) second in
    ap (λ t. t >>= λ m. require m.key m >>= λ _. require m.value m) (first l (omega arith))

-- A content that has no unknown fields is read back from what is written of it.
pub unmarshal-marshal_log_content :
    (m : LogContent) (b : Str)
    → m.xxx_unrecognized ≡ []
    → marshal_log_content m ≡ some b
    → length b < 2 ^ 63
    → unmarshal_log_content b ≡ done m
unmarshal-marshal_log_content m b x e small =
    let (k, v, ek, ev, whole) = content-Pair m m.key m.value b refl refl e in
    let plain : b ≡ delimited 0xa k ++ (delimited 0x12 v ++ []) =
      whole ∙ ap (λ t. delimited 0xa k ++ (delimited 0x12 v ++ t)) x in
    let same : record { key = some k; value = some v; xxx_unrecognized = [] } ≡ m =
      λ i. record { key = sym ek i; value = sym ev i; xxx_unrecognized = sym x i } in
    ap unmarshal_log_content plain
    ∙ (content-back k v (subst (λ t. length t < 2 ^ 63) plain small)
        ∙ ap (λ (t : LogContent). done t) same)

pub tag-Pair :
    (m : LogTag) (key value : Option Str) (b : Str)
    → m.key ≡ key
    → m.value ≡ value
    → marshal_log_tag m ≡ some b
    → Pair key value m.xxx_unrecognized b
unfolding marshal_log_tag
tag-Pair m none none b ek ev e = absurd (ground arith)
tag-Pair m none (some v) b ek ev e = absurd (ground arith)
tag-Pair m (some k) none b ek ev e = absurd (ground arith)
tag-Pair m (some k) (some v) b ek ev e = (k, v, refl, refl, ground arith)

tag-back :
    (k v : Str)
    → let b = delimited 0xa k ++ (delimited 0x12 v ++ []) in
      length b < 2 ^ 63
      → unmarshal_log_tag b ≡ done (record { key = some k; value = some v; xxx_unrecognized = [] })
unfolding unmarshal_log_tag log_tag_field
tag-back k v small =
    let rest = delimited 0x12 v ++ [] in
    let b = delimited 0xa k ++ rest in
    let l = length b in
    let with_key : LogTag = record { key = some k; value = none; xxx_unrecognized = [] } in
    let m : LogTag = record { key = some k; value = some v; xxx_unrecognized = [] } in
    let second =
      string-Decodes log_tag_field l small 0x12 2 byte_2_2-IsTag
        (λ t. record with_key { value = some t }) v [] with_key m (λ w s. refl)
        (tail-le (delimited 0xa k) rest l (omega arith)) (Decodes-nil log_tag_field l m) in
    let first =
      string-Decodes log_tag_field l small 0xa 1 byte_1_2-IsTag
        (λ t. record new_log_tag { key = some t }) k rest new_log_tag m (λ w s. refl) (omega arith)
        second in
    ap (λ t. t >>= λ m. require m.key m >>= λ _. require m.value m) (first l (omega arith))

-- A tag that has no unknown fields is read back from what is written of it.
pub unmarshal-marshal_log_tag :
    (m : LogTag) (b : Str)
    → m.xxx_unrecognized ≡ []
    → marshal_log_tag m ≡ some b
    → length b < 2 ^ 63
    → unmarshal_log_tag b ≡ done m
unmarshal-marshal_log_tag m b x e small =
    let (k, v, ek, ev, whole) = tag-Pair m m.key m.value b refl refl e in
    let plain : b ≡ delimited 0xa k ++ (delimited 0x12 v ++ []) =
      whole ∙ ap (λ t. delimited 0xa k ++ (delimited 0x12 v ++ t)) x in
    let same : record { key = some k; value = some v; xxx_unrecognized = [] } ≡ m =
      λ i. record { key = sym ek i; value = sym ev i; xxx_unrecognized = sym x i } in
    ap unmarshal_log_tag plain
    ∙ (tag-back k v (subst (λ t. length t < 2 ^ 63) plain small) ∙ ap (λ (t : LogTag). done t) same)
