-- ===== src/LogPb/Wire.antt =====
-- log.pb.go: the pieces that the Unmarshal methods repeat. A slice that is read is its length `l`
-- and the bytes from iNdEx on, so that iNdEx is `l` less the number of these.
use aliyun_log_go_sdk.Prelude.{
  ℕ, zero, suc, ◌+◌, ◌-◌, ◌/◌, ◌%◌, ◌^◌, [], ◌∷◌, Bool, ◌||◌, Str, ltb, leb, ◌==◌, if◌then◌else◌,
  length, take, drop,
}
use aliyun_log_go_sdk.LogPb.{
  Read, done, failed, ◌>>=◌, invalid_length_log, unexpected_end_of_group_log, unexpected_eof,
  end_group_for_non_group, illegal_tag, wrong_wire_type, illegal_wire_type, decode_varint_log,
}

-- int(v) < 0, for an int of 64 bits
abbrev pub is_negative : ℕ → Bool
is_negative v = leb (2 ^ 63) v

-- A length that has been read, the end that it gives, and the bytes up to there.
unfoldable pub cut : ℕ → ℕ → Str → Read (Str × Str)
cut l n s =
    if is_negative n || is_negative (l - length s + n)
    then failed invalid_length_log
    else if ltb (length s) n
    then failed unexpected_eof
    else done (take n s, drop n s)

-- A length and the bytes that it counts.
unfoldable pub read_delimited : ℕ → Str → Read (Str × Str)
read_delimited l s = do (n, rest) ← decode_varint_log s; cut l n rest

-- `skipLog`: one step of its loop, from the wire type on; the depth, iNdEx and the bytes from there.
skip_field : ℕ → ℕ → ℕ → Str → Read (ℕ × ℕ × Str)
skip_field wire_type depth i s =
    if wire_type == 0
    then (decode_varint_log s >>= λ (v, rest). done (depth, i + (length s - length rest), rest))
    else if wire_type == 1
    then done (depth, i + 8, drop 8 s)
    else if wire_type == 2
    then (decode_varint_log s >>= λ (n, rest).
        if is_negative n
        then failed invalid_length_log
        else done (depth, i + (length s - length rest) + n, drop n rest))
    else if wire_type == 3
    then done (suc depth, i, s)
    else if wire_type == 4
    then (if depth == 0 then failed unexpected_end_of_group_log else done (depth - 1, i, s))
    else if wire_type == 5
    then done (depth, i + 4, drop 4 s)
    else failed illegal_wire_type

-- Each round reads a byte at least, so the number of bytes is fuel enough.
skip_loop : ℕ → ℕ → ℕ → Str → Read ℕ
unfolding skip_field
skip_loop zero depth i s = failed unexpected_eof
skip_loop (suc fuel) depth i [] = failed unexpected_eof
skip_loop (suc fuel) depth i (b ∷ s) = do
  (wire, rest) ← decode_varint_log (b ∷ s)
  (depth', i', rest') ← skip_field (wire % 8) depth (i + (length (b ∷ s) - length rest)) rest
  let more = skip_loop fuel depth' i' rest'
  if is_negative i' then failed invalid_length_log else if depth' == 0 then done i' else more

unfoldable pub skip_log : Str → Read ℕ
unfolding skip_loop
skip_log s = skip_loop (length s) 0 0 s

-- The default case of each switch: the field is kept as it is. `s` starts at preIndex.
unfoldable pub read_unknown : ℕ → Str → Read (Str × Str)
read_unknown l s = do skippy ← skip_log s; cut l skippy s

-- The tag: the field's number and the wire type, as `int32(wire >> 3)` and `wire & 7`.
abbrev tag_of : ℕ → Str → Read (ℕ × ℕ × Str)
tag_of wire rest =
    let field_num = wire / 8 % 2 ^ 32 in
    if wire % 8 == 4
    then failed end_group_for_non_group
    else if field_num == 0 || leb (2 ^ 31) field_num
    then failed illegal_tag
    else done (field_num, wire % 8, rest)

unfoldable pub read_tag : Str → Read (ℕ × ℕ × Str)
read_tag s = decode_varint_log s >>= λ (wire, rest). tag_of wire rest

-- A case of a switch that asks for its wire type.
abbrev pub expect {ℓ} : {A : Type ℓ} → ℕ → ℕ → Read A → Read A
expect wanted wire_type k = if wire_type == wanted then k else failed wrong_wire_type

-- The loop of an Unmarshal method over its switch: the number, the wire type, `l`, the bytes from
-- preIndex on and those behind the tag.
abbrev pub Switch : Type 0 → Type 0
Switch M = ℕ → ℕ → ℕ → Str → Str → M → Read (M × Str)

-- Each round reads a byte at least, so the number of bytes is fuel enough.
unfoldable pub unmarshal_loop : {M : Type 0} → Switch M → ℕ → ℕ → Str → M → Read M
unmarshal_loop field fuel l [] m = done m
unmarshal_loop field zero l (b ∷ s) m = failed unexpected_eof
unmarshal_loop field (suc fuel) l (b ∷ s) m = do
  (field_num, wire_type, rest) ← read_tag (b ∷ s)
  (m', rest') ← field field_num wire_type l (b ∷ s) rest m
  unmarshal_loop field fuel l rest' m'
