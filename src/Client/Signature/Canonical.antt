-- ===== src/Client/Signature/Canonical.antt =====
-- signature_v4.go: the canonical headers do not depend on the order of the range.
use mathlib.Core.List.{Perm, Permᴰ, is_set, append-nil, append_assoc}
use mathlib.Core.List.Perm
use mathlib.Core.Logic.{∥∥₁_elim}
use native.Mathlib.Nat.{ℕ_set}
use aliyun_log_go_sdk.Prelude.{
  ℕ, ◌+◌, ◌≤◌, ◌≡◌, refl, sym, ap, subst, ◌∙◌, inl, inr, Option, some, List, [], ◌∷◌, ◌++◌,
  Bool-cases, Str, arith, str_eq, if◌then◌else◌,
}
use aliyun_log_go_sdk.Map.{str_eq_instance, lookup, insert, lookup-insert}
use aliyun_log_go_sdk.Client.Signature.{
  lower, is_signed_header, collect, sort_strings, canonical_headers, signed_headers, value_of,
  build_canonical_headers,
}
use aliyun_log_go_sdk.Client.Signature.Sorting.{sort_strings-perm}

-- The keys that are signed, in the order of the range, and the value of each, the last one first.
abbrev keys : List (Str × Str) → List Str
keys [] = []
keys ((k, v) ∷ h) = if is_signed_header (lower k) then lower k ∷ keys h else keys h

-- How many headers have the given name in lower case.
abbrev pub named : Str → List (Str × Str) → ℕ
named key [] = 0
named key ((k, v) ∷ h) = (if str_eq (lower k) key then 1 else 0) + named key h

-- No two header names are the same in lower case.
abbrev pub IsCaseUnique : List (Str × Str) → Type 0
IsCaseUnique h = (key : Str) → named key h ≤ 1

-- The value that is signed under a key: that of the last header of this name, else the one given.
abbrev value_under : Str → List (Str × Str) → Option Str → Option Str
value_under key [] old = old
value_under key ((k, v) ∷ h) old =
    if is_signed_header (lower k)
    then value_under key h (if str_eq (lower k) key then some v else old)
    else value_under key h old

collect-keys :
    (h : List (Str × Str)) (before : List Str) (signed : List (Str × Str))
    → (collect h before signed).0 ≡ before ++ keys h
unfolding collect
collect-keys [] before signed = sym (append-nil before)
collect-keys ((k, v) ∷ h) before signed = elim (Bool-cases (is_signed_header (lower k))) [
  | inl signs ↦ rw signs (
      collect-keys h (before ++ lower k ∷ []) (insert (lower k) v signed)
      ∙ append_assoc before (lower k ∷ []) (keys h))
  | inr skips ↦ rw skips (collect-keys h before signed)
]

collect-lookup :
    (key : Str) (h : List (Str × Str)) (before : List Str) (signed : List (Str × Str))
    → lookup key (collect h before signed).1 ≡ value_under key h (lookup key signed)
unfolding collect
collect-lookup key [] before signed = refl
collect-lookup key ((k, v) ∷ h) before signed = elim (Bool-cases (is_signed_header (lower k))) [
  | inl signs ↦ rw signs (
      collect-lookup key h (before ++ lower k ∷ []) (insert (lower k) v signed)
      ∙ ap (value_under key h) (lookup-insert (lower k) key v signed))
  | inr skips ↦ rw skips (collect-lookup key h before signed)
]

keys_one :
    (x : Str × Str) (l m : List (Str × Str))
    → Perm (keys l) (keys m)
    → Perm (keys (x ∷ l)) (keys (x ∷ m))
keys_one (k, v) l m p = elim (Bool-cases (is_signed_header (lower k))) [
  | inl signs ↦ rw signs (Perm.cons (lower k) p)
  | inr skips ↦ rw skips p
]

keys_two : (x y : Str × Str) (l : List (Str × Str)) → Perm (keys (x ∷ y ∷ l)) (keys (y ∷ x ∷ l))
keys_two (k, v) (j, w) l = elim (Bool-cases (is_signed_header (lower k))) [
  | inl first ↦ elim (Bool-cases (is_signed_header (lower j))) [
    | inl second ↦ rw (first, second) (Perm.swap (lower j) (lower k) (keys l))
    | inr skips ↦ rw (first, skips) (Perm.refl (lower k ∷ keys l))
  ]
  | inr skips ↦ rw skips (Perm.refl (keys ((j, w) ∷ l)))
]

keys-derivation : {a b : List (Str × Str)} → Permᴰ a b → Perm (keys a) (keys b)
keys-derivation Permᴰ.nil = Perm.refl []
keys-derivation (Permᴰ.cons {a} {l₁ = l} {l₂ = m} e p) =
    subst (λ y. Perm (keys (a ∷ l)) (keys (y ∷ m))) e (keys_one a l m (keys-derivation p))
keys-derivation (Permᴰ.swap {a} {b} {l = l} e f) =
    subst (λ z. Perm (keys (a ∷ b ∷ l)) (keys z)) (λ i. f i ∷ e i ∷ l) (keys_two a b l)
keys-derivation (Permᴰ.trans p q) = Perm.trans (keys-derivation p) (keys-derivation q)

named-derivation : (key : Str) {a b : List (Str × Str)} → Permᴰ a b → named key a ≡ named key b
named-derivation key Permᴰ.nil = refl
named-derivation key (Permᴰ.cons e p) =
    λ i. (if str_eq (lower (e i).0) key then 1 else 0) + named-derivation key p i
named-derivation key (Permᴰ.swap {a} {b} {l = l} e f) =
    named_two a b l ∙ λ i. named key (f i ∷ e i ∷ l)
  where
    named_two :
        (x y : Str × Str) (l : List (Str × Str)) → named key (x ∷ y ∷ l) ≡ named key (y ∷ x ∷ l)
    named_two (k, v) (j, w) l = omega arith
named-derivation key (Permᴰ.trans p q) = named-derivation key p ∙ named-derivation key q

value_two :
    (key : Str) (x y : Str × Str) (l : List (Str × Str)) (old : Option Str)
    → named key (x ∷ y ∷ l) ≤ 1
    → value_under key (x ∷ y ∷ l) old ≡ value_under key (y ∷ x ∷ l) old
value_two key (k, v) (j, w) l old once = elim (Bool-cases (str_eq (lower k) key)) [
  | inl mine ↦ elim (Bool-cases (str_eq (lower j) key)) [
    | inl too ↦ absurd (omega (arith, (rw (mine, too) at once)))
    | inr other ↦ rw (mine, other) (ground arith)
  ]
  | inr other ↦ rw other (ground arith)
]

value-derivation :
    (key : Str) {a b : List (Str × Str)}
    → Permᴰ a b
    → (old : Option Str) → named key a ≤ 1
    → value_under key a old ≡ value_under key b old
value-derivation key Permᴰ.nil old once = refl
value-derivation key (Permᴰ.cons {a} {l₁ = l} {l₂ = m} e p) old once =
    value_one a l m (λ old. value-derivation key p old (omega (arith, once))) old ∙ λ i.
    value_under key (e i ∷ m) old
  where
    value_one :
        (x : Str × Str) (l m : List (Str × Str))
        → ((old : Option Str) → value_under key l old ≡ value_under key m old)
        → (old : Option Str) → value_under key (x ∷ l) old ≡ value_under key (x ∷ m) old
    value_one (k, v) l m same old = elim (Bool-cases (is_signed_header (lower k))) [
      | inl signs ↦ rw signs (same (if str_eq (lower k) key then some v else old))
      | inr skips ↦ rw skips (same old)
    ]
value-derivation key (Permᴰ.swap {a} {b} {l = l} e f) old once =
    value_two key a b l old once ∙ λ i. value_under key (f i ∷ e i ∷ l) old
value-derivation key (Permᴰ.trans p q) old once =
    value-derivation key p old once
    ∙ value-derivation key q old (subst (λ n. n ≤ 1) (named-derivation key p) once)

canonical-same :
    (ks : List Str) (a b : List (Str × Str))
    → ((key : Str) → lookup key a ≡ lookup key b)
    → canonical_headers ks a ≡ canonical_headers ks b
unfolding canonical_headers
canonical-same [] a b same = refl
canonical-same (k ∷ ks) a b same =
    λ i. k ++ (58 ∷ (value_of (same k i) ++ (10 ∷ canonical-same ks a b same i)))

sorted-derivation :
    {a b : List (Str × Str)}
    → Permᴰ a b
    → sort_strings (collect a [] []).0 ≡ sort_strings (collect b [] []).0
sorted-derivation {a} {b} p =
    ap sort_strings (collect-keys a [] [])
    ∙ sort_strings-perm (keys a) (keys b) (keys-derivation p)
    ∙ ap sort_strings (sym (collect-keys b [] []))

text-derivation :
    {a b : List (Str × Str)}
    → IsCaseUnique a
    → Permᴰ a b
    → (build_canonical_headers a).1 ≡ (build_canonical_headers b).1
unfolding build_canonical_headers
text-derivation {a} {b} unique p =
    canonical-same (sort_strings (collect a [] []).0) (collect a [] []).1 (collect b [] []).1
      (λ key.
        collect-lookup key a [] []
        ∙ value-derivation key p (lookup key []) (unique key)
        ∙ sym (collect-lookup key b [] []))
    ∙ ap (λ ks. canonical_headers ks (collect b [] []).1) (sorted-derivation p)

-- When no two header names differ in their case alone, the list of signed headers and the canonical
-- headers are the same for every order in which the headers are visited.
pub build_canonical_headers-perm :
    (a b : List (Str × Str))
    → IsCaseUnique a
    → Perm a b
    → build_canonical_headers a ≡ build_canonical_headers b
unfolding build_canonical_headers
build_canonical_headers-perm a b unique p =
    let names : (build_canonical_headers a).0 ≡ (build_canonical_headers b).0 =
      ∥∥₁_elim p (is_set ℕ_set _ _) (λ d. ap signed_headers (sorted-derivation d)) in
    let texts : (build_canonical_headers a).1 ≡ (build_canonical_headers b).1 =
      ∥∥₁_elim p (is_set ℕ_set _ _) (text-derivation unique) in
    λ i. (names i, texts i)
