-- ===== src/Producer/System/Weight.antt =====
-- producer/log_accumulator.go, mover.go and retry_queue.go: what a measure of batches adds up to
-- in a list of batches and in the map.
use mathlib.Core.List.{Perm, Permᴰ}
use mathlib.Core.Logic.{∥∥₁_elim}
use native.Mathlib.Nat.{ℕ_set}
use aliyun_log_go_sdk.Prelude.{
  ℕ, ◌+◌, ◌≡◌, refl, sym, ap, subst, ◌∙◌, inl, inr, Option, none, some, List, [], ◌∷◌, ◌++◌,
  Bool-cases, Str, arith,
}
use aliyun_log_go_sdk.Map.{
  str_eq_instance, beq_refl, lookup, insert, delete, Distinct, delete-none, delete-Distinct,
  lookup-delete,
}
use aliyun_log_go_sdk.Producer.Batch.{ProducerBatch}

module _ (w : ProducerBatch → ℕ) where
  abbrev pub weight : List ProducerBatch → ℕ
  weight [] = 0
  weight (b ∷ bs) = w b + weight bs

  abbrev pub map_weight : List (Str × ProducerBatch) → ℕ
  map_weight [] = 0
  map_weight ((k, b) ∷ m) = w b + map_weight m

  pub weight-append : (a b : List ProducerBatch) → weight (a ++ b) ≡ weight a + weight b
  weight-append [] b = omega arith
  weight-append (x ∷ a) b = omega (arith, weight-append a b)

  weight-derivation : {a b : List ProducerBatch} → Permᴰ a b → weight a ≡ weight b
  weight-derivation Permᴰ.nil = refl
  weight-derivation (Permᴰ.cons e p) = λ i. w (e i) + weight-derivation p i
  weight-derivation (Permᴰ.swap e f) = omega (arith, ap w e, ap w f)
  weight-derivation (Permᴰ.trans p q) = weight-derivation p ∙ weight-derivation q

  pub weight-perm : {a b : List ProducerBatch} → Perm a b → weight a ≡ weight b
  weight-perm p = ∥∥₁_elim p (ℕ_set _ _) weight-derivation

  abbrev weight_of : Option ProducerBatch → ℕ
  weight_of none = 0
  weight_of (some b) = w b

  pub map_weight-insert :
      (k : Str) (b : ProducerBatch) (m : List (Str × ProducerBatch))
      → lookup k m ≡ none
      → map_weight (insert k b m) ≡ map_weight m + w b
  unfolding lookup insert
  map_weight-insert k b [] h = omega arith
  map_weight-insert k b ((j, c) ∷ m) h = elim (Bool-cases (str_eq_instance.beq j k)) [
    | inl same ↦ cc (rw same at h)
    | inr differ ↦ rw differ (omega (arith, map_weight-insert k b m (rw differ at h)))
  ]

  pub map_weight-delete :
      (k : Str) (b : ProducerBatch) (m : List (Str × ProducerBatch))
      → Distinct m
      → lookup k m ≡ some b
      → map_weight (delete k m) + w b ≡ map_weight m
  unfolding lookup delete
  map_weight-delete k b [] v h = cc
  map_weight-delete k b ((j, c) ∷ m) v h = elim (Bool-cases (str_eq_instance.beq j k)) [
    | inl same ↦
        let gone : lookup k m ≡ none =
          subst (λ i. lookup i m ≡ none) ((str_eq_instance.beq_iff j k).0 same) v.0 in
        let weight : w c ≡ w b = ap weight_of (rw same at h) in
        rw (same, delete-none k m gone) (omega arith)
    | inr differ ↦ rw differ (omega (arith, map_weight-delete k b m v.1 (rw differ at h)))
  ]

  pub map_weight-replace :
      (k : Str) (b c : ProducerBatch) (m : List (Str × ProducerBatch))
      → lookup k m ≡ some b
      → map_weight (insert k c m) + w b ≡ map_weight m + w c
  unfolding lookup insert
  map_weight-replace k b c [] h = cc
  map_weight-replace k b c ((j, d) ∷ m) h = elim (Bool-cases (str_eq_instance.beq j k)) [
    | inl same ↦ let weight : w d ≡ w b = ap weight_of (rw same at h) in rw same (omega arith)
    | inr differ ↦ rw differ (omega (arith, map_weight-replace k b c m (rw differ at h)))
  ]

-- The two lists hold the same entries: one is the other in some order.
abbrev pub SameMap : List (Str × ProducerBatch) → List (Str × ProducerBatch) → Type 0
SameMap a b = (k : Str) → lookup k a ≡ lookup k b

-- The entries are entries of the map.
abbrev pub SubMap : List (Str × ProducerBatch) → List (Str × ProducerBatch) → Type 0
SubMap a b = (k : Str) (v : ProducerBatch) → lookup k a ≡ some v → lookup k b ≡ some v

lookup-head :
    (k : Str) (v : ProducerBatch) (a : List (Str × ProducerBatch)) → lookup k ((k, v) ∷ a) ≡ some v
unfolding lookup
lookup-head k v a = rw (beq_refl k) refl

nothing_in : (b : List (Str × ProducerBatch)) → ((k : Str) → lookup k b ≡ none) → b ≡ []
nothing_in [] h = refl
nothing_in ((k, v) ∷ b) h = cc (sym (h k) ∙ lookup-head k v b)

-- An entry that is visited first is in the map, and the others are in the map without it.
pub SubMap-head :
    (k : Str) (v : ProducerBatch) (a b : List (Str × ProducerBatch))
    → SubMap ((k, v) ∷ a) b
    → lookup k b ≡ some v
SubMap-head k v a b h = h k v (lookup-head k v a)

pub SubMap-tail :
    (k : Str) (v : ProducerBatch) (a b : List (Str × ProducerBatch))
    → Distinct ((k, v) ∷ a)
    → SubMap ((k, v) ∷ a) b
    → SubMap a b
unfolding lookup
SubMap-tail k v a b d h j c e = elim (Bool-cases (str_eq_instance.beq k j)) [
  | inl same ↦
      cc (sym (subst (λ i. lookup i a ≡ none) ((str_eq_instance.beq_iff k j).0 same) d.0) ∙ e)
  | inr differ ↦ h j c (rw differ e)
]

pub SubMap-delete :
    (k : Str) (a b : List (Str × ProducerBatch))
    → lookup k a ≡ none
    → SubMap a b
    → SubMap a (delete k b)
SubMap-delete k a b missing h j c e = elim (Bool-cases (str_eq_instance.beq k j)) [
  | inl same ↦
      cc (sym (subst (λ i. lookup i a ≡ none) ((str_eq_instance.beq_iff k j).0 same) missing) ∙ e)
  | inr differ ↦ rw (lookup-delete k j b, differ) (h j c e)
]

same_tail :
    (k : Str) (v : ProducerBatch) (a b : List (Str × ProducerBatch))
    → lookup k a ≡ none
    → SameMap ((k, v) ∷ a) b
    → SameMap a (delete k b)
unfolding lookup
same_tail k v a b missing h j = elim (Bool-cases (str_eq_instance.beq k j)) [
  | inl same ↦
      subst (λ i. lookup i a ≡ none) ((str_eq_instance.beq_iff k j).0 same) missing
      ∙ sym (rw (lookup-delete k j b, same) refl)
  | inr differ ↦ rw (lookup-delete k j b, differ) (rw differ at (h j))
]

-- The order of the entries does not matter.
pub map_weight-same :
    (w : ProducerBatch → ℕ) (a b : List (Str × ProducerBatch))
    → Distinct a
    → Distinct b
    → SameMap a b
    → map_weight w a ≡ map_weight w b
map_weight-same w [] b da db h =
    ap (map_weight w) (sym (nothing_in b (λ k. sym (h k) ∙ (unfold lookup in refl))))
map_weight-same w ((k, v) ∷ a) b da db h =
    let found = SubMap-head k v a b (λ j c e. sym (h j) ∙ e) in
    let rest =
      map_weight-same w a (delete k b) da.1 (delete-Distinct k b db) (same_tail k v a b da.0 h) in
    omega (arith, map_weight-delete w k v b db found)
