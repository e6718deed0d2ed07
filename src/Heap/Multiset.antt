-- ===== src/Heap/Multiset.antt =====
-- The heap operations keep the entries: nothing is lost and nothing is made up.
use mathlib.Core.Option.{some-injective}
use mathlib.Core.Logic.{∥∥₁_elim}
use native.Mathlib.Nat.{ℕ_set}
use mathlib.Core.List.{Perm, Permᴰ, append-nil, perm_middle}
use mathlib.Core.List.Perm
use aliyun_log_go_sdk.Prelude.{
  ◌∙◌, ℕ, zero, suc, ◌+◌, ◌-◌, ◌*◌, ◌/◌, ◌≡◌, refl, sym, ap, ◌⊎◌, inl, inr, Option, none, some,
  List, [], ◌∷◌, ◌++◌, Bool, Bool-cases, Option-cases, arith, ◌==◌, if◌then◌else◌, length,
  get_elem?, set, leb,
}
use aliyun_log_go_sdk.Heap.{swap, less_at, up, smaller_child, down, push, pop_back, pop}

module _ {ℓ} {A : Type ℓ} where
  -- A write trades the old entry for the new one.
  set-perm : (a : List A) (i : ℕ) (x v : A) → get_elem? a i ≡ some x → Perm (x ∷ set a i v) (v ∷ a)
  set-perm [] i x v e = cc
  set-perm (y ∷ a) zero x v e =
      Perm.trans (Perm.swap v x a)
        (Perm.cons' refl (Perm.cons' (sym (some-injective _ _ e)) Perm.rfl))
  set-perm (y ∷ a) (suc i) x v e =
      Perm.trans (Perm.swap y x _) (Perm.trans (Perm.cons y (set-perm a i x v e)) (Perm.swap v y a))

  get_elem?-set :
      (a : List A) (i j : ℕ) (x y v : A)
      → get_elem? a i ≡ some x
      → get_elem? a j ≡ some y
      → get_elem? (set a i v) j ≡ (if i == j then some v else some y)
  get_elem?-set [] i j x y v ex ey = cc
  get_elem?-set (z ∷ a) zero zero x y v ex ey = refl
  get_elem?-set (z ∷ a) zero (suc j) x y v ex ey = ground arith
  get_elem?-set (z ∷ a) (suc i) zero x y v ex ey = ground arith
  get_elem?-set (z ∷ a) (suc i) (suc j) x y v ex ey =
      ground (arith, get_elem?-set a i j x y v ex ey)

  swap_at-perm :
      (a : List A) (i j : ℕ) (x y : A)
      → get_elem? a i ≡ some x
      → get_elem? a j ≡ some y
      → Perm (set (set a i y) j x) a
  swap_at-perm a i j x y ex ey =
      let kept : get_elem? (set a i y) j ≡ some y =
        ground (arith, get_elem?-set a i j x y y ex ey) in
      Perm.cons_inv (Perm.trans (set-perm (set a i y) j y x kept) (set-perm a i x y ex))

  pub swap-perm : (i j : ℕ) (a : List A) → Perm (swap i j a) a
  unfolding swap
  swap-perm i j a = elim (Option-cases (get_elem? a i)) [
    | inl out ↦ rw (out, swap) (Perm.refl a)
    | inr (x, ex) ↦ elim (Option-cases (get_elem? a j)) [
      | inl out ↦ rw (ex, out, swap) (Perm.refl a)
      | inr (y, ey) ↦ rw (ex, ey, swap) (swap_at-perm a i j x y ex ey)
    ]
  ]

module _ {ℓ} {A : Type ℓ} (less : A → A → Bool) where
  up-perm : (fuel : ℕ) (a : List A) (j : ℕ) → Perm (up less fuel a j) a
  unfolding up
  up-perm zero a j = Perm.refl a
  up-perm (suc fuel) a j =
      let i = (j - 1) / 2 in
      let rest = Perm.trans (up-perm fuel (swap i j a) i) (swap-perm i j a) in
      elim (Bool-cases (less_at less a j i)) [
        | inl below ↦ elim (Bool-cases (i == j)) [
          | inl root ↦ rw (below, root, up) (Perm.refl a)
          | inr inner ↦ rw (below, inner, up) rest
        ]
        | inr above ↦ rw (above, up) (Perm.refl a)
      ]

  down-perm : (fuel : ℕ) (a : List A) (i n : ℕ) → Perm (down less fuel a i n) a
  unfolding down
  down-perm zero a i n = Perm.refl a
  down-perm (suc fuel) a i n =
      let j = smaller_child less a i n in
      let rest = Perm.trans (down-perm fuel (swap i j a) j n) (swap-perm i j a) in
      elim (Bool-cases (leb n (2 * i + 1))) [
        | inl leaf ↦ rw (leaf, down) (Perm.refl a)
        | inr inner ↦ elim (Bool-cases (less_at less a j i)) [
          | inl below ↦ rw (inner, below, down) rest
          | inr above ↦ rw (inner, above, down) (Perm.refl a)
        ]
      ]

  -- Pushing adds one entry.
  pub push-perm : (x : A) (h : List A) → Perm (push less x h) (x ∷ h)
  unfolding push
  push-perm x h =
      Perm.trans (up-perm (length (h ++ x ∷ [])) (h ++ x ∷ []) _)
        (rw (append-nil h) at (perm_middle {a = x} h []))

module _ {ℓ} {A : Type ℓ} where
  -- What `pop_back` returns is the last entry and those before it.
  abbrev Split : List A → Option (A × List A) → Type ℓ
  Split a r =
      ((a ≡ []) × (r ≡ none))
      ⊎ ((z : A) × (rest : List A) × (a ≡ rest ++ z ∷ []) × (r ≡ some (z, rest)))

  pub pop_back-Split : (a : List A) → Split a (pop_back a)
  pop_back-Split [] = inl (refl, refl)
  pop_back-Split (x ∷ []) = inr (x, [], refl, refl)
  pop_back-Split (x ∷ y ∷ a) = elim (pop_back-Split (y ∷ a)) [
    | inl (e, _) ↦ cc
    | inr (z, rest, e, r) ↦ inr (z, x ∷ rest, ap (◌∷◌ x) e, rw r)
  ]

module _ {ℓ} {A : Type ℓ} (less : A → A → Bool) where
  -- Popping fails on the empty slice alone, and otherwise takes one entry out.
  pub pop_cases :
      (h : List A)
      → ((h ≡ []) × (pop less h ≡ none))
        ⊎ ((x : A) × (rest : List A) × (pop less h ≡ some (x, rest)) × Perm (x ∷ rest) h)
  unfolding pop
  pop_cases [] = inl (refl, refl)
  pop_cases (y ∷ h) =
      let n = length (y ∷ h) - 1 in
      let sunk = down less (length (y ∷ h)) (swap 0 n (y ∷ h)) 0 n in
      let kept =
        Perm.trans (down-perm less (length (y ∷ h)) (swap 0 n (y ∷ h)) 0 n)
          (swap-perm 0 n (y ∷ h)) in
      elim (pop_back-Split sunk) [
        | inl (e, _) ↦ cc (Perm.nil-eq (rw e at kept))
        | inr (z, rest, e, r) ↦ inr (
          z,
          rest,
          r,
          Perm.trans (rw (append-nil rest) at (Perm.symm (perm_middle {a = z} rest [])))
              (rw e at kept),
        )
      ]

length-perm_derivation {ℓ} : {A : Type ℓ} {a b : List A} → Permᴰ a b → length a ≡ length b
length-perm_derivation Permᴰ.nil = refl
length-perm_derivation (Permᴰ.cons _ p) = ap suc (length-perm_derivation p)
length-perm_derivation (Permᴰ.swap _ _) = refl
length-perm_derivation (Permᴰ.trans p q) = length-perm_derivation p ∙ length-perm_derivation q

pub length-perm {ℓ} : {A : Type ℓ} {a b : List A} → Perm a b → length a ≡ length b
length-perm p = ∥∥₁_elim p (ℕ_set _ _) length-perm_derivation
