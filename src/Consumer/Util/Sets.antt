-- ===== src/Consumer/Util/Sets.antt =====
-- consumer/util.go: Set and Subtract as operations on sets.
use mathlib.Core.Bool.{true, false}
use aliyun_log_go_sdk.Prelude.{
  ℕ, suc, ◌≡◌, refl, sym, subst, ◌∙◌, ap, inl, inr, Option, none, some, List, [], ◌∷◌, ◌++◌, Bool,
  not, ◌||◌, ◌&&◌, ◌==◌, ==_iff, ==_refl, Bool-cases, arith, if◌then◌else◌, length,
}
use aliyun_log_go_sdk.Map.{nat_eq, insert, lookup, lookup-insert}
use aliyun_log_go_sdk.Consumer.Util.{set_loop, set_of, absent, keep_absent, subtract, contain}

-- No element twice.
abbrev pub IsUnique : List ℕ → Type 0
IsUnique [] = Unit {0}
IsUnique (x ∷ xs) = (contain x xs ≡ false) × IsUnique xs

abbrev has : Option ℕ → Bool
has none = false
has (some v) = true

length-insert :
    (k v : ℕ) (m : List (ℕ × ℕ))
    → length (insert k v m) ≡ (if has (lookup k m) then length m else suc (length m))
unfolding insert lookup
length-insert k v [] = refl
length-insert k v ((j, w) ∷ m) = ground (arith, length-insert k v m)

pub contain-append : (x : ℕ) (xs ys : List ℕ) → contain x (xs ++ ys) ≡ contain x xs || contain x ys
unfolding contain
contain-append x [] ys = refl
contain-append x (y ∷ xs) ys = ground (arith, contain-append x xs ys)

append-IsUnique :
    (e : ℕ) (xs : List ℕ) → contain e xs ≡ false → IsUnique xs → IsUnique (xs ++ e ∷ [])
unfolding contain
append-IsUnique e [] h v = (refl, tt)
append-IsUnique e (x ∷ xs) h v =
    (ground (arith, contain-append x xs (e ∷ []), v.0), append-IsUnique e xs (ground arith) v.1)

keep_absent-contain :
    (x : ℕ) (a b : List ℕ) → contain x (keep_absent a b) ≡ contain x b && absent x a
unfolding contain
keep_absent-contain x a [] = ground arith
keep_absent-contain x a (y ∷ b) = elim (Bool-cases (y == x)) [
  | inl same ↦
      let one : y ≡ x = (==_iff y x).0 same in
      subst
        (λ z.
          contain x (if absent z a then z ∷ keep_absent a b else keep_absent a b)
          ≡ (z == x || contain x b) && absent x a)
        (sym one) (ground (arith, ==_refl x, keep_absent-contain x a b))
  | inr other ↦ ground (arith, keep_absent-contain x a b)
]

absent-contain : (t x : ℕ) (a : List ℕ) → absent t (x ∷ a) ≡ not (contain t (x ∷ a))
unfolding contain absent
absent-contain t x [] = ground arith
absent-contain t x (y ∷ a) = ground (arith, absent-contain t y a)

-- What the map of `Set` knows is what its result holds.
abbrev Agree : List (ℕ × ℕ) → List ℕ → Type 0
Agree temp_map result = (x : ℕ) → has (lookup x temp_map) ≡ contain x result

abbrev extended : ℕ → List (ℕ × ℕ) → List ℕ → List ℕ
extended e temp_map result =
    if length (insert e 0 temp_map) == length temp_map then result else result ++ e ∷ []

extended-new :
    (e : ℕ) (temp_map : List (ℕ × ℕ)) (result : List ℕ)
    → extended e temp_map result ≡ (if has (lookup e temp_map) then result else result ++ e ∷ [])
extended-new e temp_map result = ground (arith, length-insert e 0 temp_map)

known-contain :
    (e x : ℕ) (result : List ℕ)
    → contain e result ≡ true
    → contain x result ≡ contain x result || e == x
known-contain e x result held = elim (Bool-cases (e == x)) [
  | inl same ↦
      let found = subst (λ z. contain z result ≡ true) ((==_iff e x).0 same) held in ground arith
  | inr other ↦ ground arith
]

extended-contain :
    (e x : ℕ) (temp_map : List (ℕ × ℕ)) (result : List ℕ)
    → Agree temp_map result
    → contain x (extended e temp_map result) ≡ contain x result || e == x
unfolding contain
extended-contain e x temp_map result v = elim (Bool-cases (has (lookup e temp_map))) [
  | inl known ↦
      let held = sym (v e) ∙ known in
      rw (extended-new e temp_map result, known) (known-contain e x result held)
  | inr new ↦
      rw (extended-new e temp_map result, new) (ground (arith, contain-append x result (e ∷ [])))
]

Agree-insert :
    (e : ℕ) (temp_map : List (ℕ × ℕ)) (result : List ℕ)
    → Agree temp_map result
    → Agree (insert e 0 temp_map) (extended e temp_map result)
Agree-insert e temp_map result v x =
    ground (arith, lookup-insert e x 0 temp_map, extended-contain e x temp_map result v, v x)

extended-IsUnique :
    (e : ℕ) (temp_map : List (ℕ × ℕ)) (result : List ℕ)
    → Agree temp_map result
    → IsUnique result
    → IsUnique (extended e temp_map result)
extended-IsUnique e temp_map result v u = elim (Bool-cases (has (lookup e temp_map))) [
  | inl known ↦ rw (extended-new e temp_map result, known) u
  | inr new ↦
      rw (extended-new e temp_map result, new) (append-IsUnique e result (sym (v e) ∙ new) u)
]

loop-contain :
    (x : ℕ) (slc : List ℕ) (temp_map : List (ℕ × ℕ)) (result : List ℕ)
    → Agree temp_map result
    → contain x (set_loop slc temp_map result) ≡ contain x result || contain x slc
unfolding set_loop contain
loop-contain x [] temp_map result v = ground arith
loop-contain x (e ∷ slc) temp_map result v = ground (
  arith,
  loop-contain x slc (insert e 0 temp_map) (extended e temp_map result)
      (Agree-insert e temp_map result v),
  extended-contain e x temp_map result v,
)

loop-IsUnique :
    (slc : List ℕ) (temp_map : List (ℕ × ℕ)) (result : List ℕ)
    → Agree temp_map result
    → IsUnique result
    → IsUnique (set_loop slc temp_map result)
unfolding set_loop
loop-IsUnique [] temp_map result v u = u
loop-IsUnique (e ∷ slc) temp_map result v u =
    loop-IsUnique slc (insert e 0 temp_map) (extended e temp_map result)
      (Agree-insert e temp_map result v) (extended-IsUnique e temp_map result v u)

-- `Set` keeps the elements and leaves none twice.
pub set_of_lem :
    (slc : List ℕ) → IsUnique (set_of slc) × ((x : ℕ) → contain x (set_of slc) ≡ contain x slc)
unfolding set_of lookup contain
set_of_lem slc = (loop-IsUnique slc [] [] (λ x. refl) tt, λ x. loop-contain x slc [] [] (λ y. refl))

-- `Subtract a b` has the elements of b that are not in a.
pub subtract_lem :
    (a b : List ℕ) (x : ℕ) → contain x (subtract a b) ≡ contain x b && not (contain x a)
unfolding subtract
subtract_lem [] b x = unfold contain in ground arith
subtract_lem (y ∷ a) b x =
    keep_absent-contain x (y ∷ a) b ∙ ap (λ t. contain x b && t) (absent-contain x y a)
