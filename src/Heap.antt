-- ===== src/Heap.antt =====
-- What producer/retry_queue.go uses of Go's container/heap, over a slice and its `Less`: the
-- standard library's loops. A swap with an index out of range, which would panic, changes nothing;
-- the loops make none.
pub mod Multiset
use aliyun_log_go_sdk.Prelude.{
  ℕ, zero, suc, ◌+◌, ◌-◌, ◌*◌, ◌/◌, Option, none, some, List, [], ◌∷◌, ◌++◌, Bool, true, false, ltb,
  leb, ◌==◌, ◌&&◌, ◌||◌, if◌then◌else◌, length, get_elem?, set, take,
}

module _ {ℓ} {A : Type ℓ} where
  unfoldable pub swap : ℕ → ℕ → List A → List A
  swap i j a = elim (get_elem? a i) [
    | none ↦ a
    | some x ↦ elim (get_elem? a j) [ none ↦ a | some y ↦ set (set a i y) j x ]
  ]

  -- The entry that the slice's own `Pop` takes off, and the rest.
  abbrev pub pop_back : List A → Option (A × List A)
  pop_back [] = none
  pop_back (x ∷ []) = some (x, [])
  pop_back (x ∷ y ∷ a) = elim (pop_back (y ∷ a)) [
    | none ↦ none
    | some (z, rest) ↦ some (z, x ∷ rest)
  ]

module _ {ℓ} {A : Type ℓ} (less : A → A → Bool) where
  -- `h.Less(i, j)`
  unfoldable pub less_at : List A → ℕ → ℕ → Bool
  less_at a i j = elim (get_elem? a i) [
    | none ↦ false
    | some x ↦ elim (get_elem? a j) [ none ↦ false | some y ↦ less x y ]
  ]

  -- `up`; the parent of 0 is 0, as in Go, where (0 - 1) / 2 is 0. The index bounds the rounds.
  unfoldable pub up : ℕ → List A → ℕ → List A
  up zero a j = a
  up (suc fuel) a j =
      let i = (j - 1) / 2 in
      let rest = up fuel (swap i j a) i in
      elim (less_at a j i) [ true ↦ if i == j then a else rest | false ↦ a ]

  -- The child that `down` compares.
  unfoldable pub smaller_child : List A → ℕ → ℕ → ℕ
  unfolding less_at
  smaller_child a i n =
      let j₁ = 2 * i + 1 in let j₂ = j₁ + 1 in if ltb j₂ n && less_at a j₂ j₁ then j₂ else j₁

  -- `down` on the first `n` entries
  unfoldable pub down : ℕ → List A → ℕ → ℕ → List A
  down zero a i n = a
  down (suc fuel) a i n =
      let j = smaller_child a i n in
      let rest = down fuel (swap i j a) j n in
      elim (leb n (2 * i + 1)) [
        | true ↦ a
        | false ↦ elim (less_at a j i) [ true ↦ rest | false ↦ a ]
      ]

  -- `heap.Push`
  unfoldable pub push : A → List A → List A
  unfolding up less_at swap
  push x h = let a = h ++ x ∷ [] in up (length a) a (length a - 1)

  -- `heap.Pop`; `none` is the panic on an empty slice.
  unfoldable pub pop : List A → Option (A × List A)
  unfolding down smaller_child less_at swap
  pop h = let n = length h - 1 in pop_back (down (length h) (swap 0 n h) 0 n)
