-- ===== src/Consumer/Util.antt =====
-- consumer/util.go: lists of shard ids as sets. A shard's id is a number, never negative.
pub mod Sets
use aliyun_log_go_sdk.Prelude.{
  ℕ, ◌+◌, List, [], ◌∷◌, ◌++◌, Bool, true, false, ◌||◌, ◌==◌, if◌then◌else◌, length,
}
use aliyun_log_go_sdk.Prelude.Int.{ℤ, ltb_ℤ}
use aliyun_log_go_sdk.LogPb.{LogGroup}
use aliyun_log_go_sdk.Map.{nat_eq, insert}

-- The loop of `Set`: an element is new when the map grows by it.
unfoldable pub set_loop : List ℕ → List (ℕ × ℕ) → List ℕ → List ℕ
set_loop [] temp_map result = result
set_loop (e ∷ slc) temp_map result =
    let grown = insert e 0 temp_map in
    set_loop slc grown (if length grown == length temp_map then result else result ++ e ∷ [])

-- `Set`
unfoldable pub set_of : List ℕ → List ℕ
set_of slc = set_loop slc [] []

-- The inner loop of `Subtract`: whether its last round is reached without a match.
unfoldable pub absent : ℕ → List ℕ → Bool
absent temp [] = false
absent temp (x ∷ []) = if temp == x then false else true
absent temp (x ∷ y ∷ a) = let rest = absent temp (y ∷ a) in if temp == x then false else rest

abbrev pub keep_absent : List ℕ → List ℕ → List ℕ
keep_absent a [] = []
keep_absent a (b ∷ bs) = let rest = keep_absent a bs in if absent b a then b ∷ rest else rest

-- `Subtract a b`: what is in b and not in a.
unfoldable pub subtract : List ℕ → List ℕ → List ℕ
unfolding absent
subtract [] b = b
subtract (x ∷ a) b = keep_absent (x ∷ a) b

-- `Min`
unfoldable pub min_of : ℤ → ℤ → ℤ
min_of a b = if ltb_ℤ b a then b else a

-- `Contain`, for a slice
unfoldable pub contain : ℕ → List ℕ → Bool
contain obj [] = false
contain obj (x ∷ target) = x == obj || contain obj target

-- `GetLogCount` of a list that is not nil
unfoldable pub get_log_count : List LogGroup → ℕ
get_log_count [] = 0
get_log_count (g ∷ gs) = length g.logs + get_log_count gs
