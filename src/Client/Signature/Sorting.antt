-- ===== src/Client/Signature/Sorting.antt =====
-- signature_v4.go: sorting forgets the order of the range.
use mathlib.Core.List.{Perm, Permᴰ, is_set}
use mathlib.Core.Bool.{true, false}
use mathlib.Core.Logic.{∥∥₁_elim}
use native.Mathlib.Nat.{ℕ_set}
use aliyun_log_go_sdk.Prelude.{◌≡◌, refl, ◌∙◌, List, [], ◌∷◌, Str, arith}
use aliyun_log_go_sdk.Client.Signature.{str_le, put_in, sort_strings}

str_le_total : (a b : Str) → str_le a b ≡ false → str_le b a ≡ true
unfolding str_le
str_le_total [] b h = cc
str_le_total (x ∷ a) [] h = refl
str_le_total (x ∷ a) (y ∷ b) h = ground (arith, str_le_total a b)

str_le_antisym : (a b : Str) → str_le a b ≡ true → str_le b a ≡ true → a ≡ b
unfolding str_le
str_le_antisym [] [] h k = refl
str_le_antisym [] (y ∷ b) h k = cc
str_le_antisym (x ∷ a) [] h k = cc
str_le_antisym (x ∷ a) (y ∷ b) h k = ground (arith, str_le_antisym a b)

str_le_trans : (a b c : Str) → str_le a b ≡ true → str_le b c ≡ true → str_le a c ≡ true
unfolding str_le
str_le_trans [] b c h k = refl
str_le_trans (x ∷ a) [] c h k = cc
str_le_trans (x ∷ a) (y ∷ b) [] h k = cc
str_le_trans (x ∷ a) (y ∷ b) (z ∷ c) h k = ground (arith, str_le_trans a b c)

put_in_comm : (s t : Str) (l : List Str) → put_in s (put_in t l) ≡ put_in t (put_in s l)
unfolding put_in
put_in_comm s t [] = ground (arith, str_le_total s t, str_le_antisym s t)
put_in_comm s t (u ∷ l) = ground (
  arith,
  str_le_total s t,
  str_le_total t s,
  str_le_antisym s t,
  str_le_trans s t u,
  str_le_trans t s u,
  put_in_comm s t l,
)

sort-derivation : {a b : List Str} → Permᴰ a b → sort_strings a ≡ sort_strings b
unfolding sort_strings
sort-derivation Permᴰ.nil = refl
sort-derivation (Permᴰ.cons e p) = λ i. put_in (e i) (sort-derivation p i)
sort-derivation (Permᴰ.swap {a} {b} {l = l} e f) =
    put_in_comm a b (sort_strings l) ∙ λ i. put_in (f i) (put_in (e i) (sort_strings l))
sort-derivation (Permᴰ.trans p q) = sort-derivation p ∙ sort-derivation q

pub sort_strings-perm : (a b : List Str) → Perm a b → sort_strings a ≡ sort_strings b
sort_strings-perm a b p = ∥∥₁_elim p (is_set (is_set ℕ_set) _ _) sort-derivation
