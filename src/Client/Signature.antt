-- ===== src/Client/Signature.antt =====
-- signature_v4.go: the canonical form of the headers that are signed. A Go map ranges in any order,
-- so the headers come as a list, in the order they are visited; header names are ASCII.
pub mod Sorting
pub mod Canonical
use aliyun_log_go_sdk.Prelude.{
  ℕ, List, [], ◌∷◌, ◌++◌, map, Bool, true, false, ◌&&◌, ◌||◌, Str, bytes, equal_fold, ltb, ◌==◌,
  to_lower, Option, none, some, if◌then◌else◌,
}
use aliyun_log_go_sdk.Map.{str_eq_instance, lookup, insert}

-- Go's order of strings
unfoldable pub str_le : Str → Str → Bool
str_le [] t = true
str_le (x ∷ s) [] = false
str_le (x ∷ s) (y ∷ t) = if x == y then str_le s t else ltb x y

-- `sort.Strings`: its result is the same for every way of sorting.
unfoldable pub put_in : Str → List Str → List Str
put_in s [] = s ∷ []
put_in s (t ∷ ts) = let rest = put_in s ts in if str_le s t then s ∷ t ∷ ts else t ∷ rest

unfoldable pub sort_strings : List Str → List Str
unfolding put_in
sort_strings [] = []
sort_strings (s ∷ ss) = put_in s (sort_strings ss)

-- strings.HasPrefix
unfoldable pub has_prefix : Str → Str → Bool
has_prefix s [] = true
has_prefix [] (y ∷ t) = false
has_prefix (x ∷ s) (y ∷ t) = x == y && has_prefix s t

-- strings.ToLower
abbrev pub lower : Str → Str
lower s = map to_lower s

unfoldable pub is_signed_header : Str → Bool
unfolding has_prefix equal_fold
is_signed_header key =
    has_prefix key (bytes "x-log-")
    || has_prefix key (bytes "x-acs-")
    || equal_fold key (bytes "Host")
    || equal_fold key (bytes "Content-Type")

-- The loop over the headers: the keys in the order of the range, and the map of the signed ones,
-- from what they are so far.
unfoldable pub collect :
    List (Str × Str) → List Str → List (Str × Str) → List Str × List (Str × Str)
collect [] header_keys signed = (header_keys, signed)
collect ((k, v) ∷ headers) header_keys signed =
    if is_signed_header (lower k)
    then collect headers (header_keys ++ lower k ∷ []) (insert (lower k) v signed)
    else collect headers header_keys signed

-- A missing key gives the empty text.
abbrev pub value_of : Option Str → Str
value_of none = []
value_of (some v) = v

unfoldable pub canonical_headers : List Str → List (Str × Str) → Str
canonical_headers [] signed = []
canonical_headers (k ∷ ks) signed =
    k ++ (bytes ":" ++ (value_of (lookup k signed) ++ (10 ∷ canonical_headers ks signed)))

-- The keys behind the first, each after a semicolon.
abbrev pub joined : List Str → Str
joined [] = []
joined (k ∷ ks) = bytes ";" ++ (k ++ joined ks)

abbrev pub signed_headers : List Str → Str
signed_headers [] = []
signed_headers (k ∷ ks) = k ++ joined ks

-- `buildCanonicalHeaders`
unfoldable pub build_canonical_headers : List (Str × Str) → Str × Str
unfolding collect
build_canonical_headers headers =
    let (header_keys, signed) = collect headers [] [] in
    let sorted = sort_strings header_keys in
    (signed_headers sorted, canonical_headers sorted signed)
