-- ===== src/Consumer/Client/Requests.antt =====
-- consumer/consumer_client.go: which answers of the server count.
use mathlib.Core.Bool.{true, false}
use aliyun_log_go_sdk.Prelude.{
  ◌≢◌, ◌⊎◌, inl, inr, ap, ◌++◌, Bool-cases, ◌==◌, ℕ, zero, suc, ◌≡◌, ◌↔◌, ◌&&◌, ◌||◌, ◌≤◌, refl,
  List, [], ◌∷◌, Bool, arith, Str, str_eq, if◌then◌else◌,
}
use aliyun_log_go_sdk.Producer.IoWorker.{Err}
use aliyun_log_go_sdk.Consumer.Client.{
  Answer, error, value, ConsumerGroup, ConsumerGroupCheckPoint, GroupRequest, no_request,
  update_consumer_group, create_consumer_group, choose_request, same_settings, ask_check_points,
  found_check_point, find_check_point, get_check_point_of,
}

-- The first n answers are errors.
abbrev pub AllErrors {ℓ} : {A : Type ℓ} → (ℕ → Answer A) → ℕ → Type ℓ
AllErrors answers n = (i : ℕ) → suc i ≤ n → (e : Err) × (answers i ≡ error e)

abbrev AskEnds :
    ℕ → (ℕ → Answer (List ConsumerGroupCheckPoint)) → Answer (List ConsumerGroupCheckPoint) → Type 0
AskEnds n answers (value points) =
    (k : ℕ) × (k ≤ n) × AllErrors answers k × (answers k ≡ value points)
AskEnds n answers (error err) = AllErrors answers n × (answers n ≡ error err)

none_before : (answers : ℕ → Answer (List ConsumerGroupCheckPoint)) → AllErrors answers 0
none_before answers i h = absurd (omega arith)

one_more :
    (answers : ℕ → Answer (List ConsumerGroupCheckPoint)) (e : Err) (n : ℕ)
    → answers 0 ≡ error e
    → AllErrors (λ k. answers (suc k)) n
    → AllErrors answers (suc n)
one_more answers e n now rest zero h = (e, now)
one_more answers e n now rest (suc i) h = rest i (omega arith)

single-AskEnds :
    (answers : ℕ → Answer (List ConsumerGroupCheckPoint))
    (a : Answer (List ConsumerGroupCheckPoint))
    → answers 0 ≡ a
    → AskEnds 0 answers a
single-AskEnds answers (error err) e = (none_before answers, e)
single-AskEnds answers (value points) e = (0, omega arith, none_before answers, e)

later-AskEnds :
    (n : ℕ) (answers : ℕ → Answer (List ConsumerGroupCheckPoint)) (e : Err)
    → answers 0 ≡ error e
    → (r : Answer (List ConsumerGroupCheckPoint)) → AskEnds n (λ k. answers (suc k)) r
    → AskEnds (suc n) answers r
later-AskEnds n answers e now (error err) (errors, last) = (one_more answers e n now errors, last)
later-AskEnds n answers e now (value points) (k, at_most, errors, found) =
    (suc k, omega arith, one_more answers e k now errors, found)

first-AskEnds :
    (n : ℕ) (answers : ℕ → Answer (List ConsumerGroupCheckPoint))
    (a r : Answer (List ConsumerGroupCheckPoint))
    → answers 0 ≡ a
    → AskEnds n (λ k. answers (suc k)) r
    → AskEnds (suc n) answers (elim a [ error err ↦ r | value points ↦ value points ])
first-AskEnds n answers (error err) r now rest = later-AskEnds n answers err now r rest
first-AskEnds n answers (value points) r now rest = (0, omega arith, none_before answers, now)

ask-AskEnds :
    (n : ℕ) (answers : ℕ → Answer (List ConsumerGroupCheckPoint))
    → AskEnds n answers (ask_check_points n answers)
unfolding ask_check_points
ask-AskEnds zero answers = single-AskEnds answers (answers 0) refl
ask-AskEnds (suc n) answers =
    first-AskEnds n answers (answers 0) _ refl (ask-AskEnds n (λ k. answers (suc k)))

abbrev pub NoneOf : ℕ → List ConsumerGroupCheckPoint → Type 0
NoneOf shard_id [] = Unit
NoneOf shard_id (c ∷ cs) = (c.shard_id ≢ shard_id) × NoneOf shard_id cs

-- The checkpoint of the shard's first entry, or the empty text if it has none.
abbrev pub IsCheckPoint : ℕ → List ConsumerGroupCheckPoint → Str → Type 0
IsCheckPoint shard_id points c =
    (NoneOf shard_id points × (c ≡ []))
    ⊎ ((before : List ConsumerGroupCheckPoint) × (own : ConsumerGroupCheckPoint) × (after : List
          ConsumerGroupCheckPoint)
        × (points ≡ before ++ own ∷ after)
        × NoneOf shard_id before
        × (own.shard_id ≡ shard_id)
        × (c ≡ own.check_point))

later-IsCheckPoint :
    (shard_id : ℕ) (p : ConsumerGroupCheckPoint) (points : List ConsumerGroupCheckPoint) (c : Str)
    → p.shard_id ≢ shard_id
    → IsCheckPoint shard_id points c
    → IsCheckPoint shard_id (p ∷ points) c
later-IsCheckPoint shard_id p points c other (inl (none_there, empty)) =
    inl ((other, none_there), empty)
later-IsCheckPoint shard_id p points c other
      (inr (before, own, after, e, none_there, is_own, is_c)) =
    inr (p ∷ before, own, after, ap (◌∷◌ p) e, (other, none_there), is_own, is_c)

find_check_point-IsCheckPoint :
    (shard_id : ℕ) (points : List ConsumerGroupCheckPoint)
    → IsCheckPoint shard_id points (find_check_point shard_id points)
find_check_point-IsCheckPoint shard_id [] = inl (tt, refl)
find_check_point-IsCheckPoint shard_id (p ∷ points) = elim (Bool-cases (p.shard_id == shard_id)) [
  | inl own ↦ inr ([], p, points, refl, tt, ground arith, rw own refl)
  | inr other ↦ rw other (
      later-IsCheckPoint shard_id p points _ (λ e. ground arith)
        (find_check_point-IsCheckPoint shard_id points))
]

abbrev pub CheckPointFrom : ℕ → (ℕ → Answer (List ConsumerGroupCheckPoint)) → Answer Str → Type 0
CheckPointFrom shard_id answers (error err) = AllErrors answers 2 × (answers 2 ≡ error err)
CheckPointFrom shard_id answers (value c) =
    (k : ℕ) × (k ≤ 2)
    × AllErrors answers k
    × ((points : List ConsumerGroupCheckPoint) × (answers k ≡ value points)
        × IsCheckPoint shard_id points c)

found-CheckPointFrom :
    (shard_id : ℕ) (answers : ℕ → Answer (List ConsumerGroupCheckPoint))
    (r : Answer (List ConsumerGroupCheckPoint))
    → AskEnds 2 answers r
    → CheckPointFrom shard_id answers (found_check_point shard_id r)
found-CheckPointFrom shard_id answers (error err) h = h
found-CheckPointFrom shard_id answers (value points) (k, at_most, errors, found) =
    (k, at_most, errors, (points, found, find_check_point-IsCheckPoint shard_id points))

-- `getCheckPoint` gives the checkpoint of the shard's first entry, or the empty text without one,
-- in the first answer that is no error, of three at most; it gives an error only if all three
-- are errors, and then the third.
pub get_check_point_of_cases :
    (shard_id : ℕ) (answers : ℕ → Answer (List ConsumerGroupCheckPoint))
    → CheckPointFrom shard_id answers (get_check_point_of shard_id answers)
unfolding get_check_point_of
get_check_point_of_cases shard_id answers =
    found-CheckPointFrom shard_id answers _ (ask-AskEnds 2 answers)

-- Whether a group of the name is listed, and whether one with the same settings is.
abbrev pub is_listed : ConsumerGroup → List ConsumerGroup → Bool
is_listed own [] = false
is_listed own (cg ∷ groups) =
    str_eq cg.consumer_group_name own.consumer_group_name || is_listed own groups

abbrev pub is_up_to_date : ConsumerGroup → List ConsumerGroup → Bool
is_up_to_date own [] = false
is_up_to_date own (cg ∷ groups) =
    (str_eq cg.consumer_group_name own.consumer_group_name && same_settings cg own)
    || is_up_to_date own groups

abbrev request_of : Bool → Bool → GroupRequest
request_of up_to_date listed =
    if up_to_date
    then no_request
    else if listed
    then update_consumer_group
    else create_consumer_group

step_of :
    (named same b u l : Bool) (later other : GroupRequest)
    → later ≡ request_of u true
    → other ≡ request_of u (b || l)
    → (if named then (if same then no_request else later) else other)
      ≡ request_of ((named && same) || u) (b || (named || l))
step_of true true b u l later other e f = refl
step_of true false true u l later other e f = e
step_of true false false u l later other e f = e
step_of false same b u l later other e f = f

answers_of :
    (u l : Bool)
    → ((request_of u l ≡ no_request) ↔ (u ≡ true))
      × ((request_of u l ≡ create_consumer_group) ↔ ((u ≡ false) × (l ≡ false)))
answers_of true l = ((λ e. refl, λ e. refl), (λ e. absurd cc, λ e. absurd cc))
answers_of false true = ((λ e. absurd cc, λ e. absurd cc), (λ e. absurd cc, λ e. absurd cc))
answers_of false false = ((λ e. absurd cc, λ e. absurd cc), (λ e. (refl, refl), λ e. refl))

choose_request-request_of :
    (own : ConsumerGroup) (already_exist : Bool) (groups : List ConsumerGroup)
    → choose_request own already_exist groups
      ≡ request_of (is_up_to_date own groups) (already_exist || is_listed own groups)
unfolding choose_request
choose_request-request_of own true [] = refl
choose_request-request_of own false [] = refl
choose_request-request_of own b (cg ∷ groups) =
    step_of (str_eq cg.consumer_group_name own.consumer_group_name) (same_settings cg own) b
      (is_up_to_date own groups) (is_listed own groups) _ _
      (choose_request-request_of own true groups) (choose_request-request_of own b groups)

-- `createConsumerGroup` asks for nothing if a listed group has the consumer's name and settings,
-- for an update if one has the name but none the settings too, and else for a new group.
choose_request_cases :
    (own : ConsumerGroup) (groups : List ConsumerGroup)
    → ((choose_request own false groups ≡ no_request) ↔ (is_up_to_date own groups ≡ true))
      × ((choose_request own false groups ≡ create_consumer_group)
          ↔ ((is_up_to_date own groups ≡ false) × (is_listed own groups ≡ false)))
choose_request_cases own groups =
    rw (choose_request-request_of own false groups)
      (answers_of (is_up_to_date own groups) (is_listed own groups))
