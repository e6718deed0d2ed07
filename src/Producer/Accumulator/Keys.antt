-- ===== src/Producer/Accumulator/Keys.antt =====
-- producer/log_accumulator.go: getKeyString, which tells apart where logs go.
use mathlib.Core.Bool.{false}
use mathlib.Core.List.{append_assoc}
use mathlib.Core.Path.{ap₂}
use aliyun_log_go_sdk.Prelude.{◌≡◌, ◌≢◌, refl, ap, [], ◌∷◌, ◌++◌, Str, arith, length, length-append}
use aliyun_log_go_sdk.Producer.Hash.{contains_byte}
use aliyun_log_go_sdk.Producer.Accumulator.{Target, get_key_string}

-- A text is cut at its first bar in one way.
cut_at_bar :
    (a b r s : Str)
    → contains_byte b'|' a ≡ false
    → contains_byte b'|' b ≡ false
    → a ++ b'|' ∷ r ≡ b ++ b'|' ∷ s
    → (a ≡ b) × (r ≡ s)
unfolding contains_byte
cut_at_bar [] [] r s ha hb e = (refl, cc)
cut_at_bar [] (y ∷ b) r s ha hb e = ground arith
cut_at_bar (x ∷ a) [] r s ha hb e = ground arith
cut_at_bar (x ∷ a) (y ∷ b) r s ha hb e =
    let (same, rest) = cut_at_bar a b r s (ground arith) (ground arith) (ground arith) in
    let first : x ≡ y = ground arith in (ap₂ (λ z c. z ∷ c) first same, rest)

-- No bar in the fields that a bar follows.
pub record IsPlain (t : Target) : Type 0 where
  pub project : contains_byte b'|' t.project ≡ false
  pub logstore : contains_byte b'|' t.logstore ≡ false
  pub log_topic : contains_byte b'|' t.log_topic ≡ false
  pub shard_hash : contains_byte b'|' t.shard_hash ≡ false

-- Two targets of one key are equal, if neither has a bar in a field other than the source.
pub get_key_string-injective :
    (t u : Target) → IsPlain t → IsPlain u → get_key_string t ≡ get_key_string u → t ≡ u
unfolding get_key_string
get_key_string-injective t u v w e =
    let (project, e₁) = cut_at_bar t.project u.project _ _ v.project w.project e in
    let (logstore, e₂) = cut_at_bar t.logstore u.logstore _ _ v.logstore w.logstore e₁ in
    let (topic, e₃) = cut_at_bar t.log_topic u.log_topic _ _ v.log_topic w.log_topic e₂ in
    let (hash, source) = cut_at_bar t.shard_hash u.shard_hash _ _ v.shard_hash w.shard_hash e₃ in
    λ i. record {
      project = project i;
      logstore = logstore i;
      log_topic = topic i;
      log_source = source i;
      shard_hash = hash i;
    }

-- Bars in a topic and in a source make one key of different targets, whatever the five texts.
pub get_key_string-collision :
    (project logstore a b c d : Str)
    → let t : Target = record {
      project = project;
      logstore = logstore;
      log_topic = a ++ b'|' ∷ b;
      log_source = d;
      shard_hash = c;
    } in
      let u : Target = record {
        project = project;
        logstore = logstore;
        log_topic = a;
        log_source = c ++ b'|' ∷ d;
        shard_hash = b;
      } in
      (get_key_string t ≡ get_key_string u) × (t ≢ u)
unfolding get_key_string
get_key_string-collision project logstore a b c d = (
  simp append_assoc,
  λ e.
      absurd (omega (arith, ap (λ (t : Target). length t.log_topic) e, length-append a (b'|' ∷ b))),
)
