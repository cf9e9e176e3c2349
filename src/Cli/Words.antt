-- ===== src/Cli/Words.antt =====
-- The texts and numbers of the command line.
use agentqueue.Prelude.{
  ℕ, ◌*◌, ◌^◌, ◌≤◌, pos, Text, codes, trim, text_eq, text_eq_iff, is_empty, is_empty_iff, List, [],
  ◌∷◌, all, true, false, Option, Option-cases, none, some, if◌then◌else◌, ◌≡◌, ◌≢◌, ◌∙◌, refl, sym,
  ap, arith, Bool-cases, inl, inr, All,
}
use agentqueue.Data.{ok}
use agentqueue.Cli.{is_prog_byte, parse_meta, parse_pairs, cut_equals, assign}
use agentqueue.Cli.Waiting.{wrap64, wait_duration}

-- A timeout of up to 9223372036 seconds, some 292 years, is waited for as it was asked for.
pub wait_duration-exact : (n : ℕ) → n ≤ 9223372036 → wait_duration (pos n) ≡ pos (n * 10 ^ 9)
unfolding wait_duration wrap64
wait_duration-exact n h = ground (arith, h)

-- A word of plain bytes that is not empty and is no dot name.
abbrev pub IsPlainWord : Text → Type 0
IsPlainWord s = (all is_prog_byte s ≡ true) × (s ≢ []) × (s ≢ codes ".") × (s ≢ codes "..")

-- The value of a key in a map.
unfoldable pub value_of : Text → List (Text × Text) → Option Text
value_of k [] = none
value_of k ((l, u) ∷ m) = if text_eq l k then some u else value_of k m

value_of-assign :
    (k l v : Text) (m : List (Text × Text))
    → value_of k (assign l v m) ≡ (if text_eq l k then some v else value_of k m)
unfolding value_of assign
value_of-assign k l v [] = refl
value_of-assign k l v ((n, u) ∷ m) =
    ground (arith, value_of-assign k l v m, text_eq_iff n l, text_eq_iff n k, text_eq_iff l k)

-- What the pairs of `--meta` say of a key: the last pair with that key counts.
unfoldable pub last_value : Text → List Text → Option Text → Option Text
last_value k [] found = found
last_value k (p ∷ ps) found = elim (cut_equals p) [
  | none ↦ last_value k ps found
  | some (l, v) ↦ last_value k ps (if text_eq (trim l) k then some v else found)
]

-- A pair that is `key=value` with a key.
abbrev pub IsPair : Text → Type 0
IsPair p = (k : Text) × (v : Text) × (cut_equals p ≡ some (k, v)) × (trim k ≢ [])

parse_pairs-pair :
    (p : Text) (ps : List Text) (m : List (Text × Text)) (l v : Text)
    → cut_equals p ≡ some (l, v)
    → is_empty (trim l) ≡ false
    → parse_pairs m (p ∷ ps) ≡ parse_pairs (assign (trim l) v m) ps
unfolding parse_pairs
parse_pairs-pair p ps m l v e b = rw (e, b, parse_pairs) refl

parse_pairs-last :
    (ps : List Text) (m m' : List (Text × Text)) (k : Text)
    → parse_pairs m ps ≡ ok m'
    → All IsPair ps × (value_of k m' ≡ last_value k ps (value_of k m))
unfolding parse_pairs last_value
parse_pairs-last [] m m' k h = (tt, ap (value_of k) (cc h))
parse_pairs-last (p ∷ ps) m m' k h = elim (Option-cases (cut_equals p)) [
  | inl e ↦ absurd (ground (arith, e, h))
  | inr ((l, v), e) ↦ elim (Bool-cases (is_empty (trim l))) [
    | inl b ↦ absurd (ground (arith, e, b, h))
    | inr b ↦
        let (good, last) =
          parse_pairs-last ps (assign (trim l) v m) m' k
            (sym (parse_pairs-pair p ps m l v e b) ∙ h) in
        (
          ((l, v, e, λ z. ground (arith, b, is_empty_iff (trim l), z)), good),
          last ∙ rw (value_of-assign k (trim l) v m, e, last_value) refl,
        )
  ]
]

-- `parseMeta` takes only pairs that are `key=value` with a key, and gives each key the value of the
-- last pair that has it.
pub parse_meta-last :
    (pairs : List Text) (m : List (Text × Text)) (k : Text)
    → parse_meta pairs ≡ ok m
    → All IsPair pairs × (value_of k m ≡ last_value k pairs none)
unfolding parse_meta value_of
parse_meta-last pairs m k h = parse_pairs-last pairs [] m k h
