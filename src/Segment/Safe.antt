-- ===== src/Segment/Safe.antt =====
-- No input can introduce a separator or traverse out of the queue root.
use agentqueue.Prelude.{
  ℕ, zero, suc, ap, Text, codes, trim, trim_left, trim_right, is_space, text_eq_iff, is_empty_iff,
  [], ◌∷◌, true, false, replicate, rune_length, ◌≡◌, ◌≢◌, refl, arith, All, All-append, Bool-cases,
  inl, inr, length, length-append, byte_length,
}
use agentqueue.Data.{ok}
use agentqueue.Fs.Laws.{NoSlash, IsSegment}
use agentqueue.Segment.{is_safe, replaced, sanitize}

abbrev pub AllSafe : Text → Type 0
AllSafe = All (λ c. is_safe c ≡ true)

replicate-AllSafe : (n : ℕ) → AllSafe (replicate n b'_')
unfolding is_safe
replicate-AllSafe zero = tt
replicate-AllSafe (suc n) = (refl, replicate-AllSafe n)

replaced-AllSafe : (s : Text) → AllSafe (replaced s)
unfolding replaced
replaced-AllSafe [] = tt
replaced-AllSafe (c ∷ s) = elim (Bool-cases (is_safe c)) [
  | inl e ↦ rw e (e, replaced-AllSafe s)
  | inr e ↦ rw e (
      All-append _ (replicate (rune_length c) b'_') _ (replicate-AllSafe (rune_length c))
        (replaced-AllSafe s))
]

pub AllSafe-NoSlash : (s : Text) → AllSafe s → NoSlash s
unfolding is_safe
AllSafe-NoSlash [] h = tt
AllSafe-NoSlash (c ∷ s) (h, hs) = (ground arith, AllSafe-NoSlash s hs)

-- The result of a code point, as a head and a tail.
replaced-filled : (s : Text) → s ≢ [] → replaced s ≢ []
unfolding replaced
replaced-filled [] f = absurd (f refl)
replaced-filled (c ∷ s) f = ground arith

-- A sanitised segment consists of safe bytes, so that it is one path segment: it holds no slash
-- and is neither empty nor `.` nor `..`.
pub sanitize-IsSegment : (s out : Text) → sanitize s ≡ ok out → AllSafe out × IsSegment out
unfolding sanitize
sanitize-IsSegment s out h = (
  rw e safe,
  (
    AllSafe-NoSlash out (rw e safe),
    (λ r. ground (arith, e, h, r, is_empty_iff (trim s), replaced-filled (trim s))),
    (λ r. ground (arith, e, h, r, text_eq_iff (replaced (trim s)) (codes "."))),
    (λ r. ground (arith, e, h, r, text_eq_iff (replaced (trim s)) (codes ".."))),
  ),
)
  where
    e : out ≡ replaced (trim s)
    e = ground arith

    safe : AllSafe (replaced (trim s))
    safe = replaced-AllSafe (trim s)

replaced_fixed : (s : Text) → AllSafe s → replaced s ≡ s
unfolding replaced
replaced_fixed [] h = refl
replaced_fixed (c ∷ s) (h, hs) = rw h (ap (λ r. c ∷ r) (replaced_fixed s hs))

safe-not_space : (c : ℕ) → is_safe c ≡ true → is_space c ≡ false
unfolding is_safe is_space
safe-not_space c h = ground arith

trim_left-AllSafe : (s : Text) → AllSafe s → trim_left s ≡ s
unfolding trim_left
trim_left-AllSafe [] h = refl
trim_left-AllSafe (c ∷ s) (h, hs) = rw (safe-not_space c h)

trim_right-AllSafe : (s : Text) → AllSafe s → trim_right s ≡ s
unfolding trim_right
trim_right-AllSafe [] h = refl
trim_right-AllSafe (c ∷ []) (h, hs) = rw (safe-not_space c h)
trim_right-AllSafe (c ∷ d ∷ s) (h, hs) = rw (trim_right-AllSafe (d ∷ s) hs)

-- A segment of safe bytes is left as it is.
pub sanitize_fixed : (s : Text) → AllSafe s → IsSegment s → sanitize s ≡ ok s
unfolding sanitize trim
sanitize_fixed s safe seg =
    rw (trim_left-AllSafe s safe, trim_right-AllSafe s safe, replaced_fixed s safe)
      (ground (
        arith,
        is_empty_iff s,
        text_eq_iff s (codes "."),
        text_eq_iff s (codes ".."),
        seg.1,
        seg.2,
        seg.3,
      ))

-- Sanitising what was sanitised changes nothing.
sanitize-sanitize : (s out : Text) → sanitize s ≡ ok out → sanitize out ≡ ok out
sanitize-sanitize s out h =
    let (safe, seg) = sanitize-IsSegment s out h in sanitize_fixed out safe seg

length-replicate : (n c : ℕ) → length (replicate n c) ≡ n
length-replicate zero c = refl
length-replicate (suc n) c = ap suc (length-replicate n c)

-- The replacement has as many bytes as the text in UTF-8.
pub length-replaced : (s : Text) → length (replaced s) ≡ byte_length s
unfolding replaced is_safe
length-replaced [] = refl
length-replaced (c ∷ s) = ground (
  arith,
  length-replaced s,
  length-append (replicate (rune_length c) b'_') (replaced s),
  length-replicate (rune_length c) b'_',
)
