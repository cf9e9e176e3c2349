-- ===== src/Address/Segment.antt =====
-- The directory name that address.go makes of a working directory.
use agentqueue.Prelude.{
  ℕ, zero, suc, ◌/◌, ◌%◌, trim, ◌+◌, ◌-◌, ◌≤◌, ◌<◌, ltb, Text, codes, drop, [], ◌∷◌, ◌++◌, length,
  length-append, All-append, true, ◌≡◌, refl, arith, ap, Bool-cases, inl, inr,
}
use agentqueue.Data.{ok, Result-cases}
use agentqueue.Item.{hex_digit}
use agentqueue.Segment.{sanitize, is_safe}
use agentqueue.Segment.Safe.{AllSafe, AllSafe-NoSlash, sanitize-IsSegment}
use agentqueue.Fs.Laws.{IsSegment}
use agentqueue.Address.{last_hex, tail_segment, cwd_segment, fnv1a, utf8}

length-last_hex : (width n : ℕ) → length (last_hex width n) ≡ width
unfolding last_hex
length-last_hex zero n = refl
length-last_hex (suc width) n = omega (
  arith,
  length-append (last_hex width (n / 16)) (hex_digit (n % 16) ∷ []),
  length-last_hex width (n / 16),
)

hex_digit-safe : (d : ℕ) → d < 16 → is_safe (hex_digit d) ≡ true
unfolding is_safe
hex_digit-safe d h = ground arith

last_hex-AllSafe : (width n : ℕ) → AllSafe (last_hex width n)
unfolding last_hex is_safe
last_hex-AllSafe zero n = tt
last_hex-AllSafe (suc width) n =
    All-append _ (last_hex width (n / 16)) _ (last_hex-AllSafe width (n / 16))
      (hex_digit-safe (n % 16) (omega arith), tt)

length-drop : (n : ℕ) (s : Text) → length (drop n s) ≡ length s - n
length-drop zero s = omega arith
length-drop (suc n) [] = omega arith
length-drop (suc n) (c ∷ s) = omega (arith, length-drop n s)

drop-AllSafe : (n : ℕ) (s : Text) → AllSafe s → AllSafe (drop n s)
drop-AllSafe zero s h = h
drop-AllSafe (suc n) [] h = tt
drop-AllSafe (suc n) (c ∷ s) (h, hs) = drop-AllSafe n s hs

length-tail_segment : (s : Text) → length (tail_segment s) ≤ 80
unfolding tail_segment
length-tail_segment s = ground (arith, length-drop (length s - 80) s)

tail_segment-AllSafe : (s : Text) → AllSafe s → AllSafe (tail_segment s)
unfolding tail_segment
tail_segment-AllSafe s h = elim (Bool-cases (ltb 80 (length s))) [
  | inl e ↦ rw e (drop-AllSafe (length s - 80) s h)
  | inr e ↦ rw e h
]

-- The directory of a working directory is one safe path segment of at most 97 bytes, however long
-- the path is.
pub cwd_segment-bounded :
    (cwd out : Text) → cwd_segment cwd ≡ ok out → AllSafe out × IsSegment out × (length out ≤ 97)
unfolding cwd_segment is_safe
cwd_segment-bounded cwd out h = elim (Result-cases (sanitize (trim cwd))) [
  | inr (x, e) ↦ absurd (ground (arith, e, h))
  | inl (readable, e) ↦
      let safe = (sanitize-IsSegment (trim cwd) readable e).0 in
      bounded (tail_segment readable) (fnv1a 14695981039346656037 (utf8 (trim cwd)))
        (ground (arith, e, h)) (tail_segment-AllSafe readable safe) (length-tail_segment readable)
]
  where
    bounded :
        (front : Text) (n : ℕ)
        → out ≡ front ++ (codes "-" ++ last_hex 16 n)
        → AllSafe front
        → length front ≤ 80
        → AllSafe out × IsSegment out × (length out ≤ 97)
    bounded front n e safe short =
        let all : AllSafe (front ++ (codes "-" ++ last_hex 16 n)) =
          All-append _ front _ safe (refl, last_hex-AllSafe 16 n) in
        let long : length out ≡ length front + 17 = omega (
          arith,
          ap length e,
          length-append front (codes "-" ++ last_hex 16 n),
          length-last_hex 16 n,
        ) in
        (
          rw e all,
          (
            rw e (AllSafe-NoSlash _ all),
            (λ r. absurd (omega (arith, ap length r, long))),
            (λ r. absurd (omega (arith, ap length r, long))),
            (λ r. absurd (omega (arith, ap length r, long))),
          ),
          omega (arith, long, short),
        )
