-- ===== src/Item/Chronology.antt =====
-- Ids sort by the time at which they were made.
use mathlib.Core.List.{append_assoc}
use native.Mathlib.Nat.{pow-succ', div-eq_of_lt}
use agentqueue.Prelude.{
  subst, ℕ, zero, suc, ◌+◌, ◌-◌, ◌*◌, ◌/◌, ◌%◌, ◌^◌, ◌<◌, ltb, Text, List, [], ◌∷◌, ◌++◌, true,
  false, Option, ◌≡◌, ◌∙◌, refl, arith, ap, Bool-cases, inl, inr,
}
use agentqueue.Prelude.Order.{text_le}
use agentqueue.Item.{last_digits, first_digits, zero_padded, new_id, unix_epoch}

-- The first text comes before the second one.
abbrev pub Before : Text → Text → Type 0
Before a b = (text_le a b ≡ true) × (text_le b a ≡ false)

text_le-prefix : (p x y : Text) → text_le (p ++ x) (p ++ y) ≡ text_le x y
unfolding text_le
text_le-prefix [] x y = refl
text_le-prefix (c ∷ p) x y = ground (arith, text_le-prefix p x y)

divided : (b p : ℕ) → b < 10 * p → b / 10 < p
divided b p h = omega (arith, h)

head-Before : (c d : ℕ) (x y : Text) → c < d → Before (c ∷ x) (d ∷ y)
unfolding text_le
head-Before c d x y h = (ground (arith, h), ground (arith, h))

prefix-Before : (p x y : Text) → Before x y → Before (p ++ x) (p ++ y)
prefix-Before p x y (h, k) = (text_le-prefix p x y ∙ h, text_le-prefix p y x ∙ k)

last_digits-Before :
    (width a b : ℕ) (x y : Text)
    → a < b
    → b < 10 ^ width
    → Before (last_digits width a ++ x) (last_digits width b ++ y)
unfolding last_digits
last_digits-Before zero a b x y h k = absurd (omega (arith, h, k))
last_digits-Before (suc width) a b x y h k =
    rw
      (
        append_assoc (last_digits width (a / 10)) ((b'0' + a % 10) ∷ []) x,
        append_assoc (last_digits width (b / 10)) ((b'0' + b % 10) ∷ []) y,
      )
      (elim (Bool-cases (ltb (a / 10) (b / 10))) [
        | inl e ↦
            last_digits-Before width (a / 10) (b / 10) _ _ (ground arith)
              (divided b (10 ^ width) (subst (λ p. b < p) (pow-succ' 10 width) k))
        | inr e ↦
            let same : a / 10 ≡ b / 10 = ground arith in
            rw same (
              prefix-Before (last_digits width (b / 10)) _ _
                (head-Before (b'0' + a % 10) (b'0' + b % 10) x y (omega (arith, same, h))))
      ])

zero_padded-fits : (width n : ℕ) → n < 10 ^ width → zero_padded width n ≡ last_digits width n
unfolding zero_padded
zero_padded-fits width n h =
    ap (λ k. first_digits 64 k ++ last_digits width n) (quotient (10 ^ width) h)
  where
    quotient : (p : ℕ) → n < p → n / p ≡ 0
    quotient p h = div-eq_of_lt h

-- The milliseconds since the epoch.
abbrev pub millis : ℕ → ℕ
millis time = (time - unix_epoch) / 10 ^ 6

-- An id that is made in an earlier millisecond sorts strictly before one that is made in a later one,
-- whatever their random parts are, up to the year 2286, when the milliseconds take a 14th digit.
pub new_id-chronological :
    (time time' : ℕ) (random random' : Option (List ℕ))
    → millis time < millis time'
    → millis time' < 10 ^ 13
    → Before (new_id time random) (new_id time' random')
unfolding new_id
new_id-chronological time time' random random' h k =
    rw
      (
        zero_padded-fits 13 (millis time) (omega (arith, h, k)),
        zero_padded-fits 13 (millis time') k,
      )
      (last_digits-Before 13 (millis time) (millis time') _ _ h k)
