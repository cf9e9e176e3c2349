-- ===== src/Prelude/Order.antt =====
-- Sorting: the order of texts, and an insertion sort by a Boolean order with its laws.
use mathlib.Core.Path.{◌≡◌, refl, ◌∙◌}
use mathlib.Core.Logic.{inl, inr}
use mathlib.Core.Bool.{Bool, true, false, ◌||◌}
use mathlib.Core.List.{List, [], ◌∷◌}
use mathlib.Core.List.{Perm}
use mathlib.Core.List.Perm
use native.Mathlib.Omega.{arith}
use agentqueue.Prelude.Tests.{ltb, ◌==◌, if◌then◌else◌, Bool-cases}
use agentqueue.Prelude.Lists.{keep, any, All}
use agentqueue.Prelude.Texts.{Text}

-- `a <= b` on Go strings.
unfoldable pub text_le : Text → Text → Bool
text_le [] t = true
text_le (x ∷ s) [] = false
text_le (x ∷ s) (y ∷ t) = if ltb x y then true else if x == y then text_le s t else false

pub text_le_refl : (s : Text) → text_le s s ≡ true
unfolding text_le
text_le_refl [] = refl
text_le_refl (x ∷ s) = ground (arith, text_le_refl s)

pub text_le_total : (s t : Text) → text_le s t ≡ false → text_le t s ≡ true
unfolding text_le
text_le_total [] t h = cc
text_le_total (x ∷ s) [] h = refl
text_le_total (x ∷ s) (y ∷ t) h = ground (arith, text_le_total s t)

pub text_le_trans : (s t u : Text) → text_le s t ≡ true → text_le t u ≡ true → text_le s u ≡ true
unfolding text_le
text_le_trans [] t u h k = refl
text_le_trans (x ∷ s) [] u h k = cc
text_le_trans (x ∷ s) (y ∷ t) [] h k = cc
text_le_trans (x ∷ s) (y ∷ t) (z ∷ u) h k = ground (arith, text_le_trans s t u)

pub text_le_antisymm : (s t : Text) → text_le s t ≡ true → text_le t s ≡ true → s ≡ t
unfolding text_le
text_le_antisymm [] [] h k = refl
text_le_antisymm [] (y ∷ t) h k = cc
text_le_antisymm (x ∷ s) [] h k = cc
text_le_antisymm (x ∷ s) (y ∷ t) h k = ground (arith, text_le_antisymm s t)

module _ {ℓ} {A : Type ℓ} (le : A → A → Bool) where
  unfoldable pub insert_by : A → List A → List A
  insert_by x [] = x ∷ []
  insert_by x (y ∷ ys) = if le x y then x ∷ y ∷ ys else y ∷ insert_by x ys

  -- `sort.Slice` and `sort.Strings`.
  unfoldable pub sort_by : List A → List A
  unfolding insert_by
  sort_by [] = []
  sort_by (x ∷ xs) = insert_by x (sort_by xs)

  -- `x` stands below every element.
  abbrev pub AllAbove : A → List A → Type 0
  AllAbove x = All (λ y. le x y ≡ true)

  abbrev pub IsSorted : List A → Type 0
  IsSorted [] = Unit
  IsSorted (x ∷ xs) = AllAbove x xs × IsSorted xs

  insert_by-perm : (x : A) (xs : List A) → Perm (insert_by x xs) (x ∷ xs)
  unfolding insert_by
  insert_by-perm x [] = Perm.refl _
  insert_by-perm x (y ∷ ys) = elim (Bool-cases (le x y)) [
    | inl e ↦ rw e (Perm.refl _)
    | inr e ↦ rw e (Perm.trans (Perm.cons y (insert_by-perm x ys)) (Perm.swap x y ys))
  ]

  pub sort_by-perm : (xs : List A) → Perm (sort_by xs) xs
  unfolding sort_by
  sort_by-perm [] = Perm.refl _
  sort_by-perm (x ∷ xs) = Perm.trans (insert_by-perm x (sort_by xs)) (Perm.cons x (sort_by-perm xs))

  any-insert_by : (p : A → Bool) (x : A) (xs : List A) → any p (insert_by x xs) ≡ (p x || any p xs)
  unfolding insert_by
  any-insert_by p x [] = ground arith
  any-insert_by p x (y ∷ ys) = ground (arith, any-insert_by p x ys)

  -- Sorting keeps what a list holds.
  pub any-sort_by : (p : A → Bool) (xs : List A) → any p (sort_by xs) ≡ any p xs
  unfolding sort_by
  any-sort_by p [] = refl
  any-sort_by p (x ∷ xs) = any-insert_by p x (sort_by xs) ∙ ground (arith, any-sort_by p xs)

  pub All-insert_by {κ} :
      (P : A → Type κ) (x : A) (xs : List A) → P x → All P xs → All P (insert_by x xs)
  unfolding insert_by
  All-insert_by P x [] h hs = (h, tt)
  All-insert_by P x (y ∷ ys) h (hy, hs) = elim (Bool-cases (le x y)) [
    | inl e ↦ rw e (h, (hy, hs))
    | inr e ↦ rw e (hy, All-insert_by P x ys h hs)
  ]

  pub All-sort_by {κ} : (P : A → Type κ) (xs : List A) → All P xs → All P (sort_by xs)
  unfolding sort_by
  All-sort_by P [] h = tt
  All-sort_by P (x ∷ xs) (h, hs) = All-insert_by P x (sort_by xs) h (All-sort_by P xs hs)

module _ {ℓ} {A : Type ℓ} (le : A → A → Bool) (total : (x y : A) → le x y ≡ false → le y x ≡ true)
    (trans : (x y z : A) → le x y ≡ true → le y z ≡ true → le x z ≡ true) where
  AllAbove-trans : (x y : A) (ys : List A) → le x y ≡ true → AllAbove le y ys → AllAbove le x ys
  AllAbove-trans x y [] h hs = tt
  AllAbove-trans x y (z ∷ zs) h (hz, hs) = (trans x y z h hz, AllAbove-trans x y zs h hs)

  insert_by-IsSorted : (x : A) (xs : List A) → IsSorted le xs → IsSorted le (insert_by le x xs)
  unfolding insert_by
  insert_by-IsSorted x [] s = (tt, tt)
  insert_by-IsSorted x (y ∷ ys) (above, s) = elim (Bool-cases (le x y)) [
    | inl e ↦ rw e ((e, AllAbove-trans x y ys e above), (above, s))
    | inr e ↦ rw e (All-insert_by le _ x ys (total x y e) above, insert_by-IsSorted x ys s)
  ]

  pub sort_by-IsSorted : (xs : List A) → IsSorted le (sort_by le xs)
  unfolding sort_by
  sort_by-IsSorted [] = tt
  sort_by-IsSorted (x ∷ xs) = insert_by-IsSorted x (sort_by le xs) (sort_by-IsSorted xs)

  insert_by_first : (x : A) (xs : List A) → AllAbove le x xs → insert_by le x xs ≡ x ∷ xs
  unfolding insert_by
  insert_by_first x [] h = refl
  insert_by_first x (y ∷ ys) (h, hs) = rw h

  AllAbove-keep :
      (x : A) (p : A → Bool) (xs : List A) → AllAbove le x xs → AllAbove le x (keep p xs)
  AllAbove-keep x p [] h = tt
  AllAbove-keep x p (y ∷ ys) (h, hs) = elim (Bool-cases (p y)) [
    | inl e ↦ rw e (h, AllAbove-keep x p ys hs)
    | inr e ↦ rw e (AllAbove-keep x p ys hs)
  ]

  keep-insert_by :
      (p : A → Bool) (x : A) (xs : List A)
      → IsSorted le xs
      → keep p (insert_by le x xs) ≡ (if p x then insert_by le x (keep p xs) else keep p xs)
  unfolding insert_by
  keep-insert_by p x [] s = ground arith
  keep-insert_by p x (y ∷ ys) (above, s) = elim (Bool-cases (le x y)) [
    | inl e ↦ rw e (
        ground (
          arith,
          e,
          insert_by_first x (keep p ys) (AllAbove-keep x p ys (AllAbove-trans x y ys e above)),
        ))
    | inr e ↦ rw e (ground (arith, e, keep-insert_by p x ys s))
  ]

  -- Sorting and filtering commute.
  pub keep-sort_by : (p : A → Bool) (xs : List A) → keep p (sort_by le xs) ≡ sort_by le (keep p xs)
  unfolding sort_by
  keep-sort_by p [] = refl
  keep-sort_by p (x ∷ xs) =
      keep-insert_by p x (sort_by le xs) (sort_by-IsSorted xs) ∙ ground (arith, keep-sort_by p xs)
