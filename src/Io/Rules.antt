-- ===== src/Io/Rules.antt =====
-- A Hoare logic for actions that other processes interfere with. `Triple Q P R m`: among processes
-- whose moves meet `Q`, an action that begins where `P` holds ends with a result and a file system
-- of which `R` holds.
use mathlib.Core.List.{foldl}
use agentqueue.Prelude.{
  subst, List, [], ◌∷◌, All, Bool, true, false, Bool-cases, inl, inr, ◌≡◌, refl, if◌then◌else◌,
}
use agentqueue.Data.{Error, io, Result, ok, err}
use agentqueue.Fs.{Fs}
use agentqueue.Io.{
  Move, move, Slot, World, Io, syscall, pure, raise, lift, now, attempt, continue, ◌>>=◌,
}

pub record Triple {A : Type 0} (Q : Slot → Type 0) (P : Fs → Type 0) (R : Result A → Fs → Type 0)
    (m : Io A) : Type 0 where
  pub at : (w : World) → All Q w.schedule → P w.fs → All Q (m w).1.schedule × R (m w).0 (m w).1.fs

-- The moves that a slot of `Q` holds keep `P`.
abbrev pub Stable : (Slot → Type 0) → (Fs → Type 0) → Type 0
Stable Q P = (slot : Slot) → Q slot → (fs : Fs) → P fs → P (foldl move fs slot.others)

pub stable_of_moves :
    (P : Fs → Type 0) (mvs : List Move) (fs : Fs)
    → All (λ mv. (fs : Fs) → P fs → P (move fs mv)) mvs
    → P fs
    → P (foldl move fs mvs)
stable_of_moves P [] fs k h = h
stable_of_moves P (mv ∷ mvs) fs (k, ks) h = stable_of_moves P mvs (move fs mv) ks (k fs h)

module _ {Q : Slot → Type 0} where
  slot_rule :
      {A : Type 0} (P : Fs → Type 0) (R : Result A → Fs → Type 0) (damage : Fs → Fs)
      (call : Fs → Result A × Fs) (slots : List Slot) (w : World)
      → w.schedule ≡ slots
      → Stable Q P
      → ((fs : Fs) → P fs → R (err io) (damage fs))
      → ((fs : Fs) → P fs → R (call fs).0 (call fs).1)
      → All Q w.schedule
      → P w.fs
      → All Q (syscall damage call w).1.schedule
        × R (syscall damage call w).0 (syscall damage call w).1.fs
  unfolding syscall
  slot_rule P R damage call [] w e st kd kc q h = rw (e, syscall) (q, kc w.fs h)
  slot_rule P R damage call (slot ∷ slots) w e st kd kc q h =
      let (qs, qrest) = subst (All Q) e q in
      elim (Bool-cases slot.fails) [
        | inl f ↦ rw (e, f, syscall) (qrest, kd _ (st slot qs w.fs h))
        | inr f ↦ rw (e, f, syscall) (qrest, kc _ (st slot qs w.fs h))
      ]

  module _ {A : Type 0} {P : Fs → Type 0} {R : Result A → Fs → Type 0} where
    pub syscall_rule :
        (damage : Fs → Fs) (call : Fs → Result A × Fs)
        → Stable Q P
        → ((fs : Fs) → P fs → R (err io) (damage fs))
        → ((fs : Fs) → P fs → R (call fs).0 (call fs).1)
        → Triple Q P R (syscall damage call)
    syscall_rule damage call st kd kc = record {
      at = λ w q h. slot_rule P R damage call w.schedule w refl st kd kc q h;
    }

    pub pure_rule : (a : A) → ((fs : Fs) → P fs → R (ok a) fs) → Triple Q P R (pure a)
    unfolding pure
    pure_rule a k = record { at = λ w q h. (q, k w.fs h) }

    pub raise_rule : (e : Error) → ((fs : Fs) → P fs → R (err e) fs) → Triple Q P R (raise e)
    unfolding raise
    raise_rule e k = record { at = λ w q h. (q, k w.fs h) }

    pub lift_rule : (r : Result A) → ((fs : Fs) → P fs → R r fs) → Triple Q P R (lift r)
    unfolding lift
    lift_rule r k = record { at = λ w q h. (q, k w.fs h) }

    pub if_rule :
        (b : Bool) (m n : Io A)
        → (b ≡ true → Triple Q P R m)
        → (b ≡ false → Triple Q P R n)
        → Triple Q P R (if b then m else n)
    if_rule true m n km kn = km refl
    if_rule false m n km kn = kn refl

    pub weaken :
        (P' : Fs → Type 0) (R' : Result A → Fs → Type 0) (m : Io A)
        → Triple Q P' R' m
        → ((fs : Fs) → P fs → P' fs)
        → ((r : Result A) (fs : Fs) → R' r fs → R r fs)
        → Triple Q P R m
    weaken P' R' m k pre post = record {
      at = λ w q h. let (q', r) = k.at w q (pre w.fs h) in (q', post (m w).0 (m w).1.fs r);
    }

  continue_rule :
      {A B : Type 0} (R : Result B → Fs → Type 0) (S : Result A → Fs → Type 0) (r : Result A)
      (f : A → Io B) (w : World)
      → ((e : Error) (fs : Fs) → S (err e) fs → R (err e) fs)
      → ((a : A) → Triple Q (S (ok a)) R (f a))
      → All Q w.schedule
      → S r w.fs
      → All Q (continue r f w).1.schedule × R (continue r f w).0 (continue r f w).1.fs
  continue_rule R S (ok a) f w ke kf q h = (kf a).at w q h
  continue_rule R S (err e) f w ke kf q h = (q, ke e w.fs h)

  module _ {A B : Type 0} {P : Fs → Type 0} {R : Result B → Fs → Type 0} where
    pub bind_rule :
        (S : Result A → Fs → Type 0) (m : Io A) (f : A → Io B)
        → Triple Q P S m
        → ((e : Error) (fs : Fs) → S (err e) fs → R (err e) fs)
        → ((a : A) → Triple Q (S (ok a)) R (f a))
        → Triple Q P R (m >>= f)
    unfolding ◌>>=◌
    bind_rule S m f km ke kf = record {
      at = λ w q h. let (q', s) = km.at w q h in continue_rule R S (m w).0 f (m w).1 ke kf q' s;
    }

    pub attempt_rule :
        (S : Result A → Fs → Type 0) (m : Io A) (f : Result A → Io B)
        → Triple Q P S m
        → ((r : Result A) → Triple Q (S r) R (f r))
        → Triple Q P R (attempt m f)
    unfolding attempt
    attempt_rule S m f km kf = record {
      at = λ w q h. let (q', s) = km.at w q h in (kf (m w).0).at (m w).1 q' s;
    }

  pub now_rule : (P : Fs → Type 0) → Triple Q P (λ _ fs. P fs) now
  unfolding now
  now_rule P = record { at = λ w q h. (q, h) }

-- Every action meets the triple that asks nothing.
All-trivial : {A : Type 0} (xs : List A) → All (λ _. Unit {0}) xs
All-trivial [] = tt
All-trivial (x ∷ xs) = (tt, All-trivial xs)

pub any_rule : {A : Type 0} (m : Io A) → Triple (λ _. Unit {0}) (λ _. Unit {0}) (λ _ _. Unit {0}) m
any_rule m = record { at = λ w q h. (All-trivial (m w).1.schedule, tt) }

-- Other processes that may do anything.
abbrev pub Anything : Slot → Type 0
Anything _ = Unit

-- Whatever the first action does, the second one meets the triple.
pub then_any :
    {A B : Type 0} {R : Result B → Fs → Type 0} (m : Io A) (f : A → Io B)
    → ((e : Error) (fs : Fs) → R (err e) fs)
    → ((a : A) → Triple Anything (λ _. Unit {0}) R (f a))
    → Triple Anything (λ _. Unit {0}) R (m >>= f)
then_any m f ke k = bind_rule (λ _ _. Unit {0}) m f (any_rule m) (λ e fs _. ke e fs) k

-- What a triple that assumes nothing says of a result.
pub of_any :
    {A : Type 0} {R : Result A → Fs → Type 0} (m : Io A) (w : World)
    → Triple (λ _. Unit {0}) (λ _. Unit {0}) R m
    → R (m w).0 (m w).1.fs
of_any m w k = (k.at w (All-trivial w.schedule) tt).1

-- What holds of an action among any processes holds of it among these too.
pub also :
    {A : Type 0} {Q : Slot → Type 0} {P : Fs → Type 0} {R S : Result A → Fs → Type 0} (m : Io A)
    → Triple Q P R m
    → Triple Anything (λ _. Unit {0}) S m
    → Triple Q P (λ r fs. R r fs × S r fs) m
also m k l = record { at = λ w q h. let (q', r) = k.at w q h in (q', (r, of_any m w l)) }
