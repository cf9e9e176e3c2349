-- ===== src/Item/Round.antt =====
-- Printing and parsing of targets, states and ids.
use mathlib.Core.List.{cons-ne-nil}
use agentqueue.Prelude.{
  ℕ, Text, trim, trim_left, trim_right, text_eq, keep_unless_last, is_space, is_empty, List, [],
  ◌∷◌, ◌++◌, Option, none, some, false, ◌≡◌, ◌≢◌, refl, arith, All, Bool-cases, inl, inr,
}
use agentqueue.Data.{Target, target_string, State, pending, claimed, done, state_string, ok}
use agentqueue.Item.{
  split_colon, check_parts, parse_target, parse_parts, parse_state, default_agent,
}

-- Every state is read back from its name.
parse_state-state_string : (s : State) → parse_state (state_string s) ≡ ok s
unfolding parse_state trim text_eq
parse_state-state_string pending = refl
parse_state-state_string claimed = refl
parse_state-state_string done = refl

-- The text does not begin with a space.
abbrev pub NoLeading : Text → Type 0
NoLeading [] = Unit
NoLeading (c ∷ s) = is_space c ≡ false

-- A text that is not empty and neither begins nor ends with a space.
pub record IsTrimmed (s : Text) : Type 0 where
  pub left : NoLeading s
  pub right : trim_right s ≡ s
  pub filled : s ≢ []

is_empty-filled {ℓ} : {A : Type ℓ} (s : List A) → s ≢ [] → is_empty s ≡ false
is_empty-filled [] h = absurd (h refl)
is_empty-filled (c ∷ s) h = refl

append_filled : (s t : Text) → t ≢ [] → s ++ t ≢ []
append_filled [] t h e = h e
append_filled (c ∷ s) t h e = cc

keep_unless_last-filled : (c : ℕ) (s : Text) → s ≢ [] → keep_unless_last c s ≡ c ∷ s
keep_unless_last-filled c [] h = absurd (h refl)
keep_unless_last-filled c (d ∷ s) h = refl

-- What a text that is followed by a trimmed one keeps.
trim_right-append : (s t : Text) → trim_right t ≡ t → t ≢ [] → trim_right (s ++ t) ≡ s ++ t
unfolding trim_right
trim_right-append [] t h f = h
trim_right-append (c ∷ s) t h f =
    rw (trim_right-append s t h f) (keep_unless_last-filled c (s ++ t) (append_filled s t f))

trim_left-NoLeading : (s : Text) → NoLeading (trim_left s)
unfolding trim_left
trim_left-NoLeading [] = tt
trim_left-NoLeading (c ∷ s) = elim (Bool-cases (is_space c)) [
  | inl e ↦ rw e (trim_left-NoLeading s)
  | inr e ↦ rw e e
]

trim_left_fixed : (s : Text) → NoLeading s → trim_left s ≡ s
unfolding trim_left
trim_left_fixed [] h = refl
trim_left_fixed (c ∷ s) h = rw h

trim_right-trim_right : (s : Text) → trim_right (trim_right s) ≡ trim_right s
unfolding trim_right
trim_right-trim_right [] = refl
trim_right-trim_right (c ∷ s) = ground (arith, trim_right-trim_right s)

keep_unless_last-NoLeading :
    (c : ℕ) (s : Text) → is_space c ≡ false → NoLeading (keep_unless_last c s)
keep_unless_last-NoLeading c [] h = rw h h
keep_unless_last-NoLeading c (d ∷ s) h = h

trim_right-NoLeading : (s : Text) → NoLeading s → NoLeading (trim_right s)
unfolding trim_right
trim_right-NoLeading [] h = tt
trim_right-NoLeading (c ∷ s) h = keep_unless_last-NoLeading c (trim_right s) h

-- What `strings.TrimSpace` leaves is trimmed, if anything is left.
pub trim-IsTrimmed : (s : Text) → trim s ≢ [] → IsTrimmed (trim s)
unfolding trim
trim-IsTrimmed s h = record {
  left = trim_right-NoLeading (trim_left s) (trim_left-NoLeading s);
  right = trim_right-trim_right (trim_left s);
  filled = h;
}

pub trim_fixed : (s : Text) → IsTrimmed s → trim s ≡ s
unfolding trim
trim_fixed s h = rw (trim_left_fixed s h.left) h.right

abbrev pub NoColon : Text → Type 0
NoColon = All (λ c. c ≢ b':')

-- A text with no colon is split at the colon that follows it.
split_colon-append : (a b : Text) → NoColon a → split_colon (a ++ b':' ∷ b) ≡ some (a, b)
unfolding split_colon
split_colon-append [] b h = refl
split_colon-append (c ∷ a) b (h, hs) = ground (arith, split_colon-append a b hs)

split_colon-NoColon : (s a b : Text) → split_colon s ≡ some (a, b) → NoColon a
unfolding split_colon
split_colon-NoColon [] a b h = cc
split_colon-NoColon (c ∷ s) [] b h = tt
split_colon-NoColon (c ∷ s) (x ∷ a) b h = (ground arith, split_colon-NoColon s a b (ground arith))

All-trim_left {ℓ} : (P : ℕ → Type ℓ) (s : Text) → All P s → All P (trim_left s)
unfolding trim_left
All-trim_left P [] h = tt
All-trim_left P (c ∷ s) (h, hs) = elim (Bool-cases (is_space c)) [
  | inl e ↦ rw e (All-trim_left P s hs)
  | inr e ↦ rw e (h, hs)
]

All-keep_unless_last {ℓ} :
    (P : ℕ → Type ℓ) (c : ℕ) (s : Text) → P c → All P s → All P (keep_unless_last c s)
All-keep_unless_last P c [] h hs = elim (Bool-cases (is_space c)) [
  | inl e ↦ rw e tt
  | inr e ↦ rw e (h, tt)
]
All-keep_unless_last P c (d ∷ s) h hs = (h, hs)

All-trim_right {ℓ} : (P : ℕ → Type ℓ) (s : Text) → All P s → All P (trim_right s)
unfolding trim_right
All-trim_right P [] h = tt
All-trim_right P (c ∷ s) (h, hs) = All-keep_unless_last P c (trim_right s) h (All-trim_right P s hs)

-- Trimming takes characters away and changes none.
pub All-trim {ℓ} : (P : ℕ → Type ℓ) (s : Text) → All P s → All P (trim s)
unfolding trim
All-trim P s h = All-trim_right P (trim_left s) (All-trim_left P s h)

-- What `ParseTarget` accepts: both parts trimmed and filled, and no colon in the agent.
pub record IsTarget (t : Target) : Type 0 where
  pub agent : IsTrimmed t.agent
  pub name : IsTrimmed t.name
  pub no_colon : NoColon t.agent

NoLeading-append : (s t : Text) → s ≢ [] → NoLeading s → NoLeading (s ++ t)
NoLeading-append [] t f h = absurd (f refl)
NoLeading-append (c ∷ s) t f h = h

target_string_trimmed : (t : Target) → IsTarget t → trim (target_string t) ≡ target_string t
unfolding target_string trim
target_string_trimmed t h =
    rw
      (trim_left_fixed (t.agent ++ b':' ∷ t.name)
        (NoLeading-append t.agent _ h.agent.filled h.agent.left))
      (trim_right-append t.agent (b':' ∷ t.name)
        (trim_right-append (b':' ∷ []) t.name h.name.right h.name.filled) (cons-ne-nil _ _))

string_filled : (t : Target) → IsTarget t → target_string t ≢ []
unfolding target_string
string_filled t h = append_filled t.agent (b':' ∷ t.name) (cons-ne-nil _ _)

check_parts_lem :
    (agent name : Text) (t : Target)
    → check_parts agent name ≡ ok t
    → (agent ≢ []) × (name ≢ []) × (t.agent ≡ agent) × (t.name ≡ name)
unfolding check_parts
check_parts_lem [] name t h = cc
check_parts_lem (c ∷ agent) [] t h = cc
check_parts_lem (c ∷ agent) (d ∷ name) t h = ground arith

check_parts_ok : (t : Target) → IsTarget t → check_parts t.agent t.name ≡ ok t
unfolding check_parts
check_parts_ok t h =
    rw (is_empty-filled t.agent h.agent.filled, is_empty-filled t.name h.name.filled)

-- A target that `ParseTarget` accepts is read back from its wire form.
pub parse_target-target_string : (t : Target) → IsTarget t → parse_target (target_string t) ≡ ok t
unfolding parse_target
parse_target-target_string t h =
    rw (target_string_trimmed t h, is_empty-filled (target_string t) (string_filled t h))
      (unfold target_string in
        rw
          (
            split_colon-append t.agent t.name h.no_colon,
            trim_fixed t.agent h.agent,
            trim_fixed t.name h.name,
          )
          (check_parts_ok t h))

-- The parts of an accepted target.
parse_parts-IsTarget :
    (s : Text) (parts : Option (Text × Text)) (t : Target)
    → ((a b : Text) → parts ≡ some (a, b) → NoColon a)
    → parse_parts s parts ≡ ok t
    → IsTarget t
parse_parts-IsTarget s none t clean h =
    let (fa, fn, ea, en) = check_parts_lem (trim default_agent) (trim s) t h in
    record {
      agent = rw ea (trim-IsTrimmed default_agent fa);
      name = rw en (trim-IsTrimmed s fn);
      no_colon = rw ea (All-trim (λ c. c ≢ b':') default_agent (omega arith));
    }
parse_parts-IsTarget s (some (a, b)) t clean h =
    let (fa, fn, ea, en) = check_parts_lem (trim a) (trim b) t h in
    record {
      agent = rw ea (trim-IsTrimmed a fa);
      name = rw en (trim-IsTrimmed b fn);
      no_colon = rw ea (All-trim (λ c. c ≢ b':') a (clean a b refl));
    }

-- What `ParseTarget` returns has its two parts trimmed and filled, and no colon in the agent.
pub parse_target-IsTarget : (s : Text) (t : Target) → parse_target s ≡ ok t → IsTarget t
unfolding parse_target
parse_target-IsTarget s t h =
    parse_parts-IsTarget (trim s) (split_colon (trim s)) t (split_colon-NoColon (trim s))
      (ground arith)
