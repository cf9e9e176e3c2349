-- ===== src/Session/Quote.antt =====
-- The quoting of caller.go, against what a POSIX shell reads.
use agentqueue.Prelude.{
  Bool, any, ℕ, Text, codes, [], ◌∷◌, ◌++◌, Option, none, some, if◌then◌else◌, ◌==◌, ◌≡◌, refl,
  arith, Bool-cases, inl, inr, ap,
}
use agentqueue.Session.{quoted, quote}

abbrev pub prefixed : ℕ → Option Text → Option Text
prefixed c none = none
prefixed c (some s) = some (c ∷ s)

-- Where the shell stands in a word.
pub data Reading : Type 0 where
  outside : Reading
  inside : Reading
  behind_backslash : Reading

-- The characters that a shell may read as more than themselves outside of quotes, but for the single
-- quote and the backslash: blanks, operators, expansions, patterns, comments and assignments.
unfoldable pub is_special : ℕ → Bool
is_special c = any (λ d. d == c) (codes " \t\n\r|&;<>()$`\"*?[]#~=%{}!^")

-- What the shell makes of one word, by its rules for single quotes and for the backslash outside
-- of them. A word that ends between quotes or behind a backslash, or that has a special character
-- outside of quotes, is `none`.
abbrev pub shell_word : Reading → Text → Option Text
shell_word outside [] = some []
shell_word inside [] = none
shell_word behind_backslash [] = none
shell_word outside (c ∷ s) =
    let entered = shell_word inside s in
    let escaped = shell_word behind_backslash s in
    let rest = shell_word outside s in
    if c == b'\''
    then entered
    else if c == b'\\'
    then escaped
    else if is_special c
    then none
    else prefixed c rest
shell_word inside (c ∷ s) =
    let left = shell_word outside s in
    let rest = shell_word inside s in if c == b'\'' then left else prefixed c rest
shell_word behind_backslash (c ∷ s) = prefixed c (shell_word outside s)

shell_word-quoted : (s : Text) → shell_word inside (quoted s ++ codes "'") ≡ some s
unfolding quoted
shell_word-quoted [] = refl
shell_word-quoted (c ∷ s) = elim (Bool-cases (c == b'\'')) [
  | inl e ↦ rw (e, shell_word-quoted s) (ground (arith, e))
  | inr e ↦ rw (e, e) (ap (prefixed c) (shell_word-quoted s))
]

-- A value that `exportCaller` writes is read back by the shell as it was, whatever its characters.
pub shell_word-quote : (s : Text) → shell_word outside (quote s) ≡ some s
unfolding quote
shell_word-quote s = shell_word-quoted s
