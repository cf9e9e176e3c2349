-- ===== src/HookConfig/Quoting.antt =====
-- The invocation that hook_config.go writes into a hook, against what a POSIX shell reads.
use agentqueue.Prelude.{
  ℕ, ◌==◌, Text, codes, FilePath, trim, is_empty, [], ◌∷◌, all, Bool, true, false, not, ◌&&◌, some,
  if◌then◌else◌, ◌≡◌, refl, subst, arith, Bool-cases, inl, inr,
}
use agentqueue.Data.{Result, ok, err}
use agentqueue.Session.Quote.{outside, shell_word, is_special, shell_word-quote}
use agentqueue.Fs.{path_string}
use agentqueue.Config.{abs}
use agentqueue.HookConfig.{is_shell_byte, shell_quote, resolve_hook_command}

-- A byte that `shellQuote` leaves bare is nothing else to the shell.
is_shell_byte-plain :
    (c : ℕ)
    → is_shell_byte c ≡ true
    → ((c == b'\'') ≡ false) × ((c == b'\\') ≡ false) × (is_special c ≡ false)
unfolding is_shell_byte is_special
is_shell_byte-plain c h = ground (arith, h)

shell_word-plain : (s : Text) → all is_shell_byte s ≡ true → shell_word outside s ≡ some s
shell_word-plain [] h = refl
shell_word-plain (c ∷ s) h = elim (Bool-cases (is_shell_byte c)) [
  | inr e ↦ absurd (ground (arith, e, h))
  | inl e ↦
      let (a, b, d) = is_shell_byte-plain c e in
      let rest : all is_shell_byte s ≡ true = ground (arith, e, h) in
      rw (a, b, d, shell_word-plain s rest) refl
]

shell_word-shell_quote : (s : Text) → shell_word outside (shell_quote s) ≡ some s
unfolding shell_quote
shell_word-shell_quote s = elim (Bool-cases (not (is_empty s) && all is_shell_byte s)) [
  | inl e ↦ rw e (shell_word-plain s (ground (arith, e)))
  | inr e ↦ rw e (shell_word-quote s)
]

-- An invocation that is read as its executable.
abbrev IsRead : Result (Text × Text) → Type 0
IsRead (ok (invocation, executable)) = shell_word outside invocation ≡ some executable
IsRead (err e) = Unit

if_IsRead :
    (b : Bool) (x y : Result (Text × Text)) → IsRead x → IsRead y → IsRead (if b then x else y)
if_IsRead true x y h k = h
if_IsRead false x y h k = k

-- A shell reads the invocation that `resolveHookCommand` chooses for the hooks as one word, which is the
-- executable that the self-check runs: whichever of the flag, the search path and the path of the binary
-- it comes from, and whatever characters that has.
pub resolve_hook_command-read :
    (cwd : FilePath) (override exe_path : Text) (on_path : Bool) (invocation executable : Text)
    → resolve_hook_command cwd override exe_path on_path ≡ ok (invocation, executable)
    → shell_word outside invocation ≡ some executable
unfolding resolve_hook_command is_shell_byte
resolve_hook_command-read cwd override exe_path on_path invocation executable h = subst IsRead h (
    if_IsRead (not (is_empty (trim override))) _ _ (shell_word-shell_quote (trim override)) (
      if_IsRead on_path _ _ bare (
        if_IsRead (is_empty (trim exe_path)) _ _ tt
          (shell_word-shell_quote (path_string (abs cwd exe_path))))))
  where
    bare : shell_word outside (codes "agentqueue") ≡ some (codes "agentqueue")
    bare = shell_word-plain (codes "agentqueue") refl
