-- ===== src/Cli/Exit.antt =====
-- The exit status of the hooks of cmd/agentqueue.
use agentqueue.Prelude.{ℕ, Option, none, some, ◌≡◌, ◌≢◌, refl}
use agentqueue.Data.{Result, ok, err}
use agentqueue.Io.{World, Io, pure, attempt}
use agentqueue.Config.{Queue}
use agentqueue.Session.{Session, Payload, Options}
use agentqueue.Hook.{Output}
use agentqueue.Cli.{parsed, help_asked, bad_flags, Outcome, exit_status, Shell, open_cli}
use agentqueue.Cli.Registration.{
  HookFlags, HookArgs, probe, flags, hook, claude, codex, hook_claude, hook_codex, hook_options,
  hook_opened, hook_parsed, hook_command, hook_printed, silent,
}

-- A run that ends with this exit status, and not by an error.
abbrev pub Exits : ℕ → Result Outcome → Type 0
Exits n r = (o : Outcome) × (r ≡ ok o) × (exit_status o ≡ n)

hook_printed-zero : (r : Result (Option Output)) → exit_status (hook_printed r) ≡ 0
unfolding exit_status
hook_printed-zero (err e) = refl
hook_printed-zero (ok none) = refl
hook_printed-zero (ok (some out)) = refl

silent-zero : exit_status silent ≡ 0
unfolding exit_status
silent-zero = refl

module _ (sh : Shell) (payload : Result Payload)
    (handle : Queue → Payload → Options → Io (Option Output)) where
  hook_opened-Exits :
      (f : HookFlags) (p : Payload) (rq : Result Queue) (w : World)
      → Exits 0 (hook_opened sh handle f p rq w).0
  unfolding pure attempt
  hook_opened-Exits f p (err e) w = (silent, refl, silent-zero)
  hook_opened-Exits f p (ok q) w = (_, refl, hook_printed-zero (handle q p (hook_options sh f) w).0)

  hook_parsed-Exits :
      (f : HookFlags) (r : Result Payload) (w : World) → Exits 0 (hook_parsed sh r handle f w).0
  unfolding hook_parsed pure attempt
  hook_parsed-Exits f (err e) w = (silent, refl, silent-zero)
  hook_parsed-Exits f (ok p) w =
      hook_opened-Exits f p (open_cli sh f.root w).0 (open_cli sh f.root w).1

  hook_command-Exits :
      (args : HookArgs) (w : World)
      → args ≢ flags help_asked
      → Exits 0 (hook_command sh payload handle args w).0
  unfolding hook_command exit_status pure
  hook_command-Exits probe w h = (_, refl, refl)
  hook_command-Exits (flags (parsed f)) w h = hook_parsed-Exits f payload w
  hook_command-Exits (flags help_asked) w h = absurd (h refl)
  hook_command-Exits (flags bad_flags) w h = (silent, refl, refl)

-- A hook exits with 0, whatever its arguments, its payload, the queue and the other processes are,
-- unless help is asked for.
pub hook-Exits :
    (sh : Shell) (s : Session) (payload : Result Payload) (args : HookArgs) (w : World)
    → args ≢ flags help_asked
    → Exits 0 (hook sh s payload (claude args) w).0 × Exits 0 (hook sh s payload (codex args) w).0
unfolding hook hook_claude hook_codex
hook-Exits sh s payload args w h =
    (hook_command-Exits sh payload _ args w h, hook_command-Exits sh payload _ args w h)
