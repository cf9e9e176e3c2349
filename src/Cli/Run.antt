-- ===== src/Cli/Run.antt =====
-- cmd/agentqueue/main.go: `run`, the dispatch of a subcommand.
use agentqueue.Prelude.{ℕ, Text, List, [], ◌∷◌, Option, some}
use mathlib.Core.Option
use agentqueue.Io.{Io, pure, ◌>>=◌}
use agentqueue.Transport.{Host, Registry, Context}
use agentqueue.Session.{Session}
use agentqueue.Cli.{
  Fault, help, refused, Parsed, parsed, help_asked, bad_flags, usage_text, Outcome, exit_usage,
  done_with, stopped, Shell, exit_status,
}
use agentqueue.Cli.Messages.{
  PushFlags, push_parsed, ListFlags, list_parsed, ReceiveFlags, receive_parsed, TakeFlags,
  take_parsed, AckFlags, ack_parsed,
}
use agentqueue.Cli.Waiting.{WaitFlags, wait_parsed}
use agentqueue.HookConfig.Install.{InstallFlags}
use agentqueue.Cli.Discovered.{
  Tools, SessionsFlags, sessions_parsed, install_command, print_command, uninstall_command,
}
use agentqueue.Hook.Decoding.{parse_payload}
use agentqueue.Cli.Registration.{
  Stdin, stdin_payload, RegisterFlags, register_parsed, unregister_parsed, TargetsFlags,
  targets_parsed, Hook, hook,
}

-- The flags of `install` and `uninstall` with `--command` and the arguments.
pub record HookCommand : Type 0 where
  pub command : Text
  pub flags : InstallFlags
  pub args : List Text

-- A subcommand with its flags; `run_print` is `install --print`.
pub data Command : Type 0 where
  nothing_given : Command
  usage_asked : Command
  run_push : Parsed PushFlags → Command
  run_wait : Parsed WaitFlags → Command
  run_list : Parsed ListFlags → Command
  run_receive : Parsed ReceiveFlags → Command
  run_take : Parsed TakeFlags → Command
  run_ack : Parsed AckFlags → Command
  run_hook : Hook → Command
  run_register : Parsed RegisterFlags → Command
  run_unregister : Parsed RegisterFlags → Command
  run_targets : Parsed TargetsFlags → Command
  run_sessions : Parsed SessionsFlags → Command
  run_install : Parsed HookCommand → Command
  run_print : Parsed HookCommand → Command
  run_uninstall : Parsed HookCommand → Command
  unknown : Text → Command

-- The error of `fs.Parse` ends a command.
abbrev pub on_flags :
    {F : Type 0} → Parsed F → (Fault → Outcome) → (F → Io (Option Outcome)) → Io (Option Outcome)
on_flags (parsed f) stop go = go f
on_flags help_asked stop go = pure (some (stop help))
on_flags bad_flags stop go = pure (some (stop refused))

abbrev pub always : Io Outcome → Io (Option Outcome)
always m = do o ← m; pure (some o)

-- `cmdWait` reports the code 2 with an error of its flags.
abbrev pub misused : Fault → Outcome
misused f = record { printed = []; code = exit_usage; fault = some f }

module _ (fuel : ℕ) (sh : Shell) (h : Host) (reg : Registry) (ctx : Context) (s : Session)
    (stdin : Stdin) (tools : Tools) where
  -- The outcome of a command; `none` if the fuel of a wait or of a `take --next` is used up.
  unfoldable pub execute : Command → Io (Option Outcome)
  unfolding parse_payload
  execute nothing_given = pure (some (done_with (usage_text ∷ [])))
  execute usage_asked = pure (some (done_with (usage_text ∷ [])))
  execute (run_push p) = on_flags p stopped λ f. always (push_parsed sh h reg ctx f)
  execute (run_wait p) = on_flags p misused (wait_parsed fuel sh h ctx)
  execute (run_list p) = on_flags p stopped λ f. always (list_parsed sh f)
  execute (run_receive p) = on_flags p stopped λ f. always (receive_parsed sh h f)
  execute (run_take p) = on_flags p stopped (take_parsed fuel sh)
  execute (run_ack p) = on_flags p stopped λ f. always (ack_parsed sh f)
  execute (run_hook k) = always (hook sh s (stdin_payload stdin) k)
  execute (run_register p) = on_flags p stopped λ f. always (register_parsed sh s stdin f)
  execute (run_unregister p) = on_flags p stopped λ f. always (unregister_parsed sh stdin f)
  execute (run_targets p) = on_flags p stopped λ f. always (targets_parsed sh f)
  execute (run_sessions p) = on_flags p stopped λ f. always (sessions_parsed sh tools f)
  execute (run_install p) =
      on_flags p stopped λ f. always (install_command sh tools f.command f.flags f.args)
  execute (run_print p) =
      on_flags p stopped λ f. always (print_command sh tools f.command f.flags f.args)
  execute (run_uninstall p) =
      on_flags p stopped λ f. always (uninstall_command tools f.command f.flags f.args)
  execute (unknown name) = pure (some (misused refused))

  -- `run`: the exit status.
  unfoldable pub run : Command → Io (Option ℕ)
  unfolding execute exit_status
  run c = do o ← execute c; pure (Option.map exit_status o)
