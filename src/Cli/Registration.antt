-- ===== src/Cli/Registration.antt =====
-- cmd/agentqueue/register.go, targets.go, hook_claude.go and hook_codex.go: the commands that an agent's
-- hooks call, and the listing of mailboxes.
use agentqueue.Prelude.{
  ℤ, Text, trim, is_empty, List, [], ◌∷◌, map, Bool, false, Option, none, some, if◌then◌else◌,
}
use agentqueue.Data.{Target, Result, ok, err}
use agentqueue.Io.{Io, pure, attempt, lift}
use agentqueue.Config.{Queue}
use agentqueue.Files.{get_address}
use agentqueue.Address.{Mailbox, mailboxes, remove_address}
use agentqueue.Session.{Session, Payload, Options, register_target, register_address}
use agentqueue.Hook.Decoding.{empty_payload, parse_payload}
use agentqueue.Hook.{Output, handle_claude, handle_codex}
use agentqueue.Cli.{
  help, refused, Parsed, parsed, help_asked, bad_flags, Line, registered, unregistered,
  address_json, boxes_json, no_box, box_row, self_check, hook_json, Outcome, exit_usage, done_with,
  Shell, open_cli,
}
use agentqueue.Cli.Messages.{or_stop}

-- Standard input: whether it is a terminal, what is read of it, and the decoding of JSON.
pub record Stdin : Type 0 where
  pub terminal : Bool
  pub body : Result Text
  pub decode : Text → Result Payload

-- `ParsePayload` of standard input.
abbrev pub stdin_payload : Stdin → Result Payload
stdin_payload r = parse_payload r.decode r.body

-- `readHookPayload`.
unfoldable pub read_hook_payload : Stdin → Result Payload
unfolding parse_payload
read_hook_payload r = if r.terminal then ok empty_payload else stdin_payload r

pub record RegisterFlags : Type 0 where
  pub to : Text
  pub agent : Text
  pub root : Text
  pub quiet : Bool
  pub json : Bool

-- `cmdRegister` behind its payload: where it cannot tell the session it stays silent.
abbrev pub register_at : Shell → Session → Payload → RegisterFlags → Result Target → Io Outcome
register_at sh s payload f (err e) = pure (done_with [])
register_at sh s payload f (ok t) = or_stop (open_cli sh f.root) λ q.
    or_stop (register_address s q t payload sh.getenv) λ _.
      if f.json
      then (or_stop (get_address q t) λ a. pure (done_with (address_json a ∷ [])))
      else pure (done_with (if f.quiet then [] else registered t ∷ []))

-- `cmdRegister` behind its flags.
unfoldable pub register_parsed : Shell → Session → Stdin → RegisterFlags → Io Outcome
unfolding read_hook_payload
register_parsed sh s stdin f = or_stop (lift (read_hook_payload stdin)) λ payload.
    register_at sh s payload f (register_target f.to f.agent payload.session_id sh.getenv)

-- `cmdUnregister`, likewise.
abbrev pub unregister_at : Shell → RegisterFlags → Result Target → Io Outcome
unregister_at sh f (err e) = pure (done_with [])
unregister_at sh f (ok t) = or_stop (open_cli sh f.root) λ q.
    or_stop (remove_address q t) λ _. pure (done_with (if f.quiet then [] else unregistered t ∷ []))

unfoldable pub unregister_parsed : Shell → Stdin → RegisterFlags → Io Outcome
unfolding read_hook_payload
unregister_parsed sh stdin f =
    or_stop (lift (read_hook_payload stdin))
      λ payload. unregister_at sh f (register_target f.to f.agent payload.session_id sh.getenv)

pub record TargetsFlags : Type 0 where
  pub agent : Text
  pub root : Text
  pub json : Bool

-- What `cmdTargets` prints.
unfoldable pub target_lines : Bool → List Mailbox → List Line
target_lines json boxes =
    if json
    then boxes_json boxes ∷ []
    else if is_empty boxes
    then no_box ∷ []
    else map box_row boxes

-- `cmdTargets` behind its flags.
unfoldable pub targets_parsed : Shell → TargetsFlags → Io Outcome
unfolding target_lines
targets_parsed sh f =
    or_stop (open_cli sh f.root) λ q.
      or_stop (mailboxes q (trim f.agent)) λ boxes. pure (done_with (target_lines f.json boxes))

pub record HookFlags : Type 0 where
  pub to : Text
  pub root : Text
  pub max : ℤ
  pub no_block : Bool

-- A hook that has nothing to say, or fails, says nothing and exits 0.
abbrev pub silent : Outcome
silent = done_with []

abbrev pub hook_printed : Result (Option Output) → Outcome
hook_printed (err e) = silent
hook_printed (ok none) = silent
hook_printed (ok (some out)) = done_with (hook_json out ∷ [])

abbrev pub hook_options : Shell → HookFlags → Options
hook_options sh f = record { to = f.to; max = f.max; no_block = f.no_block; getenv = sh.getenv }

-- The handling of a payload, HandleClaude or HandleCodex, in the queue that was opened.
abbrev pub hook_opened :
    Shell
    → (Queue → Payload → Options → Io (Option Output))
    → HookFlags
    → Payload
    → Result Queue
    → Io Outcome
hook_opened sh handle f payload (err e) = pure silent
hook_opened sh handle f payload (ok q) =
    attempt (handle q payload (hook_options sh f)) λ r. pure (hook_printed r)

-- A command of a hook, from its flags on.
unfoldable pub hook_parsed :
    Shell
    → Result Payload
    → (Queue → Payload → Options → Io (Option Output))
    → HookFlags
    → Io Outcome
hook_parsed sh (err e) handle f = pure silent
hook_parsed sh (ok payload) handle f =
    attempt (open_cli sh f.root) (hook_opened sh handle f payload)

-- The arguments of `hook claude` and `hook codex`: the probe of an installation, or flags.
pub data HookArgs : Type 0 where
  probe : HookArgs
  flags : Parsed HookFlags → HookArgs

unfoldable pub hook_command :
    Shell
    → Result Payload
    → (Queue → Payload → Options → Io (Option Output))
    → HookArgs
    → Io Outcome
unfolding hook_parsed
hook_command sh payload handle probe = pure (done_with (self_check ∷ []))
hook_command sh payload handle (flags (parsed f)) = hook_parsed sh payload handle f
hook_command sh payload handle (flags help_asked) =
    pure (record { printed = []; code = exit_usage; fault = some help })
hook_command sh payload handle (flags bad_flags) = pure silent

-- `cmdHookClaude`.
unfoldable pub hook_claude : Shell → Session → Result Payload → HookArgs → Io Outcome
unfolding hook_command
hook_claude sh s payload args = hook_command sh payload (handle_claude s) args

-- `cmdHookCodex`.
unfoldable pub hook_codex : Shell → Session → Result Payload → HookArgs → Io Outcome
unfolding hook_command
hook_codex sh s payload args =
    hook_command sh payload (λ q p opts. handle_codex s q p (record opts { no_block = false })) args

-- The arguments of `hook`.
pub data Hook : Type 0 where
  no_agent : Hook
  claude : HookArgs → Hook
  codex : HookArgs → Hook
  other_agent : Text → Hook

-- `cmdHook`.
unfoldable pub hook : Shell → Session → Result Payload → Hook → Io Outcome
unfolding hook_claude hook_codex
hook sh s payload no_agent = pure (record { printed = []; code = exit_usage; fault = some refused })
hook sh s payload (claude args) = hook_claude sh s payload args
hook sh s payload (codex args) = hook_codex sh s payload args
hook sh s payload (other_agent name) =
    pure (record { printed = []; code = exit_usage; fault = some refused })
