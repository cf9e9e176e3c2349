-- ===== src/Cli/Discovered.antt =====
-- cmd/agentqueue/sessions.go: the command that lists sessions; and the commands of hook_config.go.
use agentqueue.Prelude.{
  ℕ, ℤ, pos, negsuc, zero, suc, Text, FilePath, trim, is_empty, List, [], ◌∷◌, map, Bool, true,
  false, not, ◌||◌, none, some, if◌then◌else◌,
}
use agentqueue.Data.{malformed, Result, ok, err}
use agentqueue.Fs.{path_string}
use agentqueue.Io.{Io, pure, lift}
use agentqueue.Config.{open_queue, abs}
use agentqueue.Root.{resolve_root}
use agentqueue.Sessions.{Timed, Discovery, sessions}
use agentqueue.HookConfig.{resolve_hook_command}
use agentqueue.HookConfig.Install.{
  Crossagent, Terminal, InstallFlags, install_parsed, uninstall_parsed,
}
use agentqueue.HookConfig.Printed.{Marker, install_print}
use agentqueue.Cli.Table.{session_table_rows}
use agentqueue.Cli.{Outcome, block_json, sessions_json, session_table, Line, done_with, Shell}
use agentqueue.Cli.Messages.{or_stop, refuse}

-- What these commands take from elsewhere: crossagent with its listers by their largest age
-- and the marker of a command, the terminal,
-- whether the working directory is known, the executable, and whether `agentqueue` is on the search path.
pub record Tools : Type 0 where
  pub crossagent : Crossagent
  pub discovery : ℤ → Discovery
  pub terminal : Terminal
  pub found_cwd : Bool
  pub exe_path : Text
  pub on_path : Bool
  pub marker : Marker
  pub rfc3339_nano : ℕ → Text

pub record SessionsFlags : Type 0 where
  pub root : Text
  pub agent : Text
  pub cwd : Text
  pub json : Bool
  pub limit : ℤ
  pub max_age : ℤ
  pub args : List Text

abbrev is_below_zero : ℤ → Bool
is_below_zero (pos n) = false
is_below_zero (negsuc n) = true

abbrev is_above_zero : ℤ → Bool
is_above_zero (pos zero) = false
is_above_zero (pos (suc n)) = true
is_above_zero (negsuc n) = false

-- The working directory to filter by.
unfoldable pub cwd_filter : FilePath → Text → Text
cwd_filter cwd value = if is_empty (trim value) then [] else path_string (abs cwd (trim value))

-- The agent to filter by.
unfoldable pub agent_filter : Crossagent → Text → Result Text
agent_filter x value =
    if is_empty (trim value)
    then ok []
    else elim (x.parse_agent (trim value)) [ none ↦ err malformed | some name ↦ ok name ]

-- What `cmdSessions` prints.
unfoldable pub session_lines : (ℕ → Text) → Bool → List Timed → List Line
unfolding session_table_rows
session_lines format json rows =
    let shown = map (λ (r : Timed). r.0) rows in
    (if json then sessions_json shown else session_table (session_table_rows format shown)) ∷ []

-- `cmdSessions` behind its flags.
unfoldable pub sessions_parsed : Shell → Tools → SessionsFlags → Io Outcome
unfolding cwd_filter agent_filter session_lines
sessions_parsed sh tools f =
    if not (is_empty f.args) || is_below_zero f.limit || not (is_above_zero f.max_age)
    then refuse
    else or_stop (lift (resolve_root f.root sh.getenv sh.user_home)) λ root.
      or_stop (open_queue sh.cwd root []) λ q.
        or_stop (lift (agent_filter tools.crossagent f.agent)) λ agent.
          or_stop
            (sessions (tools.discovery f.max_age) q
              (record { agent = agent; cwd = cwd_filter sh.cwd f.cwd; limit = f.limit }))
            λ rows. pure (done_with (session_lines tools.rfc3339_nano f.json rows))

-- `cmdInstall`, which takes no arguments; what it prints is left out.
unfoldable pub install_command : Shell → Tools → Text → InstallFlags → List Text → Io Outcome
install_command sh tools command f args =
    if not (is_empty args)
    then refuse
    else or_stop
        (install_parsed tools.crossagent tools.found_cwd tools.terminal f
          (resolve_hook_command sh.cwd command tools.exe_path tools.on_path))
        λ _. pure (done_with [])

-- `cmdInstall` with `--print`.
unfoldable pub print_command : Shell → Tools → Text → InstallFlags → List Text → Io Outcome
print_command sh tools command f args =
    if not (is_empty args)
    then refuse
    else or_stop
        (lift (
          install_print tools.crossagent tools.marker f
            (resolve_hook_command sh.cwd command tools.exe_path tools.on_path)))
        λ block. pure (done_with (block_json block ∷ []))

-- `cmdUninstall`, likewise.
unfoldable pub uninstall_command : Tools → Text → InstallFlags → List Text → Io Outcome
uninstall_command tools command f args =
    if not (is_empty args)
    then refuse
    else or_stop (uninstall_parsed tools.crossagent tools.found_cwd tools.terminal f command)
        λ _. pure (done_with [])
