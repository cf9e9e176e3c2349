-- ===== src/HookConfig/Install.antt =====
-- cmd/agentqueue/hook_config.go: the commands `install` and `uninstall`, and what is asked before a file is
-- written. The plan of a change and its application are crossagent's.
use agentqueue.Prelude.{
  ℕ, ◌+◌, leb, ◌==◌, Text, codes, trim, text_eq, is_empty, List, [], ◌∷◌, keep, Bool, true, false,
  not, ◌&&◌, ◌||◌, Option, none, some, if◌then◌else◌, map,
}
use agentqueue.Data.{malformed, Result, ok, err}
use agentqueue.Io.{Io, pure, raise, lift, ◌>>=◌, ◌>>◌}
use agentqueue.HookConfig.{shell_quote, Manager, is_managed, agent_config_manager}

pub record ChangePlan : Type 0 where
  pub has_changes : Bool
  pub installs : Bool

-- crossagent's plans of a manager, their application (with the self-check skipped or not), the name that
-- it reads in a text, its agents with whether they are found, and the look-up of one of them.
pub record Crossagent : Type 0 where
  pub plan_install : Manager → Io ChangePlan
  pub plan_uninstall : Manager → Io ChangePlan
  pub apply : Manager → ChangePlan → Bool → Io (Unit {0})
  pub parse_agent : Text → Option Text
  pub detect : List (Text × Bool)
  pub detect_one : Text → Text × Bool

-- Standard input: at a terminal, the action that reads a line.
abbrev pub Terminal : Type 0
Terminal = Option (Io Text)

-- What a command does: nothing is left to do, or a change was declined, shown, or applied.
pub data Done : Type 0 where
  unchanged declined planned applied : Done

-- `strings.EqualFold` at the letters of `yes`: U+017F folds to `s`.
abbrev fold_rune : ℕ → ℕ
fold_rune c = if leb b'A' c && leb c b'Z' then c + 32 else if c == 0x17f then b's' else c

unfoldable pub is_yes : Text → Bool
is_yes line = let s = map fold_rune (trim line) in text_eq s (codes "y") || text_eq s (codes "yes")

-- `confirmChange`: whether the change was confirmed. Without a terminal it is an error.
unfoldable pub confirm_change : Terminal → Io Bool
unfolding is_yes
confirm_change none = raise malformed
confirm_change (some read_line) = do line ← read_line; pure (is_yes line)

pub record ChangeFlags : Type 0 where
  pub yes : Bool
  pub dry_run : Bool
  pub diff : Bool
  pub skip_check : Bool

-- The change is made with `--yes`, or once it is confirmed.
abbrev pub ask_first : Terminal → Bool → Io Done → Io Done
ask_first terminal true change = change
ask_first terminal false change =
    confirm_change terminal >>= λ confirmed. if confirmed then change else pure declined

-- `applyHookPlan`.
unfoldable pub apply_hook_plan :
    Crossagent → Manager → ChangePlan → Terminal → ChangeFlags → Io Done
unfolding confirm_change
apply_hook_plan x manager plan terminal f =
    let change : Io Done = x.apply manager plan f.skip_check >> pure applied in
    if not plan.has_changes
    then pure unchanged
    else if f.diff || f.dry_run
    then pure planned
    else ask_first terminal f.yes change

-- The agents that are found and have hooks.
unfoldable pub installable : List (Text × Bool) → List (Text × Bool)
installable agents = keep (λ (name, found). found && is_managed name) agents

-- `chooseInstallAgents`; an error of the detection is only printed, and the agents come all the same.
unfoldable pub choose_install_agents :
    Crossagent → Text → Terminal → ChangeFlags → Io (List (Text × Bool))
unfolding installable is_yes
choose_install_agents x requested terminal f =
    let chosen = installable x.detect in
    if not (is_empty (trim requested))
    then elim (x.parse_agent (trim requested)) [
      | none ↦ raise malformed
      | some name ↦ pure (x.detect_one name ∷ [])
    ]
    else if is_empty chosen
    then pure []
    else elim terminal [
      | none ↦ pure (if f.yes || f.dry_run || f.diff then chosen else [])
      | some read_line ↦ read_line >>= λ line. pure (if is_yes line then chosen else [])
    ]

pub record InstallFlags : Type 0 where
  pub agent : Text
  pub scope : Text
  pub settings : Text
  pub change : ChangeFlags

-- The loop of `cmdInstall` over the agents that were chosen.
unfoldable pub install_all :
    Crossagent → Bool → Terminal → InstallFlags → Text → Text → List (Text × Bool) → Io (Unit {0})
unfolding agent_config_manager apply_hook_plan
install_all x found_cwd terminal f invocation executable [] = pure tt
install_all x found_cwd terminal f invocation executable ((name, found) ∷ agents) =
    let rest = install_all x found_cwd terminal f invocation executable agents in
    if not (is_managed name) || not found then rest else do
      manager ← lift (agent_config_manager found_cwd name f.scope f.settings invocation executable)
      plan ← x.plan_install manager
      apply_hook_plan x manager plan terminal f.change
      rest

-- `parseAgent` of a flag that may be blank, which stays as it is.
unfoldable pub parse_agent_flag : Crossagent → Text → Result Text
parse_agent_flag x agent =
    if is_empty (trim agent)
    then ok agent
    else elim (x.parse_agent agent) [ none ↦ err malformed | some name ↦ ok name ]

-- `cmdInstall` behind its flags and without `--print`; `command` is what `resolveHookCommand` gives.
unfoldable pub install_parsed :
    Crossagent → Bool → Terminal → InstallFlags → Result (Text × Text) → Io (Unit {0})
unfolding choose_install_agents install_all parse_agent_flag
install_parsed x found_cwd terminal f command =
    if not (is_empty (trim f.settings)) && is_empty (trim f.agent) then raise malformed else (do
      agent ← lift (parse_agent_flag x f.agent)
      (invocation, executable) ← lift command
      chosen ← choose_install_agents x agent terminal f.change
      install_all x found_cwd terminal f invocation executable chosen)

-- The part of `cmdUninstall` for an agent that has hooks: the plan is of a manager without them.
unfoldable pub uninstall_managed :
    Crossagent → Bool → Terminal → InstallFlags → Text → Text → Io Done
unfolding agent_config_manager apply_hook_plan shell_quote
uninstall_managed x found_cwd terminal f agent command =
    let invocation = if is_empty (trim command) then [] else shell_quote (trim command) in
    do
      manager ← lift (agent_config_manager found_cwd agent f.scope f.settings invocation [])
      let bare : Manager = record manager { hooks = []; probe = none }
      plan ← x.plan_uninstall bare
      if not plan.has_changes
          then pure unchanged
          else apply_hook_plan x bare plan terminal (record f.change { skip_check = true })

-- `cmdUninstall` behind its flags.
unfoldable pub uninstall_parsed : Crossagent → Bool → Terminal → InstallFlags → Text → Io Done
unfolding uninstall_managed
uninstall_parsed x found_cwd terminal f command = elim (x.parse_agent f.agent) [
  | none ↦ raise malformed
  | some agent ↦
      if not (is_managed agent)
      then pure unchanged
      else uninstall_managed x found_cwd terminal f agent command
]
