-- ===== src/HookConfig.antt =====
-- cmd/agentqueue/hook_config.go: the hooks that are installed into an agent's settings, their
-- quoting, and the configuration manager.
pub mod Install
pub mod Asked
pub mod Quoting
pub mod Printed
use agentqueue.Prelude.{
  ℕ, leb, ◌==◌, Text, codes, FilePath, trim, text_eq, is_empty, List, [], ◌∷◌, ◌++◌, all, Bool,
  true, false, not, ◌&&◌, ◌||◌, Option, none, some, if◌then◌else◌,
}
use agentqueue.Data.{malformed, Result, ok, err}
use agentqueue.Item.{lower}
use agentqueue.Fs.{path_string}
use agentqueue.Io.{◌>>=◌, ◌>>◌}
use agentqueue.Config.{abs}
use agentqueue.Session.{quote}

pub record HookSpec : Type 0 where
  pub event : Text
  pub command : Text
  pub id : Text

abbrev spec : Text → Text → Text → HookSpec
spec event command id = record { event = event; command = command; id = id }

unfoldable pub claude_hook_specs : Text → List HookSpec
claude_hook_specs invocation =
    let hook = invocation ++ codes " hook claude" in
    spec (codes "SessionStart") hook (codes "session-start-hook")
    ∷ spec (codes "UserPromptSubmit") hook (codes "user-prompt-submit-hook")
    ∷ spec (codes "PostToolUse") hook (codes "post-tool-use-hook")
    ∷ spec (codes "PostToolUseFailure") hook (codes "post-tool-use-failure-hook")
    ∷ spec (codes "Stop") hook (codes "stop-hook")
    ∷ spec (codes "SessionEnd") (invocation ++ codes " unregister --agent claude")
        (codes "session-end-unregister")
    ∷ []

unfoldable pub codex_hook_specs : Text → List HookSpec
codex_hook_specs invocation =
    let register = invocation ++ codes " register --agent codex --quiet" in
    let hook = invocation ++ codes " hook codex" in
    spec (codes "SessionStart") register (codes "session-start-register")
    ∷ spec (codes "UserPromptSubmit") hook (codes "user-prompt-submit-hook")
    ∷ spec (codes "PostToolUse") hook (codes "post-tool-use-hook")
    ∷ spec (codes "Stop") register (codes "stop-register")
    ∷ spec (codes "SessionEnd") (invocation ++ codes " unregister --agent codex --quiet")
        (codes "session-end-unregister")
    ∷ []

-- A byte that needs no quotes in a shell.
unfoldable pub is_shell_byte : ℕ → Bool
is_shell_byte c =
    (leb b'A' c && leb c b'Z')
    || (leb b'a' c && leb c b'z')
    || (leb b'0' c && leb c b'9')
    || c == b'.'
    || c == b'_'
    || c == b'-'
    || c == b'/'
    || c == b':'

-- `shellQuote`.
unfoldable pub shell_quote : Text → Text
unfolding is_shell_byte
shell_quote s = if not (is_empty s) && all is_shell_byte s then s else quote s

-- `resolveHookCommand`: the invocation and the executable; `on_path` says whether `agentqueue` is on the
-- search path.
unfoldable pub resolve_hook_command : FilePath → Text → Text → Bool → Result (Text × Text)
unfolding shell_quote
resolve_hook_command cwd override exe_path on_path =
    let value = trim override in
    let absolute = path_string (abs cwd exe_path) in
    if not (is_empty value)
    then ok (shell_quote value, value)
    else if on_path
    then ok (codes "agentqueue", codes "agentqueue")
    else if is_empty (trim exe_path)
    then err malformed
    else ok (shell_quote absolute, absolute)

pub data Scope : Type 0 where
  user_scope project_scope local_scope : Scope

-- `parseHookScope`.
unfoldable pub parse_hook_scope : Text → Result Scope
parse_hook_scope value =
    let name = lower (trim value) in
    if is_empty name || text_eq name (codes "user")
    then ok user_scope
    else if text_eq name (codes "project")
    then ok project_scope
    else if text_eq name (codes "local")
    then ok local_scope
    else err malformed

-- The fields of `ConfigManager` that depend on the arguments; `probe` is the command of the self-check.
pub record Manager : Type 0 where
  pub agent : Text
  pub scope : Scope
  pub settings : Text
  pub invocation : Text
  pub hooks : List HookSpec
  pub probe : Option (List Text)

abbrev is_local : Scope → Bool
is_local local_scope = true
is_local _ = false

abbrev pub is_codex : Text → Bool
is_codex agent = text_eq agent (codes "codex")

abbrev pub is_managed : Text → Bool
is_managed agent = text_eq agent (codes "claude") || is_codex agent

-- The hooks and the self-check of an agent, where there is an invocation.
abbrev manager_of : Text → Scope → Text → Text → Text → Manager
manager_of agent scope settings invocation executable = record {
  agent = agent;
  scope = scope;
  settings = trim settings;
  invocation = invocation;
  hooks =
      if is_empty (trim invocation)
      then []
      else if is_codex agent
      then codex_hook_specs invocation
      else claude_hook_specs invocation;
  probe =
      if is_empty (trim invocation)
      then none
      else some (
          executable
          ∷ codes "hook"
          ∷ (if is_codex agent then codes "codex" else codes "claude")
          ∷ codes "--self-check"
          ∷ []);
}

-- `agentConfigManager`; `found_cwd` says whether `os.Getwd` gives the working directory.
unfoldable pub agent_config_manager : Bool → Text → Text → Text → Text → Text → Result Manager
unfolding parse_hook_scope claude_hook_specs codex_hook_specs
agent_config_manager found_cwd agent scope settings invocation executable =
    elim (parse_hook_scope scope) [
      | err e ↦ err e
      | ok s ↦
          if not found_cwd || (is_codex agent && is_local s)
          then err malformed
          else ok (manager_of agent s settings invocation executable)
    ]
