-- ===== src/HookConfig/Printed.antt =====
-- cmd/agentqueue/hook_config.go: the block of hooks that `install --print` shows.
pub mod Same
use agentqueue.Prelude.{
  Text, codes, trim, text_eq, is_empty, List, [], ◌∷◌, ◌++◌, Bool, not, ◌&&◌, Option, none, some,
  if◌then◌else◌,
}
use agentqueue.Data.{malformed, Result, ok, err}
use agentqueue.Data
use agentqueue.HookConfig.{HookSpec, claude_hook_specs, codex_hook_specs, is_codex, is_managed}
use agentqueue.HookConfig.Install.{Crossagent, InstallFlags, parse_agent_flag}

-- crossagent's `BuildCommandSuffixMarker`, of a command, a tool and an id.
abbrev pub Marker : Type 0
Marker = Text → Text → Text → Text

-- The entries of each event, by their commands; their type is always `command`.
abbrev pub Block : Type 0
Block = List (Text × List Text)

abbrev pub tool_name : Text
tool_name = codes "agentqueue"

-- `append(byEvent[event], entry)`.
unfoldable pub append_entry : Text → Text → Block → Block
append_entry event entry [] = (event, entry ∷ []) ∷ []
append_entry event entry ((e, entries) ∷ block) =
    if text_eq e event
    then (e, entries ++ entry ∷ []) ∷ block
    else (e, entries) ∷ append_entry event entry block

abbrev pub marked : Marker → HookSpec → Text
marked marker s = marker s.command tool_name s.id

-- The loop of `hookBlockForAgent`.
unfoldable pub by_event : Marker → Block → List HookSpec → Block
unfolding append_entry
by_event marker block [] = block
by_event marker block (s ∷ specs) =
    by_event marker (append_entry s.event (marked marker s) block) specs

-- `hookBlockForAgent`, whose agent is not looked at.
unfoldable pub hook_block_for_agent : Marker → Text → List HookSpec → Block
unfolding by_event
hook_block_for_agent marker agent specs = by_event marker [] specs

-- `hookBlock`.
unfoldable pub hook_block : Marker → List HookSpec → Block
unfolding hook_block_for_agent
hook_block marker specs = hook_block_for_agent marker (codes "claude") specs

-- The agent whose hooks are printed.
unfoldable pub printed_agent : Crossagent → Text → Result Text
printed_agent x agent =
    if is_empty (trim agent)
    then ok (codes "claude")
    else elim (x.parse_agent agent) [ none ↦ err malformed | some name ↦ ok name ]

-- The block of an agent, for an invocation.
unfoldable pub print_block : Marker → Text → Text → Result Block
unfolding hook_block claude_hook_specs codex_hook_specs
print_block marker name invocation =
    if is_codex name
    then ok (hook_block_for_agent marker name (codex_hook_specs invocation))
    else if not (text_eq name (codes "claude"))
    then err malformed
    else ok (hook_block marker (claude_hook_specs invocation))

-- `cmdInstall` with `--print`, behind its flags; `command` is what `resolveHookCommand` gives.
unfoldable pub install_print :
    Crossagent → Marker → InstallFlags → Result (Text × Text) → Result Block
unfolding parse_agent_flag printed_agent print_block
install_print x marker f command =
    if not (is_empty (trim f.settings)) && is_empty (trim f.agent)
    then err malformed
    else Data.◌>>=◌ (parse_agent_flag x f.agent) λ agent.
      if not (is_empty (trim f.agent)) && not (is_managed agent)
      then err malformed
      else Data.◌>>=◌ command λ (invocation, executable).
        Data.◌>>=◌ (printed_agent x agent) λ name. print_block marker name invocation
