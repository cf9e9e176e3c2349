-- ===== src/HookConfig/Printed/Same.antt =====
-- What is printed is what is installed.
use agentqueue.Prelude.{
  Text, codes, trim, text_eq, text_eq_iff, is_empty, List, [], ◌∷◌, ◌++◌, Bool, true, false, not,
  ◌&&◌, ◌||◌, if◌then◌else◌, ◌≡◌, ◌∙◌, refl, subst, arith, Bool-cases, inl, inr,
}
use mathlib.Core.List.{append-nil, append_assoc}
use agentqueue.Data.{malformed, Result, ok, err}
use agentqueue.HookConfig.{
  is_local, manager_of, HookSpec, Manager, Scope, agent_config_manager, parse_hook_scope,
  claude_hook_specs, codex_hook_specs, is_codex,
}
use agentqueue.HookConfig.Printed.{
  Marker, Block, append_entry, marked, by_event, hook_block, hook_block_for_agent, print_block,
}

-- The entries that a block has for an event.
unfoldable pub entries_of : Text → Block → List Text
entries_of event [] = []
entries_of event ((e, entries) ∷ block) =
    if text_eq e event then entries else entries_of event block

-- The commands of the hooks of an event, with their marker.
unfoldable pub commands_of : Marker → Text → List HookSpec → List Text
commands_of marker event [] = []
commands_of marker event (s ∷ specs) =
    if text_eq s.event event
    then marked marker s ∷ commands_of marker event specs
    else commands_of marker event specs

entries_of-append_entry :
    (event e entry : Text) (block : Block)
    → entries_of event (append_entry e entry block)
      ≡ (if text_eq e event then entries_of event block ++ entry ∷ [] else entries_of event block)
unfolding entries_of append_entry
entries_of-append_entry event e entry [] = ground arith
entries_of-append_entry event e entry ((f, entries) ∷ block) = ground (
  arith,
  text_eq_iff f e,
  text_eq_iff f event,
  text_eq_iff e event,
  entries_of-append_entry event e entry block,
)

entries_of-by_event :
    (marker : Marker) (event : Text) (block : Block) (specs : List HookSpec)
    → entries_of event (by_event marker block specs)
      ≡ entries_of event block ++ commands_of marker event specs
unfolding by_event commands_of
entries_of-by_event marker event block [] = rw append-nil
entries_of-by_event marker event block (s ∷ specs) = elim (Bool-cases (text_eq s.event event)) [
  | inl e ↦
      entries_of-by_event marker event (append_entry s.event (marked marker s) block) specs
      ∙ rw (entries_of-append_entry event s.event (marked marker s) block, e)
          (append_assoc (entries_of event block) (marked marker s ∷ [])
            (commands_of marker event specs))
  | inr e ↦
      entries_of-by_event marker event (append_entry s.event (marked marker s) block) specs
      ∙ rw (entries_of-append_entry event s.event (marked marker s) block, e) refl
]

entries_of-fresh :
    (marker : Marker) (event : Text) (specs : List HookSpec)
    → entries_of event (by_event marker [] specs) ≡ commands_of marker event specs
unfolding entries_of
entries_of-fresh marker event specs = entries_of-by_event marker event [] specs

-- The hooks of an agent.
abbrev specs_of : Text → Text → List HookSpec
specs_of name invocation =
    if is_codex name then codex_hook_specs invocation else claude_hook_specs invocation

-- A manager with these hooks, if it is one.
abbrev HasHooks : List HookSpec → Result Manager → Type 0
HasHooks specs (ok manager) = manager.hooks ≡ specs
HasHooks specs (err e) = Unit

if_HasHooks :
    (specs : List HookSpec) (b : Bool) (x y : Result Manager)
    → HasHooks specs x
    → HasHooks specs y
    → HasHooks specs (if b then x else y)
if_HasHooks specs true x y h k = h
if_HasHooks specs false x y h k = k

manager_hooks :
    (found_cwd : Bool) (name scope settings invocation executable : Text) (manager : Manager)
    → is_empty (trim invocation) ≡ false
    → agent_config_manager found_cwd name scope settings invocation executable ≡ ok manager
    → manager.hooks ≡ specs_of name invocation
unfolding agent_config_manager
manager_hooks found_cwd name scope settings invocation executable manager given h =
    subst (HasHooks (specs_of name invocation)) h (by_scope (parse_hook_scope scope))
  where
    by_scope :
        (r : Result Scope)
        → HasHooks (specs_of name invocation) (elim r [
          | err e ↦ err e
          | ok s ↦
              if not found_cwd || (is_codex name && is_local s)
              then err malformed
              else ok (manager_of name s settings invocation executable)
        ])
    by_scope (err e) = tt
    by_scope (ok s) =
        if_HasHooks (specs_of name invocation) (not found_cwd || (is_codex name && is_local s)) _ _
          tt (rw given refl)

-- A block with these entries for an event, if it is one.
abbrev HasEntries : Text → List Text → Result Block → Type 0
HasEntries event entries (ok block) = entries_of event block ≡ entries
HasEntries event entries (err e) = Unit

print_block-HasEntries :
    (marker : Marker) (event name invocation : Text)
    → HasEntries event
        (commands_of marker event (specs_of name invocation))
        (print_block marker name invocation)
unfolding print_block hook_block hook_block_for_agent
print_block-HasEntries marker event name invocation = elim (Bool-cases (is_codex name)) [
  | inl e ↦ rw e (entries_of-fresh marker event (codex_hook_specs invocation))
  | inr e ↦ elim (Bool-cases (text_eq name (codes "claude"))) [
    | inl k ↦ rw (e, k) (entries_of-fresh marker event (claude_hook_specs invocation))
    | inr k ↦ rw (e, k) tt
  ]
]

-- What `install --print` shows of an agent is what `install` writes for it: each event has the commands
-- of the hooks of the agent's configuration manager, with their markers and in their order, where both
-- accept the agent and the invocation is not blank.
pub print_block-hooks :
    (marker : Marker) (found_cwd : Bool) (event name scope settings invocation executable : Text)
    (manager : Manager) (block : Block)
    → is_empty (trim invocation) ≡ false
    → print_block marker name invocation ≡ ok block
    → agent_config_manager found_cwd name scope settings invocation executable ≡ ok manager
    → entries_of event block ≡ commands_of marker event manager.hooks
print_block-hooks marker found_cwd event name scope settings invocation executable manager block
      given p h =
    rw (manager_hooks found_cwd name scope settings invocation executable manager given h) (
      subst (HasEntries event (commands_of marker event (specs_of name invocation))) p
        (print_block-HasEntries marker event name invocation))
