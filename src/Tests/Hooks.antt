-- ===== src/Tests/Hooks.antt =====
-- The theorems on the hooks that are written and printed, at concrete inputs.
use agentqueue.Prelude.{
  Text, codes, trim, text_eq, is_empty, [], ◌∷◌, ◌++◌, true, false, some, ◌≡◌, refl,
}
use agentqueue.Data.{ok}
use agentqueue.Item.{lower}
use agentqueue.Session.{quote}
use agentqueue.Session.Quote.{shell_word, outside}
use agentqueue.HookConfig.{
  resolve_hook_command, Manager, agent_config_manager, user_scope, codex_hook_specs,
}
use agentqueue.HookConfig.Quoting.{resolve_hook_command-read}
use agentqueue.HookConfig.Printed.{Marker, Block, print_block, hook_block_for_agent}
use agentqueue.HookConfig.Printed.Same.{entries_of, commands_of, print_block-hooks}
use agentqueue.Tests.{root}

abbrev pub marker : Marker
marker command tool id = command ++ codes " # " ++ tool ++ codes ":" ++ id

abbrev odd_path : Text
odd_path = codes "/opt/it's here/agentqueue"

abbrev odd_invocation : Text
odd_invocation = codes "'/opt/it'\\''s here/agentqueue'"

odd_resolved : resolve_hook_command root odd_path [] false ≡ ok (odd_invocation, odd_path)
unfolding resolve_hook_command trim quote
odd_resolved = refl

resolve_hook_command-read_example : shell_word outside odd_invocation ≡ some odd_path
resolve_hook_command-read_example =
    resolve_hook_command-read root odd_path [] false odd_invocation odd_path odd_resolved

abbrev agentqueue_word : Text
agentqueue_word = codes "agentqueue"

abbrev codex_block : Block
codex_block = hook_block_for_agent marker (codes "codex") (codex_hook_specs agentqueue_word)

abbrev codex_manager : Manager
codex_manager = record {
  agent = codes "codex";
  scope = user_scope;
  settings = [];
  invocation = agentqueue_word;
  hooks = codex_hook_specs agentqueue_word;
  probe = some (agentqueue_word ∷ codes "hook" ∷ codes "codex" ∷ codes "--self-check" ∷ []);
}

word_filled : is_empty (trim agentqueue_word) ≡ false
unfolding trim
word_filled = refl

codex_printed : print_block marker (codes "codex") agentqueue_word ≡ ok codex_block
unfolding print_block text_eq
codex_printed = refl

codex_configured :
    agent_config_manager true (codes "codex") (codes "user") [] agentqueue_word agentqueue_word
    ≡ ok codex_manager
unfolding agent_config_manager trim lower text_eq
codex_configured = refl

print_block-hooks_example :
    entries_of (codes "Stop") codex_block ≡ commands_of marker (codes "Stop") codex_manager.hooks
print_block-hooks_example =
    print_block-hooks marker true (codes "Stop") (codes "codex") (codes "user") [] agentqueue_word
      agentqueue_word codex_manager codex_block word_filled codex_printed codex_configured
