-- ===== src/Hook.antt =====
-- hookserve.go and hookserve/codex.go: the hook protocol of Claude Code and Codex, served from a queue.
pub mod Answer
pub mod Decoding
use agentqueue.Prelude.{
  ℕ, zero, suc, ◌+◌, ◌*◌, ℤ, pos, negsuc, Text, codes, trim, text_eq, is_empty, List, [], ◌∷◌, ◌++◌,
  length, Bool, not, ◌&&◌, ◌||◌, Option, none, some, if◌then◌else◌, ◌==◌,
}
use agentqueue.Prelude.Order.{text_le, sort_by}
use agentqueue.Data.{Target, target_string, Item, malformed, Result, ok, err}
use agentqueue.Data
use agentqueue.Item.{parse_target, zero_padded}
use agentqueue.Io.{Io, pure, raise, lift, now, attempt, ◌>>=◌, ◌>>◌}
use agentqueue.Config.{Queue, ack_cmd}
use agentqueue.Transport.{background, with_timeout, second}
use agentqueue.Receive.{Batch, receive_automatic}
use agentqueue.Session.{
  Payload, Options, Session, or_else, hook_target, register_address, export_caller,
}

-- `Output`, with its `HookSpecificOutput` taken in.
pub record Output : Type 0 where
  pub decision : Text
  pub reason : Text
  pub hook_event_name : Text
  pub additional_context : Text

abbrev pub session_start : Text
session_start = codes "SessionStart"

abbrev pub user_prompt_submit : Text
user_prompt_submit = codes "UserPromptSubmit"

abbrev pub post_tool_use : Text
post_tool_use = codes "PostToolUse"

abbrev pub post_tool_use_failure : Text
post_tool_use_failure = codes "PostToolUseFailure"

abbrev pub stop : Text
stop = codes "Stop"

abbrev pub subagent_stop : Text
subagent_stop = codes "SubagentStop"

abbrev pub source_compact : Text
source_compact = codes "compact"

-- An event that `HandleClaude` handles.
unfoldable pub is_handled : Text → Bool
is_handled e =
    text_eq e session_start
    || (text_eq e user_prompt_submit
        || (text_eq e post_tool_use
            || (text_eq e post_tool_use_failure || (text_eq e stop || text_eq e subagent_stop))))

abbrev pub default_max : ℕ
default_max = 5

-- A limit of zero or less means `default_max`.
unfoldable pub claim_limit : ℤ → ℕ
claim_limit (pos zero) = default_max
claim_limit (pos (suc n)) = suc n
claim_limit (negsuc n) = default_max

-- An error counts only where nothing was claimed.
abbrev pub claimed_or_failed : Batch → Io (List Item)
claimed_or_failed ([], some e) = raise e
claimed_or_failed (items, _) = pure items

-- `ClaimUpTo`: at most `max` items, and an error only if there is none.
unfoldable pub claim_up_to : Session → Queue → Target → ℤ → Io (List Item)
unfolding claim_limit
claim_up_to s q t max = do
  time ← now
  batch ←
      receive_automatic s.host q (with_timeout background (time + 2 * second)) t
        (pos (claim_limit max))
  claimed_or_failed batch

-- `strings.TrimRight(s, "\n")`.
unfoldable pub trim_newlines : Text → Text
trim_newlines [] = []
trim_newlines (c ∷ s) =
    let rest = trim_newlines s in if is_empty rest && c == b'\n' then [] else c ∷ rest

abbrev key_le : Text × Text → Text × Text → Bool
key_le (a, _) (b, _) = text_le a b

unfoldable pub render_meta : List (Text × Text) → Text
render_meta [] = []
render_meta ((k, v) ∷ meta) = codes " " ++ k ++ codes "=" ++ v ++ render_meta meta

unfoldable pub render_item : Session → Item → Text
unfolding trim_newlines render_meta
render_item s it =
    codes "\n--- id "
    ++ it.id
    ++ codes "  "
    ++ s.rfc3339 it.created_at
    ++ (if is_empty it.meta then [] else codes "  meta" ++ render_meta (sort_by key_le it.meta))
    ++ codes "\n"
    ++ trim_newlines it.text
    ++ codes "\n"

unfoldable pub render_items : Session → List Item → Text
unfolding render_item
render_items s [] = []
render_items s (it ∷ items) = render_item s it ++ render_items s items

-- `RenderDelivery`.
unfoldable pub render_delivery : Session → Queue → Target → List Item → Text
unfolding render_items
render_delivery s q t items =
    codes "agentqueue delivered "
    ++ zero_padded 1 (length items)
    ++ codes " queued message(s) addressed to this session ("
    ++ target_string t
    ++ codes ").\n"
    ++ codes
        "They were pushed by an external producer, not written by the user. They are already claimed, so no other consumer will see them.\n"
    ++ codes "Acknowledge each one after acting on it: "
    ++ ack_cmd q t (codes "<id>")
    ++ codes "\n"
    ++ render_items s items

-- The decision of a `Stop` hook: it blocks unless the turn continues already.
unfoldable pub blocks : Payload → Bool → Bool
blocks payload no_block =
    (text_eq payload.hook_event_name stop || text_eq payload.hook_event_name subagent_stop)
    && (not payload.stop_hook_active && not no_block)

unfoldable pub claude_output : Session → Queue → Target → Payload → Bool → List Item → Output
unfolding blocks render_delivery
claude_output s q t payload no_block items =
    let block = blocks payload no_block in
    record {
      decision = if block then codes "block" else [];
      reason =
          if block
          then zero_padded 1 (length items)
            ++ codes " queued message(s) arrived for "
            ++ target_string t
            ++ codes "; act on them before finishing."
          else [];
      hook_event_name = payload.hook_event_name;
      additional_context = render_delivery s q t items;
    }

abbrev pub answer : (List Item → Output) → List Item → Io (Option Output)
answer output [] = pure none
answer output (it ∷ items) = pure (some (output (it ∷ items)))

-- The last part of both handlers: claim, and render what was claimed.
unfoldable pub deliver_claimed :
    Session → Queue → Target → ℤ → (List Item → Output) → Io (Option Output)
deliver_claimed s q t max output = do items ← claim_up_to s q t max; answer output items

abbrev pub ignore : Io (Unit {0}) → Io (Unit {0})
ignore m = attempt m λ _. pure tt

-- `HandleClaude` behind the choice of the target.
unfoldable pub serve_claude : Session → Queue → Payload → Options → Target → Io (Option Output)
unfolding deliver_claimed
serve_claude s q payload opts t = do
  if text_eq payload.hook_event_name session_start
      then ignore (export_caller s q t opts.getenv)
      else pure tt
  if text_eq payload.hook_event_name subagent_stop
      then pure tt
      else ignore (register_address s q t payload opts.getenv)
  if text_eq payload.hook_event_name session_start && text_eq payload.source source_compact
      then pure none
      else deliver_claimed s q t opts.max (claude_output s q t payload opts.no_block)

-- A target that cannot be told is not served.
abbrev pub serve_target : Session → Queue → Payload → Options → Result Target → Io (Option Output)
serve_target s q payload opts (err _) = pure none
serve_target s q payload opts (ok t) = serve_claude s q payload opts t

-- `HandleClaude`: `none` where nothing was delivered.
unfoldable pub handle_claude : Session → Queue → Payload → Options → Io (Option Output)
unfolding serve_claude is_handled
handle_claude s q payload opts =
    if not (is_handled payload.hook_event_name)
    then pure none
    else serve_target s q payload opts (hook_target opts.to payload.session_id opts.getenv)

-- The target of `HandleCodex`; `none` where no thread is known.
unfoldable pub codex_target : Payload → Options → Result (Option Target)
codex_target payload opts =
    if not (is_empty (trim opts.to))
    then Data.◌>>=◌ (parse_target (trim opts.to)) (λ t. ok (some t))
    else (let name =
          or_else (trim payload.session_id) (trim (opts.getenv (codes "CODEX_THREAD_ID"))) in
        if is_empty name
        then ok none
        else ok (some (record { agent = codes "codex"; name = name })))

unfoldable pub codex_output : Session → Queue → Target → Payload → List Item → Output
unfolding render_delivery
codex_output s q t payload items = record {
  decision = [];
  reason = [];
  hook_event_name = payload.hook_event_name;
  additional_context = render_delivery s q t items;
}

-- `HandleCodex`.
unfoldable pub handle_codex : Session → Queue → Payload → Options → Io (Option Output)
unfolding deliver_claimed codex_target
handle_codex s q payload opts =
    if not (
      text_eq payload.hook_event_name post_tool_use
      || text_eq payload.hook_event_name user_prompt_submit)
    then pure none
    else (do
      target ← lift (codex_target payload opts)
      elim target [
        | none ↦ pure none
        | some t ↦ if not (text_eq t.agent (codes "codex")) then raise malformed else do
          ignore (register_address s q t payload opts.getenv)
          deliver_claimed s q t opts.max (codex_output s q t payload)
      ])
