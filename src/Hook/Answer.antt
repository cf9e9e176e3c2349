-- ===== src/Hook/Answer.antt =====
-- What a hook claims, and when it blocks.
use agentqueue.Prelude.{
  ℕ, ◌+◌, ◌*◌, ◌↔◌, ◌⊎◌, zero, suc, ◌≤◌, ℤ, pos, negsuc, codes, text_eq, text_eq_iff, List, [], ◌∷◌,
  length, Bool, true, false, not, ◌&&◌, Option, none, some, if◌then◌else◌, ◌≡◌, refl, sym, arith,
  ap,
}
use agentqueue.Data.{Target, Item, Result, ok, err}
use agentqueue.Fs.{Fs}
use agentqueue.Io.{World, now}
use agentqueue.Io.Rules.{
  Anything, then_any, Triple, any_rule, of_any, pure_rule, raise_rule, bind_rule, if_rule,
}
use agentqueue.Config.{Queue}
use agentqueue.Transport.{with_timeout, background, second}
use agentqueue.Receive.{Batch, receive_automatic, batch_limit}
use agentqueue.Receive.Limit.{AtMost, receive_rule}
use agentqueue.Session.{Session, Payload, Options, hook_target}
use agentqueue.Hook.{
  claim_limit, claim_up_to, claimed_or_failed, Output, blocks, claude_output, deliver_claimed,
  answer, serve_claude, serve_target, handle_claude, is_handled, session_start, source_compact,
  stop, subagent_stop,
}

-- A result with at most `n` items.
abbrev pub Within : ℕ → Result (List Item) → Fs → Type 0
Within n (ok items) fs = length items ≤ n
Within n (err e) fs = Unit

claim_limit_range : (max : ℤ) → batch_limit (pos (claim_limit max)) ≤ claim_limit max
unfolding batch_limit claim_limit
claim_limit_range (pos zero) = omega arith
claim_limit_range (pos (suc n)) = ground arith
claim_limit_range (negsuc n) = omega arith

claim_up_to_rule :
    (s : Session) (q : Queue) (t : Target) (max : ℤ)
    → Triple Anything (λ _. Unit {0}) (Within (claim_limit max)) (claim_up_to s q t max)
unfolding claim_up_to receive_automatic
claim_up_to_rule s q t max =
    bind_rule (λ _ _. Unit {0}) now _ (any_rule now) (λ e fs _. tt)
      λ time.
        bind_rule (AtMost (batch_limit (pos (claim_limit max)))) _ _
          (receive_rule s.host q (with_timeout background (time + 2 * second)) t
            (pos (claim_limit max)) [])
          (λ e fs _. tt) λ batch. finished batch (claim_limit_range max)
  where
    finished :
        (batch : Batch)
        → batch_limit (pos (claim_limit max)) ≤ claim_limit max
        → Triple Anything
            (AtMost (batch_limit (pos (claim_limit max))) (ok batch))
            (Within (claim_limit max))
            (claimed_or_failed batch)
    finished ([], none) l = pure_rule _ λ fs k. omega arith
    finished ([], some e) l = raise_rule e λ fs k. tt
    finished (it ∷ items, failure) l = pure_rule (it ∷ items) λ fs k. omega (arith, k, l)

-- A hook never claims more items than its limit says.
claim_up_to-bounded :
    (s : Session) (q : Queue) (t : Target) (max : ℤ) (w : World) (items : List Item)
    → (claim_up_to s q t max w).0 ≡ ok items
    → length items ≤ claim_limit max
claim_up_to-bounded s q t max w items e =
    bounded _ e (of_any (claim_up_to s q t max) w (claim_up_to_rule s q t max))
  where
    bounded :
        (r : Result (List Item))
        → r ≡ ok items
        → Within (claim_limit max) r (claim_up_to s q t max w).1.fs
        → length items ≤ claim_limit max
    bounded (ok xs) e k = ground (arith, e, k)
    bounded (err x) e k = cc

-- The end of a turn at which a hook may block.
abbrev pub MayBlock : Payload → Bool → Type 0
MayBlock payload no_block =
    ((payload.hook_event_name ≡ stop) ⊎ (payload.hook_event_name ≡ subagent_stop))
    × (payload.stop_hook_active ≡ false)
    × (no_block ≡ false)

blocks_iff :
    (payload : Payload) (no_block : Bool)
    → (blocks payload no_block ≡ true) ↔ MayBlock payload no_block
unfolding blocks
blocks_iff payload no_block = (
  λ h. (
    ground (
      arith,
      h,
      text_eq_iff payload.hook_event_name stop,
      text_eq_iff payload.hook_event_name subagent_stop,
    ),
    ground (arith, h),
    ground (arith, h),
  ),
  λ h. ground (
    arith,
    h,
    text_eq_iff payload.hook_event_name stop,
    text_eq_iff payload.hook_event_name subagent_stop,
  ),
)

decision_iff : (b : Bool) → ((if b then codes "block" else []) ≡ codes "block") ↔ (b ≡ true)
decision_iff true = (λ _. refl, λ _. refl)
decision_iff false = (λ e. cc, λ e. cc)

module _ (s : Session) (q : Queue) (payload : Payload) (opts : Options) where
  abbrev compacting : Bool
  compacting =
      text_eq payload.hook_event_name session_start && text_eq payload.source source_compact

  -- An output that blocks exactly if the hook may.
  abbrev Fitting : Result (Option Output) → Fs → Type 0
  Fitting (ok (some out)) fs =
      (out.decision ≡ (if blocks payload opts.no_block then codes "block" else []))
      × (out.hook_event_name ≡ payload.hook_event_name)
      × (is_handled payload.hook_event_name ≡ true)
      × (compacting ≡ false)
  Fitting (ok none) fs = Unit
  Fitting (err e) fs = Unit

  answer_rule :
      (t : Target) (items : List Item)
      → is_handled payload.hook_event_name ≡ true
      → compacting ≡ false
      → Triple Anything
          (λ _. Unit {0})
          Fitting
          (answer (claude_output s q t payload opts.no_block) items)
  unfolding claude_output
  answer_rule t [] h c = pure_rule none λ fs _. tt
  answer_rule t (it ∷ items) h c = pure_rule _ λ fs _. (refl, refl, h, c)

  serve_claude_rule :
      (t : Target)
      → is_handled payload.hook_event_name ≡ true
      → Triple Anything (λ _. Unit {0}) Fitting (serve_claude s q payload opts t)
  unfolding serve_claude deliver_claimed
  serve_claude_rule t h =
      then_any _ _ (λ _ _. tt)
        λ _.
          then_any _ _ (λ _ _. tt)
            λ _.
              if_rule compacting _ _ (λ _. pure_rule none λ fs _. tt)
                λ c. then_any _ _ (λ _ _. tt) λ items. answer_rule t items h c

  handle_claude_rule : Triple Anything (λ _. Unit {0}) Fitting (handle_claude s q payload opts)
  unfolding handle_claude
  handle_claude_rule =
      if_rule (not (is_handled payload.hook_event_name)) _ _ (λ _. pure_rule none λ fs _. tt)
        λ e. served (hook_target opts.to payload.session_id opts.getenv) (ground (arith, e))
    where
      served :
          (r : Result Target)
          → is_handled payload.hook_event_name ≡ true
          → Triple Anything (λ _. Unit {0}) Fitting (serve_target s q payload opts r)
      served (err e) h = pure_rule none λ fs _. tt
      served (ok t) h = serve_claude_rule t h

  -- What a hook of Claude Code answers names its own event, which is one of those that are handled, and it blocks exactly
  -- where a turn ends that is not already continued and blocking is not turned off.
  pub handle_claude-blocks :
      (w : World) (out : Output)
      → (handle_claude s q payload opts w).0 ≡ ok (some out)
      → (out.hook_event_name ≡ payload.hook_event_name)
        × (is_handled payload.hook_event_name ≡ true)
        × ((out.decision ≡ codes "block") ↔ MayBlock payload opts.no_block)
  handle_claude-blocks w out e =
      fits _ e (of_any (handle_claude s q payload opts) w handle_claude_rule)
    where
      shown : Result (Option Output) → Output
      shown (ok (some o)) = o
      shown _ = out

      fits :
          (r : Result (Option Output))
          → r ≡ ok (some out)
          → Fitting r (handle_claude s q payload opts w).1.fs
          → (out.hook_event_name ≡ payload.hook_event_name)
            × (is_handled payload.hook_event_name ≡ true)
            × ((out.decision ≡ codes "block") ↔ MayBlock payload opts.no_block)
      fits (ok (some o)) e (decision, name, handled, _) =
          let same : out ≡ o = sym (ap shown e) in
          let (may, must) = blocks_iff payload opts.no_block in
          let (back, forth) = decision_iff (blocks payload opts.no_block) in
          rw (same, decision) (name, handled, (λ h. may (back h), λ h. forth (must h)))
      fits (ok none) e k = cc
      fits (err x) e k = cc
