-- ===== src/Receive/Waiting.antt =====
-- What `wait` of queue.go returns.
use agentqueue.Prelude.{
  ℕ, zero, suc, ℤ, pos, negsuc, List, [], is_empty, is_empty_iff, Bool, Option, none, some, ◌≡◌,
  ◌≢◌, arith,
}
use agentqueue.Data.{Target, Item, Error, Result, ok, err}
use agentqueue.Fs.{Fs}
use agentqueue.Io.{World, Io}
use agentqueue.Io.Rules.{
  Anything, then_any, Triple, any_rule, of_any, pure_rule, raise_rule, attempt_rule, if_rule,
  weaken,
}
use agentqueue.Config.{Queue}
use agentqueue.Transport.{Context, context_err}
use agentqueue.Receive.{Batch, unless_ended, after_scan, wait_loop, wait_timed, wait}

-- A scan whose items, if it has no error, are so.
abbrev pub Scanned : (List Item → Type 0) → Result Batch → Type 0
Scanned S (ok (items, none)) = S items
Scanned S (ok (items, some e)) = Unit
Scanned S (err e) = Unit

-- A batch that came without an error has an item, and its items are so.
abbrev pub Brings : (List Item → Type 0) → Result (Option Batch) → Fs → Type 0
Brings S (ok none) fs = Unit
Brings S (ok (some (items, none))) fs = (items ≢ []) × S items
Brings S (ok (some (items, some e))) fs = Unit
Brings S (err e) fs = Unit

module _ (S : List Item → Type 0) where
  unless_ended_rule :
      (mapped : Error → Error) (o : Option Error) (next : Io (Option Batch))
      → Triple Anything (λ _. Unit {0}) (Brings S) next
      → Triple Anything (λ _. Unit {0}) (Brings S) (unless_ended mapped o next)
  unless_ended_rule mapped (some e) next k = raise_rule (mapped e) λ fs _. tt
  unless_ended_rule mapped none next k = k

  after_scan_rule :
      (mapped : Error → Error) (r : Result Batch) (next : Io (Option Batch))
      → Scanned S r
      → Triple Anything (λ _. Unit {0}) (Brings S) next
      → Triple Anything (λ _. Unit {0}) (Brings S) (after_scan mapped next r)
  after_scan_rule mapped (err e) next h k = raise_rule (mapped e) λ fs _. tt
  after_scan_rule mapped (ok (items, some e)) next h k =
      pure_rule (some (items, some (mapped e))) λ fs _. tt
  after_scan_rule mapped (ok (items, none)) next h k =
      if_rule (is_empty items) _ _ (λ _. k)
        λ e.
          pure_rule (some (items, none)) λ fs _. (λ r. ground (arith, e, r, is_empty_iff items), h)

  module _ (period : ℕ) (scan : Context → Io Batch)
      (scans : (c : Context) → Triple Anything (λ _. Unit {0}) (λ r _. Scanned S r) (scan c)) where
    wait_loop_rule :
        (fuel : ℕ) (parent ctx : Context) (limited : Bool) (tick : ℕ)
        → Triple Anything
            (λ _. Unit {0})
            (Brings S)
            (wait_loop fuel parent ctx limited period tick scan)
    unfolding wait_loop
    wait_loop_rule zero parent ctx limited tick = pure_rule none λ fs _. tt
    wait_loop_rule (suc fuel) parent ctx limited tick =
        then_any _ _ (λ _ _. tt)
          λ time. unless_ended_rule _ (context_err ctx time) _ (
            attempt_rule (λ r _. Scanned S r) _ _ (scans ctx)
              λ r. record {
                at = λ w l h.
                    (then_any _ _ (λ _ _. tt)
                        λ scanned. after_scan_rule _ r _ h (
                          then_any _ _ (λ _ _. tt)
                            λ _.
                              then_any _ _ (λ _ _. tt)
                                λ woken.
                                  unless_ended_rule _ (context_err ctx woken) _
                                    (wait_loop_rule fuel parent ctx limited _))).at
                      w l tt;
              })

    wait_timed_rule :
        (fuel : ℕ) (ctx : Context) (timeout : ℤ) (time : ℕ)
        → Triple Anything (λ _. Unit {0}) (Brings S) (wait_timed fuel ctx timeout time period scan)
    unfolding wait_timed
    wait_timed_rule fuel ctx (pos zero) time = wait_loop_rule fuel _ _ _ _
    wait_timed_rule fuel ctx (pos (suc d)) time = wait_loop_rule fuel _ _ _ _
    wait_timed_rule fuel ctx (negsuc n) time = wait_loop_rule fuel _ _ _ _

  -- Every wait.
  pub wait_rule :
      (fuel : ℕ) (q : Queue) (ctx : Context) (t : Target) (timeout : ℤ) (scan : Context → Io Batch)
      → ((c : Context) → Triple Anything (λ _. Unit {0}) (λ r _. Scanned S r) (scan c))
      → Triple Anything (λ _. Unit {0}) (Brings S) (wait fuel q ctx t timeout scan)
  unfolding wait
  wait_rule fuel q ctx t timeout scan scans =
      then_any _ _ (λ _ _. tt)
        λ _. then_any _ _ (λ _ _. tt) λ time. wait_timed_rule _ scan scans fuel ctx timeout time

anything-Scanned : (r : Result Batch) → Scanned (λ _. Unit {0}) r
anything-Scanned (ok (items, none)) = tt
anything-Scanned (ok (items, some e)) = tt
anything-Scanned (err e) = tt

-- Every scan is one of some items.
pub any_scan : (m : Io Batch) → Triple Anything (λ _. Unit {0}) (λ r _. Scanned (λ _. Unit {0}) r) m
any_scan m = weaken _ _ m (any_rule m) (λ fs h. h) λ r fs _. anything-Scanned r

-- A wait that returns without an error brings at least one item, whatever the scan is that it
-- repeats.
pub wait-filled :
    (fuel : ℕ) (q : Queue) (ctx : Context) (t : Target) (timeout : ℤ) (scan : Context → Io Batch)
    (w : World) (items : List Item)
    → (wait fuel q ctx t timeout scan w).0 ≡ ok (some (items, none))
    → items ≢ []
wait-filled fuel q ctx t timeout scan w items e = filled _ e (
    of_any (wait fuel q ctx t timeout scan) w
      (wait_rule (λ _. Unit {0}) fuel q ctx t timeout scan λ c. any_scan (scan c)))
  where
    filled :
        (r : Result (Option Batch))
        → r ≡ ok (some (items, none))
        → Brings (λ _. Unit {0}) r (wait fuel q ctx t timeout scan w).1.fs
        → items ≢ []
    filled (ok none) e k r = cc
    filled (ok (some (xs, none))) e k r = k.0 (cc (e, r))
    filled (ok (some (xs, some x))) e k r = cc
    filled (err x) e k r = cc
