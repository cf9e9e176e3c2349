-- ===== src/Receive/Ending.antt =====
-- A wait with a timeout ends: `wait` of queue.go.
use agentqueue.Prelude.{
  ltb, FilePath, ℕ, zero, suc, ◌+◌, ◌*◌, ◌≤◌, pos, Option, none, some, ◌≡◌, ◌≢◌, refl, arith, Bool,
  true, Bool-cases, Option-cases, is_empty, inl, inr,
}
use agentqueue.Data.{Target, Error, Result, ok, err}
use agentqueue.Io.{continue, World, Io, ◌>>=◌, now, attempt, pure, raise, lift}
use agentqueue.Config.{Queue, poll}
use agentqueue.Queue.{target_dir}
use agentqueue.Transport.{Context, context_err, with_timeout}
use agentqueue.Receive.{
  Batch, unless_ended, after_scan, pause, next_tick, wait_loop, wait_timed, wait,
}

-- A run that returns, with a batch or an error, before the fuel is used up.
abbrev pub Ends : Result (Option Batch) × World → Type 0
Ends m = m.0 ≢ ok none

unless_ended-Ends :
    (mapped : Error → Error) (o : Option Error) (next : Io (Option Batch)) (w : World)
    → (o ≡ none → Ends (next w))
    → Ends (unless_ended mapped o next w)
unfolding raise
unless_ended-Ends mapped (some e) next w k h = cc
unless_ended-Ends mapped none next w k h = k refl h

after_scan-Ends :
    (mapped : Error → Error) (r : Result Batch) (next : Io (Option Batch)) (w : World)
    → Ends (next w)
    → Ends (after_scan mapped next r w)
unfolding raise pure
after_scan-Ends mapped (err e) next w k h = cc
after_scan-Ends mapped (ok (items, some e)) next w k h = cc
after_scan-Ends mapped (ok (items, none)) next w k h = elim (Bool-cases (is_empty items)) [
  | inl e ↦ k (rw e at h)
  | inr e ↦ cc (rw e at h)
]

-- At the tick behind its deadline a context has ended.
pause_reaches :
    (ctx : Context) (tick d : ℕ) (w : World)
    → ctx.deadline ≡ some d
    → d ≤ tick
    → context_err ctx (pause ctx tick w).1.time ≢ none
unfolding pause context_err
pause_reaches ctx tick d w e h = elim (Option-cases ctx.cancelled_at) [
  | inl c ↦ rw (e, c) (ground arith)
  | inr (t, c) ↦ rw (e, c) (ground arith)
]

next_tick_grows : (period tick time : ℕ) → tick + period ≤ next_tick period tick time
unfolding next_tick
next_tick_grows period tick time = grind arith

module _ (parent ctx : Context) (limited : Bool) (period : ℕ) (scan : Context → Io Batch) where
  round-Ends :
      (fuel tick : ℕ) (w : World)
      → ((w' : World)
          → context_err ctx (pause ctx tick w').1.time ≡ none
          → Ends (
              wait_loop fuel parent ctx limited period
                (next_tick period tick (pause ctx tick w').1.time)
                scan
                (pause ctx tick w').1))
      → Ends (wait_loop (suc fuel) parent ctx limited period tick scan w)
  unfolding wait_loop ◌>>=◌ now attempt
  round-Ends fuel tick w rest =
      let w' = (scan ctx w).1 in
      let woken = (pause ctx tick w').1 in
      unless_ended-Ends _ (context_err ctx w.time) _ w λ _.
        after_scan-Ends _ (scan ctx w).0 _ w'
          (unless_ended-Ends _ (context_err ctx woken.time) _ woken (rest w'))

  wait_loop-Ends :
      (fuel tick d : ℕ) (w : World)
      → ctx.deadline ≡ some d
      → d ≤ tick + period * fuel
      → Ends (wait_loop (suc fuel) parent ctx limited period tick scan w)
  wait_loop-Ends zero tick d w e h =
      round-Ends zero tick w λ w' n. absurd (pause_reaches ctx tick d w' e (grind (arith, h)) n)
  wait_loop-Ends (suc fuel) tick d w e h = round-Ends (suc fuel) tick w λ w' n.
      wait_loop-Ends fuel (next_tick period tick (pause ctx tick w').1.time) d (pause ctx tick w').1
        e (grind (arith, next_tick_grows period tick (pause ctx tick w').1.time))

-- A timeout that is set after the deadline of the context leaves the earlier one.
with_timeout_deadline :
    (ctx : Context) (limit : ℕ)
    → (d : ℕ) × ((with_timeout ctx limit).deadline ≡ some d) × (d ≤ limit)
unfolding with_timeout
with_timeout_deadline ctx limit = elim (Option-cases ctx.deadline) [
  | inl e ↦ (limit, rw e refl, omega arith)
  | inr (t, e) ↦ elim (Bool-cases (ltb limit t)) [
    | inl b ↦ (limit, rw (e, b) refl, omega arith)
    | inr b ↦ (t, rw (e, b) refl, ground arith)
  ]
]

-- A wait with a timeout ends, whatever its scan does, and whatever the clock and the other processes do
-- meanwhile: it takes no more scans than there are poll intervals in the timeout, rounded up.
pub wait-Ends :
    (fuel : ℕ) (q : Queue) (ctx : Context) (t : Target) (d : ℕ) (scan : Context → Io Batch)
    (w : World)
    → suc d ≤ poll q * fuel
    → Ends (wait fuel q ctx t (pos (suc d)) scan w)
unfolding wait wait_timed ◌>>=◌ lift now
wait-Ends zero q ctx t d scan w h = absurd (grind (arith, h))
wait-Ends (suc fuel) q ctx t d scan w h = located (target_dir q t)
  where
    timed : Ends (wait_timed (suc fuel) ctx (pos (suc d)) w.time (poll q) scan w)
    timed =
        let (limit, e, l) = with_timeout_deadline ctx (w.time + suc d) in
        wait_loop-Ends ctx (with_timeout ctx (w.time + suc d)) true (poll q) scan fuel
          (w.time + poll q) limit w e (grind (arith, l, h))

    located :
        (r : Result FilePath)
        → Ends (
            continue r
              (λ _. now >>= λ time. wait_timed (suc fuel) ctx (pos (suc d)) time (poll q) scan)
              w)
    located (ok base) = timed
    located (err x) = λ k. cc
