-- ===== src/Cli/Waiting.antt =====
-- cmd/agentqueue/main.go: the command `wait`.
use agentqueue.Prelude.{
  ℕ, ◌-◌, ◌*◌, ◌%◌, ◌^◌, ltb, ℤ, pos, negsuc, Text, List, [], ◌∷◌, Bool, true, false, Option, none,
  some, if◌then◌else◌,
}
use agentqueue.Data.{Target, Item, Error, timed_out, notify, joined, Result, ok, err}
use agentqueue.Io.{Io, pure, attempt, lift}
use agentqueue.Config.{Queue, fetch_cmd}
use agentqueue.Transport.{Host, Context}
use agentqueue.Receive.{Batch, wait_pending, wait_receive}
use agentqueue.Cli.{
  Fault, failed, panicked, item_block, items_json, arrivals, Outcome, exit_error, exit_timeout,
  done_with, stopped, Shell, open_cli, resolve_target,
}

pub record WaitFlags : Type 0 where
  pub to : Text
  pub root : Text
  pub timeout : ℤ
  pub take : Bool
  pub json : Bool

-- A number as an `int64`, which wraps around.
unfoldable pub wrap64 : ℕ → ℤ
wrap64 n = let m = n % 2 ^ 64 in if ltb m (2 ^ 63) then pos m else negsuc (2 ^ 64 - 1 - m)

-- `time.Duration(*timeout) * time.Second`, for a timeout above zero.
unfoldable pub wait_duration : ℤ → ℤ
unfolding wrap64
wait_duration (pos n) = wrap64 (n * 10 ^ 9)
wait_duration (negsuc n) = pos 0

-- `errors.Is(e, ErrTimeout)`.
abbrev pub is_timed_out : Error → Bool
is_timed_out timed_out = true
is_timed_out (notify e) = is_timed_out e
is_timed_out (joined a b) = if is_timed_out a then true else is_timed_out b
is_timed_out _ = false

-- The error of a wait: a timeout has its own code, and is no error.
abbrev pub wait_failed : Error → Outcome
wait_failed e =
    if is_timed_out e
    then record { printed = []; code = exit_timeout; fault = none }
    else record { printed = []; code = exit_error; fault = some (failed e) }

-- `items[0]`, printed.
abbrev pub first_item : Bool → List Item → Outcome
first_item json [] = stopped panicked
first_item json (it ∷ items) = done_with (item_block json it ∷ [])

-- What `cmdWait` leaves of the result of its wait.
unfoldable pub wait_outcome : Queue → Target → Bool → Bool → Result (Option Batch) → Option Outcome
wait_outcome q t take json (err e) = some (wait_failed e)
wait_outcome q t take json (ok none) = none
wait_outcome q t take json (ok (some (items, some e))) = some (wait_failed e)
wait_outcome q t take json (ok (some (items, none))) = some (
    if take
    then first_item json items
    else done_with ((if json then items_json items else arrivals items t (fetch_cmd q t)) ∷ []))

-- A command of `cmdWait` that stops early has the code 1.
abbrev pub stopped_waiting : Fault → Outcome
stopped_waiting f = record { printed = []; code = exit_error; fault = some f }

-- `cmdWait` behind its target and its queue.
abbrev pub wait_opened :
    ℕ → Host → Context → WaitFlags → Target → Result Queue → Io (Option Outcome)
wait_opened fuel h ctx f t (err e) = pure (some (stopped_waiting (failed e)))
wait_opened fuel h ctx f t (ok q) =
    let timeout = wait_duration f.timeout in
    attempt
      (if f.take
        then wait_receive fuel h q ctx t timeout (pos 1)
        else wait_pending fuel q ctx t timeout)
      λ r. pure (wait_outcome q t f.take f.json r)

abbrev pub wait_located :
    ℕ → Shell → Host → Context → WaitFlags → Result Target → Io (Option Outcome)
wait_located fuel sh h ctx f (err e) = pure (some (stopped_waiting (failed e)))
wait_located fuel sh h ctx f (ok t) = attempt (open_cli sh f.root) (wait_opened fuel h ctx f t)

-- `cmdWait` behind its flags; `none` if the fuel is used up.
unfoldable pub wait_parsed : ℕ → Shell → Host → Context → WaitFlags → Io (Option Outcome)
unfolding wait_duration wait_outcome
wait_parsed fuel sh h ctx f = attempt (lift (resolve_target f.to)) (wait_located fuel sh h ctx f)
