-- ===== src/Receive.antt =====
-- receive.go, and `Queue.Wait` of queue.go: batches of pending items are claimed under the
-- notification lock, and a wake that is named is observed.
pub mod Limit
pub mod Claimed
pub mod Oldest
pub mod Stale
pub mod Waiting
pub mod Ending
use agentqueue.Prelude.{
  ℕ, zero, suc, ◌+◌, ◌-◌, ◌*◌, ◌/◌, ltb, leb, ℤ, pos, negsuc, Text, codes, FilePath, text_eq,
  is_empty, List, [], ◌∷◌, ◌++◌, length, all, Bool, true, false, not, ◌&&◌, ◌||◌, Option, none,
  some, if◌then◌else◌, ◌==◌,
}
use agentqueue.Data.{
  Target, pending, Item, NotificationStatus, Error, malformed, timed_out, deadline_exceeded,
  is_not_found, Result, ok, err,
}
use agentqueue.Io.{Io, pure, raise, lift, now, attempt, ◌>>=◌, ◌>>◌}
use agentqueue.Queue.{target_dir, list, take_id}
use agentqueue.Config.{Queue, poll}
use agentqueue.Files.{get_notification}
use agentqueue.Notify.{lock_notification, save}
use agentqueue.Wake.{in_state}
use agentqueue.Transport.{
  Context, context_err, with_timeout, background, Host, notification_timeout, drain_lifetime,
  wake_protocol_version,
}

-- Items, with the error that came after them.
abbrev pub Batch : Type 0
Batch = List Item × Option Error

-- A limit outside 1..100 means 20.
unfoldable pub batch_limit : ℤ → ℕ
batch_limit (pos n) = if ltb n 1 || ltb 100 n then 20 else n
batch_limit (negsuc n) = 20

abbrev pub snoc : List Item → Item → List Item
snoc items it = items ++ it ∷ []

-- What follows the check of the context.
abbrev pub unless_over : Option Error → List Item → Io Batch → Io Batch
unless_over (some e) received next = pure (received, some e)
unless_over none received next = next

-- What follows the claim of an item: one that is gone is skipped, and any other error ends the batch.
abbrev pub after_claim : (Item → Io Batch) → Io Batch → List Item → Result Item → Io Batch
after_claim next skip received (ok taken) = next taken
after_claim next skip received (err e) = if is_not_found e then skip else pure (received, some e)

-- The loop over the pending items.
unfoldable pub take_batch : Queue → Context → Target → ℕ → List Item → List Item → Io Batch
take_batch q ctx t limit [] received = pure (received, none)
take_batch q ctx t limit (it ∷ items) received =
    let skip = take_batch q ctx t limit items received in
    if length received == limit then pure (received, none) else do
      time ← now
      unless_over (context_err ctx time) received (
          attempt (take_id q t it.id) (
            after_claim (λ taken. take_batch q ctx t limit items (snoc received taken)) skip
              received))

-- A wake that `ReceiveNotice` may still observe.
unfoldable pub observable : NotificationStatus → Text → Bool
observable s notice =
    text_eq s.id notice
    && (s.wake_protocol == wake_protocol_version
        && not (in_state s (codes "received") || in_state s (codes "deferred")))

-- The state that observing a wake leaves, by whether anything is pending.
unfoldable pub observe : NotificationStatus → Bool → ℕ → NotificationStatus
observe s nothing_pending time =
    if nothing_pending
    then record s { coalescing = true; state = codes "received"; drain_until = time }
    else record s {
      coalescing = true;
      state = codes "receiving";
      drain_until = time + drain_lifetime;
    }

abbrev pub finished : NotificationStatus → ℕ → NotificationStatus
finished s time = record s { state = codes "received"; drain_until = time }

abbrev pub with_saved : List Item → Result (Unit {0}) → Io Batch
with_saved received (ok _) = pure (received, none)
with_saved received (err e) = pure (received, some e)

-- What follows the loop where a wake is observed: if nothing was claimed, the drain is over.
unfoldable pub close_drain : FilePath → NotificationStatus → ℕ → Batch → Io Batch
close_drain base s time (received, some e) = pure (received, some e)
close_drain base s time (received, none) =
    if is_empty received && not (in_state s (codes "received"))
    then attempt (save base (finished s time)) (with_saved received)
    else pure (received, none)

module _ (h : Host) (q : Queue) where
  -- `Queue.receive` without a notice.
  unfoldable pub receive_plain : Context → Target → ℤ → Io Batch
  receive_plain ctx t limit = do
    lock_notification h q ctx t
    items ← list q t pending
    take_batch q ctx t (batch_limit limit) items []

  -- `Queue.receive` with a notice.
  unfoldable pub receive_noticed : Context → Target → ℤ → Text → Io Batch
  unfolding observe close_drain
  receive_noticed ctx t limit notice = do
    base ← lock_notification h q ctx t
    s ← get_notification q t
    if not (observable s notice) then pure ([], none) else do
      items ← list q t pending
      time ← now
      let s' = observe s (is_empty items) (q.now time)
      save base s'
      batch ← take_batch q ctx t (batch_limit limit) items []
      close_drain base s' (q.now time) batch

  -- `Queue.receive`; no notice is the empty id.
  unfoldable pub receive_batch : Context → Target → ℤ → Text → Io Batch
  unfolding receive_plain receive_noticed
  receive_batch ctx t limit notice =
      if is_empty notice then receive_plain ctx t limit else receive_noticed ctx t limit notice

  -- `Queue.Receive`.
  unfoldable pub receive : Target → ℤ → Io Batch
  receive t limit = do
    time ← now
    receive_batch (with_timeout background (time + notification_timeout)) t limit []

  -- `Queue.ReceiveAutomatic`.
  unfoldable pub receive_automatic : Context → Target → ℤ → Io Batch
  receive_automatic ctx t limit = receive_batch ctx t limit []

  -- `hex.DecodeString(id)` gives 16 bytes.
  unfoldable pub is_notice_id : Text → Bool
  is_notice_id id = length id == 32 && all is_hex id
    where
      is_hex : ℕ → Bool
      is_hex c =
          (leb b'0' c && leb c b'9') || (leb b'a' c && leb c b'f') || (leb b'A' c && leb c b'F')

  -- `Queue.ReceiveNotice`.
  unfoldable pub receive_notice : Target → Text → ℤ → Io Batch
  unfolding is_notice_id
  receive_notice t id limit =
      if is_notice_id id
      then (do
        time ← now
        receive_batch (with_timeout background (time + notification_timeout)) t limit id)
      else raise malformed

-- The end of a context: the first time at which `ctx.Err()` is set.
abbrev pub context_end : Context → Option ℕ
context_end ctx = elim ctx.cancelled_at [
  | none ↦ ctx.deadline
  | some c ↦ elim ctx.deadline [ none ↦ some c | some d ↦ some (if ltb d c then d else c) ]
]

-- The `select` of `wait`: the clock goes to the next tick, or to the end of the context if that
-- comes first, and not back.
unfoldable pub pause : Context → ℕ → Io (Unit {0})
pause ctx tick w =
    let until : ℕ = elim (context_end ctx) [
      | none ↦ tick
      | some e ↦ if ltb e tick then e else tick
    ] in
    (ok tt, record w { time = if ltb w.time until then until else w.time })

-- The tick after the one that has been received at `time`: a ticker drops the ticks that nobody
-- was there to receive.
unfoldable pub next_tick : ℕ → ℕ → ℕ → ℕ
next_tick period tick time = tick + period * ((time - tick) / period + 1)

-- `mapError` of `wait`.
unfoldable pub map_error : Context → Context → Bool → Error → ℕ → Error
map_error parent ctx limited e time = elim (context_err parent time) [
  | some p ↦ p
  | none ↦ elim (context_err ctx time) [
    | some deadline_exceeded ↦ if limited then timed_out else e
    | _ ↦ e
  ]
]

-- An error of the context ends the wait.
abbrev pub unless_ended : (Error → Error) → Option Error → Io (Option Batch) → Io (Option Batch)
unless_ended mapped (some e) next = raise (mapped e)
unless_ended mapped none next = next

-- What follows a scan: an error or an item ends the wait.
abbrev pub after_scan : (Error → Error) → Io (Option Batch) → Result Batch → Io (Option Batch)
after_scan mapped next (err e) = raise (mapped e)
after_scan mapped next (ok (items, some e)) = pure (some (items, some (mapped e)))
after_scan mapped next (ok (items, none)) =
    if is_empty items then next else pure (some (items, none))

-- The loop of `wait`, for at most `fuel` scans; `none` if they were not enough.
unfoldable pub wait_loop :
    ℕ → Context → Context → Bool → ℕ → ℕ → (Context → Io Batch) → Io (Option Batch)
unfolding pause next_tick map_error
wait_loop zero parent ctx limited period tick scan = pure none
wait_loop (suc fuel) parent ctx limited period tick scan = do
  time ← now
  unless_ended (λ e. map_error parent ctx limited e time) (context_err ctx time)
      (attempt (scan ctx) λ r. do
        scanned ← now
        after_scan (λ e. map_error parent ctx limited e scanned)
            (do
              pause ctx tick
              woken ← now
              unless_ended (λ e. map_error parent ctx limited e woken) (context_err ctx woken)
                  (wait_loop fuel parent ctx limited period (next_tick period tick woken) scan))
            r)

-- The loop with its timeout: zero or less means none.
unfoldable pub wait_timed : ℕ → Context → ℤ → ℕ → ℕ → (Context → Io Batch) → Io (Option Batch)
unfolding wait_loop
wait_timed fuel ctx (pos zero) time period scan =
    wait_loop fuel ctx ctx false period (time + period) scan
wait_timed fuel ctx (pos (suc d)) time period scan =
    wait_loop fuel ctx (with_timeout ctx (time + suc d)) true period (time + period) scan
wait_timed fuel ctx (negsuc n) time period scan =
    wait_loop fuel ctx ctx false period (time + period) scan

-- `Queue.wait`.
unfoldable pub wait : ℕ → Queue → Context → Target → ℤ → (Context → Io Batch) → Io (Option Batch)
unfolding wait_timed
wait fuel q ctx t timeout scan = do
  lift (target_dir q t)
  time ← now
  let period = poll q
  wait_timed fuel ctx timeout time period scan

-- `Queue.Wait`.
unfoldable pub wait_pending : ℕ → Queue → Context → Target → ℤ → Io (Option Batch)
wait_pending fuel q ctx t timeout =
    wait fuel q ctx t timeout λ _. do items ← list q t pending; pure (items, none)

-- `Queue.WaitReceive`.
unfoldable pub wait_receive : ℕ → Host → Queue → Context → Target → ℤ → ℤ → Io (Option Batch)
wait_receive fuel h q ctx t timeout limit =
    wait fuel q ctx t timeout λ c. receive_automatic h q c t limit
