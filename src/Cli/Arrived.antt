-- ===== src/Cli/Arrived.antt =====
-- What the command `wait` of cmd/agentqueue/main.go prints.
use agentqueue.Prelude.{
  ℕ, ◌≤◌, pos, List, [], ◌∷◌, ◌++◌, length, Bool, false, Option, none, some, if◌then◌else◌, ◌≡◌,
  ◌≢◌, ◌⊎◌,
}
use agentqueue.Data.{Target, ok, Item}
use agentqueue.Fs.{Fs}
use agentqueue.Io.{World, Io}
use agentqueue.Config.{Queue, fetch_cmd}
use agentqueue.Transport.{Host, Context}
use agentqueue.Cli.{
  panicked, Line, item_block, items_json, arrivals, Outcome, exit_status, Shell, open_cli,
  resolve_target, done_with,
}
use agentqueue.Cli.Waiting.{WaitFlags, wait_duration, first_item}
use agentqueue.Receive.{Batch, wait_receive, wait_pending}

-- The items that a line shows.
unfoldable pub items_of : Line → List Item
items_of (item_block json it) = it ∷ []
items_of (items_json items) = items
items_of (arrivals items t command) = items
items_of _ = []

unfoldable pub shown : List Line → List Item
unfolding items_of
shown [] = []
shown (l ∷ lines) = items_of l ++ shown lines

module _ (fuel : ℕ) (sh : Shell) (h : Host) (ctx : Context) (f : WaitFlags) where
  -- The wait that the flags ask for.
  abbrev pub waited : Queue → Target → Io (Option Batch)
  waited q t =
      if f.take
      then wait_receive fuel h q ctx t (wait_duration f.timeout) (pos 1)
      else wait_pending fuel q ctx t (wait_duration f.timeout)

  -- The wait has brought items, and they are what is printed.
  abbrev pub Arrived : World → Outcome → Type 0
  Arrived w o =
      (t : Target) × (q : Queue) × (items : List Item) × (resolve_target f.to ≡ ok t)
      × ((open_cli sh f.root w).0 ≡ ok q)
      × ((waited q t (open_cli sh f.root w).1).0 ≡ ok (some (items, none)))
      × (items ≢ [])
      × (shown o.printed ≡ items)

  -- Either nothing is printed and the status is not 0, or everything that arrived is, and it is 0.
  abbrev pub Tells : World → Outcome → Type 0
  Tells w o =
      (o.fault ≢ some panicked)
      × (((exit_status o ≢ 0) × (o.printed ≡ [])) ⊎ ((exit_status o ≡ 0) × Arrived w o))

  -- As many items as are printed: one if they are taken.
  abbrev Fits : List Item → Type 0
  Fits items = (f.take ≡ false) ⊎ (length items ≤ 1)

  abbrev line_of : Bool → Bool → Queue → Target → List Item → Outcome
  line_of take json q t items =
      if take
      then first_item json items
      else done_with ((if json then items_json items else arrivals items t (fetch_cmd q t)) ∷ [])
