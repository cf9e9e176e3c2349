-- ===== src/Queue/Lasting/Runs.antt =====
-- Sequences of operations of queue.go among other processes.
use agentqueue.Prelude.{ℕ, Text, FilePath, List, [], ◌∷◌, Bool, ◌≡◌, ◌≢◌, All}
use agentqueue.Data.{Target, State, Item, ok}
use agentqueue.Fs.{Content, file}
use agentqueue.Fs.Laws.{NoSlash}
use agentqueue.Io.{World, Io}
use agentqueue.Io.Rules.{Triple}
use agentqueue.Config.{Queue}
use agentqueue.Queue.{target_dir, store, take_id, take_next, ack, list}
use agentqueue.Queue.Kept.Operations.{take_id-keeps, take_next-keeps, ack-keeps, list-keeps}
use agentqueue.Queue.Mailbox.Listed.{AllPlain}
use agentqueue.Queue.Lasting.{IsOnward, IsIn, IsLawful}
use agentqueue.Queue.Lasting.Moves.{Kept, Kept-stable, Kept-made, Kept-forward}
use agentqueue.Queue.Lasting.States.{IsOnward-self}
use agentqueue.Queue.Lasting.Published.{store-Stays}

-- A call: the publication of an item by `Push`, `Take`, `TakeNext` with its fuel, `Ack` and `List`.
pub data Operation : Type 0 where
  publishes : Item → Operation
  takes : Text → Operation
  takes_next : ℕ → Operation
  acks : Text → Operation
  lists : State → Operation

-- The ids of a call have no slash, and what it publishes has another id.
abbrev pub IsProper : Text → Operation → Type 0
IsProper id (publishes it) = NoSlash it.id × (it.id ≢ id)
IsProper id (takes id') = NoSlash id'
IsProper id (takes_next fuel) = Unit
IsProper id (acks id') = NoSlash id'
IsProper id (lists st) = Unit

-- The world that a call leaves, whatever it returns.
unfoldable pub work : Queue → Target → FilePath → Operation → World → World
work q t base (publishes it) w = (store base it w).1
work q t base (takes id) w = (take_id q t id w).1
work q t base (takes_next fuel) w = (take_next fuel q t w).1
work q t base (acks id) w = (ack q t id w).1
work q t base (lists st) w = (list q t st w).1

unfoldable pub work_all : Queue → Target → FilePath → List Operation → World → World
work_all q t base [] w = w
work_all q t base (op ∷ ops) w = work_all q t base ops (work q t base op w)

module _ (q : Queue) (t : Target) (base : FilePath) (located : target_dir q t ≡ ok base) (id : Text)
    (mode : Bool) (c : Content) (plain_base : All NoSlash base) (plain : NoSlash id) where
  -- Everybody else is lawful from here on, and the item is in the state or onward.
  abbrev Goes : State → World → Type 0
  Goes st w = All (IsLawful base id) w.schedule × Kept base id mode c st w.fs

  Goes-rule :
      {A : Type 0} (st : State) (m : Io A) (w : World)
      → Triple (IsLawful base id) (Kept base id mode c st) (λ _ fs. Kept base id mode c st fs) m
      → Goes st w
      → Goes st (m w).1
  Goes-rule st m w k (l, h) = k.at w l h

  work-Goes :
      (st : State) (op : Operation) (w : World)
      → IsProper id op
      → Goes st w
      → Goes st (work q t base op w)
  unfolding work
  work-Goes st (publishes it) w (n, ne) h =
      Goes-rule st _ w (store-Stays base id mode c plain_base plain st it n ne) h
  work-Goes st (takes id') w n h =
      Goes-rule st _ w
        (take_id-keeps (Kept base id mode c st) (Kept-stable base id mode c plain_base st plain)
          base (Kept-made base id mode c plain_base st) (Kept-forward base id mode c plain_base st)
          q t located id' n)
        h
  work-Goes st (takes_next fuel) w n h =
      Goes-rule st _ w
        (take_next-keeps (Kept base id mode c st) (Kept-stable base id mode c plain_base st plain)
          base (Kept-made base id mode c plain_base st) (Kept-forward base id mode c plain_base st)
          q t located (λ fs k. k.0) fuel)
        h
  work-Goes st (acks id') w n h =
      Goes-rule st _ w
        (ack-keeps (Kept base id mode c st) (Kept-stable base id mode c plain_base st plain) base
          (Kept-made base id mode c plain_base st) (Kept-forward base id mode c plain_base st) q t
          located id' n)
        h
  work-Goes st (lists st') w n h =
      Goes-rule st _ w
        (list-keeps (Kept base id mode c st) (Kept-stable base id mode c plain_base st plain) base
          (Kept-made base id mode c plain_base st) (Kept-forward base id mode c plain_base st) q t
          located (λ fs k. k.0) st')
        h

  work_all-Goes :
      (st : State) (ops : List Operation) (w : World)
      → All (IsProper id) ops
      → Goes st w
      → Goes st (work_all q t base ops w)
  unfolding work_all
  work_all-Goes st [] w p h = h
  work_all-Goes st (op ∷ ops) w (p, ps) h =
      work_all-Goes st ops (work q t base op w) ps (work-Goes st op w p h)

  -- No item is lost, doubled or taken back: over any sequence of calls whose ids have no slash and which
  -- publish only items with another id, among other processes that only move the item forward as `claim`
  -- and `Ack` do or leave its files alone, and whichever system calls fail, its file is in exactly one
  -- state with the content that it had, and that state is the one where it was or a later one.
  pub work_all-Lasts :
      (st : State) (ops : List Operation) (w : World)
      → All (IsProper id) ops
      → All (IsLawful base id) w.schedule
      → AllPlain w.fs
      → IsIn base id (file mode c) st w.fs
      → (st' : State) × IsOnward st st'
        × IsIn base id (file mode c) st' (work_all q t base ops w).fs
  work_all-Lasts st ops w p l n h =
      (work_all-Goes st ops w p (l, (n, (st, IsOnward-self st, h)))).1.1
