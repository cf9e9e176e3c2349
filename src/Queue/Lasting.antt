-- ===== src/Queue/Lasting.antt =====
-- What happens to one item while any number of processes run the operations of queue.go: it is in
-- exactly one state at any time, and goes only forward.
pub mod Plain
pub mod States
pub mod Moves
pub mod Published
pub mod Runs
pub mod Acked
use agentqueue.Prelude.{Text, FilePath, Bool, Option, none, some, if◌then◌else◌, ◌≡◌, All}
use agentqueue.Data.{State, pending, claimed, done}
use agentqueue.Fs.{Fs, Node, Content, file, lookup}
use agentqueue.Io.{Move, renames, move, Slot}
use agentqueue.Queue.Kept.{IsForward}
use agentqueue.Queue.Once.{file_of}
use agentqueue.Queue.Mailbox.{state_eq}
use agentqueue.Queue.Mailbox.Listed.{AllPlain}

-- The states that an item in a state may come to.
abbrev pub IsOnward : State → State → Type 0
IsOnward pending _ = Unit
IsOnward claimed pending = ⊥
IsOnward claimed claimed = Unit
IsOnward claimed done = Unit
IsOnward done pending = ⊥
IsOnward done claimed = ⊥
IsOnward done done = Unit

-- The id's file is in the state, with its content, and in no other state.
abbrev pub IsIn : FilePath → Text → Node → State → Fs → Type 0
IsIn base id v st fs =
    (st' : State) → lookup (file_of base st' id) fs ≡ (if state_eq st st' then some v else none)

-- The same of the state or one that is onward.
abbrev pub Lasts : FilePath → Text → Node → State → Fs → Type 0
Lasts base id v st fs = (st' : State) × IsOnward st st' × IsIn base id v st' fs

-- What another process may do: a move of the item forward, as `claim` and `Ack` make it, or anything
-- that leaves the item's files alone and gives no file a name with a slash.
pub data Lawful (base : FilePath) (id : Text) (mv : Move) : Type 0 where
  advances :
      (a b : State)
      → IsForward a b
      → mv ≡ renames (file_of base a id) (file_of base b id)
      → Lawful base id mv
  elsewhere :
      ((fs : Fs) (st : State)
        → lookup (file_of base st id) (move fs mv) ≡ lookup (file_of base st id) fs)
      → ((fs : Fs) → AllPlain fs → AllPlain (move fs mv))
      → Lawful base id mv

abbrev pub IsLawful : FilePath → Text → Slot → Type 0
IsLawful base id slot = All (Lawful base id) slot.others
