-- ===== src/Queue/Progress.antt =====
-- `TakeNext` of queue.go among other processes that leave one pending item to it.
pub mod Errors
pub mod Waiting
pub mod Claim
pub mod Next
use agentqueue.Prelude.{Text, FilePath, ◌∷◌, Bool, true, ◌≡◌, All}
use agentqueue.Data.{State, pending, claimed, state_string}
use agentqueue.Fs.{Fs, Content, file, lookup, dir_at}
use agentqueue.Io.{Move, move, Slot}
use agentqueue.Queue.Once.{file_of}
use agentqueue.Queue.Mailbox.Listed.{AllPlain}
use agentqueue.Queue.Lasting.{IsIn}

-- A state's directory is there.
abbrev pub HasDir : FilePath → State → Fs → Type 0
HasDir base st fs = dir_at (state_string st ∷ base) fs ≡ true

-- The item is pending in a mailbox with its directories.
abbrev pub IsWaiting : FilePath → Text → Bool → Content → Fs → Type 0
IsWaiting base id mode c fs =
    AllPlain fs
    × IsIn base id (file mode c) pending fs
    × HasDir base pending fs
    × HasDir base claimed fs

-- Another process leaves the item's files and the directories where they are, and gives no file a
-- name with a slash.
pub record LeavesAlone (base : FilePath) (id : Text) (mv : Move) : Type 0 where
  pub same :
      (fs : Fs) (st : State)
      → lookup (file_of base st id) (move fs mv) ≡ lookup (file_of base st id) fs
  pub names : (fs : Fs) → AllPlain fs → AllPlain (move fs mv)
  pub dirs : (fs : Fs) (st : State) → HasDir base st fs → HasDir base st (move fs mv)

abbrev pub IsPolite : FilePath → Text → Slot → Type 0
IsPolite base id slot = All (LeavesAlone base id) slot.others
