-- ===== src/Tests/Lasting.antt =====
-- The theorems on an item among other processes, at a concrete schedule.
use agentqueue.Prelude.{
  codes, List, [], ◌∷◌, true, false, Option, none, some, ◌≡◌, refl, arith, All,
}
use agentqueue.Prelude
use agentqueue.Data.{State, pending, claimed, done, ok}
use agentqueue.Fs.{item, file, lookup, join, dir_at}
use agentqueue.Fs
use agentqueue.Io.{World, Slot, makes, renames, move, mkdir_all, rename, attempt, lift, pure, ◌>>=◌}
use agentqueue.Queue.{target_dir, take_next, ack, ensure_dirs, item_path}
use agentqueue.Queue.Lasting.Acked.{ack-IsIn}
use agentqueue.Queue.Frame.{lookup-mkdir_all}
use agentqueue.Queue.Once.{file_of}
use agentqueue.Queue.Mailbox.Listed.{AllPlain}
use agentqueue.Queue.Lasting.{IsIn, IsOnward, Lawful, advances, elsewhere, IsLawful}
use agentqueue.Queue.Lasting.Plain.{mkdir_all-AllPlain}
use agentqueue.Queue.Lasting.Runs.{
  Operation, takes, takes_next, acks, lists, work_all, work_all-Lasts,
}
use agentqueue.Queue.Progress.{IsWaiting, LeavesAlone}
use agentqueue.Queue.Progress.Waiting.{mkdir_all-HasDir}
use agentqueue.Queue.Progress.Next.{IsDelivery, take_next-IsDelivery}
use agentqueue.Segment.{sanitize}
use agentqueue.Tests.{queue, alice, base, first_id, message, one_message, world_of, busy, bob_dir}

-- Another process claims the message meanwhile.
abbrev rival : Slot
rival = record {
  others = renames (file_of base pending first_id) (file_of base claimed first_id) ∷ [];
  elapsed = 1;
  fails = false;
}

abbrev contested : World
contested = record (world_of one_message) { schedule = busy ∷ rival ∷ [] }

abbrev operations : List Operation
operations = takes_next 2 ∷ takes first_id ∷ acks first_id ∷ lists done ∷ []

alice_here : target_dir queue alice ≡ ok base
unfolding target_dir sanitize Prelude.trim Prelude.text_eq join
alice_here = refl

message_pending : IsIn base first_id (file false (item message)) pending one_message
unfolding lookup Prelude.text_eq Prelude.path_eq
message_pending pending = refl
message_pending claimed = refl
message_pending done = refl

bob-Lawful : Lawful base first_id (makes bob_dir)
unfolding move
bob-Lawful =
    elsewhere (λ fs st. lookup-mkdir_all bob_dir (file_of base st first_id) fs _ (omega arith) refl)
      λ fs h. mkdir_all-AllPlain bob_dir fs (omega arith) h

lawful : All (IsLawful base first_id) contested.schedule
lawful = ((bob-Lawful, tt), ((advances pending claimed tt refl, tt), tt))

plain_names : AllPlain one_message
plain_names = omega arith

work_all-Lasts_example :
    (st : State) × IsOnward pending st
    × IsIn base first_id
        (file false (item message))
        st
        (work_all queue alice base operations contested).fs
work_all-Lasts_example =
    work_all-Lasts queue alice base alice_here first_id false (item message) (omega arith)
      (omega arith) pending operations contested (tt, (omega arith, (omega arith, (tt, tt)))) lawful
      plain_names message_pending

bob-LeavesAlone : LeavesAlone base first_id (makes bob_dir)
unfolding move
bob-LeavesAlone = record {
  same = λ fs st. lookup-mkdir_all bob_dir (file_of base st first_id) fs _ (omega arith) refl;
  names = λ fs h. mkdir_all-AllPlain bob_dir fs (omega arith) h;
  dirs = λ fs st h.
      mkdir_all-HasDir base first_id false (item message) (omega arith) (omega arith) bob_dir st fs
        h;
}

message-IsWaiting : IsWaiting base first_id false (item message) one_message
unfolding dir_at lookup Prelude.text_eq Prelude.path_eq
message-IsWaiting = (plain_names, message_pending, refl, refl)

abbrev disturbed_once : World
disturbed_once = record (world_of one_message) { schedule = busy ∷ [] }

take_next-IsDelivery_example : IsDelivery (take_next 1 queue alice disturbed_once).0
take_next-IsDelivery_example =
    take_next-IsDelivery base first_id false (item message) (omega arith) (omega arith) queue alice
      alice_here 0 disturbed_once ((bob-LeavesAlone, tt), tt) message-IsWaiting

-- The acknowledgement finds the message claimed by the other process.
abbrev raced : World
raced = record (world_of one_message) { schedule = busy ∷ rival ∷ [] }

raced_acked : (ack queue alice first_id raced).0 ≡ ok tt
unfolding ack ◌>>=◌ ensure_dirs target_dir sanitize Prelude.trim Prelude.text_eq mkdir_all
    Fs.mkdir_all join lookup Prelude.path_eq attempt rename Fs.rename item_path lift pure move
    Fs.insert Fs.without
raced_acked = refl

ack-IsIn_example :
    IsIn base first_id (file false (item message)) done (ack queue alice first_id raced).1.fs
ack-IsIn_example =
    ack-IsIn queue alice base first_id false (item message) pending raced alice_here (omega arith)
      (omega arith) lawful plain_names message_pending raced_acked
