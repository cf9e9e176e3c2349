-- ===== src/Tests/Receivers.antt =====
-- The theorems on the private files of a mailbox, at a concrete schedule.
use agentqueue.Prelude.{
  codes, FilePath, trim, text_eq, path_eq, length, [], ◌∷◌, ◌≡◌, ◌⊎◌, ◌<◌, refl, ap, arith, inl,
  inr,
}
use agentqueue.Data.{Receiver, io, ok, err}
use agentqueue.Fs
use agentqueue.Fs.{join, lookup}
use agentqueue.Io.{
  World, makes, move, remove, rename, flush, write_temp, create_temp, unused, chmod_dir, mkdir_all,
  attempt, ◌>>=◌, pure, lift,
}
use agentqueue.Item.{zero_padded}
use agentqueue.Queue.{target_dir, ensure_dirs}
use agentqueue.Queue.Frame.{lookup-mkdir_all}
use agentqueue.Segment.{sanitize}
use agentqueue.Data.{NotificationStatus}
use agentqueue.Fs.{item}
use agentqueue.Prelude.{some, false}
use agentqueue.Data.{pending}
use agentqueue.Queue.Once.{file_of}
use agentqueue.Tests.{first_id, message}
use agentqueue.Fs.{file, notification}
use agentqueue.Transport.{Context}
use agentqueue.Prelude.{pos, Text, true}
use agentqueue.Files.{
  notification_file, receiver_file, put_receiver, get_receiver, write_private, secure_root,
  finally_remove,
}
use agentqueue.Files.Temp.{IsOurs}
use agentqueue.Files.Registered.{registered, put_receiver-get_receiver}
use agentqueue.Io.Rules.{Triple, pure_rule}
use agentqueue.Receive.{receive_notice}
use agentqueue.Receive.Stale.{
  IsOver, LeavesPath, IsKept, Leaves, BringsNothing, receive_notice-BringsNothing,
}
use agentqueue.Tests.{queue, alice, base, dirs, world_of, busy, bob_dir, host, queued, one_message}

abbrev registration : Receiver
registration = record { socket = codes "/s"; token = codes "t"; permission_mode = [] }

abbrev watched : World
watched = record (world_of dirs) { schedule = busy ∷ busy ∷ [] }

alice_here : target_dir queue alice ≡ ok base
unfolding target_dir sanitize trim text_eq join
alice_here = refl

ours_deep : (p : FilePath) → IsOurs base receiver_file p → length bob_dir < length p
ours_deep [] (inl k) = absurd (cc k)
ours_deep (n ∷ p) (inl k) = omega (arith, ap length k)
ours_deep p (inr k) = omega (arith, ap length k)

bob-LeavesOurs :
    (p : FilePath)
    → IsOurs base receiver_file p
    → (fs : Fs.Fs) → lookup p (move fs (makes bob_dir)) ≡ lookup p fs
unfolding move
bob-LeavesOurs p o fs = lookup-mkdir_all bob_dir p fs (lookup p fs) (ours_deep p o) refl

put : (put_receiver queue alice registration watched).0 ≡ ok tt
unfolding put_receiver ◌>>=◌ ensure_dirs target_dir sanitize trim text_eq mkdir_all Fs.mkdir_all
    join lookup path_eq Fs.insert Fs.without secure_root chmod_dir Fs.dir_at write_private
    finally_remove Fs.remove Fs.rename attempt create_temp flush lift pure remove rename unused
    write_temp zero_padded move
put = refl

put_receiver-get_receiver_example :
    ((get_receiver queue alice (put_receiver queue alice registration watched).1).0
      ≡ registered registration)
    ⊎ ((get_receiver queue alice (put_receiver queue alice registration watched).1).0 ≡ err io)
put_receiver-get_receiver_example =
    put_receiver-get_receiver queue alice base alice_here registration watched
      ((bob-LeavesOurs, tt), ((bob-LeavesOurs, tt), tt)) put

abbrev notice_id : Text
notice_id = codes "00000000000000000000000000000000"

-- The wake has been received already.
abbrev received_wake : NotificationStatus
received_wake = record queued { id = notice_id; state = codes "received" }

abbrev notified : World
notified =
    record (world_of
      ((notification_file ∷ base, file true (notification received_wake)) ∷ one_message)) {
        schedule = busy ∷ busy ∷ [];
      }

wake-IsOver : IsOver received_wake notice_id
wake-IsOver = inr (inr (inl refl))

bob-LeavesPath : LeavesPath (notification_file ∷ base) busy
unfolding move
bob-LeavesPath =
    (λ fs. lookup-mkdir_all bob_dir (notification_file ∷ base) fs _ (omega arith) refl, tt)

-- The pending message.
abbrev message_file : FilePath
message_file = file_of base pending first_id

bob-Leaves :
    Leaves base queue alice alice_here true received_wake message_file
      (file false (item message))
      busy
unfolding move
bob-Leaves =
    (bob-LeavesPath, ((λ fs. lookup-mkdir_all bob_dir message_file fs _ (omega arith) refl), tt))

all-IsKept :
    IsKept base queue alice alice_here true received_wake message_file
      (file false (item message))
      notified.fs
unfolding lookup path_eq text_eq
all-IsKept = (refl, refl)

lock_keeps :
    (p : FilePath) (c : Context)
    → Triple
        (Leaves base queue alice alice_here true received_wake message_file
          (file false (item message)))
        (IsKept base queue alice alice_here true received_wake message_file
          (file false (item message)))
        (λ _ fs.
          IsKept base queue alice alice_here true received_wake message_file
            (file false (item message))
            fs)
        (host.try_lock p c)
lock_keeps p c = pure_rule true λ fs h. h

receive_notice-BringsNothing_example :
    BringsNothing (receive_notice host queue alice notice_id (pos 0) notified).0
    × (lookup message_file (receive_notice host queue alice notice_id (pos 0) notified).1.fs
        ≡ some (file false (item message)))
receive_notice-BringsNothing_example =
    receive_notice-BringsNothing base queue alice alice_here true received_wake message_file
      (file false (item message)) host (pos 0) notice_id notified lock_keeps refl wake-IsOver
      (bob-Leaves, (bob-Leaves, tt)) all-IsKept
