-- ===== src/Queue/Lasting/Acked.antt =====
-- `Ack` of queue.go among other processes: the item that it has acknowledged.
use agentqueue.Prelude.{Text, FilePath, [], ◌∷◌, Bool, ◌≡◌, All}
use agentqueue.Data.{Target, State, pending, claimed, done, ok}
use agentqueue.Fs.{Fs, Node, Content, file}
use agentqueue.Fs.Laws.{NoSlash}
use agentqueue.Io.{World}
use agentqueue.Config.{Queue}
use agentqueue.Queue.{target_dir, ack}
use agentqueue.Queue.Once.{file_of}
use agentqueue.Queue.Acked.{Present, ack_done}
use agentqueue.Queue.Mailbox.Listed.{AllPlain}
use agentqueue.Queue.Lasting.{IsIn, IsLawful, Lasts}
use agentqueue.Queue.Lasting.Runs.{acks, work, work_all, work_all-Lasts}

-- Of the states that an item can be in, the one whose file is there.
done_there :
    (base : FilePath) (id : Text) (v : Node) (st : State) (fs : Fs)
    → IsIn base id v st fs
    → Present (file_of base done id) fs
    → IsIn base id v done fs
done_there base id v pending fs h p = absurd (p (h done))
done_there base id v claimed fs h p = absurd (p (h done))
done_there base id v done fs h p = h

-- An acknowledgement that succeeds leaves the item in `done/` with the content that it had, and in no
-- other state: for an id without a slash, among other processes that only move the item forward as
-- `claim` and `Ack` do or leave its files alone, and whichever system calls fail.
pub ack-IsIn :
    (q : Queue) (t : Target) (base : FilePath) (id : Text) (mode : Bool) (c : Content) (st : State)
    (w : World)
    → target_dir q t ≡ ok base
    → All NoSlash base
    → NoSlash id
    → All (IsLawful base id) w.schedule
    → AllPlain w.fs
    → IsIn base id (file mode c) st w.fs
    → (ack q t id w).0 ≡ ok tt
    → IsIn base id (file mode c) done (ack q t id w).1.fs
unfolding work work_all
ack-IsIn q t base id mode c st w located plain_base plain lawful names h acked =
    let (st', _, there) : Lasts base id (file mode c) st (ack q t id w).1.fs =
      work_all-Lasts q t base located id mode c plain_base plain st (acks id ∷ []) w (plain, tt)
        lawful names h in
    done_there base id (file mode c) st' (ack q t id w).1.fs there
      (ack_done base id plain q t w located acked)
