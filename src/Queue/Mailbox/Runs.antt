-- ===== src/Queue/Mailbox/Runs.antt =====
-- Sequences of calls of Push, Take and Ack (queue.go) against what a mailbox promises.
use agentqueue.Prelude.{
  ap, sym, All, ℕ, ◌^◌, Text, leb, FilePath, List, [], ◌∷◌, Option, none, some, if◌then◌else◌, ◌≡◌,
  ◌∙◌, refl, drop, take, length, Bool-cases, inl, inr,
}
use agentqueue.Data.{Target, Item, Result, ok}
use agentqueue.Item.{new_id}
use agentqueue.Fs.Laws.{NoSlash}
use agentqueue.Io.{World, read_random, now}
use agentqueue.Queue.{target_dir, store, push, take_id, ack, truncate_to}
use agentqueue.Config.{Queue}
use agentqueue.Queue.Quiet.{IsQuiet, Ready, with_fs, bind_ok, ensure_dirs-Ready}
use agentqueue.Queue.Mailbox.{Mail, take_item, ack_item, put_item}
use agentqueue.Queue.Mailbox.Holds.{Holds}
use agentqueue.Queue.Mailbox.Refines.{take_refines, ack_refines}
use agentqueue.Queue.Mailbox.Push.{new_id-NoSlash, store_refines}

-- What `rand.Read` gives of the random bytes, and what it leaves.
abbrev pub drawn : List ℕ → Option (List ℕ) × List ℕ
drawn random =
    if leb 6 (length random) then (some (take 6 random), drop 6 random) else (none, random)

-- The item that `Push` makes.
abbrev pub made : Queue → Target → ℕ → Text → List (Text × Text) → Option (List ℕ) → Item
made q t time text meta random = record {
  id = new_id time random;
  target = t;
  text = text;
  meta = meta;
  created_at = truncate_to (10 ^ 6) (q.now time);
}

pub data Call : Type 0 where
  pushes : Text → List (Text × Text) → Call
  takes : Text → Call
  acks : Text → Call

pub data Reply : Type 0 where
  gave : Result Item → Reply
  closed : Result (Unit {0}) → Reply

-- A mailbox and the random bytes to come.
pub record Box : Type 0 where
  pub mail : Mail
  pub random : List ℕ

module _ (q : Queue) (t : Target) where
  -- The code's answer to a call.
  unfoldable pub perform : Call → World → Reply × World
  perform (pushes text meta) w = let (r, w') = push q t text meta w in (gave r, w')
  perform (takes id) w = let (r, w') = take_id q t id w in (gave r, w')
  perform (acks id) w = let (r, w') = ack q t id w in (closed r, w')

  -- What a mailbox answers.
  unfoldable pub promise : ℕ → Call → Box → Reply × Box
  promise time (pushes text meta) b =
      let (bytes, rest) = drawn b.random in
      let (r, mail) = put_item (made q t time text meta bytes) b.mail in
      (gave r, record { mail = mail; random = rest })
  promise time (takes id) b =
      let (r, mail) = take_item id b.mail in (gave r, record b { mail = mail })
  promise time (acks id) b =
      let (r, mail) = ack_item id b.mail in (closed r, record b { mail = mail })

  unfoldable pub perform_all : List Call → World → List Reply × World
  perform_all [] w = ([], w)
  perform_all (c ∷ cs) w =
      let (r, w') = perform c w in let (rs, w'') = perform_all cs w' in (r ∷ rs, w'')

  unfoldable pub promise_all : ℕ → List Call → Box → List Reply × Box
  promise_all time [] b = ([], b)
  promise_all time (c ∷ cs) b =
      let (r, b') = promise time c b in let (rs, b'') = promise_all time cs b' in (r ∷ rs, b'')

-- The files of a quiet world are those of the mailbox, and its time is the given one.
abbrev pub Keeps : FilePath → ℕ → World → Box → Type 0
Keeps base time w b = Holds base w.fs b.mail × (w.random ≡ b.random) × (w.time ≡ time) × IsQuiet w

-- The ids of a call have no slash.
abbrev pub PlainId : Call → Type 0
PlainId (pushes text meta) = Unit
PlainId (takes id) = NoSlash id
PlainId (acks id) = NoSlash id

read_drawn :
    (w : World)
    → read_random 6 w ≡ (ok (drawn w.random).0, record w { random = (drawn w.random).1 })
unfolding read_random
read_drawn w = elim (Bool-cases (leb 6 (length w.random))) [ inl e ↦ rw e refl | inr e ↦ rw e refl ]

module _ (base : FilePath) (q : Queue) (t : Target) (located : target_dir q t ≡ ok base) where
  push_stores :
      (text : Text) (meta : List (Text × Text)) (w : World)
      → IsQuiet w
      → Ready base w.fs
      → push q t text meta w
        ≡ store base
            (made q t w.time text meta (drawn w.random).0)
            (record w { random = (drawn w.random).1 })
  unfolding push now
  push_stores text meta w quiet r =
      let w' : World = record w { random = (drawn w.random).1 } in
      bind_ok _ _ w w base (ensure_dirs-Ready q t base w located quiet r)
      ∙ (bind_ok _ _ w w' (drawn w.random).0 (read_drawn w) ∙ bind_ok _ _ w' w' w.time refl)

  -- The world behind a call that agrees with what the mailbox promises.
  agrees-Keeps :
      (w w' : World) (mb : Mail) (random : List ℕ) (time : ℕ)
      → w.random ≡ random
      → w.time ≡ time
      → IsQuiet w
      → Holds base w'.fs mb
      → w' ≡ with_fs w w'.fs
      → Keeps base time w' (record { mail = mb; random = random })
  agrees-Keeps w w' mb random time r e quiet h same =
      (h, ap World.random same ∙ r, ap World.time same ∙ e, ap World.schedule same ∙ quiet)

  perform-Keeps :
      (c : Call) (w : World) (b : Box) (time : ℕ)
      → PlainId c
      → Keeps base time w b
      → ((perform q t c w).0 ≡ (promise q t time c b).0)
        × Keeps base time (perform q t c w).1 (promise q t time c b).1
  unfolding perform promise
  perform-Keeps (takes id) w b time plain (h, r, e, quiet) =
      let (same, h', rest) = take_refines base q t w b.mail located quiet h id plain in
      (ap gave same, agrees-Keeps w _ _ b.random time r e quiet h' rest)
  perform-Keeps (acks id) w b time plain (h, r, e, quiet) =
      let (same, h', rest) = ack_refines base q t w b.mail located quiet h id plain in
      (ap closed same, agrees-Keeps w _ _ b.random time r e quiet h' rest)
  perform-Keeps (pushes text meta) w b time plain (h, r, e, quiet) =
      let it = made q t w.time text meta (drawn w.random).0 in
      let w' : World = record w { random = (drawn w.random).1 } in
      let (same, h', rest) =
        store_refines base w' b.mail quiet h it (new_id-NoSlash w.time (drawn w.random).0) in
      rw (push_stores text meta w quiet h.ready, sym r, sym e)
        (ap gave same, agrees-Keeps w' _ _ (drawn w.random).1 w.time refl refl quiet h' rest)

  -- Over any sequence of calls of `Push`, `Take` and `Ack` whose ids have no slash, in a mailbox that
  -- has its directories, the answers are the ones that the mailbox promises, and the files that they
  -- leave are those of the mailbox: if nobody else acts, no call fails and the clock stands still.
  pub perform_all-refines :
      (cs : List Call) (w : World) (b : Box) (time : ℕ)
      → All PlainId cs
      → Keeps base time w b
      → ((perform_all q t cs w).0 ≡ (promise_all q t time cs b).0)
        × Keeps base time (perform_all q t cs w).1 (promise_all q t time cs b).1
  unfolding perform_all promise_all
  perform_all-refines [] w b time plain h = (refl, h)
  perform_all-refines (c ∷ cs) w b time (p, ps) h =
      let (same, h') = perform-Keeps c w b time p h in
      let (rest, kept) =
        perform_all-refines cs (perform q t c w).1 (promise q t time c b).1 time ps h' in
      (cc (same, rest), kept)
