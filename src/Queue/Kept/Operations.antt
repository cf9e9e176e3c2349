-- ===== src/Queue/Kept/Operations.antt =====
-- What the operations of queue.go on items keep: whatever making the target's directories and moving
-- an item forward keep.
use agentqueue.Prelude.{
  ℕ, zero, suc, Text, FilePath, trim, is_empty, List, [], ◌∷◌, Option, none, some, if◌then◌else◌,
  ◌≡◌, All,
}
use agentqueue.Data.{
  Target, State, pending, claimed, done, Item, is_not_exist, is_not_found, empty, Result, ok, err,
}
use agentqueue.Fs
use agentqueue.Fs.{Fs, children, entry_le, dir_at, lookup}
use agentqueue.Fs.Laws.{NoSlash, IsSegment}
use agentqueue.Io.{Slot, rename, raise, ◌>>=◌}
use agentqueue.Io.Rules.{
  Triple, Stable, syscall_rule, pure_rule, lift_rule, raise_rule, bind_rule, attempt_rule, if_rule,
  weaken,
}
use agentqueue.Config.{Queue}
use agentqueue.Queue.{
  target_dir, item_path, claim, after_rename, take_id, ack, ack_from, acked, take_first, take_next,
  took, unless_taken, list,
}
use agentqueue.Queue.Paths.{item_path_lem}
use agentqueue.Queue.Frame.{in_target_dir}
use agentqueue.Queue.Once.{file_of}
use agentqueue.Queue.Mailbox.Listed.{AllPlain}
use agentqueue.Queue.Kept.{IsForward, PlainIds, read_item-keeps, read_all-keeps, item_ids-keeps}

-- A claim keeps what making the directories and its own rename keep.
pub claim_keeps :
    {Q : Slot → Type 0} (P : Fs → Type 0) (stable : Stable Q P) (base : FilePath)
    (made : (sub : Text) (fs : Fs) → IsSegment sub → P fs → P (Fs.mkdir_all (sub ∷ base) fs).1)
    (q : Queue) (t : Target) (located : target_dir q t ≡ ok base) (id : Text)
    → NoSlash id
    → ((fs : Fs) → P fs → P (Fs.rename (file_of base pending id) (file_of base claimed id) fs).1)
    → Triple Q P (λ _ fs. P fs) (claim q t id)
unfolding claim after_rename rename
claim_keeps {Q} P stable base made q t located id n forward =
    in_target_dir P stable base made q t (λ _ fs. P fs) _ located (λ e fs h. h)
      (attempt_rule (λ _ fs. P fs) _ _
        (rw (item_path_lem base pending id n, item_path_lem base claimed id n)
          (syscall_rule _ _ stable (λ fs h. h) λ fs h. forward fs h))
        moved)
  where
    moved :
        (r : Result (Unit {0}))
        → Triple Q P (λ _ fs. P fs) (after_rename (item_path base claimed id) r)
    moved (ok _) = read_item-keeps P stable _
    moved (err e) = raise_rule _ λ fs h. h

-- What the operations on items keep in a target's directory: `P`, if making the directories and
-- moving an item forward keep it.
module _ {Q : Slot → Type 0} (P : Fs → Type 0) (stable : Stable Q P) (base : FilePath)
    (made : (sub : Text) (fs : Fs) → IsSegment sub → P fs → P (Fs.mkdir_all (sub ∷ base) fs).1)
    (forward : (st st' : State) (id : Text) (fs : Fs)
      → IsForward st st'
      → NoSlash id
      → P fs
      → P (Fs.rename (file_of base st id) (file_of base st' id) fs).1)
    (q : Queue) (t : Target) (located : target_dir q t ≡ ok base) where
  rename-keeps :
      (st st' : State) (id : Text)
      → IsForward st st'
      → NoSlash id
      → Triple Q P (λ _ fs. P fs) (rename (item_path base st id) (item_path base st' id))
  unfolding rename
  rename-keeps st st' id f n =
      rw (item_path_lem base st id n, item_path_lem base st' id n)
        (syscall_rule _ _ stable (λ fs h. h) λ fs h. forward st st' id fs f n h)

  pub claim-keeps : (id : Text) → NoSlash id → Triple Q P (λ _ fs. P fs) (claim q t id)
  claim-keeps id n =
      claim_keeps P stable base made q t located id n λ fs h. forward pending claimed id fs tt n h

  pub take_id-keeps : (id : Text) → NoSlash id → Triple Q P (λ _ fs. P fs) (take_id q t id)
  unfolding take_id
  take_id-keeps id n =
      if_rule (is_empty (trim id)) _ _ (λ _. raise_rule _ λ fs h. h) λ _. claim-keeps id n

  ack_from-keeps :
      (id : Text) (sts : List State)
      → NoSlash id
      → All (λ st. IsForward st done) sts
      → Triple Q P (λ _ fs. P fs) (ack_from base id sts)
  unfolding ack_from
  ack_from-keeps id [] n f = raise_rule _ λ fs h. h
  ack_from-keeps id (st ∷ sts) n (f, fs) =
      attempt_rule (λ _ fs. P fs) _ _ (rename-keeps st done id f n)
        λ r. after r (ack_from-keeps id sts n fs)
    where
      after :
          (r : Result (Unit {0}))
          → Triple Q P (λ _ fs. P fs) (ack_from base id sts)
          → Triple Q P (λ _ fs. P fs) (acked (ack_from base id sts) r)
      after (ok _) k = pure_rule _ λ fs h. h
      after (err e) k = if_rule (is_not_exist e) _ _ (λ _. k) λ _. raise_rule _ λ fs h. h

  pub ack-keeps : (id : Text) → NoSlash id → Triple Q P (λ _ fs. P fs) (ack q t id)
  unfolding ack
  ack-keeps id n =
      if_rule (is_empty (trim id)) _ _ (λ _. raise_rule _ λ fs h. h)
        λ _.
          in_target_dir P stable base made q t (λ _ fs. P fs) _ located (λ e fs h. h)
            (ack_from-keeps id (claimed ∷ pending ∷ []) n (tt, (tt, tt)))

  pub take_first-keeps :
      (ids : List Text) → All NoSlash ids → Triple Q P (λ _ fs. P fs) (take_first q t ids)
  unfolding take_first
  take_first-keeps [] n = pure_rule none λ fs h. h
  take_first-keeps (id ∷ ids) (n, ns) =
      attempt_rule (λ _ fs. P fs) _ _ (claim-keeps id n) λ r. after r (take_first-keeps ids ns)
    where
      after :
          (r : Result Item)
          → Triple Q P (λ _ fs. P fs) (take_first q t ids)
          → Triple Q P (λ _ fs. P fs) (took (take_first q t ids) r)
      after (ok it) k = pure_rule _ λ fs h. h
      after (err e) k = if_rule (is_not_found e) _ _ (λ _. k) λ _. raise_rule _ λ fs h. h

  module _ (plain_of : (fs : Fs) → P fs → AllPlain fs) where
    pub take_next-keeps : (fuel : ℕ) → Triple Q P (λ _ fs. P fs) (take_next fuel q t)
    unfolding take_next
    take_next-keeps zero = pure_rule none λ fs h. h
    take_next-keeps (suc fuel) =
        bind_rule (λ r fs. P fs × PlainIds r) _ _ (item_ids-keeps P stable plain_of q t pending)
          (λ e fs h. h.0) λ ids. scanned ids (take_next-keeps fuel)
      where
        rescanned :
            (o : Option Item)
            → Triple Q P (λ _ fs. P fs) (take_next fuel q t)
            → Triple Q P (λ _ fs. P fs) (unless_taken (take_next fuel q t) o)
        rescanned none k = k
        rescanned (some it) k = pure_rule _ λ fs h. h

        scanned :
            (ids : List Text)
            → Triple Q P (λ _ fs. P fs) (take_next fuel q t)
            → Triple Q
                (λ fs. P fs × PlainIds (ok ids))
                (λ _ fs. P fs)
                (if is_empty ids
                  then raise empty
                  else take_first q t ids >>= unless_taken (take_next fuel q t))
        scanned ids k = record {
          at = λ w qs h.
              let scan : Triple Q P (λ _ fs. P fs)
                  (if is_empty ids
                    then raise empty
                    else take_first q t ids >>= unless_taken (take_next fuel q t)) =
                if_rule (is_empty ids) _ _ (λ _. raise_rule _ λ fs k. k)
                  λ _.
                    bind_rule (λ _ fs. P fs) _ _ (take_first-keeps ids h.1) (λ e fs k. k)
                      λ o. rescanned o k in
              scan.at w qs h.0;
        }

    pub list-keeps : (st : State) → Triple Q P (λ _ fs. P fs) (list q t st)
    unfolding list
    list-keeps st =
        bind_rule (λ _ fs. P fs) _ _ (lift_rule _ λ fs h. h) (λ e fs h. h)
          λ dir.
            bind_rule (λ r fs. P fs × PlainIds r) _ _ (item_ids-keeps P stable plain_of q t st)
              (λ e fs h. h.0)
              λ ids. weaken P _ _ (read_all-keeps P stable dir ids) (λ fs h. h.0) λ r fs h. h
