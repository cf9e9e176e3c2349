-- ===== src/Queue/Kept.antt =====
-- What the reads of queue.go keep, and what a scan finds.
pub mod Operations
use agentqueue.Prelude.{
  ℕ, zero, suc, ◌+◌, Text, codes, FilePath, trim, is_empty, List, [], ◌∷◌, ◌++◌, Bool, Option, none,
  some, if◌then◌else◌, ◌≡◌, refl, arith, All, All-map, inl, inr, true, false, Bool-cases,
  Option-cases, subst, cut_suffix,
}
use agentqueue.Prelude.Order.{sort_by, All-sort_by, text_le}
use agentqueue.Data.{
  Target, State, pending, claimed, done, state_string, Item, Error, is_not_exist, is_not_found,
  empty, Result, ok, err,
}
use agentqueue.Fs
use agentqueue.Fs.{Fs, children, entry_le, dir_at, lookup}
use agentqueue.Fs.Laws.{NoSlash, IsSegment, join_segment}
use agentqueue.Io.{Io, Slot, rename, read_file, read_dir, attempt, pure, raise, lift, ◌>>=◌}
use agentqueue.Io.Rules.{
  Triple, Stable, syscall_rule, pure_rule, lift_rule, raise_rule, bind_rule, attempt_rule, if_rule,
  weaken,
}
use agentqueue.Config.{Queue}
use agentqueue.Queue.{
  target_dir, state_dir, item_path, claim, after_rename, read_item, decode_read, take_id, ack,
  ack_from, acked, item_ids, ids_of, listed, take_first, take_next, took, unless_taken, list,
  read_all,
}
use agentqueue.Queue.Paths.{item_path_lem, state_IsSegment}
use agentqueue.Queue.Frame.{in_target_dir}
use agentqueue.Queue.Once.{file_of}
use agentqueue.Queue.Mailbox.Listed.{
  AllPlain, IsThere, entries-IsThere, children-IsThere, ids-IsThere, All-prefix, append-cut_suffix,
}

-- The moves of an item by `claim` and `Ack`.
abbrev pub IsForward : State → State → Type 0
IsForward pending claimed = Unit
IsForward pending done = Unit
IsForward claimed done = Unit
IsForward _ _ = ⊥

read_file_same : (r : FilePath) (fs : Fs) → (Fs.read_file r fs).1 ≡ fs
unfolding Fs.read_file
read_file_same r fs = ground arith

pub read_dir_same : (r : FilePath) (fs : Fs) → (Fs.read_dir r fs).1 ≡ fs
unfolding Fs.read_dir
read_dir_same r fs = ground arith

-- The ids that were listed have no slash.
abbrev pub PlainIds : Result (List Text) → Type 0
PlainIds (ok ids) = All NoSlash ids
PlainIds (err e) = Unit

-- The names of a listing have no slash.
abbrev PlainNames : Result (List (Text × Bool)) → Type 0
PlainNames (ok entries) = All (λ e. NoSlash e.0) entries
PlainNames (err e) = Unit

module _ {Q : Slot → Type 0} (P : Fs → Type 0) (stable : Stable Q P) where
  -- `readItem` changes nothing.
  pub read_item-keeps : (r : FilePath) → Triple Q P (λ _ fs. P fs) (read_item r)
  unfolding read_item read_file
  read_item-keeps r =
      attempt_rule (λ _ fs. P fs) _ _
        (syscall_rule _ _ stable (λ fs h. h) λ fs h. rw (read_file_same r fs) h) decoded
    where
      decoded : (res : Result (Bool × Fs.Content)) → Triple Q P (λ _ fs. P fs) (decode_read res)
      decoded (ok (_, content)) = lift_rule _ λ fs h. h
      decoded (err e) = raise_rule _ λ fs h. h

  pub read_all-keeps :
      (dir : FilePath) (ids : List Text) → Triple Q P (λ _ fs. P fs) (read_all dir ids)
  unfolding read_all
  read_all-keeps dir [] = pure_rule [] λ fs h. h
  read_all-keeps dir (id ∷ ids) =
      attempt_rule (λ _ fs. P fs) _ _ (read_item-keeps _)
        λ r.
          bind_rule (λ _ fs. P fs) _ _ (read_all-keeps dir ids) (λ e fs h. h)
            λ items. pure_rule _ λ fs h. h

pub children_plain : (p : FilePath) (fs : Fs) → AllPlain fs → All (λ e. NoSlash e.0) (children p fs)
children_plain p fs h = All-map _ (λ e k. k.1.0) (children-IsThere fs p fs (entries-IsThere fs h))

read_dir_plain : (p : FilePath) (fs : Fs) → AllPlain fs → PlainNames (Fs.read_dir p fs).0
unfolding Fs.read_dir
read_dir_plain p fs h = elim (Bool-cases (dir_at p fs)) [
  | inl e ↦ rw e (All-sort_by entry_le _ (children p fs) (children_plain p fs h))
  | inr e ↦ rw e (elim (Option-cases (lookup p fs)) [ inl k ↦ rw k tt | inr (v, k) ↦ rw k tt ])
]

pub names_plain :
    (entries : List (Text × Bool)) → All (λ e. NoSlash e.0) entries → All NoSlash (ids_of entries)
unfolding ids_of
names_plain [] h = tt
names_plain ((n, true) ∷ entries) (h, hs) = names_plain entries hs
names_plain ((n, false) ∷ entries) (h, hs) = elim (Option-cases (cut_suffix n (codes ".json"))) [
  | inl k ↦ rw k (names_plain entries hs)
  | inr (id, k) ↦ rw k (
    All-prefix id (codes ".json") (subst NoSlash (append-cut_suffix n (codes ".json") id k) h),
    names_plain entries hs,
  )
]

module _ {Q : Slot → Type 0} (P : Fs → Type 0) (stable : Stable Q P)
    (plain_of : (fs : Fs) → P fs → AllPlain fs) where
  -- The ids that a scan finds have no slash.
  pub item_ids-keeps :
      (q : Queue) (t : Target) (st : State)
      → Triple Q P (λ r fs. P fs × PlainIds r) (item_ids q t st)
  unfolding item_ids read_dir
  item_ids-keeps q t st =
      bind_rule (λ _ fs. P fs) _ _ (lift_rule _ λ fs h. h) (λ e fs h. (h, tt))
        λ dir.
          attempt_rule (λ r fs. P fs × PlainNames r) _ _
            (syscall_rule _ _ stable (λ fs h. (h, tt))
              λ fs h. (rw (read_dir_same dir fs) h, read_dir_plain dir fs (plain_of fs h)))
            found
    where
      found :
          (r : Result (List (Text × Bool)))
          → Triple Q (λ fs. P fs × PlainNames r) (λ r fs. P fs × PlainIds r) (listed r)
      found (ok entries) =
          pure_rule _
            λ fs (h, n). (h, All-sort_by text_le _ (ids_of entries) (names_plain entries n))
      found (err e) =
          if_rule (is_not_exist e) _ _ (λ _. pure_rule [] λ fs h. (h.0, tt))
            λ _. raise_rule e λ fs h. (h.0, tt)
