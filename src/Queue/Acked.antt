-- ===== src/Queue/Acked.antt =====
-- What `Ack` of queue.go leaves behind.
use agentqueue.Prelude.{
  Text, FilePath, path_eq_iff, List, [], ◌∷◌, ◌≡◌, ◌≢◌, refl, arith, Option, none, some, trim,
  is_empty,
}
use agentqueue.Data.{Target, State, pending, claimed, done, Result, ok, err, is_not_exist}
use agentqueue.Fs
use agentqueue.Fs.{Fs, Node, dir, file, lookup, insert, without, rename_node}
use agentqueue.Fs.Laws.{lookup-insert, NoSlash}
use agentqueue.Io.{World, rename}
use agentqueue.Io.Rules.{
  Anything, Triple, syscall_rule, pure_rule, raise_rule, bind_rule, attempt_rule, if_rule, of_any,
}
use agentqueue.Queue.{target_dir, ack, ack_from, acked}
use agentqueue.Config.{Queue}
use agentqueue.Queue.Paths.{item_path_lem}
use agentqueue.Queue.Once.{file_of}
use agentqueue.Queue.Frame.{ensure_dirs-keeps}

-- There is something at the path.
abbrev pub Present : FilePath → Fs → Type 0
Present p fs = lookup p fs ≢ none

rename_node_brings :
    (v : Option Node) (p r : FilePath) (fs : Fs)
    → lookup p fs ≡ v
    → (rename_node v p r fs).0 ≡ ok tt
    → Present r (rename_node v p r fs).1
rename_node_brings none p r fs e h = cc
rename_node_brings (some dir) p r fs e h = cc
rename_node_brings (some (file mode content)) p r fs e h = ground (
  arith,
  lookup-insert r r (file mode content) (without p fs),
  path_eq_iff r r,
  path_eq_iff p r,
  e,
)

-- An error, or something at the path.
abbrev Brought : FilePath → Result (Unit {0}) → Fs → Type 0
Brought p (ok _) fs = Present p fs
Brought p (err e) fs = Unit

rename_brings : (p r : FilePath) → Triple Anything (λ _. Unit {0}) (Brought r) (rename p r)
unfolding rename
rename_brings p r =
    syscall_rule (λ fs. fs) (Fs.rename p r) (λ _ _ _ _. tt) (λ fs _. tt)
      λ fs _.
        brought (Fs.rename p r fs).0 (Fs.rename p r fs).1
          (unfold Fs.rename in rename_node_brings (lookup p fs) p r fs refl)
  where
    brought : (res : Result (Unit {0})) (fs : Fs) → (res ≡ ok tt → Present r fs) → Brought r res fs
    brought (ok _) fs k = k refl
    brought (err e) fs k = tt

module _ (base : FilePath) (id : Text) (plain : NoSlash id) where
  ack_from_rule :
      (sts : List State)
      → Triple Anything (λ _. Unit {0}) (Brought (file_of base done id)) (ack_from base id sts)
  unfolding ack_from
  ack_from_rule [] = raise_rule _ λ fs _. tt
  ack_from_rule (st ∷ sts) =
      attempt_rule (Brought (file_of base done id)) _ _
        (rw (item_path_lem base done id plain) (rename_brings _ (file_of base done id)))
        λ r. after r (ack_from_rule sts)
    where
      after :
          (r : Result (Unit {0}))
          → Triple Anything (λ _. Unit {0}) (Brought (file_of base done id)) (ack_from base id sts)
          → Triple Anything
              (Brought (file_of base done id) r)
              (Brought (file_of base done id))
              (acked (ack_from base id sts) r)
      after (ok _) k = pure_rule _ λ fs h. h
      after (err e) k = if_rule (is_not_exist e) _ _ (λ _. k) λ _. raise_rule _ λ fs _. tt

  ack_rule :
      (q : Queue) (t : Target)
      → target_dir q t ≡ ok base
      → Triple Anything (λ _. Unit {0}) (Brought (file_of base done id)) (ack q t id)
  unfolding ack
  ack_rule q t target =
      if_rule (is_empty (trim id)) _ _ (λ _. raise_rule _ λ fs _. tt)
        λ _.
          bind_rule (λ res fs. Unit {0} × ((b : FilePath) → res ≡ ok b → b ≡ base)) _ _
            (ensure_dirs-keeps (λ fs. Unit {0}) (λ _ _ _ _. tt) base (λ _ _ _ _. tt) q t target)
            (λ e fs h. tt)
            λ b. record {
              at = λ w qs h.
                  let same : b ≡ base = h.1 b refl in
                  let k : Triple Anything (λ _. Unit {0}) (Brought (file_of base done id))
                      (ack_from b id (claimed ∷ pending ∷ [])) =
                    rw same (ack_from_rule (claimed ∷ pending ∷ [])) in
                  k.at w qs tt;
            }

  -- An acknowledgement that succeeds leaves the item's file in `done/`, whatever the other processes
  -- do before and in between, for a target with a directory and an id without a slash.
  pub ack_done :
      (q : Queue) (t : Target) (w : World)
      → target_dir q t ≡ ok base
      → (ack q t id w).0 ≡ ok tt
      → Present (file_of base done id) (ack q t id w).1.fs
  ack_done q t w target e = present _ e (of_any (ack q t id) w (ack_rule q t target))
    where
      present :
          (r : Result (Unit {0}))
          → r ≡ ok tt
          → Brought (file_of base done id) r (ack q t id w).1.fs
          → Present (file_of base done id) (ack q t id w).1.fs
      present (ok _) e k = k
      present (err x) e k = cc
