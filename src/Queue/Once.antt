-- ===== src/Queue/Once.antt =====
-- Claims of one item (queue.go) among other processes that put no file at its place in `pending/`.
use agentqueue.Prelude.{
  ℕ, Text, codes, FilePath, path_eq, path_eq_iff, ◌∷◌, ◌++◌, Bool, false, ◌≡◌, ◌≢◌, refl, ap, arith,
  All, Bool-cases, inl, inr, Option, none, some,
}
use agentqueue.Data.{
  Target, State, pending, claimed, state_string, Result, ok, err, Item, not_exist,
}
use agentqueue.Fs
use agentqueue.Fs.{Fs, Node, dir, file, lookup, insert, without, rename_node}
use agentqueue.Fs.Laws.{lookup-insert, lookup-without, NoSlash}
use agentqueue.Io.{Slot, World, move, rename, read_file}
use agentqueue.Io.Rules.{
  Triple, Stable, stable_of_moves, syscall_rule, lift_rule, raise_rule, bind_rule, attempt_rule,
  weaken,
}
use agentqueue.Queue.{target_dir, item_path, claim, after_rename, read_item, decode_read}
use agentqueue.Config.{Queue}
use agentqueue.Queue.Paths.{item_path_lem}
use agentqueue.Queue.Frame.{lookup-mkdir_all, ensure_dirs-keeps}

-- There is no file and no directory at the path.
abbrev pub Absent : FilePath → Fs → Type 0
Absent p fs = lookup p fs ≡ none

-- The other processes create nothing at the path.
abbrev pub LeavesAbsent : FilePath → Slot → Type 0
LeavesAbsent p slot = All (λ mv. (fs : Fs) → Absent p fs → Absent p (move fs mv)) slot.others

abbrev pub IsErr {ℓ} : {A : Type ℓ} → Result A → Type 0
IsErr (ok a) = ⊥
IsErr (err e) = Unit

leaves_stable : (p : FilePath) → Stable (LeavesAbsent p) (Absent p)
leaves_stable p slot q fs h = stable_of_moves (Absent p) slot.others fs q h

-- The id's file in a state.
abbrev pub file_of : FilePath → State → Text → FilePath
file_of base st id = (id ++ codes ".json") ∷ state_string st ∷ base

pub rename-Absent :
    (p r : FilePath) (fs : Fs) → Absent p fs → (Fs.rename p r fs ≡ (err not_exist, fs))
rename-Absent p r fs h = unfold Fs.rename in rw h

rename_node_moves :
    (v : Option Node) (p r : FilePath) (fs : Fs)
    → path_eq p r ≡ false
    → (rename_node v p r fs).0 ≡ ok tt
    → Absent p (rename_node v p r fs).1
rename_node_moves none p r fs ne h = cc
rename_node_moves (some dir) p r fs ne h = cc
rename_node_moves (some (file mode content)) p r fs ne h = ground (
  arith,
  lookup-insert r p (file mode content) (without p fs),
  lookup-without p p fs,
  path_eq_iff p p,
  path_eq_iff p r,
  path_eq_iff r p,
)

rename_moves :
    (p r : FilePath) (fs : Fs)
    → path_eq p r ≡ false
    → (Fs.rename p r fs).0 ≡ ok tt
    → Absent p (Fs.rename p r fs).1
unfolding Fs.rename
rename_moves p r fs = rename_node_moves (lookup p fs) p r fs

same_after_read : (r : FilePath) (fs : Fs) → (Fs.read_file r fs).1 ≡ fs
unfolding Fs.read_file
same_after_read r fs = ground arith

read_item_keeps :
    (p r : FilePath) → Triple (LeavesAbsent p) (Absent p) (λ _ fs. Absent p fs) (read_item r)
unfolding read_item read_file
read_item_keeps p r =
    attempt_rule (λ _ fs. Absent p fs) _ _
      (syscall_rule _ _ (leaves_stable p) (λ fs h. h) λ fs h. rw (same_after_read r fs) h) decoded
  where
    decoded :
        (res : Result (Bool × Fs.Content))
        → Triple (LeavesAbsent p) (Absent p) (λ _ fs. Absent p fs) (decode_read res)
    decoded (ok (_, content)) = lift_rule _ λ fs h. h
    decoded (err e) = raise_rule _ λ fs h. h

-- Behind a rename that takes the file away from `p`.
abbrev Taken {ℓ} : {A : Type ℓ} → FilePath → Result A → Fs → Type 0
Taken p (ok _) fs = Absent p fs
Taken p (err e) fs = Unit

rename_takes :
    (p r : FilePath)
    → path_eq p r ≡ false
    → Triple (LeavesAbsent p) (λ fs. Unit {0}) (Taken p) (rename p r)
unfolding rename
rename_takes p r ne =
    syscall_rule (λ fs. fs) (Fs.rename p r) (λ _ _ _ _. tt) (λ fs _. tt)
      λ fs _. taken (Fs.rename p r fs).0 (Fs.rename p r fs).1 (rename_moves p r fs ne)
  where
    taken : (res : Result (Unit {0})) (fs : Fs) → (res ≡ ok tt → Absent p fs) → Taken p res fs
    taken (ok _) fs k = k refl
    taken (err e) fs k = tt

rename_refused :
    (p r : FilePath)
    → Triple (LeavesAbsent p) (Absent p) (λ res fs. Absent p fs × IsErr res) (rename p r)
unfolding rename
rename_refused p r =
    syscall_rule (λ fs. fs) (Fs.rename p r) (leaves_stable p) (λ fs h. (h, tt))
      λ fs h. rw (rename-Absent p r fs h) (h, tt)

Taken-item :
    (p r : FilePath) (res : Result (Unit {0}))
    → Triple (LeavesAbsent p) (Taken p res) (Taken p) (after_rename r res)
unfolding after_rename
Taken-item p r (ok _) = weaken _ _ _ (read_item_keeps p r) (λ fs h. h) λ res fs h. always res fs h
  where
    always : (res : Result Item) (fs : Fs) → Absent p fs → Taken p res fs
    always (ok it) fs h = h
    always (err e) fs h = tt
Taken-item p r (err e) = raise_rule _ λ fs h. tt

refused_item :
    (p r : FilePath) (res : Result (Unit {0}))
    → Triple
        (LeavesAbsent p)
        (λ fs. Absent p fs × IsErr res)
        (λ res' fs. Absent p fs × IsErr res')
        (after_rename r res)
unfolding after_rename
refused_item p r (ok _) = record { at = λ w qs h. absurd h.1 }
refused_item p r (err e) = raise_rule _ λ fs h. (h.0, tt)

-- The first character of the second segment.
abbrev pub second_code : FilePath → ℕ
second_code (a ∷ (c ∷ s) ∷ p) = c
second_code _ = 0

file_of_ne :
    (base : FilePath) (id : Text)
    → path_eq (file_of base pending id) (file_of base claimed id) ≡ false
file_of_ne base id =
    elim (Bool-cases (path_eq (file_of base pending id) (file_of base claimed id))) [
      | inl e ↦ absurd (
          omega (
            arith,
            ap second_code ((path_eq_iff (file_of base pending id) (file_of base claimed id)).0 e),
          ))
      | inr e ↦ e
    ]

module _ (q : Queue) (t : Target) (base : FilePath) (id : Text) (target : target_dir q t ≡ ok base)
    (plain : NoSlash id) where
  abbrev from : FilePath
  from = file_of base pending id

  renamed_paths :
      (b : FilePath) (S : Result (Unit {0}) → Fs → Type 0) (P : Fs → Type 0)
      → b ≡ base
      → Triple (LeavesAbsent from) P S (rename from (file_of base claimed id))
      → Triple (LeavesAbsent from) P S (rename (item_path b pending id) (item_path b claimed id))
  renamed_paths b S P e k =
      rw (e, item_path_lem base pending id plain, item_path_lem base claimed id plain) k

  -- A claim that succeeds leaves nothing in `pending/`.
  claim_takes : Triple (LeavesAbsent from) (λ fs. Unit {0}) (Taken from) (claim q t id)
  unfolding claim
  claim_takes =
      bind_rule (λ res fs. Unit {0} × ((b : FilePath) → res ≡ ok b → b ≡ base)) _ _
        (ensure_dirs-keeps (λ fs. Unit {0}) (λ _ _ _ _. tt) base (λ _ _ _ _. tt) q t target)
        (λ e fs h. tt)
        λ b.
          attempt_rule (Taken from) _ _
            (record {
              at = λ w qs h.
                  (renamed_paths b (Taken from) (λ fs. Unit {0}) (h.1 b refl)
                      (rename_takes from _ (file_of_ne base id))).at
                    w qs tt;
            })
            (Taken-item from (item_path b claimed id))

  -- No claim of an id succeeds that is not pending.
  claim-Absent :
      Triple (LeavesAbsent from) (Absent from) (λ r fs. Absent from fs × IsErr r) (claim q t id)
  unfolding claim
  claim-Absent =
      bind_rule (λ res fs. Absent from fs × ((b : FilePath) → res ≡ ok b → b ≡ base)) _ _
        (ensure_dirs-keeps (Absent from) (leaves_stable from) base
          (λ sub fs s k. lookup-mkdir_all (sub ∷ base) from fs none (omega arith) k) q t target)
        (λ e fs h. (h.0, tt))
        λ b.
          attempt_rule (λ res fs. Absent from fs × IsErr res) _ _
            (record {
              at = λ w qs h.
                  (renamed_paths b _ (Absent from) (h.1 b refl) (rename_refused from _)).at w qs
                    h.0;
            })
            (refused_item from (item_path b claimed id))

  ok_not_err : {A : Type 0} (r : Result A) (a : A) → r ≡ ok a → IsErr r → ⊥
  ok_not_err (ok b) a e h = h
  ok_not_err (err x) a e h = cc

  -- Of two claims of an item, the second fails if the first succeeded: for a target with a directory
  -- and an id without a slash, and if no other process puts a file at the id's place in `pending/`.
  -- The others may do anything else between the system calls, any of which may fail.
  pub claim_once :
      (w : World) (it it' : Item)
      → All (LeavesAbsent from) w.schedule
      → (claim q t id w).0 ≡ ok it
      → (claim q t id (claim q t id w).1).0 ≢ ok it'
  claim_once w it it' qs first second =
      let (qs', gone) = claim_takes.at w qs tt in
      let (_, (_, refused)) =
        claim-Absent.at (claim q t id w).1 qs' (taken_ok (claim q t id w).0 first gone) in
      ok_not_err _ it' second refused
    where
      taken_ok :
          (r : Result Item)
          → r ≡ ok it
          → Taken from r (claim q t id w).1.fs
          → Absent from (claim q t id w).1.fs
      taken_ok (ok a) e h = h
      taken_ok (err x) e h = cc
