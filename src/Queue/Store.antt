-- ===== src/Queue/Store.antt =====
-- Publication of an item is atomic: `pending/` gets the whole item or nothing.
use mathlib.Core.List.{foldl}
use agentqueue.Prelude.{
  Text, codes, FilePath, path_eq, path_eq_iff, List, [], ◌∷◌, ◌++◌, true, false, ◌≡◌, refl, ap,
  arith, All, Bool-cases, inl, inr, Option, none, some,
}
use agentqueue.Data.{pending, Result, ok, err, Error, Item}
use agentqueue.Fs
use agentqueue.Fs.{
  Fs, Node, dir, file, item, partial, Content, lookup, insert, without, rename_node, join,
}
use agentqueue.Fs.Laws.{lookup-insert, lookup-without, NoSlash}
use agentqueue.Io.{Slot, World, Move, move, rename, remove, write_file}
use agentqueue.Io.Rules.{
  Triple, Stable, syscall_rule, pure_rule, raise_rule, bind_rule, attempt_rule,
}
use agentqueue.Queue.{tmp_dir_name, publish, published, store}
use agentqueue.Queue.Paths.{item_path_lem, tmp_path_lem}
use agentqueue.Queue.Once.{Absent, file_of, second_code}

-- The other processes leave what is at the path.
abbrev pub LeavesAlone : FilePath → Slot → Type 0
LeavesAlone p slot =
    All (λ mv. (v : Option Node) (fs : Fs) → lookup p fs ≡ v → lookup p (move fs mv) ≡ v)
      slot.others

-- The temporary file of an id.
abbrev pub tmp_of : FilePath → Text → FilePath
tmp_of base id = (id ++ codes ".json.tmp") ∷ tmp_dir_name ∷ base

module _ (base : FilePath) (it : Item) (plain : NoSlash it.id) where
  abbrev final : FilePath
  final = file_of base pending it.id

  abbrev tmp : FilePath
  tmp = tmp_of base it.id

  abbrev pub Private : Slot → Type 0
  Private slot = LeavesAlone final slot × LeavesAlone tmp slot

  -- Before the rename: nothing is published, and the temporary file is whole.
  abbrev Written : Fs → Type 0
  Written fs = Absent final fs × (lookup tmp fs ≡ some (file false (item it)))

  -- The outcome: all of the item, or nothing.
  abbrev pub Atomic : Result Item → Fs → Type 0
  Atomic (ok x) fs = (x ≡ it) × (lookup final fs ≡ some (file false (item it)))
  Atomic (err e) fs = Absent final fs

  Absent-stable : Stable Private (Absent final)
  Absent-stable slot q fs h = kept slot.others fs q.0 h
    where
      kept :
          (mvs : List Move) (fs : Fs)
          → All
              (λ mv.
                (v : Option Node) (fs : Fs) → lookup final fs ≡ v → lookup final (move fs mv) ≡ v)
              mvs
          → Absent final fs
          → Absent final (foldl move fs mvs)
      kept [] fs k h = h
      kept (mv ∷ mvs) fs (k, ks) h = kept mvs (move fs mv) ks (k none fs h)

  Written-stable : Stable Private Written
  Written-stable slot q fs h = (Absent-stable slot q fs h.0, kept slot.others fs q.1 h.1)
    where
      kept :
          (mvs : List Move) (fs : Fs)
          → All
              (λ mv. (v : Option Node) (fs : Fs) → lookup tmp fs ≡ v → lookup tmp (move fs mv) ≡ v)
              mvs
          → lookup tmp fs ≡ some (file false (item it))
          → lookup tmp (foldl move fs mvs) ≡ some (file false (item it))
      kept [] fs k h = h
      kept (mv ∷ mvs) fs (k, ks) h = kept mvs (move fs mv) ks (k (some (file false (item it))) fs h)

  tmp_ne : path_eq tmp final ≡ false
  tmp_ne = elim (Bool-cases (path_eq tmp final)) [
    | inl e ↦ absurd (omega (arith, ap second_code ((path_eq_iff tmp final).0 e)))
    | inr e ↦ e
  ]

  put_keeps : (v : Node) (fs : Fs) → Absent final fs → Absent final (Fs.put tmp v fs).1
  unfolding Fs.put
  put_keeps v fs h = ground (arith, lookup-insert tmp final v fs, tmp_ne)

  put_writes :
      (v : Node) (fs : Fs) → (Fs.put tmp v fs).0 ≡ ok tt → lookup tmp (Fs.put tmp v fs).1 ≡ some v
  unfolding Fs.put
  put_writes v fs h = ground (arith, lookup-insert tmp tmp v fs, path_eq_iff tmp tmp)

  -- Behind the write.
  abbrev AfterWrite : Result (Unit {0}) → Fs → Type 0
  AfterWrite (ok _) fs = Written fs
  AfterWrite (err e) fs = Absent final fs

  write_rule : Triple Private (Absent final) AfterWrite (write_file tmp (file false (item it)))
  unfolding write_file
  write_rule =
      syscall_rule _ _ Absent-stable (λ fs h. put_keeps (file true partial) fs h)
        λ fs h. after _ _ (put_keeps _ fs h) (put_writes _ fs)
    where
      after :
          (r : Result (Unit {0})) (fs : Fs)
          → Absent final fs
          → (r ≡ ok tt → lookup tmp fs ≡ some (file false (item it)))
          → AfterWrite r fs
      after (ok _) fs h k = (h, k refl)
      after (err e) fs h k = h

  -- Behind the rename.
  abbrev AfterRename : Result (Unit {0}) → Fs → Type 0
  AfterRename (ok _) fs = lookup final fs ≡ some (file false (item it))
  AfterRename (err e) fs = Absent final fs

  rename_puts :
      (fs : Fs)
      → lookup tmp fs ≡ some (file false (item it))
      → (Fs.rename tmp final fs).0 ≡ ok tt
      → lookup final (Fs.rename tmp final fs).1 ≡ some (file false (item it))
  unfolding Fs.rename
  rename_puts fs h =
      rw (h, tmp_ne)
        (ground (
          arith,
          lookup-insert final final (file false (item it)) (without tmp fs),
          path_eq_iff final final,
        ))

  rename_fails :
      (fs : Fs)
      → lookup tmp fs ≡ some (file false (item it))
      → (e : Error) → (Fs.rename tmp final fs).0 ≡ err e
      → (Fs.rename tmp final fs).1 ≡ fs
  unfolding Fs.rename
  rename_fails fs h e = rw (h, tmp_ne) (ground arith)

  rename_rule : Triple Private Written AfterRename (rename tmp final)
  unfolding rename
  rename_rule =
      syscall_rule (λ fs. fs) (Fs.rename tmp final) Written-stable (λ fs h. h.0)
        λ fs h. after _ _ fs h.0 (rename_puts fs h.1) (rename_fails fs h.1)
    where
      after :
          (r : Result (Unit {0})) (fs' fs : Fs)
          → Absent final fs
          → (r ≡ ok tt → lookup final fs' ≡ some (file false (item it)))
          → ((e : Error) → r ≡ err e → fs' ≡ fs)
          → AfterRename r fs'
      after (ok _) fs' fs h k l = k refl
      after (err e) fs' fs h k l = rw (l e refl) h

  remove_keeps : (fs : Fs) → Absent final fs → Absent final (Fs.remove tmp fs).1
  unfolding Fs.remove
  remove_keeps fs h = ground (arith, lookup-without tmp final fs)

  published_rule :
      (r : Result (Unit {0})) → Triple Private (AfterRename r) Atomic (published tmp it r)
  unfolding remove
  published_rule (ok _) = pure_rule _ λ fs h. (refl, h)
  published_rule (err e) =
      attempt_rule (λ _ fs. Absent final fs) _ _
        (syscall_rule (λ fs. fs) (Fs.remove tmp) Absent-stable (λ fs h. h) remove_keeps)
        λ r. raise_rule e λ fs h. h

  store_rule : Triple Private (Absent final) Atomic (store base it)
  unfolding store publish
  store_rule =
      rw (tmp_path_lem base it.id plain, item_path_lem base pending it.id plain)
        (bind_rule AfterWrite _ _ write_rule (λ e fs h. h)
          λ _. attempt_rule AfterRename _ _ rename_rule published_rule)

  -- Publishing an item is atomic, if its id has no slash, nothing is at its place in `pending/` before,
  -- and no other process touches that place or the item's temporary file: when it succeeds, the whole
  -- item is in `pending/`, and when it fails, whichever system call failed, nothing is there.
  pub store-Atomic :
      (w : World)
      → All Private w.schedule
      → Absent final w.fs
      → Atomic (store base it w).0 (store base it w).1.fs
  store-Atomic w qs h = (store_rule.at w qs h).1
