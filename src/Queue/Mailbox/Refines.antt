-- ===== src/Queue/Mailbox/Refines.antt =====
-- The operations on items of queue.go against what a mailbox promises.
use agentqueue.Prelude.{
  Text, trim, is_empty, text_eq_iff, FilePath, path_eq, [], ◌∷◌, true, false, Option-cases, none,
  some, ◌≡◌, ◌∙◌, refl, arith, Bool-cases, inl, inr, drop,
}
use agentqueue.Data.{
  Target, State, pending, claimed, done, Item, not_found, not_exist, Result, ok, err,
}
use agentqueue.Fs
use agentqueue.Fs.{Fs, item, file, is_dir, dir_at, lookup, insert, without, rename_node}
use agentqueue.Fs.Laws.{NoSlash}
use agentqueue.Io.{World, rename, read_file, pure, raise, lift}
use agentqueue.Queue.{target_dir, item_path, claim, after_rename, read_item, take_id, ack, ack_from}
use agentqueue.Config.{Queue}
use agentqueue.Queue.Paths.{item_path_lem}
use agentqueue.Queue.Once.{file_of}
use agentqueue.Queue.Quiet.{IsQuiet, with_fs, syscall_quiet, bind_ok, attempt_as, ensure_dirs-Ready}
use agentqueue.Queue.Mailbox.{Mail, state_eq, set, moved, claim_item, take_item, ack_item}
use agentqueue.Queue.Mailbox.Holds.{
  Holds, Holds-insert, Holds-without, item_file, stored_no_dir, state_dir_there, path_eq-file_of,
}

-- A run that gives what the mailbox gives, leaves the files of the mailbox that it leaves, and changes
-- nothing of the world but its files.
abbrev pub Agrees : {A : Type 0} → FilePath → World → Result A × World → Result A × Mail → Type 0
Agrees base w (r, w') (r', mb) = (r ≡ r') × Holds base w'.fs mb × (w' ≡ with_fs w w'.fs)

pub rename_file :
    (p r : FilePath) (it : Item) (fs : Fs)
    → lookup p fs ≡ some (item_file it)
    → path_eq p r ≡ false
    → dir_at (drop 1 r) fs ≡ true
    → is_dir (lookup r fs) ≡ false
    → Fs.rename p r fs ≡ (ok tt, insert r (item_file it) (without p fs))
unfolding Fs.rename
rename_file p r it fs h ne d n = rw (h, ne, d, n) refl

read_file_there :
    (p : FilePath) (it : Item) (fs : Fs)
    → lookup p fs ≡ some (item_file it)
    → Fs.read_file p fs ≡ (ok (false, item it), fs)
unfolding Fs.read_file
read_file_there p it fs h = rw (h, Fs.read_file)

module _ (base : FilePath) (w : World) (mb : Mail) (quiet : IsQuiet w) (h : Holds base w.fs mb)
    (id : Text) (plain : NoSlash id) where
  -- The world behind the rename of an item.
  abbrev renamed : State → State → Item → World
  renamed from to it =
      with_fs w (insert (file_of base to id) (item_file it) (without (file_of base from id) w.fs))

  Holds-renamed :
      (from to : State) (it : Item) → Holds base (renamed from to it).fs (moved from to it id mb)
  unfolding moved
  Holds-renamed from to it = Holds-insert base _ _ (Holds-without base w.fs mb h from id) to id it

  rename_present :
      (from to : State) (it : Item)
      → state_eq from to ≡ false
      → mb from id ≡ some it
      → rename (item_path base from id) (item_path base to id) w ≡ (ok tt, renamed from to it)
  unfolding rename
  rename_present from to it ne e =
      rw (item_path_lem base from id plain, item_path_lem base to id plain)
        (syscall_quiet (λ fs. fs) (Fs.rename (file_of base from id) (file_of base to id)) w quiet
          ∙ rw
              (rename_file (file_of base from id) (file_of base to id) it w.fs
                (h.items from id plain ∙ rw e refl)
                (path_eq-file_of base from to id id ∙ rw ne refl)
                (state_dir_there base w.fs to h.ready)
                (rw (h.items to id plain) (stored_no_dir (mb to id))))
              refl)

  rename_absent :
      (from to : State)
      → mb from id ≡ none
      → rename (item_path base from id) (item_path base to id) w ≡ (err not_exist, w)
  unfolding rename Fs.rename
  rename_absent from to e =
      rw (item_path_lem base from id plain, item_path_lem base to id plain)
        (syscall_quiet (λ fs. fs) (Fs.rename (file_of base from id) (file_of base to id)) w quiet
          ∙ rw (h.items from id plain, e) refl)

  pub read_present :
      (st : State) (it : Item)
      → mb st id ≡ some it
      → read_item (item_path base st id) w ≡ (ok it, w)
  unfolding read_item read_file lift
  read_present st it e = rw (item_path_lem base st id plain) (
      attempt_as _ _ w w (ok (false, item it)) (
        syscall_quiet (λ fs. fs) (Fs.read_file (file_of base st id)) w quiet
        ∙ rw (read_file_there (file_of base st id) it w.fs (h.items st id plain ∙ rw e refl)) refl))

module _ (base : FilePath) (q : Queue) (t : Target) (w : World) (mb : Mail)
    (located : target_dir q t ≡ ok base) (quiet : IsQuiet w) (h : Holds base w.fs mb) where
  claim_absent :
      (id : Text) → NoSlash id → mb pending id ≡ none → claim q t id w ≡ (err not_found, w)
  unfolding claim after_rename raise
  claim_absent id plain e =
      bind_ok _ _ w w base (ensure_dirs-Ready q t base w located quiet h.ready)
      ∙ attempt_as _ _ w w (err not_exist)
          (rename_absent base w mb quiet h id plain pending claimed e)

  claim_present :
      (id : Text) (plain : NoSlash id) (it : Item)
      → mb pending id ≡ some it
      → claim q t id w ≡ (ok it, renamed base w mb quiet h id plain pending claimed it)
  unfolding claim after_rename moved set
  claim_present id plain it e =
      let w' = renamed base w mb quiet h id plain pending claimed it in
      bind_ok _ _ w w base (ensure_dirs-Ready q t base w located quiet h.ready)
      ∙ (attempt_as _ _ w w' (ok tt)
            (rename_present base w mb quiet h id plain pending claimed it refl e)
          ∙ read_present base w' _ quiet
              (Holds-renamed base w mb quiet h id plain pending claimed it) id plain claimed it
              (ground (arith, text_eq_iff id id)))

  pub claim_refines : (id : Text) → NoSlash id → Agrees base w (claim q t id w) (claim_item id mb)
  unfolding claim_item
  claim_refines id plain = elim (Option-cases (mb pending id)) [
    | inl e ↦ rw (claim_absent id plain e, e, claim_item) (refl, h, refl)
    | inr (it, e) ↦
        rw (claim_present id plain it e, e, claim_item)
          (refl, Holds-renamed base w mb quiet h id plain pending claimed it, refl)
  ]

  pub take_refines : (id : Text) → NoSlash id → Agrees base w (take_id q t id w) (take_item id mb)
  unfolding take_id take_item raise
  take_refines id plain = elim (Bool-cases (is_empty (trim id))) [
    | inl e ↦ rw e (refl, h, refl)
    | inr e ↦ rw e (claim_refines id plain)
  ]

  ack_absent :
      (id : Text)
      → NoSlash id
      → mb claimed id ≡ none
      → mb pending id ≡ none
      → ack_from base id (claimed ∷ pending ∷ []) w ≡ (err not_found, w)
  unfolding ack_from raise
  ack_absent id plain e e' =
      attempt_as _ _ w w (err not_exist) (rename_absent base w mb quiet h id plain claimed done e)
      ∙ attempt_as _ _ w w (err not_exist)
          (rename_absent base w mb quiet h id plain pending done e')

  ack_claimed :
      (id : Text) (plain : NoSlash id) (it : Item)
      → mb claimed id ≡ some it
      → ack_from base id (claimed ∷ pending ∷ []) w
        ≡ (ok tt, renamed base w mb quiet h id plain claimed done it)
  unfolding ack_from pure
  ack_claimed id plain it e =
      attempt_as _ _ w (renamed base w mb quiet h id plain claimed done it) (ok tt)
        (rename_present base w mb quiet h id plain claimed done it refl e)

  ack_pending :
      (id : Text) (plain : NoSlash id) (it : Item)
      → mb claimed id ≡ none
      → mb pending id ≡ some it
      → ack_from base id (claimed ∷ pending ∷ []) w
        ≡ (ok tt, renamed base w mb quiet h id plain pending done it)
  unfolding ack_from pure
  ack_pending id plain it e e' =
      attempt_as _ _ w w (err not_exist) (rename_absent base w mb quiet h id plain claimed done e)
      ∙ attempt_as _ _ w (renamed base w mb quiet h id plain pending done it) (ok tt)
          (rename_present base w mb quiet h id plain pending done it refl e')

  ack_from_refines :
      (id : Text)
      → NoSlash id
      → is_empty (trim id) ≡ false
      → Agrees base w (ack_from base id (claimed ∷ pending ∷ []) w) (ack_item id mb)
  unfolding ack_item
  ack_from_refines id plain ne = elim (Option-cases (mb claimed id)) [
    | inr (it, e) ↦
        rw (ack_claimed id plain it e, ne, e, ack_item)
          (refl, Holds-renamed base w mb quiet h id plain claimed done it, refl)
    | inl e ↦ elim (Option-cases (mb pending id)) [
      | inr (it, e') ↦
          rw (ack_pending id plain it e e', ne, e, e', ack_item)
            (refl, Holds-renamed base w mb quiet h id plain pending done it, refl)
      | inl e' ↦ rw (ack_absent id plain e e', ne, e, e', ack_item) (refl, h, refl)
    ]
  ]

  pub ack_refines : (id : Text) → NoSlash id → Agrees base w (ack q t id w) (ack_item id mb)
  unfolding ack ack_item raise
  ack_refines id plain = elim (Bool-cases (is_empty (trim id))) [
    | inl e ↦ rw e (refl, h, refl)
    | inr e ↦
        let found : ack q t id w ≡ ack_from base id (claimed ∷ pending ∷ []) w =
          rw (e, ack) (bind_ok _ _ w w base (ensure_dirs-Ready q t base w located quiet h.ready)) in
        rw found (ack_from_refines id plain e)
  ]
