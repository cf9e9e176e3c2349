-- ===== src/Queue/Lasting/Published.antt =====
-- Publishing one item (`Push` of queue.go) leaves every other where it is.
use agentqueue.Prelude.{
  Text, codes, FilePath, text_eq_iff, Bool, true, ◌≢◌, ◌∙◌, refl, arith, All, All-append,
  Option-cases, inl, inr, drop, is_empty,
}
use agentqueue.Data.{State, pending, Item, Result, ok, err}
use agentqueue.Fs
use agentqueue.Fs.{
  Fs, Node, Content, partial, item, dir, file, lookup, insert, without, put, is_dir, dir_at,
  children,
}
use agentqueue.Fs.Laws.{NoSlash, lookup-insert, lookup-without}
use agentqueue.Io.{rename, write_file, remove}
use agentqueue.Io.Rules.{
  Triple, Stable, syscall_rule, pure_rule, raise_rule, bind_rule, attempt_rule,
}
use agentqueue.Queue.{store, publish, published, tmp_path}
use agentqueue.Queue.Paths.{item_path_lem, tmp_path_lem}
use agentqueue.Queue.Once.{file_of}
use agentqueue.Queue.Mailbox.Holds.{tmp_of, tmp_not_item, path_eq-file_of}
use agentqueue.Queue.Lasting.{IsLawful}
use agentqueue.Queue.Lasting.Plain.{
  if_files, insert-AllPlain, without-AllPlain, rename-AllPlain, file_of-plain,
}
use agentqueue.Queue.Lasting.Moves.{Kept, Kept-stable, Lasts-same, lookup-rename}

tmp_of-plain :
    (base : FilePath) (id : Text) → All NoSlash base → NoSlash id → All NoSlash (tmp_of base id)
tmp_of-plain base id h n =
    (All-append (λ c. c ≢ b'/') id (codes ".json.tmp") n (omega arith), (omega arith, h))

module _ (base : FilePath) (id : Text) (mode : Bool) (c : Content) (plain_base : All NoSlash base)
    (plain : NoSlash id) (st : State) where
  abbrev Stays : Fs → Type 0
  Stays = Kept base id mode c st

  put-Stays :
      (other : Text) (v : Node) (fs : Fs)
      → NoSlash other
      → Stays fs
      → Stays (put (tmp_of base other) v fs).1
  unfolding put
  put-Stays other v fs n h =
      if_files Stays (dir_at (drop 1 (tmp_of base other)) fs) _ _
        (if_files Stays (is_dir (lookup (tmp_of base other) fs)) _ _ h (
          insert-AllPlain (tmp_of base other) v fs (tmp_of-plain base other plain_base n) h.0,
          Lasts-same base id mode c st fs _
              (λ x.
                lookup-insert (tmp_of base other) (file_of base x id) v fs
                ∙ rw (tmp_not_item base x other id) refl)
              h.1,
        ))
        h

  without-Stays : (other : Text) (fs : Fs) → Stays fs → Stays (without (tmp_of base other) fs)
  without-Stays other fs h = (
    without-AllPlain (tmp_of base other) fs h.0,
    Lasts-same base id mode c st fs _
        (λ x.
          lookup-without (tmp_of base other) (file_of base x id) fs
          ∙ rw (tmp_not_item base x other id) refl)
        h.1,
  )

  remove-Stays : (other : Text) (fs : Fs) → Stays fs → Stays (Fs.remove (tmp_of base other) fs).1
  unfolding Fs.remove
  remove-Stays other fs h = elim (Option-cases (lookup (tmp_of base other) fs)) [
    | inl e ↦ rw (e, Fs.remove) h
    | inr (dir, e) ↦
        rw (e, Fs.remove)
          (if_files Stays (is_empty (children (tmp_of base other) fs)) _ _
            (without-Stays other fs h) h)
    | inr (file _ _, e) ↦ rw (e, Fs.remove) (without-Stays other fs h)
  ]

  publish_rename-Stays :
      (other : Text) (fs : Fs)
      → NoSlash other
      → other ≢ id
      → Stays fs
      → Stays (Fs.rename (tmp_of base other) (file_of base pending other) fs).1
  publish_rename-Stays other fs n ne h = (
    rename-AllPlain (tmp_of base other) (file_of base pending other) fs
        (file_of-plain base pending other plain_base n) h.0,
    Lasts-same base id mode c st fs _
        (λ x.
          lookup-rename (tmp_of base other) (file_of base pending other) (file_of base x id) fs
            (tmp_not_item base x other id)
            (path_eq-file_of base pending x other id ∙ ground (arith, text_eq_iff other id, ne)))
        h.1,
  )

  -- An item of another id is published.
  pub store-Stays :
      (it : Item)
      → NoSlash it.id
      → it.id ≢ id
      → Triple (IsLawful base id) Stays (λ _ fs. Stays fs) (store base it)
  unfolding store publish write_file rename remove
  store-Stays it n ne =
      bind_rule (λ _ fs. Stays fs) _ _
        (rw (tmp_path_lem base it.id n) (
          syscall_rule (λ fs. (put (tmp_of base it.id) (file true partial) fs).1) _ stable
            (λ fs h. put-Stays it.id (file true partial) fs n h) λ fs h. put-Stays it.id _ fs n h))
        (λ e fs h. h)
        λ _.
          attempt_rule (λ _ fs. Stays fs) _ _
            (rw (tmp_path_lem base it.id n, item_path_lem base pending it.id n)
              (syscall_rule _ _ stable (λ fs h. h) λ fs h. publish_rename-Stays it.id fs n ne h))
            after
    where
      stable : Stable (IsLawful base id) Stays
      stable = Kept-stable base id mode c plain_base st plain

      after :
          (r : Result (Unit {0}))
          → Triple
              (IsLawful base id)
              Stays
              (λ _ fs. Stays fs)
              (published (tmp_path base it.id) it r)
      after (ok _) = pure_rule it λ fs h. h
      after (err e) =
          attempt_rule (λ _ fs. Stays fs) _ _
            (rw (tmp_path_lem base it.id n)
              (syscall_rule _ _ stable (λ fs h. h) λ fs h. remove-Stays it.id fs h))
            λ _. raise_rule e λ fs h. h
