-- ===== src/Queue/Lasting/Moves.antt =====
-- A rename moves an item's file forward, or leaves it where it is.
use agentqueue.Prelude.{
  Text, FilePath, path_eq, text_eq, text_eq_iff, ◌∷◌, Bool, true, false, Option, none, some, ◌≡◌,
  ◌⊎◌, ◌∙◌, inl, inr, refl, ap, subst, sym, arith, All, All-map, Bool-cases, drop,
}
use agentqueue.Data.{State}
use agentqueue.Fs
use agentqueue.Fs.{
  Fs, Node, dir, file, Content, lookup, insert, without, rename_node, is_dir, dir_at,
}
use agentqueue.Fs.Laws.{NoSlash, IsSegment, lookup-insert, lookup-without}
use agentqueue.Io.{Move, move}
use agentqueue.Io.Rules.{Stable, stable_of_moves}
use agentqueue.Queue.Kept.{IsForward}
use agentqueue.Queue.Frame.{lookup-mkdir_all}
use agentqueue.Queue.Once.{file_of, rename-Absent}
use agentqueue.Queue.Mailbox.{state_eq}
use agentqueue.Queue.Mailbox.Holds.{path_eq-file_of}
use agentqueue.Queue.Mailbox.Listed.{AllPlain}
use agentqueue.Queue.Lasting.Plain.{if_files, mkdir_all-AllPlain, rename-AllPlain, file_of-plain}
use agentqueue.Queue.Lasting.{IsOnward, IsIn, Lasts, Lawful, advances, elsewhere, IsLawful}
use agentqueue.Queue.Lasting.States.{state_eq_iff, state_eq_self, IsForward-ne, IsOnward-forward}

-- A rename of two paths that are not `x` changes nothing at `x`.
pub lookup-rename :
    (p r x : FilePath) (fs : Fs)
    → path_eq p x ≡ false
    → path_eq r x ≡ false
    → lookup x (Fs.rename p r fs).1 ≡ lookup x fs
unfolding Fs.rename
lookup-rename p r x fs h k = by_node (lookup p fs)
  where
    by_node : (v : Option Node) → lookup x (rename_node v p r fs).1 ≡ lookup x fs
    by_node none = refl
    by_node (some dir) = refl
    by_node (some (file mode content)) =
        ground
          (arith, h, k, lookup-insert r x (file mode content) (without p fs), lookup-without p x fs)

-- A rename of a file leaves everything as it is, or moves the file.
rename-cases :
    (p r : FilePath) (mode : Bool) (c : Content) (fs : Fs)
    → lookup p fs ≡ some (file mode c)
    → ((Fs.rename p r fs).1 ≡ fs) ⊎ ((Fs.rename p r fs).1 ≡ insert r (file mode c) (without p fs))
unfolding Fs.rename
rename-cases p r mode c fs h =
    let moved : Fs = insert r (file mode c) (without p fs) in
    let P : Fs → Type 0 = λ g. (g ≡ fs) ⊎ (g ≡ moved) in
    rw h (
      if_files P (path_eq p r) _ _ (inl refl) (
        if_files P (dir_at (drop 1 r) fs) _ _
          (if_files P (is_dir (lookup r fs)) _ _ (inl refl) (inr refl)) (inl refl)))

text_eq_self : (s : Text) → text_eq s s ≡ true
text_eq_self s = (text_eq_iff s s).1 refl

module _ (base : FilePath) (id : Text) (mode : Bool) (c : Content) where
  abbrev node : Node
  node = file mode c

  IsIn-moved :
      (a b : State) (fs : Fs)
      → state_eq a b ≡ false
      → IsIn base id node a fs
      → IsIn base id node b (insert (file_of base b id) node (without (file_of base a id) fs))
  IsIn-moved a b fs ne h st' =
      lookup-insert (file_of base b id) (file_of base st' id) node (without (file_of base a id) fs)
      ∙ rw
          (
            lookup-without (file_of base a id) (file_of base st' id) fs,
            path_eq-file_of base b st' id id,
            path_eq-file_of base a st' id id,
            text_eq_self id,
            h st',
          )
          (ground arith)

  -- A rename of the id's file itself.
  own_rename :
      (st a b : State) (fs : Fs)
      → IsForward a b
      → IsIn base id node st fs
      → ((Fs.rename (file_of base a id) (file_of base b id) fs).1 ≡ fs)
        ⊎ ((st ≡ a) × IsIn base id node b (Fs.rename (file_of base a id) (file_of base b id) fs).1)
  own_rename st a b fs f h = elim (Bool-cases (state_eq st a)) [
    | inr ne ↦ inl (
        ap (λ m. m.1) (rename-Absent (file_of base a id) (file_of base b id) fs (h a ∙ rw ne refl)))
    | inl e ↦
        let same = state_eq_iff st a e in
        let at_a = subst (λ x. IsIn base id node x fs) same h in
        elim (rename-cases (file_of base a id) (file_of base b id) mode c fs
          (at_a a ∙ rw (state_eq_self a) refl)) [
            | inl stays ↦ inl stays
            | inr goes ↦ inr (same, rw goes (IsIn-moved a b fs (IsForward-ne a b f) at_a))
          ]
  ]

  pub Lasts-own_rename :
      (st a b : State) (fs : Fs)
      → IsForward a b
      → Lasts base id node st fs
      → Lasts base id node st (Fs.rename (file_of base a id) (file_of base b id) fs).1
  Lasts-own_rename st a b fs f (st', o, h) = elim (own_rename st' a b fs f h) [
    | inl stays ↦ rw stays (st', o, h)
    | inr (same, k) ↦ (b, IsOnward-forward st a b (subst (IsOnward st) same o) f, k)
  ]

  -- What changes none of the item's files keeps it where it is.
  pub Lasts-same :
      (st : State) (fs fs' : Fs)
      → ((st : State) → lookup (file_of base st id) fs' ≡ lookup (file_of base st id) fs)
      → Lasts base id node st fs
      → Lasts base id node st fs'
  Lasts-same st fs fs' same (st', o, h) = (st', o, λ x. same x ∙ h x)

  pub Lasts-rename :
      (st a b : State) (id' : Text) (fs : Fs)
      → IsForward a b
      → Lasts base id node st fs
      → Lasts base id node st (Fs.rename (file_of base a id') (file_of base b id') fs).1
  Lasts-rename st a b id' fs f h = elim (Bool-cases (text_eq id' id)) [
    | inl e ↦
        subst (λ x. Lasts base id node st (Fs.rename (file_of base a x) (file_of base b x) fs).1)
          (sym ((text_eq_iff id' id).0 e)) (Lasts-own_rename st a b fs f h)
    | inr ne ↦
        Lasts-same st fs _
          (λ x.
            lookup-rename (file_of base a id') (file_of base b id') (file_of base x id) fs
              (path_eq-file_of base a x id' id ∙ rw ne (ground arith))
              (path_eq-file_of base b x id' id ∙ rw ne (ground arith)))
          h
  ]

  -- The files of the queue and of the item.
  abbrev pub Kept : State → Fs → Type 0
  Kept st fs = AllPlain fs × Lasts base id node st fs

  module _ (plain_base : All NoSlash base) where
    Kept-Lawful :
        (st : State) (mv : Move) (fs : Fs)
        → NoSlash id
        → Lawful base id mv
        → Kept st fs
        → Kept st (move fs mv)
    unfolding move
    Kept-Lawful st mv fs plain (advances a b f e) (n, h) =
        subst (λ m. Kept st (move fs m)) (sym e)
          (
            rename-AllPlain (file_of base a id) (file_of base b id) fs
                (file_of-plain base b id plain_base plain) n,
            Lasts-own_rename st a b fs f h,
          )
    Kept-Lawful st mv fs plain (elsewhere same names) (n, h) =
        (names fs n, Lasts-same st fs (move fs mv) (same fs) h)

    pub Kept-stable : (st : State) → NoSlash id → Stable (IsLawful base id) (Kept st)
    Kept-stable st plain slot q fs h =
        stable_of_moves (Kept st) slot.others fs
          (All-map slot.others (λ mv l fs k. Kept-Lawful st mv fs plain l k) q) h

    pub Kept-made :
        (st : State) (sub : Text) (fs : Fs)
        → IsSegment sub
        → Kept st fs
        → Kept st (Fs.mkdir_all (sub ∷ base) fs).1
    Kept-made st sub fs seg (n, h) = (
      mkdir_all-AllPlain (sub ∷ base) fs (seg.0, plain_base) n,
      Lasts-same st fs _
          (λ x. lookup-mkdir_all (sub ∷ base) (file_of base x id) fs _ (omega arith) refl) h,
    )

    pub Kept-forward :
        (st a b : State) (id' : Text) (fs : Fs)
        → IsForward a b
        → NoSlash id'
        → Kept st fs
        → Kept st (Fs.rename (file_of base a id') (file_of base b id') fs).1
    Kept-forward st a b id' fs f plain (n, h) = (
      rename-AllPlain (file_of base a id') (file_of base b id') fs
          (file_of-plain base b id' plain_base plain) n,
      Lasts-rename st a b id' fs f h,
    )
