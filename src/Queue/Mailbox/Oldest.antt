-- ===== src/Queue/Mailbox/Oldest.antt =====
-- A pass of `TakeNext` (queue.go) over a mailbox that nobody disturbs.
use agentqueue.Prelude.{
  ℕ, suc, Text, codes, text_eq, text_eq_iff, FilePath, List, [], ◌∷◌, ◌++◌, true, false, any,
  is_empty, Option, none, some, if◌then◌else◌, ◌≡◌, ◌≢◌, ◌∙◌, refl, ap, arith, Bool-cases, inl, inr,
  All, All-map,
}
use agentqueue.Prelude.Order.{
  text_le, sort_by, any-sort_by, All-sort_by, IsSorted, AllAbove, sort_by-IsSorted, text_le_total,
  text_le_trans, text_le_antisymm, text_le_refl,
}
use agentqueue.Data.{Target, pending, state_string, Item, empty, ok}
use agentqueue.Fs
use agentqueue.Fs.{Fs, Node, dir, file, item, is_dir, dir_at, lookup, children, entry_le}
use agentqueue.Fs.Laws.{NoSlash, join_segment}
use agentqueue.Io.{World, Io, raise, read_dir, lift, pure, attempt, ◌>>=◌}
use agentqueue.Config.{Queue}
use agentqueue.Queue.{ids_of, item_ids, state_dir, target_dir, take_first, take_next, unless_taken}
use agentqueue.Queue.Paths.{state_IsSegment}
use agentqueue.Queue.Once.{file_of}
use agentqueue.Queue.Quiet.{IsQuiet, syscall_quiet, bind_ok, attempt_as}
use agentqueue.Queue.Mailbox.{Mail, claim_item}
use agentqueue.Queue.Mailbox.Holds.{Holds, state_dir_there}
use agentqueue.Queue.Mailbox.Refines.{claim_refines}
use agentqueue.Queue.Mailbox.Listed.{
  IsThere, AllPlain, listed_child, listed_id, entries-IsThere, children-IsThere, All-prefix,
  ids-IsThere,
}

-- No pending id comes before this one.
abbrev pub IsLeast : Mail → Text → Type 0
IsLeast mb id = (id' : Text) → NoSlash id' → mb pending id' ≢ none → text_le id id' ≡ true

module _ (base : FilePath) (q : Queue) (t : Target) (w : World) (mb : Mail)
    (located : target_dir q t ≡ ok base) (quiet : IsQuiet w) (h : Holds base w.fs mb)
    (plain : AllPlain w.fs) where
  -- The ids that a scan finds.
  abbrev pub found : List Text
  found = sort_by text_le (ids_of (sort_by entry_le (children (state_string pending ∷ base) w.fs)))

  pub item_ids-found : item_ids q t pending w ≡ (ok found, w)
  unfolding item_ids state_dir lift read_dir Fs.read_dir pure
  item_ids-found =
      bind_ok _ _ w w (state_string pending ∷ base)
        (rw located (rw (join_segment base (state_string pending) (state_IsSegment pending)) refl))
      ∙ attempt_as _ _ w w (ok (sort_by entry_le (children (state_string pending ∷ base) w.fs))) (
          syscall_quiet (λ fs. fs) (Fs.read_dir (state_string pending ∷ base)) w quiet
          ∙ rw (state_dir_there base w.fs pending h.ready) refl)

  pub found_pending : All (λ id. (mb pending id ≢ none) × NoSlash id) found
  found_pending = All-sort_by text_le _ _ (
      All-map _ pending_id (
        ids-IsThere w.fs _ _ (
          All-sort_by entry_le _ _ (
            children-IsThere w.fs (state_string pending ∷ base) w.fs
              (entries-IsThere w.fs plain)))))
    where
      pending_id :
          (id : Text) → IsThere w.fs (file_of base pending id) → (mb pending id ≢ none) × NoSlash id
      pending_id id (l, (n, ns)) =
          let id_plain = All-prefix id (codes ".json") n in
          (λ e. l (h.items pending id id_plain ∙ rw e refl), id_plain)

  pub pending_found :
      (id : Text) (it : Item) → NoSlash id → mb pending id ≡ some it → any (text_eq id) found ≡ true
  pending_found id it n e =
      any-sort_by text_le (text_eq id)
        (ids_of (sort_by entry_le (children (state_string pending ∷ base) w.fs)))
      ∙ listed_id id (sort_by entry_le (children (state_string pending ∷ base) w.fs)) (
          any-sort_by entry_le _ (children (state_string pending ∷ base) w.fs)
          ∙ listed_child (id ++ codes ".json") (state_string pending ∷ base) false (item it) w.fs
              (h.items pending id n ∙ rw e refl))

  first_found :
      (ids : List Text) (id : Text)
      → IsSorted text_le ids
      → All (λ id. (mb pending id ≢ none) × NoSlash id) ids
      → any (text_eq id) ids ≡ true
      → IsLeast mb id
      → (rest : List Text) × (ids ≡ id ∷ rest)
  first_found [] id s p a l = cc a
  first_found (x ∷ xs) id (above, s) ((p, n), ps) a l = (
    xs,
    ap (λ y. y ∷ xs)
        (text_le_antisymm x id
          (elim (Bool-cases (text_eq id x)) [
            | inl e ↦ rw ((text_eq_iff id x).0 e) (text_le_refl x)
            | inr e ↦ below xs above (ground (arith, e, a))
          ])
          (l x n p)),
  )
    where
      below :
          (ys : List Text)
          → AllAbove text_le x ys
          → any (text_eq id) ys ≡ true
          → text_le x id ≡ true
      below [] k b = cc b
      below (y ∷ ys) (k, ks) b = elim (Bool-cases (text_eq id y)) [
        | inl e ↦ rw ((text_eq_iff id y).0 e) k
        | inr e ↦ below ys ks (ground (arith, e, b))
      ]

  take_first_next :
      (id : Text) (it : Item) (ids : List Text)
      → NoSlash id
      → mb pending id ≡ some it
      → (take_first q t (id ∷ ids) w).0 ≡ ok (some it)
  unfolding take_first attempt pure claim_item
  take_first_next id it ids n e =
      let (same, _, _) = claim_refines base q t w mb located quiet h id n in
      rw (same, e, claim_item) refl

  -- What a pass of `TakeNext` does with the ids that it found.
  pass :
      (again : Io (Option Item)) (id : Text) (it : Item) (ids rest : List Text)
      → NoSlash id
      → mb pending id ≡ some it
      → ids ≡ id ∷ rest
      → ((if is_empty ids then raise empty else take_first q t ids >>= unless_taken again) w).0
        ≡ ok (some it)
  unfolding ◌>>=◌ pure
  pass again id it ids rest n e k = rw k (rw (take_first_next id it rest n e) refl)

  -- `TakeNext` takes the pending item whose id comes first: in a mailbox that has its directories, for
  -- an id without a slash, if nobody else acts and no call fails.
  pub take_next-oldest :
      (fuel : ℕ) (id : Text) (it : Item)
      → NoSlash id
      → mb pending id ≡ some it
      → IsLeast mb id
      → (take_next (suc fuel) q t w).0 ≡ ok (some it)
  unfolding take_next
  take_next-oldest fuel id it n e l =
      let sorted = sort_by-IsSorted text_le text_le_total text_le_trans _ in
      let (rest, k) = first_found found id sorted found_pending (pending_found id it n e) l in
      ap (λ m. m.0) (bind_ok (item_ids q t pending) _ w w found item_ids-found)
      ∙ pass (take_next fuel q t) id it found rest n e k
