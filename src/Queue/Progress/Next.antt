-- ===== src/Queue/Progress/Next.antt =====
-- One pass of `TakeNext` (queue.go) over a mailbox where an item waits.
use agentqueue.Prelude.{
  ℕ, suc, Text, codes, FilePath, text_eq, text_eq_iff, is_empty, List, [], ◌∷◌, ◌++◌, Bool, true,
  false, not, ◌&&◌, any, Option, none, some, if◌then◌else◌, ◌≡◌, ◌∙◌, refl, subst, arith, All,
  Bool-cases, inl, inr,
}
use agentqueue.Prelude.Order.{text_le, sort_by, any-sort_by, All-sort_by}
use agentqueue.Data.{
  Target, pending, state_string, Item, Error, io, empty, is_not_found, is_not_exist, Result, ok,
  err,
}
use agentqueue.Fs
use agentqueue.Fs.{Fs, Content, children, entry_le}
use agentqueue.Fs.Laws.{NoSlash, join_segment}
use agentqueue.Io.{World, Io, syscall, attempt, read_dir, raise, ◌>>=◌}
use agentqueue.Io.Rules.{
  Triple, also, syscall_rule, pure_rule, lift_rule, raise_rule, bind_rule, attempt_rule, if_rule,
}
use agentqueue.Config.{Queue}
use agentqueue.Queue.{
  target_dir, state_dir, item_ids, ids_of, listed, claim, take_first, take_next, took, unless_taken,
}
use agentqueue.Queue.Paths.{state_IsSegment}
use agentqueue.Queue.Kept.{children_plain, names_plain, read_dir_same}
use agentqueue.Queue.Mailbox.Listed.{listed_child, listed_id}
use agentqueue.Queue.Progress.{IsWaiting, IsPolite}
use agentqueue.Queue.Progress.Errors.{FailsBy, is_claim_error, claim-Fails}
use agentqueue.Queue.Progress.Claim.{IsFound, claim-IsFound}
use agentqueue.Queue.Progress.Waiting.{IsWaiting-stable, claim-IsWaiting}

-- An item, or the failure of a call or of decoding: neither nothing nor an empty mailbox.
abbrev pub IsDelivery : Result (Option Item) → Type 0
IsDelivery (ok none) = ⊥
IsDelivery (ok (some it)) = Unit
IsDelivery (err e) = (is_claim_error e ≡ true) × (is_not_found e ≡ false)

module _ (base : FilePath) (id : Text) (mode : Bool) (c : Content) (plain_base : All NoSlash base)
    (plain : NoSlash id) (q : Queue) (t : Target) (located : target_dir q t ≡ ok base) where
  abbrev Waits : Fs → Type 0
  Waits = IsWaiting base id mode c

  abbrev has_file : List (Text × Bool) → Bool
  has_file entries = any (λ (n, d). text_eq n (id ++ codes ".json") && not d) entries

  -- The entries of the directory have the item's file.
  abbrev IsListing : Result (List (Text × Bool)) → Type 0
  IsListing (ok entries) = All (λ e. NoSlash e.0) entries × (has_file entries ≡ true)
  IsListing (err e) = e ≡ io

  -- The ids have the item's.
  abbrev IsScan : Result (List Text) → Type 0
  IsScan (ok ids) = All NoSlash ids × (any (text_eq id) ids ≡ true)
  IsScan (err e) = e ≡ io

  read_pending : (fs : Fs) → Waits fs → IsListing (Fs.read_dir (state_string pending ∷ base) fs).0
  unfolding Fs.read_dir
  read_pending fs (n, h, d, k) =
      let p : FilePath = state_string pending ∷ base in
      rw d (
        All-sort_by entry_le _ (children p fs) (children_plain p fs n),
        any-sort_by entry_le _ (children p fs)
            ∙ listed_child (id ++ codes ".json") p mode c fs (h pending),
      )

  scanned :
      (entries : List (Text × Bool))
      → IsListing (ok entries)
      → IsScan (ok (sort_by text_le (ids_of entries)))
  scanned entries (n, l) = (
    All-sort_by text_le _ (ids_of entries) (names_plain entries n),
    any-sort_by text_le (text_eq id) (ids_of entries) ∙ listed_id id entries l,
  )

  not_there : (e : Error) → e ≡ io → is_not_exist e ≡ true → ⊥
  not_there e h b = cc (subst (λ x. is_not_exist x ≡ true) h b)

  item_ids-IsScan :
      Triple (IsPolite base id) Waits (λ r fs. Waits fs × IsScan r) (item_ids q t pending)
  unfolding item_ids state_dir read_dir
  item_ids-IsScan =
      bind_rule (λ r fs. Waits fs × (r ≡ ok (state_string pending ∷ base))) _ _
        (lift_rule _ λ fs h. (
          h,
          rw located (rw (join_segment base (state_string pending) (state_IsSegment pending)) refl),
        ))
        (λ e fs h. cc (h.1))
        λ dir.
          attempt_rule (λ r fs. Waits fs × IsListing r) _ _
            (record {
              at = λ w qs h.
                  let here : dir ≡ state_string pending ∷ base = cc (h.1) in
                  let k : Triple (IsPolite base id) Waits (λ r fs. Waits fs × IsListing r)
                      (syscall (λ fs. fs) (Fs.read_dir dir)) =
                    rw here list_pending in
                  k.at w qs h.0;
            })
            found
    where
      list_pending :
          Triple
            (IsPolite base id)
            Waits
            (λ r fs. Waits fs × IsListing r)
            (syscall (λ fs. fs) (Fs.read_dir (state_string pending ∷ base)))
      list_pending =
          syscall_rule (λ fs. fs) (Fs.read_dir (state_string pending ∷ base))
            (IsWaiting-stable base id mode c plain_base plain) (λ fs h. (h, refl))
            λ fs h. (rw (read_dir_same (state_string pending ∷ base) fs) h, read_pending fs h)

      found :
          (r : Result (List (Text × Bool)))
          → Triple
              (IsPolite base id)
              (λ fs. Waits fs × IsListing r)
              (λ r fs. Waits fs × IsScan r)
              (listed r)
      found (ok entries) = pure_rule _ λ fs (h, l). (h, scanned entries l)
      found (err e) =
          if_rule (is_not_exist e) _ _ (λ b. record { at = λ w qs h. absurd (not_there e h.1 b) })
            λ _. raise_rule e λ fs h. h

  delivered :
      (next : Io (Option Item)) (r : Result Item)
      → IsFound r × FailsBy is_claim_error r
      → Triple (IsPolite base id) (λ _. Unit {0}) (λ r fs. IsDelivery r) (took next r)
  delivered next (ok it) h = pure_rule (some it) λ fs _. tt
  delivered next (err e) h = rw h.0 (raise_rule e λ fs _. (h.1 e refl, h.0))

  passed_over :
      (next : Io (Option Item)) (r : Result Item)
      → FailsBy is_claim_error r
      → Triple (IsPolite base id) Waits (λ r fs. IsDelivery r) next
      → Triple (IsPolite base id) Waits (λ r fs. IsDelivery r) (took next r)
  passed_over next (ok it) h k = pure_rule (some it) λ fs _. tt
  passed_over next (err e) h k =
      if_rule (is_not_found e) _ _ (λ _. k) λ b. raise_rule e λ fs _. (h e refl, b)

  take_first-IsDelivery :
      (ids : List Text)
      → All NoSlash ids
      → any (text_eq id) ids ≡ true
      → Triple (IsPolite base id) Waits (λ r fs. IsDelivery r) (take_first q t ids)
  unfolding take_first
  take_first-IsDelivery [] n a = cc
  take_first-IsDelivery (x ∷ xs) (n, ns) a = elim (Bool-cases (text_eq id x)) [
    | inl e ↦
        subst
          (λ y.
            Triple (IsPolite base id) Waits (λ r fs. IsDelivery r)
              (attempt (claim q t y) (took (take_first q t xs))))
          ((text_eq_iff id x).0 e)
          (attempt_rule (λ r fs. IsFound r × FailsBy is_claim_error r) _ _
            (also _ (claim-IsFound base id mode c plain_base plain q t located)
              (claim-Fails is_claim_error refl refl q t base id located refl refl))
            λ r. record { at = λ w qs h. (delivered (take_first q t xs) r h).at w qs tt })
    | inr e ↦
        attempt_rule (λ r fs. Waits fs × FailsBy is_claim_error r) _ _
          (also _
            (claim-IsWaiting base id mode c plain_base plain q t located x n
              (ground (arith, e, text_eq_iff id x, text_eq_iff x id)))
            (claim-Fails is_claim_error refl refl q t base x located refl refl))
          λ r. record {
            at = λ w qs h.
                (passed_over (take_first q t xs) r h.1
                    (take_first-IsDelivery xs ns (ground (arith, e, a)))).at
                  w qs h.0;
          }
  ]

  found_again :
      (again : Io (Option Item)) (o : Option Item)
      → Triple
          (IsPolite base id)
          (λ _. IsDelivery (ok o))
          (λ r fs. IsDelivery r)
          (unless_taken again o)
  found_again again none = record { at = λ w qs h. absurd h }
  found_again again (some it) = pure_rule (some it) λ fs h. h

  pass-IsDelivery :
      (again : Io (Option Item)) (ids : List Text)
      → IsScan (ok ids)
      → Triple
          (IsPolite base id)
          Waits
          (λ r fs. IsDelivery r)
          (if is_empty ids then raise empty else take_first q t ids >>= unless_taken again)
  pass-IsDelivery again [] (n, a) = cc a
  pass-IsDelivery again (x ∷ xs) (n, a) =
      bind_rule (λ r fs. IsDelivery r) _ _ (take_first-IsDelivery (x ∷ xs) n a) (λ e fs h. h)
        (found_again again)

  take_next_rule :
      (fuel : ℕ) → Triple (IsPolite base id) Waits (λ r fs. IsDelivery r) (take_next (suc fuel) q t)
  unfolding take_next
  take_next_rule fuel =
      bind_rule (λ r fs. Waits fs × IsScan r) _ _ item_ids-IsScan (λ e fs h. rw (h.1) (refl, refl))
        λ ids. record { at = λ w qs h. (pass-IsDelivery (take_next fuel q t) ids h.1).at w qs h.0 }

  -- While an item is pending that the other processes leave alone, `TakeNext` returns from its first
  -- scan, with an item or with the failure of a call or of decoding: it neither reports an empty mailbox
  -- nor scans again, whatever the others do elsewhere and whichever calls fail.
  pub take_next-IsDelivery :
      (fuel : ℕ) (w : World)
      → All (IsPolite base id) w.schedule
      → IsWaiting base id mode c w.fs
      → IsDelivery (take_next (suc fuel) q t w).0
  take_next-IsDelivery fuel w l h = ((take_next_rule fuel).at w l h).1
