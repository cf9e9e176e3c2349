-- ===== src/Receive/Claimed.antt =====
-- The loop of `receive` of receive.go, against claims in the map of a mailbox.
use mathlib.Core.List.{append-nil, append_assoc}
use agentqueue.Prelude.{
  ℕ, zero, suc, ◌+◌, Text, trim, is_empty, FilePath, List, [], ◌∷◌, ◌++◌, map, length,
  length-append, true, false, none, some, ◌==◌, ◌≡◌, ◌≢◌, ◌∙◌, refl, ap, subst, arith, All,
  Option-cases, inl, inr,
}
use agentqueue.Data.{Target, pending, claimed, state_string, Item, not_found, Result, ok, err}
use agentqueue.Fs.{join}
use agentqueue.Fs.Laws.{NoSlash}
use agentqueue.Io.{World, pure, now}
use agentqueue.Config.{Queue}
use agentqueue.Queue.{target_dir, item_path, read_all, take_id}
use agentqueue.Queue.Quiet.{IsQuiet, with_fs, bind_ok, attempt_as}
use agentqueue.Queue.Mailbox.{Mail, moved, claim_item, take_item}
use agentqueue.Queue.Mailbox.Holds.{Holds}
use agentqueue.Queue.Mailbox.Refines.{Agrees, read_present, take_refines}
use agentqueue.Transport.{Context, context_err}
use agentqueue.Receive.{take_batch, snoc, after_claim}

-- The pending items of the ids, at most so many, one after the other, and the mailbox without them.
unfoldable pub claim_first : ℕ → List Text → Mail → List Item × Mail
claim_first zero ids mb = ([], mb)
claim_first (suc n) [] mb = ([], mb)
claim_first (suc n) (id ∷ ids) mb = elim (mb pending id) [
  | none ↦ claim_first (suc n) ids mb
  | some it ↦
      let (items, mb') = claim_first n ids (moved pending claimed it id mb) in (it ∷ items, mb')
]

-- Every pending item has its id as its name, and that is not blank.
abbrev pub IsNamed : Mail → Type 0
IsNamed mb =
    (id : Text) (it : Item)
    → NoSlash id
    → mb pending id ≡ some it
    → (it.id ≡ id) × (is_empty (trim id) ≡ false)

-- An id that `Take` does not refuse.
abbrev pub IsGood : Text → Type 0
IsGood id = NoSlash id × (is_empty (trim id) ≡ false)

Agrees-from :
    {A : Type 0} (base : FilePath) (w w1 : World) (x : Result A × World) (y : Result A × Mail)
    → w1 ≡ with_fs w w1.fs
    → Agrees base w1 x y
    → Agrees base w x y
Agrees-from base w w1 x y same (r, h, k) = (r, h, k ∙ ap (λ v. with_fs v x.1.fs) same)

module _ (base : FilePath) (q : Queue) (t : Target) (located : target_dir q t ≡ ok base) where
  -- `readItem` gives the items of the ids that are pending.
  pub read_all_named :
      (w : World) (mb : Mail)
      → IsQuiet w
      → Holds base w.fs mb
      → IsNamed mb
      → (ids : List Text) → All (λ id. (mb pending id ≢ none) × NoSlash id) ids
      → (items : List Item) × (read_all (join base (state_string pending)) ids w ≡ (ok items, w))
        × (map (λ (i : Item). i.id) items ≡ ids)
        × All (λ (i : Item). IsGood i.id) items
  unfolding read_all pure item_path
  read_all_named w mb quiet h named [] p = ([], refl, refl, tt)
  read_all_named w mb quiet h named (id ∷ ids) ((p, n), ps) = elim (Option-cases (mb pending id)) [
    | inl e ↦ absurd (p e)
    | inr (it, e) ↦
        let (items, read, same, good) = read_all_named w mb quiet h named ids ps in
        let (name, filled) = named id it n e in
        (
          it ∷ items,
          attempt_as _ _ w w (ok it) (read_present base w mb quiet h id n pending it e)
              ∙ bind_ok _ _ w w items read,
          rw (name, same) refl,
          (rw name (n, filled), good),
        )
  ]

  pub take_batch-refines :
      (ctx : Context) (limit : ℕ) (items : List Item) (n : ℕ) (received : List Item) (w : World)
      (mb : Mail)
      → IsQuiet w
      → Holds base w.fs mb
      → context_err ctx w.time ≡ none
      → All (λ (i : Item). IsGood i.id) items
      → length received + n ≡ limit
      → Agrees base w (take_batch q ctx t limit items received w) (
        ok (received ++ (claim_first n (map (λ (i : Item). i.id) items) mb).0, none),
        (claim_first n (map (λ (i : Item). i.id) items) mb).1,
      )
  unfolding take_batch claim_first pure now take_item claim_item
  take_batch-refines ctx limit [] zero received w mb quiet h c g e = (rw append-nil refl, h, refl)
  take_batch-refines ctx limit [] (suc n) received w mb quiet h c g e =
      (rw append-nil refl, h, refl)
  take_batch-refines ctx limit (it ∷ items) zero received w mb quiet h c g e =
      rw (full, append-nil) (refl, h, refl)
    where
      full : (length received == limit) ≡ true
      full = ground (arith, e)
  take_batch-refines ctx limit (it ∷ items) (suc n) received w mb quiet h c ((plain, filled), g) e =
      elim (Option-cases (mb pending it.id)) [
        | inl k ↦
            let (r, held, same) : Agrees base w (take_id q t it.id w) (err not_found, mb) =
              subst (Agrees base w (take_id q t it.id w)) (claimed_as ∙ rw (k, claim_item) refl)
                refines in
            rw (run (err not_found) r, k)
              (Agrees-from base w w1 _ _ same (
                take_batch-refines ctx limit items (suc n) received w1 mb (quiet_on same) held
                  (time_on same) g e))
        | inr (taken, k) ↦
            let mb1 : Mail = moved pending claimed taken it.id mb in
            let (r, held, same) : Agrees base w (take_id q t it.id w) (ok taken, mb1) =
              subst (Agrees base w (take_id q t it.id w)) (claimed_as ∙ rw (k, claim_item) refl)
                refines in
            rw (run (ok taken) r, k)
              (Agrees-from base w w1 _ _ same (
                rw
                  (← append_assoc received (taken ∷ [])
                    (claim_first n (map (λ (i : Item). i.id) items) mb1).0)
                  (take_batch-refines ctx limit items n (snoc received taken) w1 mb1 (quiet_on same)
                    held (time_on same) g (more taken))))
      ]
    where
      w1 : World
      w1 = (take_id q t it.id w).1

      more : (taken : Item) → length (snoc received taken) + n ≡ limit
      more taken = omega (arith, e, length-append received (taken ∷ []))

      room : (length received == limit) ≡ false
      room = ground (arith, e)

      refines : Agrees base w (take_id q t it.id w) (take_item it.id mb)
      refines = take_refines base q t w mb located quiet h it.id plain

      claimed_as : take_item it.id mb ≡ claim_item it.id mb
      claimed_as = rw (filled, take_item) refl

      quiet_on : w1 ≡ with_fs w w1.fs → IsQuiet w1
      quiet_on same = ap (λ v. v.schedule) same ∙ quiet

      time_on : w1 ≡ with_fs w w1.fs → context_err ctx w1.time ≡ none
      time_on same = ap (λ v. context_err ctx v.time) same ∙ c

      run :
          (r : Result Item)
          → (take_id q t it.id w).0 ≡ r
          → take_batch q ctx t limit (it ∷ items) received w
            ≡ after_claim
                (λ taken. take_batch q ctx t limit items (snoc received taken))
                (take_batch q ctx t limit items received)
                received
                r
                w1
      run r k = rw room (
          bind_ok now _ w w w.time refl
          ∙ rw c (attempt_as (take_id q t it.id) _ w w1 r (ap (λ a. (a, w1)) k)))
