-- ===== src/Receive/Oldest.antt =====
-- `Receive` of receive.go against what a mailbox promises.
use agentqueue.Prelude.{
  ℕ, ◌+◌, ℤ, Text, codes, text_eq, text_eq_iff, FilePath, List, [], ◌∷◌, true, any, none, ◌≡◌, ◌≢◌,
  ◌↔◌, ◌∙◌, refl, subst, arith, All, Bool-cases, Option-cases, inl, inr,
}
use agentqueue.Prelude.Order.{text_le, IsSorted, sort_by-IsSorted, text_le_total, text_le_trans}
use agentqueue.Data.{Target, pending, state_string, Item, ok}
use agentqueue.Fs.{join}
use agentqueue.Fs.Laws.{NoSlash}
use agentqueue.Io.{World, pure, lift, now, ◌>>=◌}
use agentqueue.Config.{Queue}
use agentqueue.Queue.{target_dir, state_dir, list, read_all}
use agentqueue.Queue.Quiet.{IsQuiet, bind_ok, ensure_dirs-Ready}
use agentqueue.Queue.Mailbox.{Mail}
use agentqueue.Queue.Mailbox.Holds.{Holds}
use agentqueue.Queue.Mailbox.Listed.{AllPlain}
use agentqueue.Queue.Mailbox.Refines.{Agrees}
use agentqueue.Queue.Mailbox.Oldest.{found, item_ids-found, found_pending, pending_found}
use agentqueue.Transport.{
  Context, context_err, Host, with_timeout, background, notification_timeout,
}
use agentqueue.Notify.{lock_notification}
use agentqueue.Receive.{batch_limit, take_batch, receive_plain, receive_batch, receive}
use agentqueue.Receive.Claimed.{claim_first, IsNamed, read_all_named, take_batch-refines}

any_All :
    (P : Text → Type 0) (id : Text) (ids : List Text)
    → All P ids
    → any (text_eq id) ids ≡ true
    → P id
any_All P id [] h k = cc k
any_All P id (x ∷ ids) (h, hs) k = elim (Bool-cases (text_eq id x)) [
  | inl e ↦ rw ((text_eq_iff id x).0 e) h
  | inr e ↦ any_All P id ids hs (ground (arith, e, k))
]

module _ (base : FilePath) (q : Queue) (t : Target) (located : target_dir q t ≡ ok base) where
  -- What `Receive` goes through: the pending ids in their order, each with whether it is pending.
  abbrev pub IsPendingIds : Mail → List Text → Type 0
  IsPendingIds mb ids =
      IsSorted text_le ids
      × ((id : Text) → NoSlash id → (any (text_eq id) ids ≡ true) ↔ (mb pending id ≢ none))

  -- The same with a context that is not over.
  receive_plain-refines :
      (host : Host) (ctx : Context) (limit : ℤ) (w : World) (mb : Mail)
      → IsQuiet w
      → Holds base w.fs mb
      → AllPlain w.fs
      → IsNamed mb
      → ((p : FilePath) (c : Context) (w : World) → host.try_lock p c w ≡ (ok true, w))
      → context_err ctx w.time ≡ none
      → (ids : List Text) × IsPendingIds mb ids
        × Agrees base w (receive_plain host q ctx t limit w) (
          ok ((claim_first (batch_limit limit) ids mb).0, none),
          (claim_first (batch_limit limit) ids mb).1,
        )
  unfolding receive_plain lock_notification list state_dir pure lift
  receive_plain-refines host ctx limit w mb quiet h plain named free c =
      let ids : List Text = found base q t w mb located quiet h plain in
      let (items, read, same, good) =
        read_all_named base q t located w mb quiet h named ids
          (found_pending base q t w mb located quiet h plain) in
      (
        ids,
        (
          sort_by-IsSorted text_le text_le_total text_le_trans _,
          λ id n. (
            λ k.
                (any_All (λ i. (mb pending i ≢ none) × NoSlash i) id ids
                  (found_pending base q t w mb located quiet h plain) k).0,
            λ k. elim (Option-cases (mb pending id)) [
              | inl e ↦ absurd (k e)
              | inr (it, e) ↦ pending_found base q t w mb located quiet h plain id it n e
            ],
          ),
        ),
        rw (run items read) (
            subst (Promised items) same (
              take_batch-refines base q t located ctx (batch_limit limit) items (batch_limit limit)
                [] w mb quiet h c good (omega arith))),
      )
    where
      Promised : List Item → List Text → Type 0
      Promised items ids = Agrees base w (take_batch q ctx t (batch_limit limit) items [] w) (
        ok ((claim_first (batch_limit limit) ids mb).0, none),
        (claim_first (batch_limit limit) ids mb).1,
      )

      locked : lock_notification host q ctx t w ≡ (ok base, w)
      locked =
          bind_ok _ _ w w base (ensure_dirs-Ready q t base w located quiet h.ready)
          ∙ bind_ok _ _ w w true (free (join base (codes "notification.lock")) ctx w)

      listed :
          (items : List Item)
          → read_all
              (join base (state_string pending))
              (found base q t w mb located quiet h plain)
              w
            ≡ (ok items, w)
          → list q t pending w ≡ (ok items, w)
      listed items read =
          bind_ok _ _ w w (join base (state_string pending)) (rw located refl)
          ∙ (bind_ok _ _ w w _ (item_ids-found base q t w mb located quiet h plain) ∙ read)

      run :
          (items : List Item)
          → read_all
              (join base (state_string pending))
              (found base q t w mb located quiet h plain)
              w
            ≡ (ok items, w)
          → receive_plain host q ctx t limit w ≡ take_batch q ctx t (batch_limit limit) items [] w
      run items read = bind_ok _ _ w w base locked ∙ bind_ok _ _ w w items (listed items read)

  in_time :
      (time : ℕ) → context_err (with_timeout background (time + notification_timeout)) time ≡ none
  unfolding context_err with_timeout
  in_time time = ground arith

  -- A receive goes through the ids that are pending in their order and claims them one by one up to
  -- its limit: its items are those of the map, and the files that it leaves are the ones of the map
  -- behind these claims. This is so if nobody else acts and no call fails, the mailbox has its
  -- directories, every pending item carries its file's name as its id, and the lock is free.
  pub receive-refines :
      (host : Host) (limit : ℤ) (w : World) (mb : Mail)
      → IsQuiet w
      → Holds base w.fs mb
      → AllPlain w.fs
      → IsNamed mb
      → ((p : FilePath) (c : Context) (w : World) → host.try_lock p c w ≡ (ok true, w))
      → (ids : List Text) × IsPendingIds mb ids
        × Agrees base w (receive host q t limit w) (
          ok ((claim_first (batch_limit limit) ids mb).0, none),
          (claim_first (batch_limit limit) ids mb).1,
        )
  unfolding receive receive_batch now ◌>>=◌
  receive-refines host limit w mb quiet h plain named free =
      receive_plain-refines host (with_timeout background (w.time + notification_timeout)) limit w
        mb quiet h plain named free (in_time w.time)
