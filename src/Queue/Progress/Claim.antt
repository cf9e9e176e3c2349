-- ===== src/Queue/Progress/Claim.antt =====
-- The claim of an item that the other processes leave alone finds it.
use agentqueue.Prelude.{
  Text, FilePath, path_eq_iff, ◌⊎◌, inl, inr, Bool, false, some, ◌≡◌, ◌∙◌, refl, All, All-map,
}
use agentqueue.Data.{Target, pending, claimed, Error, is_not_found, io, Result, ok, err}
use agentqueue.Fs
use agentqueue.Fs.{
  item, address, receiver, notification, nothing, partial, Fs, Node, Content, file, dir, lookup,
  insert, without, dir_at, is_dir, make_dir, and_then,
}
use agentqueue.Fs.Laws.{NoSlash, lookup-insert}
use agentqueue.Io.{rename, read_file, attempt}
use agentqueue.Io.Rules.{
  also, bind_rule, Triple, Stable, stable_of_moves, syscall_rule, lift_rule, raise_rule,
  attempt_rule,
}
use agentqueue.Config.{Queue}
use agentqueue.Queue.{
  target_dir, claim, after_rename, read_item, decode_read, decode_item, item_path,
}
use agentqueue.Queue.Paths.{item_path_lem}
use agentqueue.Queue.Frame.{ensure_dirs-keeps}
use agentqueue.Queue.Progress.Errors.{FailsBy, is_call_error, call_error_found, ensure_dirs-Fails}
use agentqueue.Queue.Once.{file_of}
use agentqueue.Queue.Mailbox.Holds.{path_eq-file_of}
use agentqueue.Queue.Progress.{IsWaiting, IsPolite}
use agentqueue.Queue.Progress.Waiting.{IsWaiting-stable, IsWaiting-made}

-- A result that is not the error of an item that is gone.
abbrev pub IsFound : {A : Type 0} → Result A → Type 0
IsFound (ok a) = Unit
IsFound (err e) = is_not_found e ≡ false

module _ (base : FilePath) (id : Text) (mode : Bool) (c : Content) (plain_base : All NoSlash base)
    (plain : NoSlash id) where
  -- Behind the rename of the claim.
  abbrev IsClaimed : Fs → Type 0
  IsClaimed fs = lookup (file_of base claimed id) fs ≡ some (file mode c)

  IsClaimed-stable : Stable (IsPolite base id) IsClaimed
  IsClaimed-stable slot q fs h =
      stable_of_moves IsClaimed slot.others fs
        (All-map slot.others (λ mv l fs k. l.same fs claimed ∙ k) q) h

  -- The rename of a claim succeeds, where no call fails.
  rename_waiting :
      (fs : Fs)
      → IsWaiting base id mode c fs
      → ((Fs.rename (file_of base pending id) (file_of base claimed id) fs).0 ≡ ok tt)
        × IsClaimed (Fs.rename (file_of base pending id) (file_of base claimed id) fs).1
  unfolding Fs.rename
  rename_waiting fs (n, h, d, k) =
      rw (h pending, path_eq-file_of base pending claimed id id, k, h claimed)
        (
          refl,
          lookup-insert (file_of base claimed id) (file_of base claimed id) _ _
              ∙ rw ((path_eq_iff (file_of base claimed id) (file_of base claimed id)).1 refl) refl,
        )

  decode_item-IsFound : (c : Content) → IsFound (decode_item c)
  unfolding decode_item
  decode_item-IsFound (item it) = tt
  decode_item-IsFound (address a) = tt
  decode_item-IsFound (receiver r) = tt
  decode_item-IsFound (notification s) = tt
  decode_item-IsFound nothing = refl
  decode_item-IsFound partial = refl

  read_claimed :
      (fs : Fs) → IsClaimed fs → (Fs.read_file (file_of base claimed id) fs).0 ≡ ok (mode, c)
  unfolding Fs.read_file
  read_claimed fs h = rw (h, Fs.read_file) refl

  -- A read that gives the file, or a failure of the call.
  abbrev IsRead : Result (Bool × Content) → Type 0
  IsRead r = (r ≡ ok (mode, c)) ⊎ (r ≡ err io)

  only_io : (e : Error) → IsRead (err e) → e ≡ io
  only_io e (inl k) = cc
  only_io e (inr k) = cc k

  read_item-IsFound :
      Triple (IsPolite base id) IsClaimed (λ r fs. IsFound r) (read_item (file_of base claimed id))
  unfolding read_item read_file
  read_item-IsFound =
      attempt_rule (λ r fs. IsRead r) _ _
        (syscall_rule (λ fs. fs) _ IsClaimed-stable (λ fs h. inr refl)
          λ fs h. inl (read_claimed fs h))
        decoded
    where
      decoded :
          (r : Result (Bool × Content))
          → Triple (IsPolite base id) (λ fs. IsRead r) (λ r fs. IsFound r) (decode_read r)
      decoded (ok (m, d)) = lift_rule _ λ fs h. decode_item-IsFound d
      decoded (err e) = raise_rule _ λ fs h. rw (only_io e h) refl

  -- What the rename of the claim leaves: the file in its new place, or a failure of the call.
  abbrev IsRenamed : Result (Unit {0}) → Fs → Type 0
  IsRenamed (ok _) fs = IsClaimed fs
  IsRenamed (err e) fs = e ≡ io

  renamed : (m : Result (Unit {0}) × Fs) → (m.0 ≡ ok tt) × IsClaimed m.1 → IsRenamed m.0 m.1
  renamed (ok _, fs) (e, h) = h
  renamed (err x, fs) (e, h) = cc e

  after_rename-IsFound :
      (r : Result (Unit {0}))
      → Triple
          (IsPolite base id)
          (IsRenamed r)
          (λ r fs. IsFound r)
          (after_rename (item_path base claimed id) r)
  unfolding after_rename
  after_rename-IsFound (ok _) = rw (item_path_lem base claimed id plain) read_item-IsFound
  after_rename-IsFound (err e) = raise_rule _ λ fs h. rw h refl

  renamed_rule :
      Triple
        (IsPolite base id)
        (IsWaiting base id mode c)
        (λ r fs. IsFound r)
        (attempt
          (rename (item_path base pending id) (item_path base claimed id))
          (after_rename (item_path base claimed id)))
  unfolding rename
  renamed_rule =
      attempt_rule IsRenamed _ _
        (rw (item_path_lem base pending id plain, item_path_lem base claimed id plain)
          (syscall_rule (λ fs. fs) (Fs.rename (file_of base pending id) (file_of base claimed id))
            (IsWaiting-stable base id mode c plain_base plain) (λ fs h. refl)
            λ fs h. renamed _ (rename_waiting fs h)))
        after_rename-IsFound

  module _ (q : Queue) (t : Target) (located : target_dir q t ≡ ok base) where
    -- The claim of the item does not miss it.
    pub claim-IsFound :
        Triple (IsPolite base id) (IsWaiting base id mode c) (λ r fs. IsFound r) (claim q t id)
    unfolding claim
    claim-IsFound =
        bind_rule
          (λ res fs.
            (IsWaiting base id mode c fs × ((b : FilePath) → res ≡ ok b → b ≡ base))
            × FailsBy is_call_error res)
          _ _
          (also _
            (ensure_dirs-keeps (IsWaiting base id mode c)
              (IsWaiting-stable base id mode c plain_base plain) base
              (IsWaiting-made base id mode c plain_base plain) q t located)
            (ensure_dirs-Fails is_call_error refl refl q t base located))
          (λ e fs h. call_error_found e (h.1 e refl))
          λ b. record {
            at = λ w qs h.
                let same : b ≡ base = h.0.1 b refl in
                let k : Triple (IsPolite base id) (IsWaiting base id mode c) (λ r fs. IsFound r)
                    (attempt (rename (item_path b pending id) (item_path b claimed id))
                      (after_rename (item_path b claimed id))) =
                  rw same renamed_rule in
                k.at w qs h.0.0;
          }
