-- ===== src/Receive/Stale.antt =====
-- `ReceiveNotice` of receive.go for a wake that is over.
use mathlib.Core.List.{foldl}
use agentqueue.Prelude.{
  ℕ, ◌+◌, ℤ, Text, codes, FilePath, path_eq_iff, is_empty, [], ◌∷◌, Bool, false, not, some,
  if◌then◌else◌, ◌≡◌, ◌≢◌, ◌⊎◌, text_eq_iff, ◌∙◌, refl, ap, arith, All, All-map, inl, inr,
}
use agentqueue.Data.{Target, NotificationStatus, no_notification, io, is_not_exist, Result, ok, err}
use agentqueue.Fs
use agentqueue.Fs.{
  Fs, Node, dir, file, notification, Content, lookup, make_dir, mkdir_all, and_then, join,
}
use agentqueue.Fs.Calls.{read-some}
use agentqueue.Fs.Laws.{lookup-insert, IsSegment, join_segment}
use agentqueue.Io.{Slot, move, World, read_file, pure, raise, lift, now}
use agentqueue.Io.Rules.{
  Triple, Stable, stable_of_moves, syscall_rule, pure_rule, lift_rule, raise_rule, bind_rule,
  attempt_rule, if_rule, now_rule,
}
use agentqueue.Config.{Queue}
use agentqueue.Queue.{target_dir}
use agentqueue.Queue.Frame.{lookup-and_then, in_target_dir}
use agentqueue.Files.{notification_file, get_notification, decode_notification}
use agentqueue.Files.Registered.{located_rule}
use agentqueue.Transport.{
  Context, Host, with_timeout, background, notification_timeout, wake_protocol_version,
}
use agentqueue.Notify.{lock_notification}
use agentqueue.Receive.{
  Batch, observable, receive_noticed, receive_batch, receive_notice, is_notice_id,
}

lookup-make_there :
    (p r : FilePath) (v : Node) (fs : Fs)
    → lookup r fs ≡ some v
    → lookup r (make_dir p fs).1 ≡ some v
unfolding make_dir
lookup-make_there p r v fs h = ground (arith, h, lookup-insert p r dir fs, path_eq_iff p r)

-- `MkdirAll` leaves what is there.
mkdir_all-keeps :
    (p r : FilePath) (v : Node) (fs : Fs)
    → lookup r fs ≡ some v
    → lookup r (mkdir_all p fs).1 ≡ some v
unfolding mkdir_all
mkdir_all-keeps [] r v fs h = h
mkdir_all-keeps (n ∷ p) r v fs h =
    lookup-and_then r (some v) (mkdir_all p fs) (make_dir (n ∷ p)) (mkdir_all-keeps p r v fs h)
      λ fs' k. lookup-make_there (n ∷ p) r v fs' k

-- The other processes leave the path alone.
abbrev pub LeavesPath : FilePath → Slot → Type 0
LeavesPath p slot = All (λ mv. (fs : Fs) → lookup p (move fs mv) ≡ lookup p fs) slot.others

notification_IsSegment : IsSegment notification_file
notification_IsSegment = (omega arith, λ e. cc, λ e. cc, λ e. cc)

-- The wake of an id is over for a recorded wake: that has another id or another protocol, or it has
-- been received or put off.
abbrev pub IsOver : NotificationStatus → Text → Type 0
IsOver s id =
    (s.id ≢ id)
    ⊎ ((s.wake_protocol ≢ wake_protocol_version)
        ⊎ ((s.state ≡ codes "received") ⊎ (s.state ≡ codes "deferred")))

over_unobservable : (s : NotificationStatus) (id : Text) → IsOver s id → observable s id ≡ false
unfolding observable
over_unobservable s id (inl k) = ground (arith, k, text_eq_iff s.id id)
over_unobservable s id (inr (inl k)) = ground (arith, k)
over_unobservable s id (inr (inr (inl k))) =
    ground (arith, k, text_eq_iff s.state (codes "received"))
over_unobservable s id (inr (inr (inr k))) =
    ground (arith, k, text_eq_iff s.state (codes "deferred"))

-- A result that brings no item.
abbrev pub BringsNothing : Result Batch → Type 0
BringsNothing (ok (items, _)) = items ≡ []
BringsNothing (err e) = Unit

module _ (base : FilePath) (q : Queue) (t : Target) (located : target_dir q t ≡ ok base)
    (mode : Bool) (s : NotificationStatus) (p : FilePath) (v : Node) where
  -- The record of the last wake, and another file or directory.
  abbrev pub IsKept : Fs → Type 0
  IsKept fs =
      (lookup (notification_file ∷ base) fs ≡ some (file mode (notification s)))
      × (lookup p fs ≡ some v)

  -- The other processes leave both alone.
  abbrev pub Leaves : Slot → Type 0
  Leaves slot = LeavesPath (notification_file ∷ base) slot × LeavesPath p slot

  IsKept-stable : Stable Leaves IsKept
  IsKept-stable slot (k, l) fs (h, g) = (still (notification_file ∷ base) _ k h, still p _ l g)
    where
      still :
          (r : FilePath) (u : Node)
          → LeavesPath r slot
          → lookup r fs ≡ some u
          → lookup r (foldl move fs slot.others) ≡ some u
      still r u k h =
          stable_of_moves (λ fs. lookup r fs ≡ some u) slot.others fs
            (All-map slot.others (λ mv m fs h. m fs ∙ h) k) h

  -- What is read of it.
  abbrev Read : {A : Type 0} → A → Result A → Type 0
  Read a (ok b) = b ≡ a
  Read a (err e) = e ≡ io

  get_notification_rule : Triple Leaves IsKept (λ r fs. IsKept fs × Read s r) (get_notification q t)
  unfolding get_notification read_file
  get_notification_rule = located_rule (target_dir q t) base _ located (
      rw (join_segment base notification_file notification_IsSegment) (
        attempt_rule (λ r fs. IsKept fs × Read {A = Bool × Content} (mode, notification s) r) _ _
          reading told))
    where
      reading :
          Triple Leaves IsKept
            (λ r fs. IsKept fs × Read {A = Bool × Content} (mode, notification s) r)
            (read_file (notification_file ∷ base))
      reading =
          syscall_rule (λ fs. fs) (Fs.read_file (notification_file ∷ base)) IsKept-stable
            (λ fs h. (h, refl))
            λ fs h. rw (read-some (notification_file ∷ base) fs mode (notification s) h.0) (h, refl)

      decoded :
          (m : Bool) (c : Content)
          → Read {A = Bool × Content} (mode, notification s) (ok (m, c))
          → Read s (decode_notification c)
      decoded m c k =
          let same : decode_notification c ≡ ok s =
            ap (λ (x : Bool × Content). decode_notification x.1) k in
          rw same refl

      told :
          (r : Result (Bool × Content))
          → Triple Leaves
              (λ fs. IsKept fs × Read {A = Bool × Content} (mode, notification s) r)
              (λ r fs. IsKept fs × Read s r)
              (elim r [
                | ok (_, content) ↦ lift (decode_notification content)
                | err e ↦ if is_not_exist e then pure no_notification else raise e
              ])
      told (ok (m, c)) = lift_rule _ λ fs k. (k.0, decoded m c k.1)
      told (err e) =
          if_rule (is_not_exist e) _ _ (λ k. pure_rule _ λ fs l. absurd (ground (arith, k, l.1)))
            λ k. raise_rule e λ fs l. l

  -- No item, and everything as it was.
  abbrev NothingTaken : Result Batch → Fs → Type 0
  NothingTaken r fs = BringsNothing r × (lookup p fs ≡ some v)

  receive_noticed_rule :
      (host : Host) (ctx : Context) (limit : ℤ) (id : Text)
      → ((r : FilePath) (c : Context)
          → Triple Leaves IsKept (λ _ fs. IsKept fs) (host.try_lock r c))
      → observable s id ≡ false
      → Triple Leaves IsKept NothingTaken (receive_noticed host q ctx t limit id)
  unfolding receive_noticed lock_notification
  receive_noticed_rule host ctx limit id keeps over =
      bind_rule (λ _ fs. IsKept fs) _ _ locked (λ e fs h. (tt, h.1))
        λ b.
          bind_rule (λ r fs. IsKept fs × Read s r) _ _ get_notification_rule (λ e fs h. (tt, h.0.1))
            λ s'.
              if_rule (not (observable s' id)) _ _ (λ _. pure_rule _ λ fs h. (refl, h.0.1))
                λ k. record {
                  at = λ w l h. absurd (ground (arith, ap (λ x. observable x id) h.1, over, k));
                }
    where
      locked : Triple Leaves IsKept (λ _ fs. IsKept fs) (lock_notification host q ctx t)
      locked =
          in_target_dir IsKept IsKept-stable base
            (λ sub fs seg k. (
              mkdir_all-keeps (sub ∷ base) (notification_file ∷ base) _ fs k.0,
              mkdir_all-keeps (sub ∷ base) p v fs k.1,
            ))
            q t (λ _ fs. IsKept fs) _ located (λ e fs h. h)
            (bind_rule (λ _ fs. IsKept fs) _ _ (keeps _ _) (λ e fs h. h)
              λ ours. if_rule ours _ _ (λ _. pure_rule _ λ fs h. h) λ _. raise_rule _ λ fs h. h)

  -- A notice whose wake is over claims nothing: `ReceiveNotice` brings no item and leaves every file,
  -- the pending items among them, as it was, for an id that is not the one of the last wake, for a wake
  -- that has been received or put off, and for one of another protocol. The other processes leave the
  -- record of the wake and the file in question alone, and so does the lock; any call may fail.
  pub receive_notice-BringsNothing :
      (host : Host) (limit : ℤ) (id : Text) (w : World)
      → ((r : FilePath) (c : Context)
          → Triple Leaves IsKept (λ _ fs. IsKept fs) (host.try_lock r c))
      → is_empty id ≡ false
      → IsOver s id
      → All Leaves w.schedule
      → IsKept w.fs
      → BringsNothing (receive_notice host q t id limit w).0
        × (lookup p (receive_notice host q t id limit w).1.fs ≡ some v)
  unfolding receive_notice receive_batch now
  receive_notice-BringsNothing host limit id w keeps filled over l h = (rule.at w l h).1
    where
      at_time :
          (time : ℕ)
          → Triple Leaves IsKept NothingTaken (
              receive_batch host q
                (with_timeout background (time + notification_timeout))
                t
                limit
                id)
      at_time time = rw filled (
          receive_noticed_rule host (with_timeout background (time + notification_timeout)) limit id
            keeps (over_unobservable s id over))

      rule : Triple Leaves IsKept NothingTaken (receive_notice host q t id limit)
      rule =
          if_rule (is_notice_id host q id) _ _
            (λ _.
              bind_rule (λ _ fs. IsKept fs) now _ (now_rule IsKept) (λ e fs h. (tt, h.1)) at_time)
            λ _. raise_rule _ λ fs h. (tt, h.1)
