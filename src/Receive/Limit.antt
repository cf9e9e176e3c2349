-- ===== src/Receive/Limit.antt =====
-- A receive respects its limit.
use agentqueue.Prelude.{
  FilePath, ℕ, codes, not, ◌&&◌, is_empty, ◌≤◌, ◌<◌, ℤ, pos, negsuc, Text, List, [], ◌∷◌, length,
  length-append, Option, none, some, ◌==◌, ◌≡◌, arith,
}
use agentqueue.Data.{NotificationStatus, Target, Item, Error, Result, ok, err, is_not_found}
use agentqueue.Fs.{Fs}
use agentqueue.Io.{World, attempt}
use agentqueue.Io.Rules.{
  Anything, then_any, Triple, any_rule, of_any, pure_rule, bind_rule, attempt_rule, if_rule,
}
use agentqueue.Queue.{take_id}
use agentqueue.Config.{Queue}
use agentqueue.Transport.{Context, context_err, Host}
use agentqueue.Notify.{save}
use agentqueue.Wake.{in_state}
use agentqueue.Receive.{
  Batch, batch_limit, take_batch, receive_batch, receive_plain, receive_noticed, finished,
  observable, observe, close_drain, snoc, unless_over, after_claim, with_saved,
}

-- A result with at most `n` items.
abbrev pub AtMost : ℕ → Result Batch → Fs → Type 0
AtMost n (ok (items, _)) fs = length items ≤ n
AtMost n (err e) fs = Unit

take_batch_rule :
    (q : Queue) (ctx : Context) (t : Target) (n : ℕ) (items received : List Item)
    → length received ≤ n
    → Triple Anything (λ _. Unit {0}) (AtMost n) (take_batch q ctx t n items received)
unfolding take_batch
take_batch_rule q ctx t n [] received h = pure_rule _ λ fs _. h
take_batch_rule q ctx t n (it ∷ items) received h =
    if_rule (length received == n) _ _ (λ e. pure_rule _ λ fs _. h)
      λ e.
        then_any _ _ (λ _ _. tt)
          λ time.
            checked (context_err ctx time)
              (λ taken.
                take_batch_rule q ctx t n items (snoc received taken)
                  (ground (arith, e, length-append received (taken ∷ []))))
              (take_batch_rule q ctx t n items received h)
  where
    claimed_rule :
        (r : Result Item)
        → ((taken : Item)
            → Triple Anything
                (λ _. Unit {0})
                (AtMost n)
                (take_batch q ctx t n items (snoc received taken)))
        → Triple Anything (λ _. Unit {0}) (AtMost n) (take_batch q ctx t n items received)
        → Triple Anything
            (λ _. Unit {0})
            (AtMost n)
            (after_claim
              (λ taken. take_batch q ctx t n items (snoc received taken))
              (take_batch q ctx t n items received)
              received
              r)
    claimed_rule (ok taken) k l = k taken
    claimed_rule (err x) k l = if_rule (is_not_found x) _ _ (λ e. l) λ e. pure_rule _ λ fs _. h

    checked :
        (o : Option Error)
        → ((taken : Item)
            → Triple Anything
                (λ _. Unit {0})
                (AtMost n)
                (take_batch q ctx t n items (snoc received taken)))
        → Triple Anything (λ _. Unit {0}) (AtMost n) (take_batch q ctx t n items received)
        → Triple Anything
            (λ _. Unit {0})
            (AtMost n)
            (unless_over o received (
              attempt (take_id q t it.id) (
                after_claim
                  (λ taken. take_batch q ctx t n items (snoc received taken))
                  (take_batch q ctx t n items received)
                  received)))
    checked (some x) k l = pure_rule _ λ fs _. h
    checked none k l =
        attempt_rule (λ _ _. Unit {0}) _ _ (any_rule (take_id q t it.id)) λ r. claimed_rule r k l

close_drain_rule :
    (n : ℕ) (base : FilePath) (s : NotificationStatus) (time : ℕ) (b : Batch)
    → length b.0 ≤ n
    → Triple Anything (λ _. Unit {0}) (AtMost n) (close_drain base s time b)
unfolding close_drain
close_drain_rule n base s time (received, some e) h = pure_rule _ λ fs _. h
close_drain_rule n base s time (received, none) h =
    if_rule (is_empty received && not (in_state s (codes "received"))) _ _
      (λ e. attempt_rule (λ _ _. Unit {0}) (save base (finished s time)) _ (any_rule _) saved)
      λ e. pure_rule (received, none) λ fs _. h
  where
    saved :
        (r : Result (Unit {0})) → Triple Anything (λ _. Unit {0}) (AtMost n) (with_saved received r)
    saved (ok _) = pure_rule _ λ fs _. h
    saved (err e) = pure_rule _ λ fs _. h

module _ (h : Host) (q : Queue) (ctx : Context) (t : Target) (limit : ℤ) where
  batch_rule :
      (items : List Item)
      → Triple Anything
          (λ _. Unit {0})
          (AtMost (batch_limit limit))
          (take_batch q ctx t (batch_limit limit) items [])
  batch_rule items = take_batch_rule q ctx t (batch_limit limit) items [] (omega arith)

  plain_rule :
      Triple Anything (λ _. Unit {0}) (AtMost (batch_limit limit)) (receive_plain h q ctx t limit)
  unfolding receive_plain
  plain_rule = then_any _ _ (λ _ _. tt) λ base. then_any _ _ (λ _ _. tt) λ items. batch_rule items

  noticed_rule :
      (notice : Text)
      → Triple Anything
          (λ _. Unit {0})
          (AtMost (batch_limit limit))
          (receive_noticed h q ctx t limit notice)
  unfolding receive_noticed
  noticed_rule notice =
      then_any _ _ (λ _ _. tt)
        λ base.
          then_any _ _ (λ _ _. tt)
            λ s.
              if_rule (not (observable s notice)) _ _
                (λ _. pure_rule ([], none) λ fs _. omega arith)
                λ _.
                  then_any _ _ (λ _ _. tt)
                    λ items.
                      then_any _ _ (λ _ _. tt)
                        λ time.
                          then_any _ _ (λ _ _. tt)
                            λ _.
                              bind_rule (AtMost (batch_limit limit)) _ _ (batch_rule items)
                                (λ e fs _. tt)
                                λ batch. record {
                                  at = λ w qs k.
                                      (close_drain_rule (batch_limit limit) base
                                          (observe s (is_empty items) (q.now time)) (q.now time)
                                          batch k).at
                                        w qs tt;
                                }

  pub receive_rule :
      (notice : Text)
      → Triple Anything
          (λ _. Unit {0})
          (AtMost (batch_limit limit))
          (receive_batch h q ctx t limit notice)
  unfolding receive_batch
  receive_rule notice = if_rule (is_empty notice) _ _ (λ _. plain_rule) λ _. noticed_rule notice

  -- A receive, with or without a notice, never claims more items than its limit, which is between 1
  -- and 100 whatever number was asked for.
  pub receive_batch-bounded :
      (notice : Text) (w : World) (items : List Item) (failure : Option Error)
      → (receive_batch h q ctx t limit notice w).0 ≡ ok (items, failure)
      → (length items ≤ batch_limit limit) × (0 < batch_limit limit) × (batch_limit limit ≤ 100)
  unfolding batch_limit
  receive_batch-bounded notice w items failure e =
      let (low, high) = limit_range limit in
      (
        bounded _ e (of_any (receive_batch h q ctx t limit notice) w (receive_rule notice)),
        low,
        high,
      )
    where
      bounded :
          (r : Result Batch)
          → r ≡ ok (items, failure)
          → AtMost (batch_limit limit) r (receive_batch h q ctx t limit notice w).1.fs
          → length items ≤ batch_limit limit
      bounded (ok (xs, f)) e k = ground (arith, e, k)
      bounded (err x) e k = cc

      limit_range : (l : ℤ) → (0 < batch_limit l) × (batch_limit l ≤ 100)
      limit_range (pos n) = (ground arith, ground arith)
      limit_range (negsuc n) = (omega arith, omega arith)
