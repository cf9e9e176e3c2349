-- ===== src/Queue/Sorted.antt =====
-- The order in which queue.go serves ids.
use agentqueue.Prelude.{subst, Text, List, [], Bool, ◌≡◌}
use agentqueue.Prelude.Order.{text_le, text_le_total, text_le_trans, IsSorted, sort_by-IsSorted}
use agentqueue.Data.{Target, State, Result, ok, err, is_not_exist}
use agentqueue.Fs.{Fs}
use agentqueue.Io.{World, read_dir}
use agentqueue.Io.Rules.{
  Anything, Triple, any_rule, of_any, pure_rule, raise_rule, bind_rule, attempt_rule, if_rule,
}
use agentqueue.Queue.{item_ids, ids_of, listed}
use agentqueue.Config.{Queue}

-- Ids in their order, if there are any.
abbrev pub InOrder : Result (List Text) → Fs → Type 0
InOrder (ok ids) fs = IsSorted text_le ids
InOrder (err e) fs = Unit

item_ids_rule :
    (q : Queue) (t : Target) (st : State)
    → Triple Anything (λ _. Unit {0}) InOrder (item_ids q t st)
unfolding item_ids
item_ids_rule q t st =
    bind_rule (λ _ _. Unit {0}) _ _ (any_rule _) (λ e fs _. tt)
      λ dir. attempt_rule (λ _ _. Unit {0}) (read_dir dir) _ (any_rule _) λ r. ordered r
  where
    ordered : (r : Result (List (Text × Bool))) → Triple Anything (λ _. Unit {0}) InOrder (listed r)
    ordered (ok entries) =
        pure_rule _ λ fs _. sort_by-IsSorted text_le text_le_total text_le_trans (ids_of entries)
    ordered (err e) =
        if_rule (is_not_exist e) _ _ (λ _. pure_rule [] λ fs _. tt) λ _. raise_rule e λ fs _. tt

-- The ids that a listing or a consumer goes through are sorted, whatever the directory held and
-- whoever changed it meanwhile.
item_ids-IsSorted :
    (q : Queue) (t : Target) (st : State) (w : World) (ids : List Text)
    → (item_ids q t st w).0 ≡ ok ids
    → IsSorted text_le ids
item_ids-IsSorted q t st w ids e = sorted _ e (of_any (item_ids q t st) w (item_ids_rule q t st))
  where
    sorted :
        (r : Result (List Text))
        → r ≡ ok ids
        → InOrder r (item_ids q t st w).1.fs
        → IsSorted text_le ids
    sorted (ok xs) e k = subst (IsSorted text_le) (given e) k
      where
        given : ok xs ≡ ok ids → xs ≡ ids
        given e = cc
    sorted (err x) e k = cc
