-- ===== src/Files/Stored.antt =====
-- `writePrivateJSON` of notifications.go among other processes.
use agentqueue.Prelude.{Text, codes, FilePath, ◌∷◌, true, some, ◌≡◌, inl, drop}
use agentqueue.Data.{Result, ok, err}
use agentqueue.Fs
use agentqueue.Fs.{
  Fs, Node, dir, file, Content, nothing, partial, is_dir, lookup, insert, without, join,
  rename_node,
}
use agentqueue.Fs.Laws.{IsSegment, join_segment}
use agentqueue.Io.{write_temp, flush, rename, remove, attempt, lift, ◌>>=◌}
use agentqueue.Io.Rules.{Triple, syscall_rule, lift_rule, bind_rule, attempt_rule}
use agentqueue.Queue.{tmp_dir_name}
use agentqueue.Files.{finally_remove, write_private}
use agentqueue.Files.Temp.{
  IfOk, LeavesOurs, tmp_IsSegment, IsNewTemp, create_temp_rule, write_temp_rule, flush_rule,
  rename_rule, remove_rule,
}

module _ (base : FilePath) (name : Text) where
  remove_any :
      (path : FilePath)
      → Triple (LeavesOurs base name) (λ _. Unit {0}) (λ _ _. Unit {0}) (remove path)
  unfolding remove
  remove_any path =
      syscall_rule (λ fs. fs) (Fs.remove path) (λ slot q fs h. tt) (λ fs h. tt) λ fs h. tt

  -- What is written aside takes the place of the file, or the call fails.
  pub write_private_rule :
      (c : Content)
      → IsSegment name
      → Triple
          (LeavesOurs base name)
          (λ _. Unit {0})
          (IfOk λ _ fs. lookup (name ∷ base) fs ≡ some (file true c))
          (write_private base name c)
  unfolding write_private finally_remove
  write_private_rule c seg =
      rw (join_segment base tmp_dir_name tmp_IsSegment, join_segment base name seg)
        (bind_rule (IfOk (IsNewTemp base name)) _ _ (create_temp_rule base name (codes "state-"))
          (λ e fs h. tt) written)
    where
      Stored : Result (Unit {0}) → Fs → Type 0
      Stored = IfOk λ _ fs. lookup (name ∷ base) fs ≡ some (file true c)

      cleared :
          (path : FilePath)
          → drop 1 path ≡ tmp_dir_name ∷ base
          → (r : Result (Unit {0}))
          → Triple (LeavesOurs base name) (Stored r) Stored (attempt (remove path) λ _. lift r)
      cleared path o (ok _) =
          attempt_rule (λ _ fs. lookup (name ∷ base) fs ≡ some (file true c)) _ _
            (remove_rule base name (some (file true c)) path o) λ _. lift_rule (ok tt) λ fs h. h
      cleared path o (err e) =
          attempt_rule (λ _ _. Unit {0}) _ _ (remove_any path) λ _. lift_rule (err e) λ fs h. tt

      written :
          (path : FilePath)
          → Triple (LeavesOurs base name) (IsNewTemp base name path) Stored (
              attempt
                (write_temp path c >>= λ _. flush >>= λ _. flush >>= λ _. rename path (name ∷ base))
                λ r. attempt (remove path) λ _. lift r)
      written path = record { at = λ w q (o, h). (stored o).at w q h }
        where
          Holding : Content → Result (Unit {0}) → Fs → Type 0
          Holding d = IfOk λ _ fs. lookup path fs ≡ some (file true d)

          stored :
              drop 1 path ≡ tmp_dir_name ∷ base
              → Triple
                  (LeavesOurs base name)
                  (λ fs. lookup path fs ≡ some (file true nothing))
                  Stored
                  (attempt
                    (write_temp path c >>= λ _.
                      flush >>= λ _. flush >>= λ _. rename path (name ∷ base))
                    λ r. attempt (remove path) λ _. lift r)
          stored o =
              attempt_rule Stored _ _
                (bind_rule (Holding c) _ _ (write_temp_rule base name nothing c path o)
                  (λ e fs h. tt)
                  λ _.
                    bind_rule (Holding c) _ _ (flush_rule base name path _ (inl o)) (λ e fs h. tt)
                      λ _.
                        bind_rule (Holding c) _ _ (flush_rule base name path _ (inl o))
                          (λ e fs h. tt) λ _. rename_rule base name c path o)
                (cleared path o)
