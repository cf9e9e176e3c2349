-- ===== src/Queue/Progress/Errors.antt =====
-- The errors with which the calls of a claim fail.
use agentqueue.Prelude.{
  FilePath, Text, List, [], ◌∷◌, Bool, true, false, Option, none, some, ◌≡◌, refl, arith,
}
use agentqueue.Data.{
  Target, Error, io, empty, not_found, malformed, is_not_found, not_exist, timed_out,
  invalid_target, uncertain, in_progress, cancelled, deadline_exceeded, notify, joined, claimed,
  Result, ok, err,
}
use agentqueue.Fs
use agentqueue.Fs.{
  Fs, Node, dir, file, Content, lookup, rename_node, make_dir, and_then, dir_at, is_dir,
}
use agentqueue.Io.{Io, syscall, attempt, ◌>>=◌, rename, mkdir_all, read_file}
use agentqueue.Io.Rules.{
  Anything, Triple, syscall_rule, pure_rule, raise_rule, lift_rule, bind_rule, attempt_rule,
}
use agentqueue.Config.{Queue}
use agentqueue.Queue.{
  item_path, target_dir, ensure_dirs, make_all, claim, after_rename, read_item, decode_read,
  decode_item,
}
use agentqueue.Queue.Quiet.{sub_dirs}

-- The failures of a system call.
abbrev pub is_call_error : Error → Bool
is_call_error io = true
is_call_error not_exist = true
is_call_error _ = false

-- The failures of a claim.
abbrev pub is_claim_error : Error → Bool
is_claim_error io = true
is_claim_error not_exist = true
is_claim_error malformed = true
is_claim_error not_found = true
is_claim_error _ = false

pub call_error_found : (e : Error) → is_call_error e ≡ true → is_not_found e ≡ false
call_error_found io h = refl
call_error_found not_exist h = refl
call_error_found empty h = cc
call_error_found timed_out h = cc
call_error_found not_found h = cc
call_error_found invalid_target h = cc
call_error_found uncertain h = cc
call_error_found in_progress h = cc
call_error_found malformed h = cc
call_error_found cancelled h = cc
call_error_found deadline_exceeded h = cc
call_error_found (notify e) h = cc
call_error_found (joined a b) h = cc

-- A result whose error, if it is one, passes the test.
abbrev pub FailsBy : {A : Type 0} → (Error → Bool) → Result A → Type 0
FailsBy test r = (e : Error) → r ≡ err e → test e ≡ true

module _ (test : Error → Bool) (of_io : test io ≡ true) (of_not_exist : test not_exist ≡ true) where
  rename_node-FailsBy :
      (v : Option Node) (p r : FilePath) (fs : Fs) → FailsBy test (rename_node v p r fs).0
  rename_node-FailsBy none p r fs e h = cc
  rename_node-FailsBy (some dir) p r fs e h = cc
  rename_node-FailsBy (some (file mode content)) p r fs e h = ground (arith, h)

  rename-FailsBy : (p r : FilePath) (fs : Fs) → FailsBy test (Fs.rename p r fs).0
  unfolding Fs.rename
  rename-FailsBy p r fs = rename_node-FailsBy (lookup p fs) p r fs

  make_dir-FailsBy : (p : FilePath) (fs : Fs) → FailsBy test (make_dir p fs).0
  unfolding make_dir
  make_dir-FailsBy p fs e h = ground (arith, h)

  and_then-FailsBy :
      (m : Result (Unit {0}) × Fs) (f : Fs → Result (Unit {0}) × Fs)
      → FailsBy test m.0
      → ((fs : Fs) → FailsBy test (f fs).0)
      → FailsBy test (and_then m f).0
  and_then-FailsBy (ok _, fs) f h k = k fs
  and_then-FailsBy (err e, fs) f h k = h

  mkdir_all-FailsBy : (p : FilePath) (fs : Fs) → FailsBy test (Fs.mkdir_all p fs).0
  unfolding Fs.mkdir_all
  mkdir_all-FailsBy [] fs = λ e h. cc
  mkdir_all-FailsBy (s ∷ p) fs =
      and_then-FailsBy (Fs.mkdir_all p fs) (make_dir (s ∷ p)) (mkdir_all-FailsBy p fs)
        (make_dir-FailsBy (s ∷ p))

  read_file-FailsBy : (p : FilePath) (fs : Fs) → FailsBy test (Fs.read_file p fs).0
  unfolding Fs.read_file
  read_file-FailsBy p fs e h = ground (arith, h)

  -- An action that fails so, whatever happens.
  abbrev pub Fails : {A : Type 0} → Io A → Type 0
  Fails m = Triple Anything (λ _. Unit {0}) (λ r fs. FailsBy test r) m

  syscall-Fails :
      {A : Type 0} (call : Fs → Result A × Fs)
      → ((fs : Fs) → FailsBy test (call fs).0)
      → Fails (syscall (λ fs. fs) call)
  syscall-Fails call h = syscall_rule (λ fs. fs) call (λ _ _ _ _. tt) (λ fs _ e k. cc) λ fs _. h fs

  bind-Fails :
      {A B : Type 0} (m : Io A) (f : A → Io B) → Fails m → ((a : A) → Fails (f a)) → Fails (m >>= f)
  bind-Fails m f h k =
      bind_rule (λ r fs. FailsBy test r) m f h (λ e fs n x z. n x (cc z))
        λ a. record { at = λ w q n. (k a).at w q tt }

  attempt-Fails :
      {A B : Type 0} (m : Io A) (f : Result A → Io B)
      → Fails m
      → ((r : Result A) → FailsBy test r → Fails (f r))
      → Fails (attempt m f)
  attempt-Fails m f h k =
      attempt_rule (λ r fs. FailsBy test r) m f h λ r. record { at = λ w q n. (k r n).at w q tt }

  make_all-Fails : (base : FilePath) (subs : List Text) → Fails (make_all base subs)
  unfolding make_all mkdir_all
  make_all-Fails base [] = pure_rule tt λ fs h e k. cc
  make_all-Fails base (sub ∷ subs) =
      bind-Fails _ _ (syscall-Fails _ (mkdir_all-FailsBy (Fs.join base sub)))
        λ _. make_all-Fails base subs

  pub ensure_dirs-Fails :
      (q : Queue) (t : Target) (base : FilePath)
      → target_dir q t ≡ ok base
      → Fails (ensure_dirs q t)
  unfolding ensure_dirs
  ensure_dirs-Fails q t base located =
      bind-Fails _ _ (lift_rule _ λ fs _ e k. cc (located, k))
        λ b. bind-Fails _ _ (make_all-Fails b sub_dirs) λ _. pure_rule b λ fs _ e k. cc

  read_item-Fails :
      (p : FilePath) → test malformed ≡ true → test not_found ≡ true → Fails (read_item p)
  unfolding read_item read_file decode_item
  read_item-Fails p of_malformed of_not_found =
      attempt-Fails _ _ (syscall-Fails _ (read_file-FailsBy p)) decoded
    where
      decoded : (r : Result (Bool × Content)) → FailsBy test r → Fails (decode_read r)
      decoded (ok (_, c)) n = lift_rule _ λ fs h e k. ground (arith, k)
      decoded (err x) n = raise_rule _ λ fs h e k. ground (arith, n x refl, k)

  pub claim-Fails :
      (q : Queue) (t : Target) (base : FilePath) (id : Text)
      → target_dir q t ≡ ok base
      → test malformed ≡ true
      → test not_found ≡ true
      → Fails (claim q t id)
  unfolding claim rename after_rename
  claim-Fails q t base id located of_malformed of_not_found =
      bind-Fails _ _ (ensure_dirs-Fails q t base located) λ b.
        attempt-Fails _ _ (syscall-Fails _ (rename-FailsBy _ _)) (moved (item_path b claimed id))
    where
      moved : (p : FilePath) (r : Result (Unit {0})) → FailsBy test r → Fails (after_rename p r)
      moved p (ok _) n = read_item-Fails p of_malformed of_not_found
      moved p (err x) n = raise_rule _ λ fs h e k. ground (arith, n x refl, k)
