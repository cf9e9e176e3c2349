-- ===== src/Files/Registered.antt =====
-- The registration of a receiver, written and read back.
use agentqueue.Prelude.{
  FilePath, path_eq_iff, is_empty, ◌∷◌, Bool, true, false, ◌||◌, Option, none, some, if◌then◌else◌,
  ◌≡◌, ◌⊎◌, refl, ap, subst, arith, All, Bool-cases, Option-cases, inl, inr,
}
use agentqueue.Data.{
  Target, Receiver, Error, io, not_exist, not_found, is_not_exist, Result, ok, err,
}
use agentqueue.Fs
use agentqueue.Fs.{Content, without, Fs, Node, dir, file, receiver, lookup, join}
use agentqueue.Fs.Calls.{remove-none, remove-file, remove-dir, read-none, read-some}
use agentqueue.Fs.Laws.{lookup-without, IsSegment, join_segment}
use agentqueue.Io.{Slot, World, Io, remove, read_file, chmod_dir, raise, pure, lift, ◌>>=◌}
use agentqueue.Io.Rules.{
  Triple, syscall_rule, pure_rule, lift_rule, raise_rule, bind_rule, attempt_rule, if_rule, weaken,
}
use agentqueue.Config.{Queue}
use agentqueue.Queue.{target_dir}
use agentqueue.Queue.Frame.{in_target_dir}
use agentqueue.Files.{
  receiver_file, secure_root, remove_receiver, put_receiver, get_receiver, read_private,
  decode_receiver,
}
use agentqueue.Files.Temp.{IfOk, LeavesOurs, ours_stable}
use agentqueue.Files.Stored.{write_private_rule}

-- A registration needs a socket and a token.
abbrev is_blank : Receiver → Bool
is_blank r = is_empty r.socket || is_empty r.token

-- The file of a registration.
abbrev receiver_node : Receiver → Option Node
receiver_node r = if is_blank r then none else some (file true (receiver r))

-- What is read back of it.
abbrev pub registered : Receiver → Result Receiver
registered r = if is_blank r then err not_found else ok r

receiver_IsSegment : IsSegment receiver_file
receiver_IsSegment = (omega arith, λ e. cc, λ e. cc, λ e. cc)

-- A removal leaves nothing at the path, or fails otherwise than for there being nothing.
abbrev Removed : FilePath → Result (Unit {0}) → Fs → Type 0
Removed p (ok _) fs = lookup p fs ≡ none
Removed p (err e) fs = is_not_exist e ≡ true → lookup p fs ≡ none

removed : (p : FilePath) (fs : Fs) → Removed p (Fs.remove p fs).0 (Fs.remove p fs).1
removed p fs = elim (Option-cases (lookup p fs)) [
  | inl h ↦ rw (remove-none p fs h) λ _. h
  | inr (file mode c, h) ↦ rw (remove-file p fs mode c h) gone
  | inr (dir, h) ↦ elim (Bool-cases (is_empty (Fs.children p fs))) [
    | inl e ↦ rw (remove-dir p fs h, e) gone
    | inr e ↦ rw (remove-dir p fs h, e) λ k. cc
  ]
]
  where
    gone : lookup p (without p fs) ≡ none
    gone = ground (arith, lookup-without p p fs, path_eq_iff p p)

chmod_rule :
    {Q : Slot → Type 0} (p : FilePath) → Triple Q (λ _. Unit {0}) (λ _ _. Unit {0}) (chmod_dir p)
unfolding chmod_dir
chmod_rule p =
    syscall_rule (λ fs. fs) (λ fs. ((if Fs.dir_at p fs then ok tt else err not_exist), fs))
      (λ slot q fs h. tt) (λ fs h. tt) λ fs h. tt

-- What runs in the directory of a target whose name is good.
pub located_rule :
    {A : Type 0} {Q : Slot → Type 0} {P : Fs → Type 0} {R : Result A → Fs → Type 0}
    (r : Result FilePath) (base : FilePath) (f : FilePath → Io A)
    → r ≡ ok base
    → Triple Q P R (f base)
    → Triple Q P R (lift r >>= f)
unfolding lift ◌>>=◌
located_rule r base f e k = rw e (record { at = λ w q h. k.at w q h })

module _ (q : Queue) (t : Target) (base : FilePath) (located : target_dir q t ≡ ok base) where
  -- The file of the registration is this.
  abbrev Holding : Option Node → Fs → Type 0
  Holding v fs = lookup (receiver_file ∷ base) fs ≡ v

  remove_rule :
      Triple
        (LeavesOurs base receiver_file)
        (λ _. Unit {0})
        (Removed (receiver_file ∷ base))
        (remove (receiver_file ∷ base))
  unfolding remove
  remove_rule =
      syscall_rule (λ fs. fs) (Fs.remove (receiver_file ∷ base)) (λ slot q fs h. tt) (λ fs h k. cc)
        λ fs h. removed (receiver_file ∷ base) fs

  remove_receiver_rule :
      Triple
        (LeavesOurs base receiver_file)
        (λ _. Unit {0})
        (IfOk λ _. Holding none)
        (remove_receiver q t)
  unfolding remove_receiver
  remove_receiver_rule = located_rule (target_dir q t) base _ located (
      rw (join_segment base receiver_file receiver_IsSegment)
        (attempt_rule (Removed (receiver_file ∷ base)) _ _ remove_rule told))
    where
      told :
          (r : Result (Unit {0}))
          → Triple
              (LeavesOurs base receiver_file)
              (Removed (receiver_file ∷ base) r)
              (IfOk λ _. Holding none)
              (elim r [ ok _ ↦ pure tt | err e ↦ if is_not_exist e then pure tt else raise e ])
      told (ok _) = pure_rule tt λ fs h. h
      told (err e) =
          if_rule (is_not_exist e) _ _ (λ k. pure_rule tt λ fs h. h k) λ k. raise_rule e λ fs h. tt

  put_receiver_rule :
      (r : Receiver)
      → Triple
          (LeavesOurs base receiver_file)
          (λ _. Unit {0})
          (IfOk λ _. Holding (receiver_node r))
          (put_receiver q t r)
  unfolding put_receiver secure_root
  put_receiver_rule r =
      in_target_dir (λ _. Unit {0}) (λ slot q fs h. tt) base (λ sub fs s h. tt) q t
        (IfOk λ _. Holding (receiver_node r)) _ located (λ e fs h. tt)
        (bind_rule (λ _ _. Unit {0}) _ _ (chmod_rule q.root) (λ e fs h. tt)
          λ _.
            if_rule (is_blank r) _ _ (λ e. rw e remove_receiver_rule)
              (λ e. rw e (write_private_rule base receiver_file (receiver r) receiver_IsSegment)))

  -- The result of a read among calls that may fail.
  abbrev Reads : Result Receiver → Result Receiver → Type 0
  Reads want r = (r ≡ want) ⊎ (r ≡ err io)

  -- The same of a read of the file.
  abbrev Seen : Result (Bool × Content) → Result (Bool × Content) → Type 0
  Seen want res = (res ≡ want) ⊎ (res ≡ err io)

  -- A read of the registration's file.
  read_rule :
      (v : Option Node) (want : Result (Bool × Content))
      → ((fs : Fs) → Holding v fs → (Fs.read_file (receiver_file ∷ base) fs) ≡ (want, fs))
      → Triple
          (LeavesOurs base receiver_file)
          (Holding v)
          (λ res fs. Holding v fs × Seen want res)
          (read_file (receiver_file ∷ base))
  unfolding read_file
  read_rule v want k =
      syscall_rule (λ fs. fs) (Fs.read_file (receiver_file ∷ base))
        (ours_stable base receiver_file (receiver_file ∷ base) v (inr refl)) (λ fs h. (h, inr refl))
        λ fs h. rw (k fs h) (h, inl refl)

  get_missing :
      Triple
        (LeavesOurs base receiver_file)
        (Holding none)
        (λ x _. Reads (err not_found) x)
        (get_receiver q t)
  unfolding get_receiver
  get_missing = located_rule (target_dir q t) base _ located (
      rw (join_segment base receiver_file receiver_IsSegment) (
        attempt_rule _ _ _ (read_rule none (err not_exist) (read-none (receiver_file ∷ base)))
          told))
    where
      told :
          (res : Result (Bool × Content))
          → Triple
              (LeavesOurs base receiver_file)
              (λ fs. Holding none fs × Seen (err not_exist) res)
              (λ x _. Reads (err not_found) x)
              (read_private (receiver_file ∷ base) res)
      told (err e) =
          raise_rule _ λ fs h. elim h.1 [ inl k ↦ ground (arith, k) | inr k ↦ ground (arith, k) ]
      told (ok (mode, c)) = record {
        at = λ w q h. elim h.1 [ inl e ↦ absurd (cc e) | inr e ↦ absurd (cc e) ];
      }

  get_present :
      (r : Receiver)
      → Triple
          (LeavesOurs base receiver_file)
          (Holding (some (file true (receiver r))))
          (λ x _. Reads (ok r) x)
          (get_receiver q t)
  unfolding get_receiver
  get_present r =
      located_rule (target_dir q t) base _ located
        (rw (join_segment base receiver_file receiver_IsSegment) (attempt_rule _ _ _ reading told))
    where
      reading :
          Triple
            (LeavesOurs base receiver_file)
            (Holding (some (file true (receiver r))))
            (λ res fs.
              Holding (some (file true (receiver r))) fs × Seen (ok (true, receiver r)) res)
            (read_file (receiver_file ∷ base))
      reading =
          read_rule _ (ok (true, receiver r))
            λ fs h. read-some (receiver_file ∷ base) fs true (receiver r) h

      decode : Result (Bool × Content) → Result Receiver
      decode (ok (_, content)) = decode_receiver content
      decode (err e) = err e

      decoded :
          (mode : Bool) (content : Content)
          → Seen (ok (true, receiver r)) (ok (mode, content))
          → Reads (ok r) (decode_receiver content)
      decoded mode content (inl k) = inl (ap decode k)
      decoded mode content (inr k) = absurd (cc k)

      told :
          (res : Result (Bool × Content))
          → Triple
              (LeavesOurs base receiver_file)
              (λ fs. Holding (some (file true (receiver r))) fs × Seen (ok (true, receiver r)) res)
              (λ x _. Reads (ok r) x)
              (read_private (receiver_file ∷ base) res)
      told (err e) =
          raise_rule _ λ fs h. elim h.1 [ inl k ↦ absurd (cc k) | inr k ↦ ground (arith, k) ]
      told (ok (false, c)) =
          raise_rule _ λ fs h. elim h.1 [ inl k ↦ absurd (cc k) | inr k ↦ absurd (cc k) ]
      told (ok (true, c)) =
          bind_rule _ _ _ (weaken _ _ _ reading (λ fs h. h.0) λ x fs h. h.1) failed
            λ (mode, c'). lift_rule _ λ fs h. decoded mode c' h
        where
          failed : (e : Error) → Fs → Seen (ok (true, receiver r)) (err e) → Reads (ok r) (err e)
          failed e fs (inl k) = absurd (cc k)
          failed e fs (inr k) = inr (ground (arith, k))

  get_receiver_rule :
      (r : Receiver)
      → Triple
          (LeavesOurs base receiver_file)
          (Holding (receiver_node r))
          (λ x _. Reads (registered r) x)
          (get_receiver q t)
  get_receiver_rule r = elim (Bool-cases (is_blank r)) [
    | inl e ↦ rw e get_missing
    | inr e ↦ rw e (get_present r)
  ]

  -- A registration that `PutReceiver` has written is read back by `Receiver` as it was, or as missing
  -- if it has no socket or no token, unless a system call fails, where the other processes leave the
  -- temporary files of the mailbox and the registration alone.
  pub put_receiver-get_receiver :
      (r : Receiver) (w : World)
      → All (LeavesOurs base receiver_file) w.schedule
      → (put_receiver q t r w).0 ≡ ok tt
      → ((get_receiver q t (put_receiver q t r w).1).0 ≡ registered r)
        ⊎ ((get_receiver q t (put_receiver q t r w).1).0 ≡ err io)
  put_receiver-get_receiver r w l h =
      let (l', k) = (put_receiver_rule r).at w l tt in
      let there : Holding (receiver_node r) (put_receiver q t r w).1.fs =
        subst (λ res. IfOk (λ _. Holding (receiver_node r)) res (put_receiver q t r w).1.fs) h k in
      ((get_receiver_rule r).at (put_receiver q t r w).1 l' there).1
