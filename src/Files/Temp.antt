-- ===== src/Files/Temp.antt =====
-- A temporary file that becomes another file, among other processes.
use agentqueue.Prelude.{
  ℕ, zero, suc, ◌+◌, Text, codes, FilePath, path_eq, path_eq_iff, ◌∷◌, ◌++◌, Bool, true, false,
  Option, none, some, ◌≡◌, ◌⊎◌, refl, ap, arith, All, All-map, ◌∙◌, Bool-cases, Option-cases, inl,
  inr, drop, length,
}
use agentqueue.Data.{Result, ok, err}
use agentqueue.Fs
use agentqueue.Fs.{
  Fs, Node, dir, file, Content, nothing, partial, is_dir, lookup, insert, without, join,
  rename_node,
}
use agentqueue.Fs.Laws.{lookup-insert, lookup-without, IsSegment}
use agentqueue.Io.{
  Slot, move, create_temp, unused, created, write_temp, overwritten, flush, rename, remove, syscall,
}
use agentqueue.Io.Rules.{Triple, Stable, stable_of_moves, syscall_rule}
use agentqueue.Item.{zero_padded}
use agentqueue.Queue.{tmp_dir_name}

-- What holds of the value and the file system behind an action that succeeds.
abbrev pub IfOk : {A : Type 0} → (A → Fs → Type 0) → Result A → Fs → Type 0
IfOk P (ok a) fs = P a fs
IfOk P (err e) fs = Unit

-- The temporary files of a mailbox and the file that one of them becomes.
abbrev pub IsOurs : FilePath → Text → FilePath → Type 0
IsOurs base name p = (drop 1 p ≡ tmp_dir_name ∷ base) ⊎ (p ≡ name ∷ base)

-- The other processes leave them alone.
abbrev pub LeavesOurs : FilePath → Text → Slot → Type 0
LeavesOurs base name slot =
    All
      (λ mv. (p : FilePath) → IsOurs base name p → (fs : Fs) → lookup p (move fs mv) ≡ lookup p fs)
      slot.others

unused_in :
    (fuel : ℕ) (parent : FilePath) (prefix : Text) (n : ℕ) (fs : Fs) (path : FilePath)
    → unused fuel parent prefix n fs ≡ some path
    → drop 1 path ≡ parent
unfolding unused
unused_in zero parent prefix n fs path h = cc
unused_in (suc fuel) parent prefix n fs path h =
    let p : FilePath = (prefix ++ zero_padded 1 n ++ codes ".tmp") ∷ parent in
    elim (Option-cases (lookup p fs)) [
      | inl k ↦ ground (arith, k, h)
      | inr (v, k) ↦ unused_in fuel parent prefix (n + 1) fs path (ground (arith, k, h))
    ]

-- A system call that looks for a name from the seed on.
seeded_rule :
    {A : Type 0} {Q : Slot → Type 0} {P : Fs → Type 0} {R : Result A → Fs → Type 0}
    (call : ℕ → Fs → Result A × Fs)
    → ((n : ℕ) → Triple Q P R (syscall (λ fs. fs) (call n)))
    → Triple Q P R (λ w. syscall (λ fs. fs) (call w.seed) (record w { seed = w.seed + 1 }))
seeded_rule call k = record { at = λ w q h. (k w.seed).at (record w { seed = w.seed + 1 }) q h }

lookup-overwritten :
    (path : FilePath) (mode : Bool) (c c' : Content) (fs : Fs)
    → lookup path fs ≡ some (file mode c)
    → lookup path (overwritten path c' fs) ≡ some (file mode c')
lookup-overwritten path mode c c' fs h =
    rw (h, overwritten)
      (ground (arith, lookup-insert path path (file mode c') fs, path_eq_iff path path))

pub tmp_IsSegment : IsSegment tmp_dir_name
tmp_IsSegment = (omega arith, λ e. cc, λ e. cc, λ e. cc)

module _ (base : FilePath) (name : Text) where
  pub ours_stable :
      (p : FilePath) (v : Option Node)
      → IsOurs base name p
      → Stable (LeavesOurs base name) (λ fs. lookup p fs ≡ v)
  ours_stable p v o slot q fs h =
      stable_of_moves (λ fs. lookup p fs ≡ v) slot.others fs
        (All-map slot.others (λ mv k fs h. k p o fs ∙ h) q) h

  -- A temporary file that has been made.
  abbrev pub IsNewTemp : FilePath → Fs → Type 0
  IsNewTemp path fs =
      (drop 1 path ≡ tmp_dir_name ∷ base) × (lookup path fs ≡ some (file true nothing))

  not_ours :
      (path : FilePath) → drop 1 path ≡ tmp_dir_name ∷ base → path_eq path (name ∷ base) ≡ false
  not_ours path h = elim (Bool-cases (path_eq path (name ∷ base))) [
    | inr e ↦ e
    | inl e ↦
        let same : base ≡ tmp_dir_name ∷ base =
          cc (ap (drop 1) ((path_eq_iff path (name ∷ base)).0 e), h) in
        absurd (omega (arith, ap length same))
  ]

  found_IsTemp :
      (o : Option FilePath) (fs : Fs)
      → ((path : FilePath) → o ≡ some path → drop 1 path ≡ tmp_dir_name ∷ base)
      → IfOk IsNewTemp (created (tmp_dir_name ∷ base) o fs).0 (created (tmp_dir_name ∷ base) o fs).1
  found_IsTemp none fs k = tt
  found_IsTemp (some path) fs k = elim (Bool-cases (Fs.dir_at (tmp_dir_name ∷ base) fs)) [
    | inr e ↦ rw e tt
    | inl e ↦ rw e (
      k path refl,
      ground (arith, lookup-insert path path (file true nothing) fs, path_eq_iff path path),
    )
  ]

  pub create_temp_rule :
      (prefix : Text)
      → Triple
          (LeavesOurs base name)
          (λ _. Unit {0})
          (IfOk IsNewTemp)
          (create_temp (tmp_dir_name ∷ base) prefix)
  unfolding create_temp
  create_temp_rule prefix =
      seeded_rule {Q = LeavesOurs base name} {P = λ _. Unit {0}} {R = IfOk IsNewTemp} (call 10000)
        λ n.
          syscall_rule (λ fs. fs) (call 10000 n) (λ slot q fs h. tt) (λ fs h. tt)
            λ fs h.
              found_IsTemp (unused 10000 (tmp_dir_name ∷ base) prefix n fs) fs
                λ path. unused_in 10000 (tmp_dir_name ∷ base) prefix n fs path
    where
      call : ℕ → ℕ → Fs → Result FilePath × Fs
      call fuel n fs =
          created (tmp_dir_name ∷ base) (unused fuel (tmp_dir_name ∷ base) prefix n fs) fs

  pub write_temp_rule :
      (c c' : Content) (path : FilePath)
      → drop 1 path ≡ tmp_dir_name ∷ base
      → Triple
          (LeavesOurs base name)
          (λ fs. lookup path fs ≡ some (file true c))
          (IfOk λ _ fs. lookup path fs ≡ some (file true c'))
          (write_temp path c')
  unfolding write_temp
  write_temp_rule c c' path o =
      syscall_rule (overwritten path partial) (λ fs. (ok tt, overwritten path c' fs))
        (ours_stable path _ (inl o)) (λ fs h. tt) (lookup-overwritten path true c c')

  pub flush_rule :
      (path : FilePath) (v : Option Node)
      → IsOurs base name path
      → Triple
          (LeavesOurs base name)
          (λ fs. lookup path fs ≡ v)
          (IfOk λ _ fs. lookup path fs ≡ v)
          flush
  unfolding flush
  flush_rule path v o =
      syscall_rule (λ fs. fs) (λ fs. (ok tt, fs)) (ours_stable path v o) (λ fs h. tt) λ fs h. h

  moved :
      (c : Content) (path : FilePath)
      → drop 1 path ≡ tmp_dir_name ∷ base
      → (fs : Fs) → lookup path fs ≡ some (file true c)
      → IfOk
          (λ _ fs'. lookup (name ∷ base) fs' ≡ some (file true c))
          (Fs.rename path (name ∷ base) fs).0
          (Fs.rename path (name ∷ base) fs).1
  unfolding Fs.rename
  moved c path o fs h =
      rw (h, not_ours path o)
        (elim (Bool-cases (Fs.dir_at base fs)) [
          | inr e ↦ rw e tt
          | inl e ↦ elim (Bool-cases (is_dir (lookup (name ∷ base) fs))) [
            | inl k ↦ rw (e, k) tt
            | inr k ↦
                rw (e, k) ground
                  (
                    arith,
                    lookup-insert (name ∷ base) (name ∷ base) (file true c) (without path fs),
                    path_eq_iff (name ∷ base) (name ∷ base),
                  )
          ]
        ])

  pub rename_rule :
      (c : Content) (path : FilePath)
      → drop 1 path ≡ tmp_dir_name ∷ base
      → Triple
          (LeavesOurs base name)
          (λ fs. lookup path fs ≡ some (file true c))
          (IfOk λ _ fs. lookup (name ∷ base) fs ≡ some (file true c))
          (rename path (name ∷ base))
  unfolding rename
  rename_rule c path o =
      syscall_rule (λ fs. fs) (Fs.rename path (name ∷ base)) (ours_stable path _ (inl o))
        (λ fs h. tt) (moved c path o)

  removed_other :
      (path : FilePath)
      → drop 1 path ≡ tmp_dir_name ∷ base
      → (fs : Fs) → lookup (name ∷ base) (Fs.remove path fs).1 ≡ lookup (name ∷ base) fs
  unfolding Fs.remove
  removed_other path o fs = ground (arith, lookup-without path (name ∷ base) fs, not_ours path o)

  pub remove_rule :
      (v : Option Node) (path : FilePath)
      → drop 1 path ≡ tmp_dir_name ∷ base
      → Triple
          (LeavesOurs base name)
          (λ fs. lookup (name ∷ base) fs ≡ v)
          (λ _ fs. lookup (name ∷ base) fs ≡ v)
          (remove path)
  unfolding remove
  remove_rule v path o =
      syscall_rule (λ fs. fs) (Fs.remove path) (ours_stable (name ∷ base) v (inr refl)) (λ fs h. h)
        λ fs h. removed_other path o fs ∙ h
