-- ===== src/Queue/Quiet.antt =====
-- Runs that no other process disturbs and in which no call fails: the schedule has run out.
use agentqueue.Prelude.{
  ℕ, ◌+◌, ◌<◌, ◌≤◌, Text, FilePath, path_eq, path_eq_iff, Bool-cases, inl, inr, some, List, [], ◌∷◌,
  ◌≡◌, ◌∙◌, refl, ap, arith, All, false, length,
}
use agentqueue.Data.{Target, pending, claimed, done, state_string, Result, ok}
use agentqueue.Fs
use agentqueue.Fs.{Fs, Node, dir, lookup, insert, without, make_dir}
use agentqueue.Fs.Laws.{lookup-insert, lookup-without, IsSegment, join_segment}
use agentqueue.Io.{World, Io, syscall, pure, lift, attempt, ◌>>=◌, mkdir_all}
use agentqueue.Queue.{target_dir, make_all, ensure_dirs, tmp_dir_name}
use agentqueue.Config.{Queue}
use agentqueue.Queue.Paths.{state_IsSegment}

-- The world with another file system.
abbrev pub with_fs : World → Fs → World
with_fs w fs = record w { fs = fs }

-- Nobody else acts, and no call fails.
abbrev pub IsQuiet : World → Type 0
IsQuiet w = w.schedule ≡ []

pub syscall_quiet :
    {A : Type 0} (damage : Fs → Fs) (call : Fs → Result A × Fs) (w : World)
    → IsQuiet w
    → syscall damage call w ≡ ((call w.fs).0, with_fs w (call w.fs).1)
unfolding syscall
syscall_quiet damage call w h = rw h

module _ {A B : Type 0} where
  pub bind_ok :
      (m : Io A) (f : A → Io B) (w w' : World) (a : A) → m w ≡ (ok a, w') → (m >>= f) w ≡ f a w'
  unfolding ◌>>=◌
  bind_ok m f w w' a h = rw h

  pub attempt_as :
      (m : Io A) (f : Result A → Io B) (w w' : World) (r : Result A)
      → m w ≡ (r, w')
      → attempt m f w ≡ f r w'
  unfolding attempt
  attempt_as m f w w' r h = rw h

-- The path and every directory above it are there.
abbrev pub Clear : FilePath → Fs → Type 0
Clear [] fs = Unit
Clear (n ∷ p) fs = (lookup (n ∷ p) fs ≡ some dir) × Clear p fs

make_dir_there : (p : FilePath) (fs : Fs) → lookup p fs ≡ some dir → make_dir p fs ≡ (ok tt, fs)
unfolding make_dir
make_dir_there p fs h = rw (h, make_dir)

mkdir_all-Clear : (p : FilePath) (fs : Fs) → Clear p fs → Fs.mkdir_all p fs ≡ (ok tt, fs)
unfolding Fs.mkdir_all
mkdir_all-Clear [] fs h = refl
mkdir_all-Clear (n ∷ p) fs (h, c) = rw (mkdir_all-Clear p fs c) (make_dir_there (n ∷ p) fs h)

pub longer_ne : (r p : FilePath) → length p < length r → path_eq r p ≡ false
longer_ne r p h = elim (Bool-cases (path_eq r p)) [
  | inl e ↦ absurd (omega (arith, ap length ((path_eq_iff r p).0 e)))
  | inr e ↦ e
]

-- The two file systems agree on every path that is no longer than `depth`.
abbrev pub AgreeAbove : ℕ → Fs → Fs → Type 0
AgreeAbove depth fs fs' = (p : FilePath) → length p ≤ depth → lookup p fs' ≡ lookup p fs

pub insert-AgreeAbove :
    (depth : ℕ) (r : FilePath) (v : Node) (fs : Fs)
    → depth < length r
    → AgreeAbove depth fs (insert r v fs)
insert-AgreeAbove depth r v fs h p k =
    lookup-insert r p v fs ∙ rw (longer_ne r p (omega (arith, h, k)))

pub without-AgreeAbove :
    (depth : ℕ) (r : FilePath) (fs : Fs) → depth < length r → AgreeAbove depth fs (without r fs)
without-AgreeAbove depth r fs h p k =
    lookup-without r p fs ∙ rw (longer_ne r p (omega (arith, h, k)))

Clear-AgreeAbove :
    (depth : ℕ) (p : FilePath) (fs fs' : Fs)
    → AgreeAbove depth fs fs'
    → length p ≤ depth
    → Clear p fs
    → Clear p fs'
Clear-AgreeAbove depth [] fs fs' a l h = tt
Clear-AgreeAbove depth (n ∷ p) fs fs' a l (h, c) =
    (a (n ∷ p) l ∙ h, Clear-AgreeAbove depth p fs fs' a (omega (arith, l)) c)

abbrev pub sub_dirs : List Text
sub_dirs = state_string pending ∷ state_string claimed ∷ state_string done ∷ tmp_dir_name ∷ []

abbrev HasDirs : FilePath → List Text → Fs → Type 0
HasDirs base subs fs = All (λ sub. lookup (sub ∷ base) fs ≡ some dir) subs

-- A mailbox that has its directories.
abbrev pub Ready : FilePath → Fs → Type 0
Ready base fs = Clear base fs × HasDirs base sub_dirs fs

HasDirs-AgreeAbove :
    (base : FilePath) (subs : List Text) (fs fs' : Fs)
    → AgreeAbove (length base + 1) fs fs'
    → HasDirs base subs fs
    → HasDirs base subs fs'
HasDirs-AgreeAbove base [] fs fs' a h = tt
HasDirs-AgreeAbove base (sub ∷ subs) fs fs' a (h, hs) =
    (a (sub ∷ base) (omega arith) ∙ h, HasDirs-AgreeAbove base subs fs fs' a hs)

pub Ready-AgreeAbove :
    (base : FilePath) (fs fs' : Fs)
    → AgreeAbove (length base + 1) fs fs'
    → Ready base fs
    → Ready base fs'
Ready-AgreeAbove base fs fs' a (c, d) = (
  Clear-AgreeAbove (length base + 1) base fs fs' a (omega arith) c,
  HasDirs-AgreeAbove base sub_dirs fs fs' a d,
)

mkdir_all-Ready :
    (base : FilePath) (sub : Text) (w : World)
    → IsQuiet w
    → IsSegment sub
    → Clear (sub ∷ base) w.fs
    → mkdir_all (Fs.join base sub) w ≡ (ok tt, w)
unfolding mkdir_all
mkdir_all-Ready base sub w q s c =
    syscall_quiet (λ fs. fs) (Fs.mkdir_all (Fs.join base sub)) w q
    ∙ rw (join_segment base sub s, mkdir_all-Clear (sub ∷ base) w.fs c)

make_all-Ready :
    (base : FilePath) (subs : List Text) (w : World)
    → IsQuiet w
    → All IsSegment subs
    → Clear base w.fs
    → HasDirs base subs w.fs
    → make_all base subs w ≡ (ok tt, w)
unfolding make_all pure
make_all-Ready base [] w q s c d = refl
make_all-Ready base (sub ∷ subs) w q (s, ss) c (d, ds) =
    bind_ok _ _ w w tt (mkdir_all-Ready base sub w q s (d, c))
    ∙ make_all-Ready base subs w q ss c ds

sub_dirs-segments : All IsSegment sub_dirs
sub_dirs-segments = (
  state_IsSegment pending,
  (state_IsSegment claimed, (state_IsSegment done, ((omega arith, λ e. cc, λ e. cc, λ e. cc), tt))),
)

-- `ensureDirs` finds the directories that are there.
pub ensure_dirs-Ready :
    (q : Queue) (t : Target) (base : FilePath) (w : World)
    → target_dir q t ≡ ok base
    → IsQuiet w
    → Ready base w.fs
    → ensure_dirs q t w ≡ (ok base, w)
unfolding ensure_dirs lift pure
ensure_dirs-Ready q t base w e quiet (c, d) =
    bind_ok _ _ w w base (rw e refl)
    ∙ bind_ok _ _ w w tt (make_all-Ready base sub_dirs w quiet sub_dirs-segments c d)
