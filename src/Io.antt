-- ===== src/Io.antt =====
-- What the queue's code runs in: the file system, the clock and the other processes. A run is a
-- function of a schedule that says, for each system call in turn, what the other processes have
-- done to the file system before it, how much time passes, and whether the call fails for a reason
-- that the program cannot see in the file system (a full disk, a permission). A schedule that has
-- run out means that nobody else acts and nothing fails.
pub mod Rules
use mathlib.Core.List.{foldl}
use agentqueue.Prelude.{
  ℕ, zero, suc, ◌+◌, ◌++◌, codes, Text, FilePath, List, [], ◌∷◌, Bool, true, Option, none, some,
  if◌then◌else◌, take, drop, length, leb,
}
use agentqueue.Data.{Error, io, not_exist, Result, ok, err}
use agentqueue.Fs
use agentqueue.Fs.{Fs, Node, file, Content, partial, nothing}
use agentqueue.Item.{zero_padded}

-- What another process does, atomically.
pub data Move : Type 0 where
  writes : FilePath → Node → Move
  makes : FilePath → Move
  renames : FilePath → FilePath → Move
  removes : FilePath → Move

unfoldable pub move : Fs → Move → Fs
move fs (writes p v) = (Fs.put p v fs).1
move fs (makes p) = (Fs.mkdir_all p fs).1
move fs (renames p r) = (Fs.rename p r fs).1
move fs (removes p) = (Fs.remove p fs).1

pub record Slot : Type 0 where
  pub others : List Move
  pub elapsed : ℕ
  pub fails : Bool

-- `random` are the bytes that `rand.Read` will give, and `seed` is where `os.CreateTemp` begins to
-- look for a name.
pub record World : Type 0 where
  pub fs : Fs
  pub time : ℕ
  pub schedule : List Slot
  pub random : List ℕ
  pub seed : ℕ

abbrev pub Io : Type 0 → Type 0
Io A = World → Result A × World

-- A system call; a failing call does `damage` in place of its work.
unfoldable pub syscall : {A : Type 0} → (Fs → Fs) → (Fs → Result A × Fs) → Io A
unfolding move
syscall damage call w = elim w.schedule [
  | [] ↦ let (r, fs) = call w.fs in (r, record w { fs = fs })
  | slot ∷ rest ↦
      let fs = foldl move w.fs slot.others in
      let w' : World = record w { time = w.time + slot.elapsed; schedule = rest } in
      if slot.fails
      then (err io, record w' { fs = damage fs })
      else (let (r, fs') = call fs in (r, record w' { fs = fs' }))
]

abbrev unharmed : Fs → Fs
unharmed fs = fs

unfoldable pub mkdir_all : FilePath → Io (Unit {0})
unfolding syscall
mkdir_all p = syscall unharmed (Fs.mkdir_all p)

unfoldable pub rename : FilePath → FilePath → Io (Unit {0})
unfolding syscall
rename from to = syscall unharmed (Fs.rename from to)

unfoldable pub read_dir : FilePath → Io (List (Text × Bool))
unfolding syscall
read_dir p = syscall unharmed (Fs.read_dir p)

unfoldable pub read_file : FilePath → Io (Bool × Content)
unfolding syscall
read_file p = syscall unharmed (Fs.read_file p)

unfoldable pub remove : FilePath → Io (Unit {0})
unfolding syscall
remove p = syscall unharmed (Fs.remove p)

-- A write that fails may leave a file that does not decode.
unfoldable pub write_file : FilePath → Node → Io (Unit {0})
unfolding syscall
write_file p v = syscall (λ fs. (Fs.put p (file true partial) fs).1) (Fs.put p v)

unfoldable pub pure : {A : Type 0} → A → Io A
pure a w = (ok a, w)

unfoldable pub raise : {A : Type 0} → Error → Io A
raise e w = (err e, w)

unfoldable pub lift : {A : Type 0} → Result A → Io A
lift r w = (r, w)

-- Time passes, and nothing else is asked of the system.
unfoldable pub now : Io ℕ
now w = (ok w.time, w)

abbrev pub continue : {A B : Type 0} → Result A → (A → Io B) → Io B
continue (ok a) f w = f a w
continue (err e) f w = (err e, w)

infixl 5 ◌>>=◌ ◌>>◌
unfoldable pub ◌>>=◌ : {A B : Type 0} → Io A → (A → Io B) → Io B
unfolding pure raise lift now
◌>>=◌ m f w = let (r, w') = m w in continue r f w'

abbrev pub ◌>>◌ : {A B : Type 0} → Io A → Io B → Io B
m >> k = m >>= λ _. k

-- The code that looks at the error of `m`: `f` takes the result, whatever it is.
unfoldable pub attempt : {A B : Type 0} → Io A → (Result A → Io B) → Io B
unfolding pure raise lift now
attempt m f w = let (r, w') = m w in f r w'

-- `rand.Read` into `n` bytes; `none` if it fails.
unfoldable pub read_random : ℕ → Io (Option (List ℕ))
read_random n w =
    if leb n (length w.random)
    then (ok (some (take n w.random)), record w { random = drop n w.random })
    else (ok none, w)

-- The first name of `prefix<n>.tmp`, from `n` on, that is not taken; `os.CreateTemp` gives up after
-- ten thousand of them.
unfoldable pub unused : ℕ → FilePath → Text → ℕ → Fs → Option FilePath
unused zero dir prefix n fs = none
unused (suc fuel) dir prefix n fs =
    let other = unused fuel dir prefix (n + 1) fs in
    let path : FilePath = (prefix ++ zero_padded 1 n ++ codes ".tmp") ∷ dir in
    elim (Fs.lookup path fs) [ none ↦ some path | some _ ↦ other ]

abbrev pub created : FilePath → Option FilePath → Fs → Result FilePath × Fs
created dir none fs = (err io, fs)
created dir (some path) fs =
    if Fs.dir_at dir fs
    then (ok path, Fs.insert path (file true nothing) fs)
    else (err not_exist, fs)

-- `os.CreateTemp(dir, "prefix*.tmp")`: an empty private file under a new name.
unfoldable pub create_temp : FilePath → Text → Io FilePath
unfolding syscall unused
create_temp dir prefix w =
    syscall unharmed (λ fs. created dir (unused 10000 dir prefix w.seed fs) fs)
      (record w { seed = w.seed + 1 })

abbrev pub overwritten : FilePath → Content → Fs → Fs
overwritten path content fs = elim (Fs.lookup path fs) [
  | some (file mode _) ↦ Fs.insert path (file mode content) fs
  | _ ↦ fs
]

-- `Write` to the file that `create_temp` opened at `path`.
unfoldable pub write_temp : FilePath → Content → Io (Unit {0})
unfolding syscall
write_temp path content =
    syscall (overwritten path partial) (λ fs. (ok tt, overwritten path content fs))

-- A call that changes nothing in the model and may fail: `Sync`, `Close`.
unfoldable pub flush : Io (Unit {0})
unfolding syscall
flush = syscall unharmed (λ fs. (ok tt, fs))

-- `os.Chmod` of a directory, whose mode is not modelled.
unfoldable pub chmod_dir : FilePath → Io (Unit {0})
unfolding syscall
chmod_dir p = syscall unharmed (λ fs. ((if Fs.dir_at p fs then ok tt else err not_exist), fs))
