-- ===== src/Fs.antt =====
-- The part of the file system that the program uses (package os and path/filepath on Unix): a map
-- from cleaned absolute paths to directories and files, and the system calls as functions on it.
-- A file holds a decoded JSON body (`Content`); `partial` is a body that does not decode. What the
-- program never asks for is refused with `io`: the rename of a directory, and a removal of a
-- directory that is not empty.
pub mod Laws
pub mod Calls
use agentqueue.Prelude.{
  Text, codes, FilePath, path_eq, text_eq, List, [], ◌∷◌, ◌++◌, Bool, true, false, ◌||◌, Option,
  none, some, if◌then◌else◌, ◌==◌, is_empty, drop,
}
use agentqueue.Prelude.Order.{text_le, sort_by}
use agentqueue.Data.{Item, Address, Receiver, NotificationStatus, not_exist, io, Result, ok, err}

pub data Content : Type 0 where
  item : Item → Content
  address : Address → Content
  receiver : Receiver → Content
  notification : NotificationStatus → Content
  nothing : Content  -- an empty marker file
  partial : Content

-- The flag of a file: nobody but its owner may read it.
pub data Node : Type 0 where
  dir : Node
  file : Bool → Content → Node

abbrev pub Fs : Type 0
Fs = List (FilePath × Node)

unfoldable pub lookup : FilePath → Fs → Option Node
lookup p [] = none
lookup p ((k, v) ∷ fs) = if path_eq k p then some v else lookup p fs

unfoldable pub without : FilePath → Fs → Fs
without p [] = []
without p ((k, v) ∷ fs) = if path_eq k p then without p fs else (k, v) ∷ without p fs

unfoldable pub insert : FilePath → Node → Fs → Fs
insert p v fs = (p, v) ∷ without p fs

-- `filepath.Join(p, s)`: `s` is split at its slashes, and the result is clean.
unfoldable pub enter : FilePath → Text → FilePath
enter p s =
    if is_empty s || text_eq s (codes ".")
    then p
    else if text_eq s (codes "..")
    then drop 1 p
    else s ∷ p

unfoldable pub walk : FilePath → Text → Text → FilePath
unfolding enter
walk p seen [] = enter p seen
walk p seen (c ∷ s) =
    walk (if c == b'/' then enter p seen else p) (if c == b'/' then [] else seen ++ c ∷ []) s

unfoldable pub join : FilePath → Text → FilePath
unfolding walk
join p s = walk p [] s

-- A path as text.
unfoldable pub path_string : FilePath → Text
path_string [] = codes "/"
path_string (n ∷ []) = codes "/" ++ n
path_string (n ∷ m ∷ p) = path_string (m ∷ p) ++ codes "/" ++ n

abbrev pub is_dir : Option Node → Bool
is_dir (some dir) = true
is_dir _ = false

-- The root directory is there always.
unfoldable pub dir_at : FilePath → Fs → Bool
dir_at [] fs = true
dir_at (n ∷ p) fs = is_dir (lookup (n ∷ p) fs)

unfoldable pub make_dir : FilePath → Fs → Result (Unit {0}) × Fs
make_dir p fs = elim (lookup p fs) [
  | none ↦ (ok tt, insert p dir fs)
  | some dir ↦ (ok tt, fs)
  | some (file _ _) ↦ (err io, fs)
]

abbrev pub and_then :
    Result (Unit {0}) × Fs → (Fs → Result (Unit {0}) × Fs) → Result (Unit {0}) × Fs
and_then (ok _, fs) f = f fs
and_then (err e, fs) f = (err e, fs)

-- `os.MkdirAll`.
unfoldable pub mkdir_all : FilePath → Fs → Result (Unit {0}) × Fs
unfolding make_dir
mkdir_all [] fs = (ok tt, fs)
mkdir_all (n ∷ p) fs = and_then (mkdir_all p fs) (make_dir (n ∷ p))

-- A file is put at `p`: its directory must be there, and `p` be no directory.
unfoldable pub put : FilePath → Node → Fs → Result (Unit {0}) × Fs
unfolding dir_at
put p v fs =
    if dir_at (drop 1 p) fs
    then (if is_dir (lookup p fs) then (err io, fs) else (ok tt, insert p v fs))
    else (err not_exist, fs)

-- `os.Rename` of a file; it replaces a file at `to`.
abbrev pub rename_node : Option Node → FilePath → FilePath → Fs → Result (Unit {0}) × Fs
rename_node none from to fs = (err not_exist, fs)
rename_node (some dir) from to fs = (err io, fs)
rename_node (some (file mode content)) from to fs =
    if path_eq from to
    then (ok tt, fs)
    else if dir_at (drop 1 to) fs
    then (if is_dir (lookup to fs)
        then (err io, fs)
        else (ok tt, insert to (file mode content) (without from fs)))
    else (err not_exist, fs)

unfoldable pub rename : FilePath → FilePath → Fs → Result (Unit {0}) × Fs
unfolding dir_at
rename from to fs = rename_node (lookup from fs) from to fs

-- The entries of a directory, each with whether it is a directory itself.
unfoldable pub children : FilePath → Fs → List (Text × Bool)
children p [] = []
children p (([], v) ∷ fs) = children p fs
children p ((n ∷ d, v) ∷ fs) =
    if path_eq d p then (n, is_dir (some v)) ∷ children p fs else children p fs

abbrev pub entry_le : Text × Bool → Text × Bool → Bool
entry_le (a, _) (b, _) = text_le a b

-- `os.ReadDir`, whose entries are sorted by name.
unfoldable pub read_dir : FilePath → Fs → Result (List (Text × Bool)) × Fs
unfolding dir_at children
read_dir p fs =
    if dir_at p fs
    then (ok (sort_by entry_le (children p fs)), fs)
    else elim (lookup p fs) [ none ↦ (err not_exist, fs) | some _ ↦ (err io, fs) ]

-- `os.ReadFile`, with the mode that `os.Stat` finds.
unfoldable pub read_file : FilePath → Fs → Result (Bool × Content) × Fs
read_file p fs = elim (lookup p fs) [
  | none ↦ (err not_exist, fs)
  | some dir ↦ (err io, fs)
  | some (file mode content) ↦ (ok (mode, content), fs)
]

-- `os.Remove` of a file, or of a directory that is empty.
unfoldable pub remove : FilePath → Fs → Result (Unit {0}) × Fs
unfolding children
remove p fs = elim (lookup p fs) [
  | none ↦ (err not_exist, fs)
  | some dir ↦ if is_empty (children p fs) then (ok tt, without p fs) else (err io, fs)
  | some (file _ _) ↦ (ok tt, without p fs)
]
