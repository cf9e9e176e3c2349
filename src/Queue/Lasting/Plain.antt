-- ===== src/Queue/Lasting/Plain.antt =====
-- The calls that the queue makes give no file a name with a slash.
use agentqueue.Prelude.{
  Text, codes, FilePath, path_eq, [], ◌∷◌, Bool, true, false, Bool-cases, inl, inr, none, some, ◌≢◌,
  arith, Option-cases, All, All-append, if◌then◌else◌, Option, drop,
}
use agentqueue.Data.{State, Result, ok, err}
use agentqueue.Fs
use agentqueue.Fs.{
  Fs, Node, dir, file, lookup, insert, without, make_dir, mkdir_all, and_then, rename_node, is_dir,
  dir_at, put, remove, children,
}
use agentqueue.Fs.Laws.{NoSlash}
use agentqueue.Queue.Paths.{state_IsSegment}
use agentqueue.Queue.Once.{file_of}
use agentqueue.Queue.Mailbox.Listed.{AllPlain}

pub without-AllPlain : (p : FilePath) (fs : Fs) → AllPlain fs → AllPlain (without p fs)
unfolding without
without-AllPlain p [] h = tt
without-AllPlain p ((k, v) ∷ fs) (h, hs) = elim (Bool-cases (path_eq k p)) [
  | inl e ↦ rw e (without-AllPlain p fs hs)
  | inr e ↦ rw e (h, without-AllPlain p fs hs)
]

pub insert-AllPlain :
    (p : FilePath) (v : Node) (fs : Fs) → All NoSlash p → AllPlain fs → AllPlain (insert p v fs)
unfolding insert
insert-AllPlain p v fs n h = (n, without-AllPlain p fs h)

make_dir-AllPlain :
    (p : FilePath) (fs : Fs) → All NoSlash p → AllPlain fs → AllPlain (make_dir p fs).1
unfolding make_dir
make_dir-AllPlain p fs n h = elim (Option-cases (lookup p fs)) [
  | inl e ↦ rw (e, make_dir) (insert-AllPlain p dir fs n h)
  | inr (dir, e) ↦ rw (e, make_dir) h
  | inr (file mode content, e) ↦ rw (e, make_dir) h
]

-- What holds of the files that both branches of a call leave.
pub if_files :
    (P : Fs → Type 0) (b : Bool) (x y : Result (Unit {0}) × Fs)
    → P x.1
    → P y.1
    → P (if b then x else y).1
if_files P true x y h k = h
if_files P false x y h k = k

and_then-AllPlain :
    (m : Result (Unit {0}) × Fs) (f : Fs → Result (Unit {0}) × Fs)
    → AllPlain m.1
    → ((fs : Fs) → AllPlain fs → AllPlain (f fs).1)
    → AllPlain (and_then m f).1
and_then-AllPlain (ok _, fs) f h k = k fs h
and_then-AllPlain (err e, fs) f h k = h

pub mkdir_all-AllPlain :
    (p : FilePath) (fs : Fs) → All NoSlash p → AllPlain fs → AllPlain (mkdir_all p fs).1
unfolding mkdir_all
mkdir_all-AllPlain [] fs n h = h
mkdir_all-AllPlain (s ∷ p) fs (n, ns) h =
    and_then-AllPlain (mkdir_all p fs) (make_dir (s ∷ p)) (mkdir_all-AllPlain p fs ns h)
      λ fs' h'. make_dir-AllPlain (s ∷ p) fs' (n, ns) h'

rename_node-AllPlain :
    (v : Option Node) (p r : FilePath) (fs : Fs)
    → All NoSlash r
    → AllPlain fs
    → AllPlain (rename_node v p r fs).1
rename_node-AllPlain none p r fs n h = h
rename_node-AllPlain (some dir) p r fs n h = h
rename_node-AllPlain (some (file mode content)) p r fs n h = if_files AllPlain (path_eq p r) _ _ h (
    if_files AllPlain (dir_at (drop 1 r) fs) _ _
      (if_files AllPlain (is_dir (lookup r fs)) _ _ h
        (insert-AllPlain r (file mode content) (without p fs) n (without-AllPlain p fs h)))
      h)

pub rename-AllPlain :
    (p r : FilePath) (fs : Fs) → All NoSlash r → AllPlain fs → AllPlain (Fs.rename p r fs).1
unfolding Fs.rename
rename-AllPlain p r fs = rename_node-AllPlain (lookup p fs) p r fs

pub file_of-plain :
    (base : FilePath) (st : State) (id : Text)
    → All NoSlash base
    → NoSlash id
    → All NoSlash (file_of base st id)
file_of-plain base st id h n =
    (All-append (λ c. c ≢ b'/') id (codes ".json") n (omega arith), ((state_IsSegment st).0, h))
