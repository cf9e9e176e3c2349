-- ===== src/Fs/Calls.antt =====
-- What a removal and a read do, by what is at the path.
use agentqueue.Prelude.{Bool, FilePath, is_empty, none, some, if◌then◌else◌, ◌≡◌, refl}
use agentqueue.Data.{io, not_exist, ok, err}
use agentqueue.Fs
use agentqueue.Fs.{Fs, dir, file, Content, lookup, without}

pub remove-none :
    (p : FilePath) (fs : Fs) → lookup p fs ≡ none → Fs.remove p fs ≡ (err not_exist, fs)
unfolding Fs.remove
remove-none p fs h = rw (h, Fs.remove) refl

pub remove-file :
    (p : FilePath) (fs : Fs) (mode : Bool) (c : Content)
    → lookup p fs ≡ some (file mode c)
    → Fs.remove p fs ≡ (ok tt, without p fs)
unfolding Fs.remove
remove-file p fs mode c h = rw (h, Fs.remove) refl

pub remove-dir :
    (p : FilePath) (fs : Fs)
    → lookup p fs ≡ some dir
    → Fs.remove p fs ≡ (if is_empty (Fs.children p fs) then (ok tt, without p fs) else (err io, fs))
unfolding Fs.remove
remove-dir p fs h = rw (h, Fs.remove) refl

pub read-none :
    (p : FilePath) (fs : Fs) → lookup p fs ≡ none → Fs.read_file p fs ≡ (err not_exist, fs)
unfolding Fs.read_file
read-none p fs h = rw (h, Fs.read_file) refl

pub read-some :
    (p : FilePath) (fs : Fs) (mode : Bool) (c : Content)
    → lookup p fs ≡ some (file mode c)
    → Fs.read_file p fs ≡ (ok (mode, c), fs)
unfolding Fs.read_file
read-some p fs mode c h = rw (h, Fs.read_file) refl
