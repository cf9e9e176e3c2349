-- ===== src/Address.antt =====
-- address.go: where a session can be reached, the index by working directory, and the summary of
-- the mailboxes.
pub mod Segment
pub mod Listing
use Prim.Native.Nat.{bit_xor}
use agentqueue.Prelude.{
  ℕ, zero, suc, ◌+◌, ◌-◌, ◌*◌, ◌/◌, ◌%◌, ◌^◌, ltb, Text, codes, FilePath, trim, text_eq, is_empty,
  drop, List, [], ◌∷◌, ◌++◌, length, Bool, true, not, ◌||◌, Option, none, some, if◌then◌else◌, ◌==◌,
}
use agentqueue.Prelude.Order.{text_le, sort_by}
use agentqueue.Data.{
  Target, target_string, State, pending, claimed, done, Address, address_target, invalid_target,
  is_not_exist, Result, ok, err,
}
use agentqueue.Data
use agentqueue.Item.{hex_digit}
use agentqueue.Segment.{sanitize}
use agentqueue.Fs.{address, nothing, file, join}
use agentqueue.Io.{
  Io, mkdir_all, rename, read_dir, remove, write_file, create_temp, write_temp, flush, pure, raise,
  lift, now, attempt, ◌>>=◌, ◌>>◌,
}
use agentqueue.Queue.{target_dir, ensure_dirs, item_ids, tmp_dir_name, truncate_to}
use agentqueue.Config.{Queue}
use agentqueue.Files.{finally_remove, addr_file, secure_root, remove_receiver, get_address}
use agentqueue.Notify.{optional}
use agentqueue.Transport.{second}

-- The bytes of a code point in UTF-8.
unfoldable pub rune_bytes : ℕ → List ℕ
rune_bytes c =
    if ltb c 128
    then c ∷ []
    else if ltb c 2048
    then (0xc0 + c / 64) ∷ (0x80 + c % 64) ∷ []
    else if ltb c 65536
    then (0xe0 + c / 4096) ∷ (0x80 + c / 64 % 64) ∷ (0x80 + c % 64) ∷ []
    else (0xf0 + c / 262144) ∷ (0x80 + c / 4096 % 64) ∷ (0x80 + c / 64 % 64) ∷ (0x80 + c % 64) ∷ []

unfoldable pub utf8 : Text → List ℕ
unfolding rune_bytes
utf8 [] = []
utf8 (c ∷ s) = rune_bytes c ++ utf8 s

-- `fnv.New64a`: the 64-bit FNV-1a hash.
unfoldable pub fnv1a : ℕ → List ℕ → ℕ
fnv1a h [] = h
fnv1a h (b ∷ bs) = fnv1a (bit_xor h b * 1099511628211 % 2 ^ 64) bs

-- The last `width` hexadecimal digits of `n`, which is `%016x` for a 64-bit number.
unfoldable pub last_hex : ℕ → ℕ → Text
last_hex zero n = []
last_hex (suc width) n = last_hex width (n / 16) ++ hex_digit (n % 16) ∷ []

abbrev pub max_cwd_segment : ℕ
max_cwd_segment = 80

-- The last `max_cwd_segment` bytes of a sanitised text.
unfoldable pub tail_segment : Text → Text
tail_segment s = if ltb max_cwd_segment (length s) then drop (length s - max_cwd_segment) s else s

unfoldable pub cwd_segment : Text → Result Text
unfolding tail_segment last_hex
cwd_segment cwd =
    let cwd' = trim cwd in
    if is_empty cwd'
    then err invalid_target
    else Data.◌>>=◌ (sanitize cwd') λ readable.
      ok (
        tail_segment readable
        ++ (codes "-" ++ last_hex 16 (fnv1a 14695981039346656037 (utf8 cwd'))))

abbrev pub by_cwd_dir_name : Text
by_cwd_dir_name = codes "_by_cwd"

-- `Queue.cwdIndexDir`.
unfoldable pub cwd_index_dir : Queue → Text → Text → Result FilePath
unfolding cwd_segment
cwd_index_dir q agent cwd =
    Data.◌>>=◌ (sanitize agent)
      λ a. Data.◌>>=◌ (cwd_segment cwd) λ seg. ok (join (join (join q.root a) by_cwd_dir_name) seg)

-- The index entry of a session with a working directory.
unfoldable pub index_address : Queue → Address → Io (Unit {0})
index_address q a = if is_empty a.cwd then pure tt else do
  dir ← lift (cwd_index_dir q a.agent a.cwd)
  mkdir_all dir
  name ← lift (sanitize a.name)
  write_file (join dir name) (file true nothing)

-- `PutAddress` behind its temporary file, which is filled and renamed to the address file.
unfoldable pub publish_address : Queue → FilePath → Address → FilePath → Io (Unit {0})
unfolding index_address
publish_address q base a path = do
  write_temp path (address a)
  flush
  rename path (join base addr_file)
  index_address q a

-- `Queue.PutAddress`. The deferred removal of the temporary file finds it renamed, or gone.
unfoldable pub put_address : Queue → Address → Io (Unit {0})
unfolding publish_address
put_address q a = do
  base ← ensure_dirs q (address_target a)
  secure_root q
  time ← now
  let stamped = truncate_to second (if a.updated_at == 0 then q.now time else a.updated_at)
  let a' : Address = record a { updated_at = stamped }
  path ← create_temp (join base tmp_dir_name) (codes "addr-")
  finally_remove path (publish_address q base a' path)

-- The removal of the index entry: the directory goes with its last session.
unfoldable pub remove_index : Queue → Target → Text → Io (Unit {0})
remove_index q t cwd = do
  dir ← lift (cwd_index_dir q t.agent cwd)
  name ← lift (sanitize t.name)
  attempt (remove (join dir name)) λ r. elim r [
    | ok _ ↦ attempt (remove dir) (λ _. pure tt)
    | err e ↦ if is_not_exist e then attempt (remove dir) (λ _. pure tt) else raise e
  ]

-- `Queue.RemoveAddress`.
unfoldable pub remove_address : Queue → Target → Io (Unit {0})
unfolding remove_index
remove_address q t = do
  base ← lift (target_dir q t)
  addr ← optional (get_address q t)
  attempt (remove (join base addr_file))
      λ r. elim r [ ok _ ↦ pure tt | err e ↦ if is_not_exist e then pure tt else raise e ]
  remove_receiver q t
  elim addr [ none ↦ pure tt | some a ↦ if is_empty a.cwd then pure tt else remove_index q t a.cwd ]

-- An entry counts if the session's address still names the directory.
abbrev pub matching : Text → Target → Io (List Target) → Option Address → Io (List Target)
matching cwd t rest none = rest
matching cwd t rest (some a) = if text_eq a.cwd cwd then (do ts ← rest; pure (t ∷ ts)) else rest

-- The loop of `TargetsByCwd` over the index entries.
unfoldable pub targets_of : Queue → Text → Text → List (Text × Bool) → Io (List Target)
targets_of q agent cwd [] = pure []
targets_of q agent cwd ((name, is_dir) ∷ entries) =
    let rest = targets_of q agent cwd entries in
    if is_dir then rest else do
      addr ← optional (get_address q (record { agent = agent; name = name }))
      matching cwd (record { agent = agent; name = name }) rest addr

abbrev pub name_le : Target → Target → Bool
name_le a b = text_le a.name b.name

-- A directory that is not indexed has no targets.
abbrev pub indexed : Queue → Text → Text → Result (List (Text × Bool)) → Io (List Target)
indexed q agent cwd (err e) = if is_not_exist e then pure [] else raise e
indexed q agent cwd (ok entries) = do ts ← targets_of q agent cwd entries; pure (sort_by name_le ts)

-- `Queue.TargetsByCwd`.
unfoldable pub targets_by_cwd : Queue → Text → Text → Io (List Target)
unfolding targets_of
targets_by_cwd q agent cwd = do
  dir ← lift (cwd_index_dir q agent cwd)
  attempt (read_dir dir) (indexed q agent cwd)

pub record Mailbox : Type 0 where
  pub target : Target
  pub pending : ℕ
  pub claimed : ℕ
  pub done : ℕ
  pub address : Option Address

-- The summary of one target; an address that cannot be read is left out.
unfoldable pub summarize : Queue → Target → Io Mailbox
summarize q t = do
  p ← item_ids q t State.pending
  c ← item_ids q t State.claimed
  d ← item_ids q t State.done
  attempt (get_address q t) λ r. pure (record {
    target = t;
    pending = length p;
    claimed = length c;
    done = length d;
    address = elim r [ ok a ↦ some a | err _ ↦ none ];
  })

-- The loop of `Mailboxes` over the entries of one agent.
unfoldable pub boxes_of : Queue → Text → List (Text × Bool) → Io (List Mailbox)
unfolding summarize
boxes_of q agent [] = pure []
boxes_of q agent ((name, is_dir) ∷ entries) =
    let rest = boxes_of q agent entries in
    if not is_dir || text_eq name by_cwd_dir_name then rest else do
      box ← summarize q (record { agent = agent; name = name })
      boxes ← rest
      pure (box ∷ boxes)

-- The loop of `Mailboxes` over the agents.
unfoldable pub boxes_of_agents : Queue → List Text → Io (List Mailbox)
unfolding boxes_of
boxes_of_agents q [] = pure []
boxes_of_agents q (a ∷ as') =
    let rest = boxes_of_agents q as' in
    attempt (read_dir (join q.root a)) λ r. elim r [
      | err e ↦ if is_not_exist e then rest else raise e
      | ok entries ↦ do boxes ← boxes_of q a entries; others ← rest; pure (boxes ++ others)
    ]

unfoldable pub dirs_of : List (Text × Bool) → List Text
dirs_of [] = []
dirs_of ((name, is_dir) ∷ entries) = if is_dir then name ∷ dirs_of entries else dirs_of entries

-- `Queue.agentDirs`.
unfoldable pub agent_dirs : Queue → Text → Io (List Text)
unfolding dirs_of
agent_dirs q agent =
    if is_empty (trim agent)
    then (attempt (read_dir q.root) λ r. elim r [
      | err e ↦ if is_not_exist e then pure [] else raise e
      | ok entries ↦ pure (sort_by text_le (dirs_of entries))
    ])
    else (do a ← lift (sanitize agent); pure (a ∷ []))

abbrev pub box_le : Mailbox → Mailbox → Bool
box_le a b = text_le (target_string a.target) (target_string b.target)

-- `Queue.Mailboxes`.
unfoldable pub mailboxes : Queue → Text → Io (List Mailbox)
unfolding agent_dirs boxes_of_agents
mailboxes q agent = do
  names ← agent_dirs q agent
  boxes ← boxes_of_agents q names
  pure (sort_by box_le boxes)
