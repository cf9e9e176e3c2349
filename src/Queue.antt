-- ===== src/Queue.antt =====
-- queue.go: the directories of a target and the operations on items. An operation is an action of
-- `Io`; `TakeNext` rescans on fuel.
pub mod Paths
pub mod Frame
pub mod Once
pub mod Store
pub mod Acked
pub mod Sorted
pub mod Kept
pub mod Lasting
pub mod Progress
pub mod Quiet
pub mod Mailbox
use agentqueue.Prelude.{
  ℕ, zero, suc, ◌-◌, ◌%◌, ◌^◌, Text, codes, FilePath, trim, is_empty, cut_suffix, List, [], ◌∷◌,
  ◌++◌, Bool, false, Option, none, some, if◌then◌else◌,
}
use agentqueue.Prelude.Order.{text_le, sort_by}
use agentqueue.Data.{
  Target, State, pending, claimed, done, state_string, Item, not_found, empty, malformed,
  is_not_found, is_not_exist, Result, ok, err,
}
use agentqueue.Data
use agentqueue.Item.{new_id}
use agentqueue.Segment.{sanitize}
use agentqueue.Fs.{Content, item, address, receiver, notification, nothing, partial, file, join}
use agentqueue.Io.{
  Io, mkdir_all, rename, read_dir, read_file, remove, write_file, pure, raise, lift, now,
  read_random, attempt, ◌>>=◌, ◌>>◌,
}
use agentqueue.Config.{Queue}

abbrev pub tmp_dir_name : Text
tmp_dir_name = codes "tmp"

unfoldable pub target_dir : Queue → Target → Result FilePath
target_dir q t =
    Data.◌>>=◌ (sanitize t.agent)
      λ agent. Data.◌>>=◌ (sanitize t.name) λ name. ok (join (join q.root agent) name)

unfoldable pub state_dir : Queue → Target → State → Result FilePath
unfolding target_dir
state_dir q t st = Data.◌>>=◌ (target_dir q t) λ base. ok (join base (state_string st))

unfoldable pub make_all : FilePath → List Text → Io (Unit {0})
make_all base [] = pure tt
make_all base (sub ∷ subs) = do mkdir_all (join base sub); make_all base subs

unfoldable pub ensure_dirs : Queue → Target → Io FilePath
unfolding make_all
ensure_dirs q t = do
  base ← lift (target_dir q t)
  make_all base
      (state_string pending ∷ state_string claimed ∷ state_string done ∷ tmp_dir_name ∷ [])
  pure base

-- `filepath.Join(base, st.String(), id+".json")`.
unfoldable pub item_path : FilePath → State → Text → FilePath
item_path base st id = join (join base (state_string st)) (id ++ codes ".json")

unfoldable pub tmp_path : FilePath → Text → FilePath
tmp_path base id = join (join base tmp_dir_name) (id ++ codes ".json.tmp")

-- `Truncate(time.Millisecond)`.
abbrev pub truncate_to : ℕ → ℕ → ℕ
truncate_to d t = t - t % d

-- The rename that publishes an item; if it fails, the temporary file goes.
abbrev published : FilePath → Item → Result (Unit {0}) → Io Item
published tmp it (ok _) = pure it
published tmp it (err e) = attempt (remove tmp) (λ _. raise e)

unfoldable pub publish : FilePath → Item → Io Item
unfolding item_path tmp_path
publish base it =
    attempt (rename (tmp_path base it.id) (item_path base pending it.id))
      (published (tmp_path base it.id) it)

-- The write to `tmp/`, then the rename, so that a reader never observes a partial file.
unfoldable pub store : FilePath → Item → Io Item
unfolding publish
store base it = do write_file (tmp_path base it.id) (file false (item it)); publish base it

-- `Queue.Push`.
unfoldable pub push : Queue → Target → Text → List (Text × Text) → Io Item
unfolding store
push q t text meta = do
  base ← ensure_dirs q t
  random ← read_random 6
  time ← now
  let it : Item = record {
    id = new_id time random;
    target = t;
    text = text;
    meta = meta;
    created_at = truncate_to (10 ^ 6) (q.now time);
  }
  store base it

-- The names of the entries that are no directories and end in `.json`, without that suffix.
unfoldable pub ids_of : List (Text × Bool) → List Text
unfolding cut_suffix
ids_of [] = []
ids_of ((name, is_dir) ∷ entries) =
    if is_dir then ids_of entries else elim (cut_suffix name (codes ".json")) [
      | none ↦ ids_of entries
      | some id ↦ id ∷ ids_of entries
    ]

-- A directory that is not there has no items.
abbrev pub listed : Result (List (Text × Bool)) → Io (List Text)
listed (ok entries) = pure (sort_by text_le (ids_of entries))
listed (err e) = if is_not_exist e then pure [] else raise e

unfoldable pub item_ids : Queue → Target → State → Io (List Text)
unfolding ids_of
item_ids q t st = do dir ← lift (state_dir q t st); attempt (read_dir dir) listed

abbrev pub zero_item : Item
zero_item = record {
  id = [];
  target = record { agent = []; name = [] };
  text = [];
  meta = [];
  created_at = 0;
}

-- `json.Unmarshal` into an `Item`: a body of another kind leaves the fields that it lacks at zero.
unfoldable pub decode_item : Content → Result Item
decode_item (item it) = ok it
decode_item (address a) = ok zero_item
decode_item (receiver r) = ok zero_item
decode_item (notification s) = ok (record zero_item { id = s.id })
decode_item nothing = err malformed
decode_item partial = err malformed

abbrev decode_read : Result (Bool × Content) → Io Item
decode_read (ok (_, content)) = lift (decode_item content)
decode_read (err e) = raise (if is_not_exist e then not_found else e)

unfoldable pub read_item : FilePath → Io Item
unfolding decode_item
read_item path = attempt (read_file path) decode_read

-- The loop of `List`: a file that cannot be read is skipped.
unfoldable pub read_all : FilePath → List Text → Io (List Item)
read_all dir [] = pure []
read_all dir (id ∷ ids) =
    attempt (read_item (join dir (id ++ codes ".json")))
      λ r. do items ← read_all dir ids; pure (elim r [ ok it ↦ it ∷ items | err _ ↦ items ])

-- `Queue.List`.
unfoldable pub list : Queue → Target → State → Io (List Item)
unfolding read_all
list q t st = do dir ← lift (state_dir q t st); ids ← item_ids q t st; read_all dir ids

-- What `claim` does behind its rename: a failure means that another consumer won the race.
unfoldable pub after_rename : FilePath → Result (Unit {0}) → Io Item
after_rename to (ok _) = read_item to
after_rename to (err e) = raise (if is_not_exist e then not_found else e)

-- `Queue.claim`.
unfoldable pub claim : Queue → Target → Text → Io Item
unfolding after_rename
claim q t id = do
  base ← ensure_dirs q t
  attempt (rename (item_path base pending id) (item_path base claimed id))
      (after_rename (item_path base claimed id))

-- What follows a claim in a pass of `TakeNext`: an item that someone else took is passed over.
abbrev pub took : Io (Option Item) → Result Item → Io (Option Item)
took next (ok it) = pure (some it)
took next (err e) = if is_not_found e then next else raise e

-- One pass of `TakeNext` over the ids; `none` if every one was taken by someone else.
unfoldable pub take_first : Queue → Target → List Text → Io (Option Item)
take_first q t [] = pure none
take_first q t (id ∷ ids) = let next = take_first q t ids in attempt (claim q t id) (took next)

-- What follows a pass: a rescan if every id was taken by someone else.
abbrev pub unless_taken : Io (Option Item) → Option Item → Io (Option Item)
unless_taken again none = again
unless_taken again (some it) = pure (some it)

-- `Queue.TakeNext`, with at most `fuel` scans; `none` if they were not enough.
unfoldable pub take_next : ℕ → Queue → Target → Io (Option Item)
unfolding take_first
take_next zero q t = pure none
take_next (suc fuel) q t = do
  ids ← item_ids q t pending
  if is_empty ids
      then raise empty
      else do taken ← take_first q t ids; unless_taken (take_next fuel q t) taken

-- `Queue.Take`.
unfoldable pub take_id : Queue → Target → Text → Io Item
take_id q t id = if is_empty (trim id) then raise not_found else claim q t id

-- What follows a rename in `Ack`: if there was no file, the next state is tried.
abbrev acked : Io (Unit {0}) → Result (Unit {0}) → Io (Unit {0})
acked next (ok _) = pure tt
acked next (err e) = if is_not_exist e then next else raise e

-- The loop of `Ack` over the states that it tries.
unfoldable pub ack_from : FilePath → Text → List State → Io (Unit {0})
unfolding item_path
ack_from base id [] = raise not_found
ack_from base id (st ∷ sts) =
    let next = ack_from base id sts in
    attempt (rename (item_path base st id) (item_path base done id)) (acked next)

-- `Queue.Ack`.
unfoldable pub ack : Queue → Target → Text → Io (Unit {0})
unfolding ack_from
ack q t id =
    if is_empty (trim id)
    then raise not_found
    else do base ← ensure_dirs q t; ack_from base id (claimed ∷ pending ∷ [])
