-- ===== src/Tests/Runs.antt =====
-- The theorems on actions, at concrete worlds.
use agentqueue.Prelude.{
  map, All, codes, [], ◌∷◌, true, false, none, some, ◌≡◌, ◌≢◌, ◌↔◌, refl, pos, ◌≤◌, ◌<◌, ◌*◌,
  length, arith, trim, text_eq, path_eq,
}
use agentqueue.Prelude.Order.{text_le, IsSorted, sort_by}
use agentqueue.Data.{Target, pending, ok}
use agentqueue.Io.{
  makes, move, World, Io, pure, lift, now, attempt, ◌>>=◌, mkdir_all, rename, read_file, read_dir,
}
use agentqueue.Fs
use agentqueue.Fs.{Fs, lookup, join}
use agentqueue.Queue.{
  claim, store, item_ids, target_dir, state_dir, ensure_dirs, item_path, read_item, take_id, list,
}
use agentqueue.Config.{poll}
use agentqueue.Segment.{sanitize}
use agentqueue.Notify.{optional, lock_notification}
use agentqueue.Queue.Frame.{lookup-mkdir_all}
use agentqueue.Queue.Once.{Absent, claim_once, file_of}
use agentqueue.Queue.Store.{store-Atomic, Atomic}
use agentqueue.Transport.{background, context_err, with_timeout}
use agentqueue.Receive.{receive_batch, receive_automatic, take_batch, batch_limit, wait, Batch}
use agentqueue.Receive.Limit.{receive_batch-bounded}
use agentqueue.Receive.Waiting.{wait-filled}
use agentqueue.Receive.Ending.{wait-Ends, Ends}
use agentqueue.Session.{hook_target}
use agentqueue.Item.{parse_target}
use agentqueue.Hook.{claude_output, claim_limit, claim_up_to, handle_claude, is_handled, Output}
use agentqueue.Hook.Answer.{handle_claude-blocks, MayBlock}
use agentqueue.Files.{get_address}
use agentqueue.Address.{targets_by_cwd, cwd_index_dir, cwd_segment, fnv1a, utf8}
use agentqueue.Address.Listing.{targets_by_cwd-IsRegistered, IsRegistered}
use agentqueue.Tests.{
  indexed_world, busy, bob_dir, queue, alice, base, first_id, message, one_message, dirs, world_of,
  host, session, stopping, options,
}

abbrev before : World
before = world_of one_message

abbrev disturbed : World
disturbed = record before { schedule = busy ∷ [] }

harmless :
    (fs : Fs)
    → Absent (file_of base pending first_id) fs
    → Absent (file_of base pending first_id) (move fs (makes bob_dir))
unfolding move
harmless fs h = lookup-mkdir_all bob_dir (file_of base pending first_id) fs none (omega arith) h

claimed_message : (claim queue alice first_id disturbed).0 ≡ ok message
unfolding claim move ◌>>=◌ ensure_dirs target_dir sanitize trim text_eq mkdir_all Fs.mkdir_all join
    lookup path_eq attempt rename Fs.rename item_path read_item read_file Fs.read_file lift pure
    Fs.insert Fs.without
claimed_message = refl

alice_dir : target_dir queue alice ≡ ok base
unfolding target_dir sanitize trim text_eq join
alice_dir = refl

claim_once_example :
    (claim queue alice first_id (claim queue alice first_id disturbed).1).0 ≢ ok message
claim_once_example =
    claim_once queue alice base first_id alice_dir (omega arith) disturbed message message
      ((harmless, tt), tt) claimed_message

nothing_pending : lookup (file_of base pending first_id) dirs ≡ none
unfolding lookup path_eq text_eq
nothing_pending = refl

store-Atomic_example :
    Atomic base message
      (omega arith)
      (store base message (world_of dirs)).0
      (store base message (world_of dirs)).1.fs
store-Atomic_example = store-Atomic base message (omega arith) (world_of dirs) tt nothing_pending

abbrev scan : Io Batch
scan = pure (message ∷ [], none)

waited :
    (wait 1 queue background alice (pos 10) (λ ctx. scan) before).0 ≡ ok (some (message ∷ [], none))
unfolding wait ◌>>=◌ target_dir sanitize trim text_eq join attempt lift pure now poll context_err
    with_timeout
waited = refl

wait-filled_example : message ∷ [] ≢ []
wait-filled_example =
    wait-filled 1 queue background alice (pos 10) (λ ctx. scan) before (message ∷ []) waited

received : (receive_batch host queue background alice (pos 0) [] before).0 ≡ ok (message ∷ [], none)
unfolding receive_batch lock_notification list item_ids state_dir take_batch take_id claim
    batch_limit ◌>>=◌ ensure_dirs target_dir sanitize trim text_eq mkdir_all Fs.mkdir_all join
    lookup path_eq attempt rename Fs.rename item_path read_item read_file Fs.read_file read_dir
    Fs.read_dir sort_by lift pure now context_err Fs.insert
received = refl

receive_batch-bounded_example :
    (length (message ∷ []) ≤ batch_limit (pos 0))
    × (0 < batch_limit (pos 0))
    × (batch_limit (pos 0) ≤ 100)
receive_batch-bounded_example =
    receive_batch-bounded host queue background alice (pos 0) [] before (message ∷ []) none received

abbrev output : Output
output = claude_output session queue alice stopping false (message ∷ [])

handled : (handle_claude session queue stopping options before).0 ≡ ok (some output)
unfolding handle_claude hook_target parse_target claude_output claim_up_to claim_limit
    receive_automatic with_timeout receive_batch lock_notification list item_ids state_dir
    take_batch take_id claim batch_limit ◌>>=◌ ensure_dirs target_dir sanitize trim text_eq
    mkdir_all Fs.mkdir_all join lookup path_eq attempt rename Fs.rename item_path read_item
    read_file Fs.read_file read_dir Fs.read_dir sort_by lift pure now context_err Fs.insert
handled = refl

handle_claude-blocks_example :
    (output.hook_event_name ≡ stopping.hook_event_name)
    × (is_handled stopping.hook_event_name ≡ true)
    × ((output.decision ≡ codes "block") ↔ MayBlock stopping false)
handle_claude-blocks_example =
    handle_claude-blocks session queue stopping options before output handled

alice_listed :
    (targets_by_cwd queue (codes "claude") (codes "/work") indexed_world).0 ≡ ok (alice ∷ [])
unfolding targets_by_cwd cwd_index_dir cwd_segment fnv1a utf8 optional get_address ◌>>=◌ target_dir
    sanitize trim text_eq join lookup path_eq attempt read_file Fs.read_file read_dir Fs.read_dir
    sort_by lift pure
alice_listed = refl

targets_by_cwd-IsRegistered_example :
    IsSorted text_le (map (λ (t : Target). t.name) (alice ∷ []))
    × All (IsRegistered queue (codes "claude") (codes "/work") indexed_world.fs) (alice ∷ [])
targets_by_cwd-IsRegistered_example =
    targets_by_cwd-IsRegistered queue (codes "claude") (codes "/work") indexed_world (alice ∷ []) tt
      alice_listed

in_one_interval : 10 ≤ poll queue * 1
unfolding poll
in_one_interval = omega arith

abbrev idle : Io Batch
idle = pure ([], none)

wait-Ends_example : Ends (wait 1 queue background alice (pos 10) (λ ctx. idle) before)
wait-Ends_example = wait-Ends 1 queue background alice 9 (λ ctx. idle) before in_one_interval
