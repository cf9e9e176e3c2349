-- ===== src/Tests.antt =====
-- The concrete queue, items and worlds at which the theorems are evaluated.
mod Values
mod Runs
mod Mailboxes
mod Lasting
mod Commands
mod Hooks
mod Receivers
use agentqueue.Prelude.{
  ℕ, ◌*◌, ◌^◌, ◌+◌, ℤ, pos, Text, codes, FilePath, List, [], ◌∷◌, ◌++◌, Bool, true, false, Option,
  none, some,
}
use agentqueue.Data.{
  Address, Target, State, pending, claimed, Item, NotificationStatus, no_notification, not_exist,
  Error, err,
}
use agentqueue.Item.{unix_epoch}
use agentqueue.Fs.{nothing, address, Fs, Node, dir, file, item}
use agentqueue.Io.{World, Slot, Move, writes, makes, pure, raise}
use agentqueue.Config.{Queue}
use agentqueue.Queue.Once.{file_of}
use agentqueue.Transport.{Host, Transport, wake_protocol_version}
use agentqueue.Session.{Session, Payload, Options}

abbrev pub root : FilePath
root = codes "q" ∷ []

abbrev pub queue : Queue
queue = record {
  root = root;
  now = λ t. t;
  fetch_cmd = none;
  ack_cmd = none;
  poll_interval = pos 0;
}

abbrev pub alice : Target
alice = record { agent = codes "claude"; name = codes "alice" }

abbrev pub base : FilePath
base = codes "alice" ∷ codes "claude" ∷ root

abbrev pub first_id : Text
first_id = codes "0000000000001-00"

abbrev pub message : Item
message = record { id = first_id; target = alice; text = codes "hi"; meta = []; created_at = 0 }

-- The directories of alice's mailbox.
abbrev pub dirs : Fs
dirs =
    (codes "tmp" ∷ base, dir)
    ∷ (codes "done" ∷ base, dir)
    ∷ (codes "claimed" ∷ base, dir)
    ∷ (codes "pending" ∷ base, dir)
    ∷ (base, dir)
    ∷ (codes "claude" ∷ root, dir)
    ∷ (root, dir)
    ∷ []

abbrev pub world_of : Fs → World
world_of fs = record { fs = fs; time = unix_epoch; schedule = []; random = []; seed = 0 }

-- Alice has one message.
abbrev pub one_message : Fs
one_message = (file_of base pending first_id, file false (item message)) ∷ dirs

-- Another process makes bob's directory meanwhile.
abbrev pub bob_dir : FilePath
bob_dir = codes "bob" ∷ codes "claude" ∷ root

abbrev pub busy : Slot
busy = record { others = makes bob_dir ∷ []; elapsed = 5; fails = false }

-- Every lock is free, and a digest is the first id.
abbrev pub host : Host
host = record {
  try_lock = λ p ctx. pure true;
  snapshot_id = λ t ids. codes "00000000000000000000000000000000";
}

abbrev pub session : Session
session = record {
  host = host;
  cwd = some (codes "/work");
  cwd_path = codes "work" ∷ [];
  ppid = 7;
  is_agent = λ a. true;
  collect = λ cwd agent name. record { observed_at = 0; git = none; terminal_title = none };
  append_env = λ path text. pure tt;
  rfc3339 = λ t. codes "now";
}

abbrev pub stopping : Payload
stopping = record {
  session_id = codes "alice";
  hook_event_name = codes "SubagentStop";
  cwd = codes "/work";
  permission_mode = [];
  source = [];
  stop_hook_active = false;
}

abbrev pub options : Options
options = record { to = []; max = pos 0; no_block = false; getenv = λ name. [] }

-- A wake that its host queued at time 0.
abbrev pub queued : NotificationStatus
queued = record no_notification {
  wake_protocol = wake_protocol_version;
  coalescing = true;
  id = codes "ab";
  state = codes "queued";
}

-- Where alice can be reached.
abbrev pub alice_address : Address
alice_address = record {
  wake_protocol = wake_protocol_version;
  context = none;
  agent = codes "claude";
  name = codes "alice";
  cwd = codes "/work";
  pid = 7;
  updated_at = 0;
  socket = codes "/s";
  profile = [];
  agent_version = [];
}

abbrev pub addressed : Fs
addressed = (codes "addr.json" ∷ base, file true (address alice_address)) ∷ one_message

-- The index of `/work` names alice.
abbrev pub indexed_dir : FilePath
indexed_dir = codes "_work-1f92008dc8753ba3" ∷ codes "_by_cwd" ∷ codes "claude" ∷ root

abbrev pub indexed_world : World
indexed_world =
    world_of ((codes "alice" ∷ indexed_dir, file true nothing) ∷ (indexed_dir, dir) ∷ addressed)
