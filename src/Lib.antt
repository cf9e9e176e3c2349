-- ===== src/Lib.antt =====
-- agentqueue: a file-backed message queue for coding agents.
--
-- A queue is a directory. Each target `agent:name` has a mailbox in it with the directories
-- `pending/`, `claimed/`, `done/` and `tmp/`; an item is one JSON file that is renamed from one of
-- them to the next. Any number of processes work on the directory at once, and only renames and, for
-- wakes, a lock file keep them apart. Beside the items a mailbox holds the address of its session, a
-- private receiver registration and the durable state of the last wake.
--
-- Which module models which part:
--   Prelude, Data     shared helpers; the stored records, the errors and results
--   Fs, Fs/Laws       directories and files as a map from paths, with the calls that the code makes
--   Io, Io/Rules      actions: runs under a schedule of other processes; a Hoare logic for them
--   Item              item.go: ParseTarget, ParseState, newID, and their String methods
--   Segment           sanitizeSegment of queue.go
--   Config            queue.go: the fields of Queue, Open and its options, FetchCmd, AckCmd
--   Queue             queue.go: Push, List, claim, TakeNext, Take, Ack, and the paths of items
--   Files             writePrivateJSON (notifications.go), receiver.go, Queue.Address and secureRoot
--   Transport         transport.go: Notice, Transport, Register, Lookup, Agents
--   Wake              notifications.go: the recorded state of a wake and its changes
--   Notify            notifications.go: notifyPending; Notify and PushAndNotify of transport.go
--   Receive           receive.go; Queue.wait and Queue.Wait of queue.go
--   Address           address.go: PutAddress, RemoveAddress, TargetsByCwd, Mailboxes
--   Session           hookserve/register.go, hookserve/caller.go, and Target of hookserve.go
--   Hook              hookserve/hookserve.go and hookserve/codex.go: HandleClaude, HandleCodex
--   Root              caller.go: ResolveRoot, ResolveCaller; resolveRoot of cmd/agentqueue/main.go
--   Transports        transport_claude.go, transport_codex.go, transport_pi.go
--   Sessions          sessions.go: the discovered sessions joined with the mailboxes
--   Cli               cmd/agentqueue: the commands as functions of their flags, and the exit status
--   HookConfig        cmd/agentqueue/hook_config.go: the hooks of an agent, what is asked before they
--                     are written, and what is printed of them
--   Queue/Mailbox     what a mailbox promises, a map from states and ids to items, and how the files
--                     of a queue that nobody disturbs keep to it
--   Queue/Lasting     one item among other processes: the states that it goes through
--   Receive/Oldest    Receive against the same map
--   Queue/Progress    TakeNext among other processes that leave one item to it
--   Tests             concrete inputs at which the theorems are applied
--
-- How state corresponds. A text is a list of code points, valid UTF-8 being assumed. A time is a
-- number of nanoseconds since the zero time. A path is a list of segments, the deepest first. A file
-- holds the value that its JSON decodes to, or `partial` where a write failed. An action of type
-- `Io A` is a function of a world: the file system, the clock, the random bytes, and a schedule with
-- one slot for each system call to come, which says what the other processes do before the call, how
-- much time passes and whether the call fails. A schedule that has run out means that nobody else
-- acts and no call fails. A theorem on actions says for which
-- schedules it holds: for all, for those that keep off some files, or only for one that has run out,
-- as those of Queue/Mailbox and Receive/Oldest.
--
-- Parameters: a `Host` stands for the lock of gofrs/flock and for the digest of a target and its
-- ids; a `Session` for the process (working directory, parent, environment file), for the snapshot of
-- crossagent and for time.RFC3339; a `Transport` for the code that reaches an agent; `Outside` for the
-- sockets, the command and the ids that the transports use; a `Discovery` for crossagent's listers of
-- sessions; a `Shell` for the arguments and the environment of a command and for shellescape; a
-- `Stdin` for what is read and for encoding/json; `rfc3339_nano` for time.RFC3339Nano; a
-- `Crossagent` for its detection of agents and its plans of a change. The release of
-- the lock has no counterpart, since no action is resumed after it.
--
-- Fuel: `take_next` and `wait_loop` count their scans, and return `none`, which no run of the program
-- returns, when the fuel is used up. A wait needs one scan for each poll interval in its timeout.
-- `first_digits` has fuel for 64 digits, more than a 64-bit number has. `unused` looks at ten
-- thousand names, as os.CreateTemp does.
--
-- Not modelled: JSON encoding and decoding, messages of errors, logging, file modes of directories,
-- the parsing of flags, the layout of what a command prints beyond the cells of a table of sessions,
-- and the extension in extensions/pi. Writing to standard output does not fail. A call on a path
-- below a file finds nothing there, where the system says ENOTDIR.
pub mod Prelude
pub mod Data
pub mod Fs
pub mod Item
pub mod Segment
pub mod Io
pub mod Config
pub mod Queue
pub mod Files
pub mod Transport
pub mod Wake
pub mod Notify
pub mod Receive
pub mod Address
pub mod Session
pub mod Hook
pub mod Root
pub mod Transports
pub mod Sessions
pub mod Cli
pub mod HookConfig
pub mod Tests
