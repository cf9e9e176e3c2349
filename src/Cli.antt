-- ===== src/Cli.antt =====
-- cmd/agentqueue/main.go: what the commands share. A command is a function of its parsed flags; what
-- it writes to standard output is a list of lines, and the texts of its errors are left out.
pub mod Table
pub mod Messages
pub mod Waiting
pub mod Registration
pub mod Discovered
pub mod Run
pub mod Exit
pub mod Arrived
pub mod Words
use mathlib.Core.Option
use agentqueue.Prelude.{
  ℕ, ltb, leb, ◌==◌, Text, codes, FilePath, trim, text_eq, is_empty, length, cut_suffix, List, [],
  ◌∷◌, ◌++◌, all, take, Bool, not, ◌&&◌, ◌||◌, Option, none, some, if◌then◌else◌,
}
use agentqueue.Data.{Address, Target, target_string, State, Item, Error, malformed, Result, ok, err}
use agentqueue.Data
use agentqueue.Item.{parse_target}
use agentqueue.Fs.{path_string}
use agentqueue.Io.{Io, lift, ◌>>=◌}
use agentqueue.Config.{Queue, open_queue, abs, with_fetch_cmd, with_ack_cmd}
use agentqueue.Address.{utf8, Mailbox}
use agentqueue.Hook.{Output}
use agentqueue.Sessions.{SessionRow}
use agentqueue.Root.{resolve_root}
use agentqueue.HookConfig.Printed.{Block}

-- The error of a command, by what `run` asks of it: the flag package's ErrHelp, an error that wraps
-- one of the queue's, one that wraps none, and the panic of an index out of range.
pub data Fault : Type 0 where
  help : Fault
  failed : Error → Fault
  refused : Fault
  panicked : Fault

-- The flags of a command, or the error of `fs.Parse`.
pub data Parsed (F : Type 0) : Type 0 where
  parsed : F → Parsed F
  help_asked : Parsed F
  bad_flags : Parsed F

-- What is written to standard output.
pub data Line : Type 0 where
  id_line : Text → Line
  item_block : Bool → Item → Line  -- as JSON or not
  items_json : List Item → Line
  arrivals : List Item → Target → Text → Line  -- with the command that receives them
  nothing_listed : State → Target → Line
  summary : Text → List ℕ → Line  -- an id, and the first line of a text in bytes
  acked_line : Text → Line
  registered : Target → Line
  unregistered : Target → Line
  address_json : Address → Line
  boxes_json : List Mailbox → Line
  no_box : Line
  box_row : Mailbox → Line
  self_check : Line
  hook_json : Output → Line
  sessions_json : List SessionRow → Line
  session_table : List (List Text) → Line  -- the cells
  block_json : Block → Line
  usage_text : Line

-- What a command leaves: its lines, its code, and its error.
pub record Outcome : Type 0 where
  pub printed : List Line
  pub code : ℕ
  pub fault : Option Fault

abbrev pub exit_ok : ℕ
exit_ok = 0

abbrev pub exit_error : ℕ
exit_error = 1

abbrev pub exit_usage : ℕ
exit_usage = 2

abbrev pub exit_timeout : ℕ
exit_timeout = 3

abbrev pub done_with : List Line → Outcome
done_with lines = record { printed = lines; code = exit_ok; fault = none }

-- An error of a command that reports no code of its own.
abbrev pub stopped : Fault → Outcome
stopped f = record { printed = []; code = exit_ok; fault = some f }

-- The end of `run`: the exit status.
unfoldable pub exit_status : Outcome → ℕ
exit_status o = elim o.fault [
  | none ↦ o.code
  | some help ↦ exit_usage
  | some _ ↦ if o.code == exit_usage then exit_usage else exit_error
]

-- What a command takes from elsewhere: its arguments, its environment, and the quoting of
-- shellescape.
pub record Shell : Type 0 where
  pub argv0 : Text
  pub cwd : FilePath
  pub getenv : Text → Text
  pub user_home : Result Text
  pub stdin : Io Text
  pub shell_quote : Text → Text

-- The last element of a path, by `filepath.Base`: the slashes at its end do not count.
unfoldable pub last_element : Text → Text → Text
last_element seen [] = seen
last_element seen (c ∷ s) =
    if c == b'/'
    then (if all (λ d. d == b'/') s then seen else last_element [] s)
    else last_element (seen ++ c ∷ []) s

unfoldable pub base_name : Text → Text
unfolding last_element
base_name s =
    if is_empty s
    then codes "."
    else if all (λ d. d == b'/') s
    then codes "/"
    else last_element [] s

-- A byte that `progName` lets through.
unfoldable pub is_prog_byte : ℕ → Bool
is_prog_byte c =
    (leb b'A' c && leb c b'Z')
    || (leb b'a' c && leb c b'z')
    || (leb b'0' c && leb c b'9')
    || c == b'.'
    || c == b'_'
    || c == b'-'

unfoldable pub prog_name : Text → Text
unfolding base_name is_prog_byte
prog_name argv0 =
    let name = base_name argv0 in
    let base : Text = elim (cut_suffix name (codes ".exe")) [ none ↦ name | some s ↦ s ] in
    if is_empty base
      || text_eq base (codes ".")
      || text_eq base (codes "..")
      || text_eq base (codes "/")
      || not (all is_prog_byte base)
    then codes "agentqueue"
    else base

-- The commands of `openQueue` that notices carry.
abbrev pub shell_fetch_cmd : Shell → Text → Target → Text
shell_fetch_cmd sh root t =
    sh.shell_quote (prog_name sh.argv0)
    ++ codes " receive --root "
    ++ sh.shell_quote root
    ++ codes " --to "
    ++ sh.shell_quote (target_string t)
    ++ codes " --json"

abbrev pub shell_ack_cmd : Shell → Text → Target → Text → Text
shell_ack_cmd sh root t id =
    sh.shell_quote (prog_name sh.argv0)
    ++ codes " ack --root "
    ++ sh.shell_quote root
    ++ codes " --to "
    ++ sh.shell_quote (target_string t)
    ++ codes " "
    ++ sh.shell_quote id

-- `openQueue`.
unfoldable pub open_cli : Shell → Text → Io Queue
unfolding prog_name
open_cli sh override = do
  given ← lift (resolve_root override sh.getenv sh.user_home)
  let root = path_string (abs sh.cwd given)
  open_queue sh.cwd root (
      with_fetch_cmd (some (shell_fetch_cmd sh root))
      ∷ with_ack_cmd (some (shell_ack_cmd sh root))
      ∷ [])

-- `resolveTarget`.
unfoldable pub resolve_target : Text → Result Target
resolve_target to = if is_empty (trim to) then err malformed else parse_target to

-- `strings.Cut(s, "=")`.
unfoldable pub cut_equals : Text → Option (Text × Text)
cut_equals [] = none
cut_equals (c ∷ s) =
    if c == b'=' then some ([], s) else Option.map (λ (k, v). (c ∷ k, v)) (cut_equals s)

-- An assignment to a map, kept as an association list.
unfoldable pub assign : Text → Text → List (Text × Text) → List (Text × Text)
assign k v [] = (k, v) ∷ []
assign k v ((l, u) ∷ m) = if text_eq l k then (l, v) ∷ m else (l, u) ∷ assign k v m

unfoldable pub parse_pairs : List (Text × Text) → List Text → Result (List (Text × Text))
unfolding assign cut_equals
parse_pairs m [] = ok m
parse_pairs m (p ∷ ps) = elim (cut_equals p) [
  | none ↦ err malformed
  | some (k, v) ↦ if is_empty (trim k) then err malformed else parse_pairs (assign (trim k) v m) ps
]

-- `parseMeta`; a nil map is empty.
unfoldable pub parse_meta : List Text → Result (List (Text × Text))
unfolding parse_pairs
parse_meta pairs = parse_pairs [] pairs

-- The text before a line break, if there is one.
unfoldable pub before_break : Text → Option Text
before_break [] = none
before_break (c ∷ s) = if c == b'\n' then some [] else Option.map (λ r. c ∷ r) (before_break s)

-- `firstLine`, in bytes: the cut may fall inside a character.
unfoldable pub first_line : Text → List ℕ
unfolding before_break
first_line s =
    let line : Text = trim (elim (before_break s) [ none ↦ s | some r ↦ r ++ codes " ..." ]) in
    if ltb 200 (length (utf8 line)) then take 200 (utf8 line) ++ codes "..." else utf8 line
