-- ===== src/Sessions.antt =====
-- sessions.go: the sessions that crossagent discovers, joined with the mailboxes of the queue.
pub mod Ordered
use agentqueue.Prelude.{
  ℕ, zero, suc, ltb, ◌==◌, ℤ, pos, negsuc, Text, codes, text_eq, is_empty, List, [], ◌∷◌, keep,
  take, Bool, true, false, not, ◌&&◌, ◌||◌, Option, none, some, if◌then◌else◌,
}
use agentqueue.Prelude.Order.{text_le, sort_by}
use agentqueue.Data.{Target, Address, Snapshot, malformed}
use agentqueue.Io.{Io, pure, raise, ◌>>=◌}
use agentqueue.Config.{Queue}
use agentqueue.Address.{Mailbox, mailboxes}
use agentqueue.Root.{clean}

-- What the program reads of crossagent's `sessions.Session`.
pub record Found : Type 0 where
  pub agent : Text
  pub session_id : Text
  pub cwd : Text
  pub source : Text
  pub label : Text
  pub state : Text
  pub last_activity : ℕ

-- `Session`.
pub record SessionRow : Type 0 where
  pub found : Found
  pub mailbox : Bool
  pub registered : Bool
  pub context : Option Snapshot

pub record SessionsOptions : Type 0 where
  pub agent : Text
  pub cwd : Text
  pub limit : ℤ

-- crossagent: its agents, and the listers of their sessions.
pub record Discovery : Type 0 where
  pub names : List Text
  pub is_agent : Text → Bool
  pub list : Text → Io (List Found)

-- A row with its entry of `sortTimes`; the zero time stands for no entry.
abbrev pub Timed : Type 0
Timed = SessionRow × ℕ

-- `key(a.Agent, a.SessionID) == key(b.Agent, b.SessionID)`: names and ids have no NUL.
unfoldable pub same_session : Found → Found → Bool
same_session a b = text_eq a.agent b.agent && text_eq a.session_id b.session_id

-- `rows[k]`, and the assignment to it.
unfoldable pub find_row : Found → List Timed → Option SessionRow
find_row k [] = none
find_row k ((row, t) ∷ rows) = if same_session row.found k then some row else find_row k rows

unfoldable pub put_row : Timed → List Timed → List Timed
put_row r [] = r ∷ []
put_row (row, t) ((row', t') ∷ rows) =
    if same_session row'.found row.found
    then (row, t) ∷ rows
    else (row', t') ∷ put_row (row, t) rows

unfoldable pub add_found : List Found → List Timed → List Timed
unfolding put_row
add_found [] rows = rows
add_found (f ∷ fs) rows =
    add_found fs
      (put_row (record { found = f; mailbox = false; registered = false; context = none }, 0) rows)

-- The loop over the agents.
unfoldable pub discover : Discovery → List Text → List Timed → Io (List Timed)
unfolding add_found
discover d [] rows = pure rows
discover d (name ∷ names) rows = do found ← d.list name; discover d names (add_found found rows)

abbrev pub later : ℕ → ℕ → ℕ
later a b = if ltb a b then b else a

-- A snapshot that is no older than the activity replaces the working directory.
unfoldable pub is_current : Snapshot → Found → Bool
is_current s f = not (s.observed_at == 0) && not (ltb s.observed_at f.last_activity)

-- A row with the address of its mailbox.
unfoldable pub with_address : SessionRow → Option Address → SessionRow
unfolding is_current
with_address row none = record row { mailbox = true; registered = false }
with_address row (some a) =
    let f = row.found in
    record {
      found = elim a.context [
        | none ↦ f
        | some s ↦ if is_current s f then record f { cwd = a.cwd } else f
      ];
      mailbox = true;
      registered = true;
      context = a.context;
    }

-- The time of the last activity, or of the snapshot if it is later.
abbrev pub observed_at : SessionRow → ℕ
observed_at row = elim row.context [
  | none ↦ row.found.last_activity
  | some s ↦ later row.found.last_activity s.observed_at
]

-- A session that only an address records.
abbrev pub address_only : Target → Address → Found
address_only t a = record {
  agent = t.agent;
  session_id = t.name;
  cwd = a.cwd;
  source = codes "queue-address";
  label = [];
  state = [];
  last_activity = 0;
}

abbrev pub fresh : Found → SessionRow
fresh f = record { found = f; mailbox = false; registered = false; context = none }

-- The row of a mailbox; a mailbox without a session and without an address has none.
unfoldable pub mailbox_row : Mailbox → Option SessionRow → Option Timed
unfolding with_address
mailbox_row box (some row) =
    let row' = with_address row box.address in some (row', observed_at row')
mailbox_row box none = elim box.address [
  | none ↦ none
  | some a ↦
      let row = with_address (fresh (address_only box.target a)) (some a) in
      some (row, later (observed_at row) a.updated_at)
]

-- The loop over the mailboxes.
unfoldable pub join_boxes : Discovery → List Mailbox → List Timed → List Timed
unfolding mailbox_row find_row put_row
join_boxes d [] rows = rows
join_boxes d (box ∷ boxes) rows =
    let key : Found = record {
      agent = box.target.agent;
      session_id = box.target.name;
      cwd = [];
      source = [];
      label = [];
      state = [];
      last_activity = 0;
    } in
    join_boxes d boxes (
      if d.is_agent box.target.agent
      then elim (mailbox_row box (find_row key rows)) [ none ↦ rows | some r ↦ put_row r rows ]
      else rows)

-- The time by which a row is sorted.
abbrev pub sort_time : Timed → ℕ
sort_time (row, t) = later row.found.last_activity t

-- The later row comes first, and rows of one time come in the order of their agents and ids.
unfoldable pub row_le : Timed → Timed → Bool
row_le a b =
    if ltb (sort_time b) (sort_time a)
    then true
    else if ltb (sort_time a) (sort_time b)
    then false
    else if text_eq a.0.found.agent b.0.found.agent
    then text_le a.0.found.session_id b.0.found.session_id
    else text_le a.0.found.agent b.0.found.agent

-- The filter by the working directory.
unfoldable pub in_cwd : Text → Timed → Bool
in_cwd cwd (row, t) = is_empty cwd || text_eq (clean row.found.cwd) (clean cwd)

abbrev pub limited : ℤ → List Timed → List Timed
limited (pos zero) rows = rows
limited (pos (suc n)) rows = take (suc n) rows
limited (negsuc n) rows = rows

-- The filter, the order and the limit.
unfoldable pub shown_rows : SessionsOptions → List Timed → List Timed
unfolding in_cwd row_le
shown_rows opts rows = limited opts.limit (sort_by row_le (keep (in_cwd opts.cwd) rows))

abbrev pub is_negative : ℤ → Bool
is_negative (pos n) = false
is_negative (negsuc n) = true

-- What `Sessions` does once its options are checked.
unfoldable pub gather : Discovery → Queue → SessionsOptions → Io (List Timed)
unfolding discover join_boxes shown_rows
gather d q opts = do
  rows ← discover d (if is_empty opts.agent then d.names else opts.agent ∷ []) []
  boxes ← mailboxes q opts.agent
  pure (shown_rows opts (join_boxes d boxes rows))

-- `Queue.Sessions`.
unfoldable pub sessions : Discovery → Queue → SessionsOptions → Io (List Timed)
unfolding gather
sessions d q opts =
    if not (is_empty opts.agent) && not (d.is_agent opts.agent)
    then raise malformed
    else if is_negative opts.limit
    then raise malformed
    else gather d q opts
