-- ===== src/Cli/Table.antt =====
-- cmd/agentqueue/sessions.go: the table of the sessions.
use agentqueue.Prelude.{
  ℕ, ltb, ◌==◌, Text, codes, is_empty, List, [], ◌∷◌, ◌++◌, map, length, take, Bool, Option, none,
  some, if◌then◌else◌,
}
use agentqueue.Data.{Snapshot, GitSnapshot}
use agentqueue.Sessions.{SessionRow}

-- `yesNo`.
unfoldable pub yes_no : Bool → Text
yes_no value = if value then codes "yes" else codes "no"

abbrev pub or_dash : Text → Text
or_dash s = if is_empty s then codes "-" else s

-- A time in UTC by time.RFC3339Nano, which `format` gives; the zero time is a dash.
abbrev pub time_cell : (ℕ → Text) → ℕ → Text
time_cell format t = if t == 0 then codes "-" else format t

-- A commit's hash, whose bytes are its characters, is cut to twelve of them.
unfoldable pub short_head : Text → Text
short_head head = if ltb 12 (length head) then take 12 head else head

abbrev pub git_cells : Option GitSnapshot → List Text
git_cells none = codes "-" ∷ codes "-" ∷ codes "-" ∷ []
git_cells (some g) = g.worktree_root ∷ g.branch ∷ short_head g.head ∷ []

abbrev pub title_cell : Option Text → Text
title_cell none = codes "-"
title_cell (some title) = title

abbrev pub context_cells : (ℕ → Text) → Option Snapshot → List Text
context_cells format none = codes "-" ∷ codes "-" ∷ codes "-" ∷ codes "-" ∷ codes "-" ∷ []
context_cells format (some s) =
    git_cells s.git ++ title_cell s.terminal_title ∷ time_cell format s.observed_at ∷ []

-- The cells of a row of `printSessionTable`.
unfoldable pub session_cells : (ℕ → Text) → SessionRow → List Text
unfolding yes_no short_head
session_cells format r =
    r.found.agent
    ∷ r.found.session_id
    ∷ r.found.cwd
    ∷ or_dash r.found.label
    ∷ time_cell format r.found.last_activity
    ∷ r.found.source
    ∷ or_dash r.found.state
    ∷ yes_no r.mailbox
    ∷ yes_no r.registered
    ∷ context_cells format r.context

-- `printSessionTable` below its heading.
unfoldable pub session_table_rows : (ℕ → Text) → List SessionRow → List (List Text)
unfolding session_cells
session_table_rows format [] = (codes "(none)" ∷ []) ∷ []
session_table_rows format (r ∷ rows) = session_cells format r ∷ map (session_cells format) rows
