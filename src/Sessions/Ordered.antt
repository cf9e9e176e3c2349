-- ===== src/Sessions/Ordered.antt =====
-- What Sessions (sessions.go) returns: in order, filtered, and limited.
use agentqueue.Prelude.{
  ℕ, leb, ◌<◌, pos, Text, text_eq, is_empty, List, [], ◌∷◌, ◌++◌, length, Bool, true, if◌then◌else◌,
  ◌≡◌, ◌≢◌, ◌⊎◌, All,
}
use agentqueue.Prelude.Order.{text_le}
use agentqueue.Data.{ok}
use agentqueue.Io.{World, Io}
use agentqueue.Root.{clean}
use agentqueue.Address.{Mailbox, mailboxes}
use agentqueue.Config.{Queue}
use agentqueue.Sessions.{Timed, Discovery, SessionsOptions, join_boxes, discover}

-- Names first, then ids.
abbrev names_le : Text → Text → Text → Text → Bool
names_le n i m j = if text_eq n m then text_le i j else text_le n m

-- When a row was last seen: the later of its activity and of its entry.
abbrev pub last_seen : Timed → ℕ
last_seen (row, t) = if leb row.found.last_activity t then t else row.found.last_activity

-- The row that was seen later comes first, and rows of one time come by their agents, then by their ids.
abbrev pub ComesBefore : Timed → Timed → Type 0
ComesBefore a b =
    (last_seen b < last_seen a)
    ⊎ ((last_seen a ≡ last_seen b)
        × (((a.0.found.agent ≢ b.0.found.agent) × (text_le a.0.found.agent b.0.found.agent ≡ true))
            ⊎ ((a.0.found.agent ≡ b.0.found.agent)
                × (text_le a.0.found.session_id b.0.found.session_id ≡ true))))

-- Every row comes before the ones behind it.
abbrev pub IsOrdered : List Timed → Type 0
IsOrdered [] = Unit
IsOrdered (x ∷ xs) = All (ComesBefore x) xs × IsOrdered xs

-- A row of the directory, if one is asked for.
abbrev pub IsIn : Text → Timed → Type 0
IsIn cwd r = (cwd ≡ []) ⊎ (clean r.0.found.cwd ≡ clean cwd)

abbrev pub IsAmong : Timed → List Timed → Type 0
IsAmong r [] = ⊥
IsAmong r (x ∷ xs) = (r ≡ x) ⊎ IsAmong r xs

-- The rows of the directory, and no other, in order.
abbrev pub IsWhole : SessionsOptions → List Timed → List Timed → Type 0
IsWhole opts rows all =
    IsOrdered all
    × All (λ r. IsIn opts.cwd r × IsAmong r rows) all
    × All (λ r. (¬ IsIn opts.cwd r) ⊎ IsAmong r all) rows

-- The shown rows are the first ones of them, up to the limit if there is one.
abbrev pub IsListing : SessionsOptions → List Timed → List Timed → Type 0
IsListing opts rows shown =
    (rest : List Timed) × IsWhole opts rows (shown ++ rest)
    × ((rest ≡ []) ⊎ (opts.limit ≡ pos (length shown)))

-- The agents that `Sessions` asks crossagent for.
abbrev pub asked : Discovery → SessionsOptions → List Text
asked d opts = if is_empty opts.agent then d.names else opts.agent ∷ []

-- What is listed of the sessions that crossagent has found and of the mailboxes that were read behind that.
abbrev pub Joined : Discovery → Queue → SessionsOptions → World → List Timed → Type 0
Joined d q opts w shown =
    let found = discover d (asked d opts) [] in
    (rows : List Timed) × ((found w).0 ≡ ok rows)
    × ((boxes : List Mailbox) × ((mailboxes q opts.agent (found w).1).0 ≡ ok boxes)
        × IsListing opts (join_boxes d boxes rows) shown)
