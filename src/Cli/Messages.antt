-- ===== src/Cli/Messages.antt =====
-- cmd/agentqueue/main.go: the commands on messages.
use agentqueue.Prelude.{
  ℕ, leb, ℤ, pos, negsuc, Text, codes, trim, text_eq, is_empty, List, [], ◌∷◌, ◌++◌, map, Bool,
  true, false, not, ◌&&◌, ◌||◌, Option, none, some, if◌then◌else◌,
}
use agentqueue.Data.{
  Target, State, Item, Error, empty, notify, joined, is_not_found, Result, ok, err,
}
use agentqueue.Item.{parse_state}
use agentqueue.Io.{Io, pure, attempt, lift, ◌>>=◌}
use agentqueue.Config.{Queue}
use agentqueue.Queue.{list, take_next, take_id, ack}
use agentqueue.Transport.{Host, Registry, Context}
use agentqueue.Notify.{push_and_notify}
use agentqueue.Receive.{Batch, receive, receive_notice}
use agentqueue.Cli.{
  Fault, failed, refused, Line, id_line, item_block, items_json, nothing_listed, summary,
  acked_line, Outcome, exit_ok, done_with, stopped, Shell, open_cli, resolve_target, parse_meta,
  first_line,
}

-- The first error of a command stops it.
abbrev pub or_stop : {A : Type 0} → Io A → (A → Io Outcome) → Io Outcome
or_stop m go = attempt m λ r. elim r [ err e ↦ pure (stopped (failed e)) | ok a ↦ go a ]

abbrev pub refuse : Io Outcome
refuse = pure (stopped refused)

-- The arguments, joined with spaces.
unfoldable pub join_spaces : List Text → Text
join_spaces [] = []
join_spaces (s ∷ []) = s
join_spaces (s ∷ t ∷ ss) = s ++ codes " " ++ join_spaces (t ∷ ss)

pub record PushFlags : Type 0 where
  pub to : Text
  pub root : Text
  pub meta : List Text
  pub args : List Text

-- `cmdPush` behind its flags.
unfoldable pub push_parsed : Shell → Host → Registry → Context → PushFlags → Io Outcome
unfolding join_spaces parse_meta
push_parsed sh h reg ctx f = or_stop (lift (resolve_target f.to)) λ t.
    or_stop (lift (parse_meta f.meta)) λ meta.
      or_stop
        (if is_empty f.args || text_eq (join_spaces f.args) (codes "-")
          then sh.stdin
          else pure (join_spaces f.args))
        λ text.
          if is_empty (trim text)
          then refuse
          else or_stop (open_cli sh f.root) λ q.
            or_stop (push_and_notify h q reg ctx t text meta) λ (it, e). pure (record {
              printed = id_line it.id ∷ [];
              code = exit_ok;
              fault = elim e [ none ↦ none | some e ↦ some (failed e) ];
            })

pub record ListFlags : Type 0 where
  pub to : Text
  pub root : Text
  pub state : Text
  pub json : Bool

-- What `cmdList` prints.
unfoldable pub list_lines : Bool → State → Target → List Item → List Line
list_lines json st t items =
    if json
    then items_json items ∷ []
    else if is_empty items
    then nothing_listed st t ∷ []
    else map (λ (it : Item). summary it.id (first_line it.text)) items

-- `cmdList` behind its flags.
unfoldable pub list_parsed : Shell → ListFlags → Io Outcome
unfolding list_lines
list_parsed sh f = or_stop (lift (resolve_target f.to)) λ t.
    or_stop (lift (parse_state f.state)) λ st.
      or_stop (open_cli sh f.root)
        λ q. or_stop (list q t st) λ items. pure (done_with (list_lines f.json st t items))

pub record TakeFlags : Type 0 where
  pub to : Text
  pub root : Text
  pub next : Bool
  pub json : Bool
  pub args : List Text

-- What `cmdTake` is asked for, by `--next` and the arguments: the oldest item, or an id; `none` if it is
-- not exactly one of the two.
unfoldable pub asked : Bool → List Text → Option (Option Text)
asked true [] = some none
asked true (id ∷ ids) = none
asked false [] = none
asked false (id ∷ []) = some (some id)
asked false (id ∷ other ∷ ids) = none

-- `errors.Is(e, ErrEmpty)`.
abbrev pub is_empty_error : Error → Bool
is_empty_error empty = true
is_empty_error (notify e) = is_empty_error e
is_empty_error (joined a b) = if is_empty_error a then true else is_empty_error b
is_empty_error _ = false

-- The fault of an error that the command puts in its own words if it passes the test.
abbrev pub reworded : (Error → Bool) → Error → Fault
reworded test e = if test e then refused else failed e

-- What `cmdTake` leaves; `none` if the fuel of `TakeNext` is used up.
abbrev pub took_item : (Error → Bool) → Bool → Result (Option Item) → Option Outcome
took_item test json (err e) = some (stopped (reworded test e))
took_item test json (ok none) = none
took_item test json (ok (some it)) = some (done_with (item_block json it ∷ []))

-- `cmdTake` behind its target and its queue.
abbrev pub take_opened : ℕ → TakeFlags → Target → Option Text → Result Queue → Io (Option Outcome)
take_opened fuel f t which (err e) = pure (some (stopped (failed e)))
take_opened fuel f t none (ok q) =
    attempt (take_next fuel q t) λ r. pure (took_item is_empty_error f.json r)
take_opened fuel f t (some id) (ok q) =
    attempt (do it ← take_id q t id; pure (some it)) λ r. pure (took_item is_not_found f.json r)

-- `cmdTake` behind its target.
abbrev pub take_asked : ℕ → Shell → TakeFlags → Target → Option (Option Text) → Io (Option Outcome)
take_asked fuel sh f t none = pure (some (stopped refused))
take_asked fuel sh f t (some which) = attempt (open_cli sh f.root) (take_opened fuel f t which)

abbrev pub take_located : ℕ → Shell → TakeFlags → Result Target → Io (Option Outcome)
take_located fuel sh f (err e) = pure (some (stopped (failed e)))
take_located fuel sh f (ok t) = take_asked fuel sh f t (asked f.next f.args)

-- `cmdTake` behind its flags; `none` if the fuel is used up.
unfoldable pub take_parsed : ℕ → Shell → TakeFlags → Io (Option Outcome)
unfolding asked
take_parsed fuel sh f = attempt (lift (resolve_target f.to)) (take_located fuel sh f)

pub record AckFlags : Type 0 where
  pub to : Text
  pub root : Text
  pub args : List Text

-- What `cmdAck` leaves.
abbrev pub acked_outcome : Text → Result (Unit {0}) → Outcome
acked_outcome id (ok _) = done_with (acked_line id ∷ [])
acked_outcome id (err e) = stopped (reworded is_not_found e)

-- `cmdAck` behind its target, with its arguments.
abbrev pub ack_given : Shell → AckFlags → Target → List Text → Io Outcome
ack_given sh f t [] = refuse
ack_given sh f t (id ∷ ids) =
    if not (is_empty ids)
    then refuse
    else or_stop (open_cli sh f.root) λ q. attempt (ack q t id) λ r. pure (acked_outcome id r)

-- `cmdAck` behind its flags.
unfoldable pub ack_parsed : Shell → AckFlags → Io Outcome
ack_parsed sh f = or_stop (lift (resolve_target f.to)) λ t. ack_given sh f t f.args

pub record ReceiveFlags : Type 0 where
  pub to : Text
  pub root : Text
  pub limit : ℤ
  pub notice : Text
  pub json : Bool

-- The limit of `cmdReceive` is between 1 and 100.
unfoldable pub in_limits : ℤ → Bool
in_limits (pos n) = leb 1 n && leb n 100
in_limits (negsuc n) = false

-- What `cmdReceive` leaves: what was received is printed, whatever error came after it.
unfoldable pub receive_outcome : Bool → Batch → Outcome
receive_outcome json (items, e) = record {
  printed = if json then items_json items ∷ [] else map (item_block false) items;
  code = exit_ok;
  fault = elim e [ none ↦ none | some e ↦ some (failed e) ];
}

-- `cmdReceive` behind its flags. An error of `Receive` itself comes with no items.
unfoldable pub receive_parsed : Shell → Host → ReceiveFlags → Io Outcome
unfolding in_limits receive_outcome
receive_parsed sh h f =
    if not (in_limits f.limit)
    then refuse
    else or_stop (lift (resolve_target f.to)) λ t. or_stop (open_cli sh f.root) λ q.
      attempt
        (if is_empty f.notice then receive h q t f.limit else receive_notice h q t f.notice f.limit)
        λ r. elim r [
          | ok batch ↦ pure (receive_outcome f.json batch)
          | err e ↦ pure (receive_outcome f.json ([], some e))
        ]
