-- ===== src/Queue/Mailbox.antt =====
-- What a mailbox promises: a map from states and ids to items, and the operations on it.
pub mod Holds
pub mod Refines
pub mod Push
pub mod Runs
pub mod Listed
pub mod Oldest
use agentqueue.Prelude.{
  Text, trim, is_empty, text_eq, Bool, true, false, ◌&&◌, Option, none, some, if◌then◌else◌,
}
use agentqueue.Data.{State, pending, claimed, done, Item, not_found, Result, ok, err}

-- The item of each id in each state.
abbrev pub Mail : Type 0
Mail = State → Text → Option Item

abbrev pub state_eq : State → State → Bool
state_eq pending pending = true
state_eq claimed claimed = true
state_eq done done = true
state_eq _ _ = false

unfoldable pub set : State → Text → Option Item → Mail → Mail
set st id v mb st' id' = if state_eq st st' && text_eq id id' then v else mb st' id'

-- An item goes from a state to the next one.
unfoldable pub moved : State → State → Item → Text → Mail → Mail
moved from to it id mb = set to id (some it) (set from id none mb)

-- `claim`: the item goes from pending to claimed.
unfoldable pub claim_item : Text → Mail → Result Item × Mail
claim_item id mb = elim (mb pending id) [
  | none ↦ (err not_found, mb)
  | some it ↦ (ok it, moved pending claimed it id mb)
]

-- `Take`: no item has a blank id.
unfoldable pub take_item : Text → Mail → Result Item × Mail
unfolding claim_item
take_item id mb = if is_empty (trim id) then (err not_found, mb) else claim_item id mb

-- `Ack`: the item goes to done, from claimed if it is there and from pending if not.
unfoldable pub ack_item : Text → Mail → Result (Unit {0}) × Mail
ack_item id mb = if is_empty (trim id) then (err not_found, mb) else elim (mb claimed id) [
  | some it ↦ (ok tt, moved claimed done it id mb)
  | none ↦ elim (mb pending id) [
    | some it ↦ (ok tt, moved pending done it id mb)
    | none ↦ (err not_found, mb)
  ]
]

-- `Push`: the item is pending.
unfoldable pub put_item : Item → Mail → Result Item × Mail
put_item it mb = (ok it, set pending it.id (some it) mb)
