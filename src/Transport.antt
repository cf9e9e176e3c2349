-- ===== src/Transport.antt =====
-- transport.go: what a notification carries, the registry of transports, and the contexts that bound
-- a call. The lock and the digest that `notifications.go` takes from other packages stand here too.
pub mod Registered
use agentqueue.Prelude.{
  ℕ, ◌*◌, ◌^◌, ltb, Text, FilePath, text_eq, List, [], ◌∷◌, map, Bool, false, not, Option, none,
  some, if◌then◌else◌,
}
use agentqueue.Prelude.Order.{text_le, sort_by}
use agentqueue.Data.{
  Target, pending, Item, Address, Receiver, HostReceipt, Error, cancelled, deadline_exceeded,
  notify,
}
use agentqueue.Io.{Io, ◌>>=◌, ◌>>◌}
use agentqueue.Config.{fetch_cmd}

-- A `context.Context`: the times at which it is cancelled and at which its deadline passes.
pub record Context : Type 0 where
  pub cancelled_at : Option ℕ
  pub deadline : Option ℕ

abbrev pub background : Context
background = record { cancelled_at = none; deadline = none }

abbrev pub passed : Option ℕ → ℕ → Bool
passed none time = false
passed (some limit) time = not (ltb time limit)

-- `ctx.Err()` at a time.
unfoldable pub context_err : Context → ℕ → Option Error
context_err ctx time =
    if passed ctx.cancelled_at time
    then some cancelled
    else if passed ctx.deadline time
    then some deadline_exceeded
    else none

-- `context.WithTimeout`: the earlier deadline counts.
unfoldable pub with_timeout : Context → ℕ → Context
with_timeout ctx limit = elim ctx.deadline [
  | none ↦ record ctx { deadline = some limit }
  | some d ↦ record ctx { deadline = some (if ltb limit d then limit else d) }
]

pub record Notice : Type 0 where
  pub target : Target
  pub item_id : Text
  pub pending : ℕ
  pub fetch_cmd : Text
  pub item : Item
  pub id : Text
  pub generated_at : ℕ
  pub address : Option Address
  pub receiver : Option Receiver

-- A `Transport`; `receipt` is there if it is a `ReceiptTransport`.
pub record Transport : Type 0 where
  pub name : Text
  pub notify : Context → Notice → Io (Unit {0})
  pub receipt : Option (Context → Notice → Io HostReceipt)

-- The package's registry, by name.
abbrev pub Registry : Type 0
Registry = List (Text × Transport)

unfoldable pub lookup : Registry → Text → Option Transport
lookup [] agent = none
lookup ((name, t) ∷ reg) agent = if text_eq name agent then some t else lookup reg agent

unfoldable pub put : Registry → Text → Transport → Registry
put [] name t = (name, t) ∷ []
put ((n, u) ∷ reg) name t = if text_eq n name then (n, t) ∷ reg else (n, u) ∷ put reg name t

unfoldable pub register : Registry → Transport → Registry
unfolding put
register reg t = put reg t.name t

unfoldable pub agents : Registry → List Text
agents reg = sort_by text_le (map (λ (e : Text × Transport). e.0) reg)

-- What the queue takes from elsewhere: `flock.TryLockContext` on a lock file, which gives whether
-- the lock was taken, and the hexadecimal first half of the SHA-256 of a target and its ids.
pub record Host : Type 0 where
  pub try_lock : FilePath → Context → Io Bool
  pub snapshot_id : Target → List Text → Text

abbrev pub wake_protocol_version : ℕ
wake_protocol_version = 2

abbrev pub second : ℕ
second = 10 ^ 9

abbrev pub notification_timeout : ℕ
notification_timeout = 10 * second

abbrev pub uncertain_lifetime : ℕ
uncertain_lifetime = 30 * second

abbrev pub drain_lifetime : ℕ
drain_lifetime = 300 * second
