-- ===== src/Data.antt =====
-- The data that the program stores: `Target`, `State` and `Item` (item.go), `Address`
-- (address.go), `HostReceipt` and `NotificationStatus` (notifications.go), `Receiver`
-- (receiver.go), and the errors that the queue returns. A time is a number of nanoseconds since
-- the zero `time.Time`, so `IsZero` is `== 0`. `Snapshot` lists what the program reads of
-- crossagent's `sessioncontext.Snapshot`.
use agentqueue.Prelude.{
  ℕ, Text, codes, ◌++◌, [], List, Option, Bool, true, false, ◌&&◌, text_eq, if◌then◌else◌, ◌≡◌, ◌⊎◌,
  inl, inr, refl,
}

pub record Target : Type 0 where
  pub agent : Text
  pub name : Text

-- `a == b` on targets.
unfoldable pub target_eq : Target → Target → Bool
target_eq a b = text_eq a.agent b.agent && text_eq a.name b.name

-- `Target.String`.
unfoldable pub target_string : Target → Text
target_string t = t.agent ++ (codes ":" ++ t.name)

pub data State : Type 0 where
  pending claimed done : State

-- `State.String`, which is also the name of the directory.
abbrev pub state_string : State → Text
state_string pending = codes "pending"
state_string claimed = codes "claimed"
state_string done = codes "done"

pub record Item : Type 0 where
  pub id : Text
  pub target : Target
  pub text : Text
  pub meta : List (Text × Text)
  pub created_at : ℕ

pub record GitSnapshot : Type 0 where
  pub worktree_root : Text
  pub branch : Text
  pub head : Text

pub record Snapshot : Type 0 where
  pub observed_at : ℕ
  pub git : Option GitSnapshot
  pub terminal_title : Option Text

pub record Address : Type 0 where
  pub wake_protocol : ℕ
  pub context : Option Snapshot
  pub agent : Text
  pub name : Text
  pub cwd : Text
  pub pid : ℕ
  pub updated_at : ℕ
  pub socket : Text
  pub profile : Text
  pub agent_version : Text

-- `Address.Target`.
abbrev pub address_target : Address → Target
address_target a = record { agent = a.agent; name = a.name }

pub record HostReceipt : Type 0 where
  pub state : Text
  pub queue_id : Text
  pub thread_id : Text

abbrev pub no_receipt : HostReceipt
no_receipt = record { state = []; queue_id = []; thread_id = [] }

pub record NotificationStatus : Type 0 where
  pub wake_protocol : ℕ
  pub coalescing : Bool
  pub id : Text
  pub state : Text
  pub generated_at : ℕ
  pub notified_ids : List Text
  pub attempt_ids : List Text
  pub drain_until : ℕ
  pub receipt : HostReceipt

-- The zero `NotificationStatus`.
abbrev pub no_notification : NotificationStatus
no_notification = record {
  wake_protocol = 0;
  coalescing = false;
  id = [];
  state = [];
  generated_at = 0;
  notified_ids = [];
  attempt_ids = [];
  drain_until = 0;
  receipt = no_receipt;
}

pub record Receiver : Type 0 where
  pub socket : Text
  pub token : Text
  pub permission_mode : Text

-- An error, by what `errors.Is` and `os.IsNotExist` find in it. The texts of messages are left
-- out; `notify e` is an `ErrNotify` that wraps `e`, and `joined a b` is `errors.Join`.
pub data Error : Type 0 where
  empty : Error  -- ErrEmpty
  timed_out : Error  -- ErrTimeout
  not_found : Error  -- ErrNotFound
  invalid_target : Error  -- ErrInvalidTarget
  uncertain : Error  -- ErrNotificationUncertain
  in_progress : Error  -- ErrDeliveryInProgress
  not_exist : Error  -- os.ErrNotExist
  io : Error  -- any other failure of a system call
  malformed : Error  -- a body, or an argument, that does not decode
  cancelled : Error  -- context.Canceled
  deadline_exceeded : Error  -- context.DeadlineExceeded
  notify : Error → Error
  joined : Error → Error → Error

-- `errors.Is(e, ErrNotFound)`.
abbrev pub is_not_found : Error → Bool
is_not_found not_found = true
is_not_found (notify e) = is_not_found e
is_not_found (joined a b) = if is_not_found a then true else is_not_found b
is_not_found _ = false

-- `errors.Is(e, ErrNotificationUncertain)`.
abbrev pub is_uncertain : Error → Bool
is_uncertain uncertain = true
is_uncertain (notify e) = is_uncertain e
is_uncertain (joined a b) = if is_uncertain a then true else is_uncertain b
is_uncertain _ = false

-- `os.IsNotExist(e)`, which does not look through wrappers.
abbrev pub is_not_exist : Error → Bool
is_not_exist not_exist = true
is_not_exist _ = false

pub data Result {ℓ} (A : Type ℓ) : Type ℓ where
  ok : A → Result A
  err : Error → Result A

infixl 5 ◌>>=◌
abbrev pub ◌>>=◌ {ℓ κ} : {A : Type ℓ} {B : Type κ} → Result A → (A → Result B) → Result B
ok a >>= f = f a
err e >>= f = err e

-- To split on a computed result and keep the equation.
pub Result-cases {ℓ} :
    {A : Type ℓ} (r : Result A) → ((a : A) × (r ≡ ok a)) ⊎ ((e : Error) × (r ≡ err e))
Result-cases (ok a) = inl (a, refl)
Result-cases (err e) = inr (e, refl)

-- A chain that gives a value has given one at its first step.
pub bind-ok {ℓ κ} :
    {A : Type ℓ} {B : Type κ} (m : Result A) (f : A → Result B) (b : B)
    → (m >>= f) ≡ ok b
    → (a : A) × (m ≡ ok a) × (f a ≡ ok b)
bind-ok (ok a) f b h = (a, refl, h)
bind-ok (err e) f b h = absurd (cc h)
