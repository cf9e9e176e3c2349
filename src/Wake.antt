-- ===== src/Wake.antt =====
-- notifications.go: the recorded state of a wake, and what each event makes of it.
pub mod Flight
use agentqueue.Prelude.{
  ℕ, ◌+◌, ltb, Text, codes, text_eq, is_empty, List, [], ◌++◌, any, Bool, false, not, ◌&&◌, ◌||◌,
  Option, none, some, if◌then◌else◌, ◌==◌,
}
use agentqueue.Data.{Address, HostReceipt, no_receipt, NotificationStatus, Error, io, is_uncertain}
use agentqueue.Item.{hex}
use agentqueue.Io.{Io, pure, raise, read_random, ◌>>=◌, ◌>>◌}
use agentqueue.Config.{fetch_cmd}
use agentqueue.Transport.{Notice, wake_protocol_version, uncertain_lifetime}

abbrev pub in_state : NotificationStatus → Text → Bool
in_state s name = text_eq s.state name

-- `NotificationStatus.flightActive`.
unfoldable pub flight_active : NotificationStatus → ℕ → Bool
flight_active s time =
    s.coalescing
    && (s.wake_protocol == wake_protocol_version
        && (in_state s (codes "queued")
            || (in_state s (codes "receiving") && ltb time s.drain_until)))

abbrev pub is_compatible : Option Address → Bool
is_compatible none = false
is_compatible (some a) = a.wake_protocol == wake_protocol_version

abbrev pub known_receipt : HostReceipt → Bool
known_receipt r =
    text_eq r.state (codes "queued")
    || text_eq r.state (codes "written")
    || text_eq r.state (codes "deferred")

-- What is recorded for an accepted receipt.
unfoldable pub accept_receipt :
    NotificationStatus → Bool → List Text → HostReceipt → NotificationStatus
accept_receipt s compatible ids receipt = record s {
  state = receipt.state;
  receipt = receipt;
  coalescing = compatible && text_eq receipt.state (codes "queued");
  notified_ids = if text_eq receipt.state (codes "deferred") then s.notified_ids else ids;
  attempt_ids = [];
}

-- What is recorded for a submission that failed.
unfoldable pub record_failure : NotificationStatus → Error → NotificationStatus
record_failure s e = record s {
  state = if is_uncertain e then codes "uncertain" else codes "failed";
}

-- The id of a wake: a compatible receiver gets the id of an attempt that did not succeed again, or
-- a fresh one.
unfoldable pub wake_id : NotificationStatus → Bool → Text → Io Text
wake_id s compatible snapshot =
    if compatible
    then (if s.wake_protocol == wake_protocol_version
          && (not (is_empty s.id)
              && (in_state s (codes "failed")
                  || in_state s (codes "uncertain")
                  || in_state s (codes "submitting")))
        then pure s.id
        else do
          identity ← read_random 16
          elim identity [ none ↦ raise io | some bytes ↦ pure (hex bytes) ])
    else pure snapshot

-- The state of a submission that is about to be made.
unfoldable pub submitting : NotificationStatus → Bool → Text → ℕ → List Text → NotificationStatus
submitting s compatible id time ids = record s {
  wake_protocol = if compatible then wake_protocol_version else 0;
  coalescing = false;
  receipt = no_receipt;
  id = id;
  state = codes "submitting";
  generated_at = time;
  attempt_ids = ids;
}

abbrev pub with_notice : Notice → Text → Bool → Notice
with_notice n id compatible =
    if compatible
    then record n { id = id; fetch_cmd = n.fetch_cmd ++ codes " --notice " ++ id }
    else record n { id = id }

-- A wake that covers the item is out already.
unfoldable pub already_notified : NotificationStatus → Text → Bool
already_notified s id =
    (in_state s (codes "written") || (in_state s (codes "queued") && not s.coalescing))
    && any (λ known. text_eq known id) s.notified_ids

-- An attempt whose outcome is not known may still arrive.
unfoldable pub attempt_pending : NotificationStatus → ℕ → Bool
attempt_pending s time =
    (in_state s (codes "submitting") || in_state s (codes "uncertain"))
    && ltb time (s.generated_at + uncertain_lifetime)
