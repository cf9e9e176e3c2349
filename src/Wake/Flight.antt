-- ===== src/Wake/Flight.antt =====
-- The life of a wake, as the recorded states tell it.
use agentqueue.Prelude.{
  ℕ, ◌+◌, ltb, Text, codes, text_eq, List, Bool, true, false, not, ◌&&◌, ◌≡◌, refl, arith, inl, inr,
  Bool-cases,
}
use agentqueue.Data.{NotificationStatus, HostReceipt, Error, is_uncertain}
use agentqueue.Io.{now}
use agentqueue.Wake.{submitting, accept_receipt, record_failure, flight_active, attempt_pending}
use agentqueue.Transport.{wake_protocol_version, uncertain_lifetime, drain_lifetime}
use agentqueue.Receive.{observe, observable}

-- A wake that a compatible receiver's host accepts is in flight exactly if the host queued it.
pub accept-flight_active :
    (s : NotificationStatus) (id : Text) (time now : ℕ) (ids : List Text) (r : HostReceipt)
    → flight_active (accept_receipt (submitting s true id time ids) true ids r) now
      ≡ text_eq r.state (codes "queued")
unfolding flight_active accept_receipt submitting
accept-flight_active s id time now ids r = ground arith

-- Observing a wake of the current protocol ends its flight if nothing is pending; else the flight
-- lasts as long as the drain.
pub observe-flight_active :
    (s : NotificationStatus) (nothing_pending : Bool) (time now : ℕ)
    → s.wake_protocol ≡ wake_protocol_version
    → flight_active (observe s nothing_pending time) now
      ≡ (not nothing_pending && ltb now (time + drain_lifetime))
unfolding flight_active observe text_eq
observe-flight_active s true time now h = ground arith
observe-flight_active s false time now h = ground arith

-- A wake that can be observed and is observed while nothing is pending cannot be observed again; one
-- that is observed while something is can.
observe-observable :
    (s : NotificationStatus) (nothing_pending : Bool) (time : ℕ) (notice : Text)
    → observable s notice ≡ true
    → observable (observe s nothing_pending time) notice ≡ not nothing_pending
unfolding observable observe text_eq
observe-observable s true time notice h = ground arith
observe-observable s false time notice h = ground arith

-- A failed attempt holds up the next one exactly as long as it may still arrive: if its outcome is
-- uncertain, for `uncertain_lifetime` from its start.
pub failure-attempt_pending :
    (s : NotificationStatus) (compatible : Bool) (id : Text) (e : Error) (time now : ℕ)
    (ids : List Text)
    → attempt_pending (record_failure (submitting s compatible id time ids) e) now
      ≡ (is_uncertain e && ltb now (time + uncertain_lifetime))
unfolding attempt_pending record_failure submitting text_eq
failure-attempt_pending s c id e time now ids = elim (Bool-cases (is_uncertain e)) [
  | inl u ↦ rw u refl
  | inr u ↦ rw u refl
]
