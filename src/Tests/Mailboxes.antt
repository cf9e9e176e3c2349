-- ===== src/Tests/Mailboxes.antt =====
-- The theorems on an undisturbed mailbox, at concrete worlds.
use agentqueue.Prelude.{
  codes, Text, pos, true, false, is_empty, Option, ap, sym, subst, FilePath, trim, path_eq, text_eq,
  text_eq_iff, List, [], ◌∷◌, none, some, ◌≡◌, refl, arith, All, Bool-cases, inl, inr, length, ◌<◌,
}
use agentqueue.Prelude.Order.{text_le_refl}
use agentqueue.Data.{pending, ok, Item}
use agentqueue.Fs.{Fs, join, lookup, insert, without}
use agentqueue.Fs.Laws.{NoSlash}
use agentqueue.Queue.{target_dir, take_next}
use agentqueue.Segment.{sanitize}
use agentqueue.Queue.Frame.{deeper_ne}
use agentqueue.Queue.Once.{file_of}
use agentqueue.Queue.Mailbox.{Mail, set}
use agentqueue.Queue.Mailbox.Holds.{Holds, Holds-insert, tmp_of}
use agentqueue.Queue.Mailbox.Runs.{
  Box, Call, takes, acks, pushes, PlainId, Keeps, perform_all, promise_all, perform_all-refines,
}
use agentqueue.Queue.Mailbox.Listed.{AllPlain}
use agentqueue.Queue.Mailbox.Oldest.{take_next-oldest, IsLeast}
use agentqueue.Io.{World, pure}
use agentqueue.Transport.{Context}
use agentqueue.Queue.Mailbox.Refines.{Agrees}
use agentqueue.Receive.{batch_limit, receive}
use agentqueue.Receive.Claimed.{claim_first, IsNamed}
use agentqueue.Receive.Oldest.{IsPendingIds, receive-refines}
use agentqueue.Tests.{host, queue, alice, base, first_id, message, dirs, one_message, world_of}

abbrev nothing_stored : Mail
nothing_stored st id = none

-- Nothing stands at a path that is longer than every entry's.
lookup_deeper : (p : FilePath) (fs : Fs) → All (λ e. length e.0 < length p) fs → lookup p fs ≡ none
unfolding lookup
lookup_deeper p [] h = refl
lookup_deeper p ((k, v) ∷ fs) (h, hs) = rw (deeper_ne k p h, lookup_deeper p fs hs) refl

empty_below : (p : FilePath) → length p ≡ 5 → lookup p dirs ≡ none
empty_below p h = lookup_deeper p dirs (
  omega (arith, h),
  (
    omega (arith, h),
    (
      omega (arith, h),
      (omega (arith, h), (omega (arith, h), (omega (arith, h), (omega (arith, h), tt)))),
    ),
  ),
)

dirs-Holds : Holds base dirs nothing_stored
unfolding lookup path_eq text_eq
dirs-Holds = record {
  ready = ((refl, (refl, (refl, tt))), (refl, (refl, (refl, (refl, tt)))));
  items = λ st id plain. empty_below (file_of base st id) refl;
  no_dirs = λ id plain. rw (empty_below (tmp_of base id) refl) refl;
}

abbrev one_stored : Mail
one_stored = set pending first_id (some message) nothing_stored

one_message-Holds : Holds base one_message one_stored
unfolding insert without path_eq text_eq
one_message-Holds = Holds-insert base dirs nothing_stored dirs-Holds pending first_id message

alice_located : target_dir queue alice ≡ ok base
unfolding target_dir sanitize trim text_eq join
alice_located = refl

first_id_plain : NoSlash first_id
first_id_plain = omega arith

abbrev calls : List Call
calls = takes first_id ∷ pushes (codes "more") [] ∷ acks first_id ∷ []

abbrev box : Box
box = record { mail = one_stored; random = [] }

plain_calls : All PlainId calls
plain_calls = (first_id_plain, (tt, (first_id_plain, tt)))

one_kept : Keeps base (world_of one_message).time (world_of one_message) box
one_kept = (one_message-Holds, refl, refl, refl)

perform_all-refines_example :
    ((perform_all queue alice calls (world_of one_message)).0
      ≡ (promise_all queue alice (world_of one_message).time calls box).0)
    × Keeps base
        (world_of one_message).time
        (perform_all queue alice calls (world_of one_message)).1
        (promise_all queue alice (world_of one_message).time calls box).1
perform_all-refines_example =
    perform_all-refines base queue alice alice_located calls (world_of one_message) box
      (world_of one_message).time plain_calls one_kept

pending_message : one_stored pending first_id ≡ some message
unfolding set text_eq
pending_message = refl

least : IsLeast one_stored first_id
unfolding set
least id plain p = elim (Bool-cases (text_eq first_id id)) [
  | inl e ↦ rw ((text_eq_iff first_id id).0 e) (text_le_refl id)
  | inr e ↦ absurd (p (rw e refl))
]

all_plain : AllPlain one_message
all_plain = omega arith

take_next-oldest_example : (take_next 1 queue alice (world_of one_message)).0 ≡ ok (some message)
take_next-oldest_example =
    take_next-oldest base queue alice (world_of one_message) one_stored alice_located refl
      one_message-Holds all_plain 0 first_id message first_id_plain pending_message least

abbrev id_of : Option Item → Text
id_of none = []
id_of (some it) = it.id

first_named :
    (it : Item)
    → one_stored pending first_id ≡ some it
    → (it.id ≡ first_id) × (is_empty (trim first_id) ≡ false)
unfolding set trim text_eq
first_named it e = (ap id_of (sym e), refl)

one-IsNamed : IsNamed one_stored
unfolding set
one-IsNamed id it n e = elim (Bool-cases (text_eq first_id id)) [
  | inl k ↦
      subst (λ i. one_stored pending i ≡ some it → (it.id ≡ i) × (is_empty (trim i) ≡ false))
        ((text_eq_iff first_id id).0 k) (first_named it) e
  | inr k ↦ absurd (ground (arith, k, e))
]

lock_free : (p : FilePath) (c : Context) (w : World) → host.try_lock p c w ≡ (ok true, w)
unfolding pure
lock_free p c w = refl

receive-refines_example :
    (ids : List Text) × IsPendingIds base queue alice alice_located one_stored ids
    × Agrees base (world_of one_message) (receive host queue alice (pos 0) (world_of one_message)) (
      ok ((claim_first (batch_limit (pos 0)) ids one_stored).0, none),
      (claim_first (batch_limit (pos 0)) ids one_stored).1,
    )
receive-refines_example =
    receive-refines base queue alice alice_located host (pos 0) (world_of one_message) one_stored
      refl one_message-Holds all_plain one-IsNamed lock_free
