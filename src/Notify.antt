-- ===== src/Notify.antt =====
-- notifications.go, and `Notify` of transport.go: the submission of a wake for the messages that are
-- pending, with its durable state.
use agentqueue.Prelude.{
  ◌+◌, Text, codes, FilePath, text_eq, is_empty, List, [], ◌∷◌, map, length, any, Bool, not, ◌&&◌,
  ◌||◌, Option, none, some, if◌then◌else◌, ◌==◌,
}
use agentqueue.Data.{
  Target, target_eq, State, pending, claimed, done, Item, HostReceipt, NotificationStatus, Error,
  not_found, invalid_target, uncertain, in_progress, notify, joined, is_not_found, ok, err,
}
use agentqueue.Fs.{notification, join}
use agentqueue.Io.{Io, pure, raise, now, attempt, ◌>>=◌, ◌>>◌}
use agentqueue.Queue.{ensure_dirs, item_path, read_item, list, push}
use agentqueue.Config.{Queue, fetch_cmd}
use agentqueue.Files.{get_receiver, get_address, get_notification, write_private, notification_file}
use agentqueue.Transport.{
  Context, with_timeout, Notice, Transport, Registry, lookup, Host, notification_timeout,
}
use agentqueue.Wake.{
  flight_active, known_receipt, is_compatible, accept_receipt, record_failure, wake_id, submitting,
  with_notice, already_notified, attempt_pending,
}

-- `Queue.lockNotification`.
unfoldable pub lock_notification : Host → Queue → Context → Target → Io FilePath
lock_notification h q ctx t = do
  base ← ensure_dirs q t
  locked ← h.try_lock (join base (codes "notification.lock")) ctx
  if locked then pure base else raise in_progress

abbrev pub save : FilePath → NotificationStatus → Io (Unit {0})
save base s = write_private base notification_file (notification s)

-- The last pending item with the id.
unfoldable pub find_last : Text → List Item → Option Item
find_last id [] = none
find_last id (it ∷ items) = elim (find_last id items) [
  | some found ↦ some found
  | none ↦ if text_eq it.id id then some it else none
]

-- An item that is no longer pending needs no wake.
unfoldable pub already_taken : FilePath → Text → List State → Io (Unit {0})
already_taken base id [] = raise not_found
already_taken base id (st ∷ sts) =
    let next = already_taken base id sts in
    attempt (read_item (item_path base st id))
      λ r. elim r [ ok _ ↦ pure tt | err e ↦ if is_not_found e then next else raise e ]

-- A result that may be missing: `ErrNotFound` is no error.
unfoldable pub optional : {A : Type 0} → Io A → Io (Option A)
optional m =
    attempt m
      λ r. elim r [ ok a ↦ pure (some a) | err e ↦ if is_not_found e then pure none else raise e ]

-- The submission itself and what follows it.
unfoldable pub deliver :
    (Context → Notice → Io HostReceipt)
    → FilePath
    → Context
    → Notice
    → NotificationStatus
    → Bool
    → List Text
    → Io (Unit {0})
unfolding accept_receipt record_failure
deliver native base ctx notice s compatible ids = do
  time ← now
  attempt (native (with_timeout ctx (time + notification_timeout)) notice) λ r. elim r [
    | err e ↦
        attempt (save base (record_failure s e))
          λ saved. elim saved [ ok _ ↦ raise (notify e) | err e' ↦ raise (joined e e') ]
    | ok receipt ↦
        if known_receipt receipt
        then (attempt (save base (accept_receipt s compatible ids receipt))
            λ saved. elim saved [ ok _ ↦ pure tt | err e' ↦ raise (joined uncertain e') ])
        else raise uncertain
  ]

-- The part of `notifyPending` behind its checks.
unfoldable pub submit :
    Transport → FilePath → Context → Notice → NotificationStatus → Bool → List Text → Io (Unit {0})
unfolding deliver wake_id submitting
submit tr base ctx notice s compatible ids = elim tr.receipt [
  | none ↦ attempt (tr.notify ctx notice) λ r. elim r [ ok _ ↦ pure tt | err e ↦ raise (notify e) ]
  | some native ↦ do
    id ← wake_id s compatible notice.id
    let s' : NotificationStatus = submitting s compatible id notice.generated_at ids
    save base s'
    deliver native base ctx (with_notice notice id compatible) s' compatible ids
]

-- An id that `Notify` refuses.
abbrev pub bad_id : Text → Bool
bad_id id =
    is_empty id
    || text_eq id (codes ".")
    || text_eq id (codes "..")
    || any (λ c. c == b'/' || c == b'\\') id

module _ (h : Host) (q : Queue) where
  -- `notifyPending`, for an item that is pending.
  unfoldable pub notify_requested :
      Context
      → Target
      → Transport
      → FilePath
      → NotificationStatus
      → List Item
      → Item
      → Text
      → Io (Unit {0})
  unfolding submit flight_active already_notified attempt_pending
  notify_requested ctx t tr base s items it id = do
    addr ← optional (get_address q t)
    time ← now
    let clock = q.now time
    let ids = map (λ (i : Item). i.id) items
    let compatible = is_compatible addr
    if compatible && flight_active s clock
        then save base (record s { notified_ids = ids })
        else if already_notified s id
        then pure tt
        else if attempt_pending s clock
        then raise in_progress
        else do
          recv ← optional (get_receiver q t)
          submit tr base ctx
              (record {
                target = t;
                item_id = id;
                pending = length items;
                fetch_cmd = fetch_cmd q t;
                item = it;
                id = h.snapshot_id t ids;
                generated_at = clock;
                address = addr;
                receiver = recv;
              })
              s compatible ids

  -- `Queue.notifyPending`.
  unfoldable pub notify_pending : Context → Target → Text → Transport → Io (Unit {0})
  unfolding notify_requested already_taken
  notify_pending ctx t id tr = do
    base ← lock_notification h q ctx t
    s ← get_notification q t
    items ← list q t pending
    if any (λ (it : Item). not (target_eq it.target t)) items
        then raise invalid_target
        else elim (find_last id items) [
          | none ↦ already_taken base id (claimed ∷ done ∷ [])
          | some it ↦ notify_requested ctx t tr base s items it id
        ]

  -- `Queue.Notify`.
  unfoldable pub notify_item : Registry → Context → Target → Text → Io (Unit {0})
  unfolding lookup
  notify_item reg ctx t id = if bad_id id then raise not_found else elim (lookup reg t.agent) [
    | none ↦ raise invalid_target
    | some tr ↦ notify_pending ctx t id tr
  ]

  -- `Queue.PushAndNotify`: the item comes with the error of its notification.
  unfoldable pub push_and_notify :
      Registry → Context → Target → Text → List (Text × Text) → Io (Item × Option Error)
  unfolding lookup
  push_and_notify reg ctx t text meta = elim (lookup reg t.agent) [
    | none ↦ raise invalid_target
    | some _ ↦ do
      it ← push q t text meta
      attempt (notify_item reg ctx t it.id)
          λ r. elim r [ ok _ ↦ pure (it, none) | err e ↦ pure (it, some e) ]
  ]
