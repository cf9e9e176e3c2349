-- ===== src/Files.antt =====
-- `writePrivateJSON` (notifications.go), the receiver registration (receiver.go), and
-- `Queue.secureRoot` and `Queue.Address` (address.go).
pub mod Temp
pub mod Stored
pub mod Registered
use agentqueue.Prelude.{Text, Bool, codes, FilePath, is_empty, ◌||◌, if◌then◌else◌}
use agentqueue.Data.{
  Target, Address, Receiver, NotificationStatus, no_notification, not_found, malformed,
  is_not_exist, Result, ok, err,
}
use agentqueue.Fs.{Content, address, receiver, notification, join}
use agentqueue.Io.{
  Io, rename, read_file, remove, create_temp, write_temp, flush, chmod_dir, pure, raise, lift,
  attempt, ◌>>=◌, ◌>>◌,
}
use agentqueue.Queue.{target_dir, ensure_dirs, tmp_dir_name}
use agentqueue.Config.{Queue}

-- A deferred `os.Remove`, whose error is ignored.
unfoldable pub finally_remove : {A : Type 0} → FilePath → Io A → Io A
finally_remove path m = attempt m λ r. attempt (remove path) λ _. lift r

-- `writePrivateJSON`.
unfoldable pub write_private : FilePath → Text → Content → Io (Unit {0})
unfolding finally_remove
write_private base name content = do
  path ← create_temp (join base tmp_dir_name) (codes "state-")
  finally_remove path (do write_temp path content; flush; flush; rename path (join base name))

abbrev pub notification_file : Text
notification_file = codes "notification.json"

abbrev pub receiver_file : Text
receiver_file = codes "receiver.private.json"

abbrev pub addr_file : Text
addr_file = codes "addr.json"

-- `Queue.secureRoot`.
unfoldable pub secure_root : Queue → Io (Unit {0})
secure_root q = chmod_dir q.root

-- `Queue.RemoveReceiver`.
unfoldable pub remove_receiver : Queue → Target → Io (Unit {0})
remove_receiver q t = do
  base ← lift (target_dir q t)
  attempt (remove (join base receiver_file))
      λ r. elim r [ ok _ ↦ pure tt | err e ↦ if is_not_exist e then pure tt else raise e ]

-- `Queue.PutReceiver`.
unfoldable pub put_receiver : Queue → Target → Receiver → Io (Unit {0})
put_receiver q t r = do
  base ← ensure_dirs q t
  secure_root q
  if is_empty r.socket || is_empty r.token
      then remove_receiver q t
      else write_private base receiver_file (receiver r)

-- A body of another kind is never written under these three names.
abbrev pub decode_receiver : Content → Result Receiver
decode_receiver (receiver r) = ok r
decode_receiver _ = err malformed

abbrev pub decode_address : Content → Result Address
decode_address (address a) = ok a
decode_address _ = err malformed

abbrev pub decode_notification : Content → Result NotificationStatus
decode_notification (notification s) = ok s
decode_notification _ = err malformed

-- What `Queue.Receiver` does with what it finds: the `Stat` and the `ReadFile` are two calls, and the
-- mode is the first one's.
abbrev pub read_private : FilePath → Result (Bool × Content) → Io Receiver
read_private path (ok (mode, _)) =
    if mode
    then (do (_, content) ← read_file path; lift (decode_receiver content))
    else raise malformed
read_private path (err e) = raise (if is_not_exist e then not_found else e)

-- `Queue.Receiver`.
unfoldable pub get_receiver : Queue → Target → Io Receiver
get_receiver q t = do
  base ← lift (target_dir q t)
  attempt (read_file (join base receiver_file)) (read_private (join base receiver_file))

-- `Queue.Address`.
unfoldable pub get_address : Queue → Target → Io Address
get_address q t = do
  base ← lift (target_dir q t)
  attempt (read_file (join base addr_file)) λ r. elim r [
    | ok (_, content) ↦ lift (decode_address content)
    | err e ↦ raise (if is_not_exist e then not_found else e)
  ]

-- `Queue.Notification`.
unfoldable pub get_notification : Queue → Target → Io NotificationStatus
get_notification q t = do
  base ← lift (target_dir q t)
  attempt (read_file (join base notification_file)) λ r. elim r [
    | ok (_, content) ↦ lift (decode_notification content)
    | err e ↦ if is_not_exist e then pure no_notification else raise e
  ]
