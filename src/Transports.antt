-- ===== src/Transports.antt =====
-- transport_claude.go, transport_codex.go and transport_pi.go: the transports that the library registers.
pub mod Receipts
use agentqueue.Prelude.{
  ℕ, zero, suc, ◌+◌, ◌*◌, ltb, leb, ◌==◌, Text, codes, text_eq, is_empty, List, [], ◌∷◌, ◌++◌, Bool,
  true, false, not, ◌&&◌, ◌||◌, Option, none, some, if◌then◌else◌,
}
use agentqueue.Data.{HostReceipt, no_receipt, Receiver, uncertain, io, malformed, Result, ok, err}
use agentqueue.Io.{Io, pure, raise, now, attempt, ◌>>=◌, ◌>>◌}
use agentqueue.Transport.{Context, context_err, Notice, Transport, Registry, register, second}

-- What the transports take from elsewhere: whether the system is Windows, the connection to a socket,
-- its write deadline and a write to it, the uuid package, JSON of the two frames for Claude,
-- `time.RFC3339Nano`, and a run of the `codex` command in a profile, which gives its output and whether
-- it succeeded.
pub record Outside : Type 0 where
  pub windows : Bool
  pub dial : Context → Text → Io (Unit {0})
  pub set_deadline : ℕ → Io (Unit {0})
  pub write : Text → Io (Unit {0})
  pub new_uuid : Io Text
  pub parse_uuid : Text → Option Text
  pub auth_json : Text → Text
  pub frame_json : Text → Text → Text
  pub rfc3339_nano : ℕ → Text
  pub run_codex : Context → Text → List Text → Io (Text × Bool)

-- The text of a receipt without ids.
abbrev pub receipt_in : Text → HostReceipt
receipt_in state = record no_receipt { state = state }

-- `strings.TrimPrefix`, where the prefix is there: what stands behind it.
unfoldable pub cut_prefix : Text → Text → Option Text
cut_prefix [] s = some s
cut_prefix (c ∷ p) [] = none
cut_prefix (c ∷ p) (d ∷ s) = if c == d then cut_prefix p s else none

-- `noticeMessage`.
unfoldable pub notice_message : Outside → Notice → Text
notice_message o n =
    codes "[agentqueue notice "
    ++ n.id
    ++ codes "; generated "
    ++ o.rfc3339_nano n.generated_at
    ++ codes "] Your inbox changed. Run this receive command unchanged for each batch:\n"
    ++ n.fetch_cmd
    ++ codes
        "\nHandle and ACK each item, then repeat the same command until empty. Preserve --notice when present: it acknowledges only this notification, even if bodies were delivered earlier. This is a signal, not a new request. An empty result needs no retry."

abbrev pub two_seconds : ℕ
two_seconds = 2 * second

-- The deadline of the write: two seconds, or the end of the context if it comes first.
unfoldable pub write_deadline : Context → ℕ → ℕ
write_deadline ctx time = elim ctx.deadline [
  | none ↦ time + two_seconds
  | some d ↦ if ltb d (time + two_seconds) then d else time + two_seconds
]

-- The message that a Claude session is sent.
unfoldable pub claude_content : Outside → Notice → Receiver → Text
unfolding notice_message
claude_content o n r =
    codes "<cross-session-message from=\"agentqueue\""
    ++ (if text_eq r.permission_mode (codes "bypassPermissions")
        then codes " from-name=\"agentqueue\" from-mode=\"bypass\""
        else [])
    ++ codes ">\n"
    ++ notice_message o n
    ++ codes "\n</cross-session-message>"

-- The submission to a receiver's socket; a write that fails leaves it open whether the message arrived.
unfoldable pub claude_submit : Outside → Context → Notice → Receiver → Io HostReceipt
unfolding write_deadline claude_content cut_prefix
claude_submit o ctx n r = do
  o.dial ctx (elim (cut_prefix (codes "uds:") r.socket) [ none ↦ r.socket | some s ↦ s ])
  time ← now
  o.set_deadline (write_deadline ctx time)
  id ← o.new_uuid
  attempt
      (o.write
        (o.auth_json r.token ++ codes "\n" ++ o.frame_json id (claude_content o n r) ++ codes "\n"))
      λ w. elim w [ ok _ ↦ pure (receipt_in (codes "written")) | err e ↦ raise uncertain ]

-- `claudeTransport.NotifyWithReceipt`.
unfoldable pub claude_notify : Outside → Context → Notice → Io HostReceipt
unfolding claude_submit
claude_notify o ctx n = elim n.receiver [
  | none ↦ pure (receipt_in (codes "deferred"))
  | some r ↦
      if o.windows || is_empty r.socket || is_empty r.token
      then pure (receipt_in (codes "deferred"))
      else claude_submit o ctx n r
]

-- A character of an id in a receipt.
unfoldable pub is_uuid_char : ℕ → Bool
is_uuid_char c =
    (leb b'0' c && leb c b'9')
    || (leb b'a' c && leb c b'f')
    || (leb b'A' c && leb c b'F')
    || c == b'-'

-- `[0-9a-fA-F-]{n}` at the beginning of a text: the id, and what stands behind it.
unfoldable pub cut_id : ℕ → Text → Option (Text × Text)
unfolding is_uuid_char
cut_id zero s = some ([], s)
cut_id (suc n) [] = none
cut_id (suc n) (c ∷ s) =
    let rest = cut_id n s in
    if is_uuid_char c then elim rest [ none ↦ none | some (id, r) ↦ some (c ∷ id, r) ] else none

-- `\s*$` on what is left of a line.
unfoldable pub is_blank : Text → Bool
is_blank [] = true
is_blank (c ∷ s) = if c == 32 || c == 9 || c == 12 || c == 13 then is_blank s else false

-- `\.?` before it.
unfoldable pub line_ends : Text → Bool
unfolding is_blank
line_ends [] = true
line_ends (c ∷ s) = if c == b'.' then is_blank s else is_blank (c ∷ s)

-- `queuedReceipt` on one line: the queue id and the thread id.
unfoldable pub receipt_line : Text → Option (Text × Text)
unfolding cut_prefix cut_id line_ends
receipt_line s = elim (cut_prefix (codes "Queued message ") s) [
  | none ↦ none
  | some s ↦ elim (cut_id 36 s) [
    | none ↦ none
    | some (queue, s) ↦ elim (cut_prefix (codes " for thread ") s) [
      | none ↦ none
      | some s ↦ elim (cut_id 36 s) [
        | none ↦ none
        | some (thread, s) ↦ if line_ends s then some (queue, thread) else none
      ]
    ]
  ]
]

-- The lines of a text.
unfoldable pub lines : Text → Text → List Text
lines seen [] = seen ∷ []
lines seen (c ∷ s) = if c == b'\n' then seen ∷ lines [] s else lines (seen ++ c ∷ []) s

-- `queuedReceipt.FindStringSubmatch`: the first line that matches.
unfoldable pub first_receipt : List Text → Option (Text × Text)
unfolding receipt_line
first_receipt [] = none
first_receipt (l ∷ ls) = elim (receipt_line l) [ none ↦ first_receipt ls | some r ↦ some r ]

-- The check of a receipt that Codex printed, against the thread of the notice.
unfoldable pub check_receipt : Outside → Text → Text → Result HostReceipt
unfolding lines first_receipt
check_receipt o target out = elim (first_receipt (lines [] out)) [
  | none ↦ err uncertain
  | some (queue, thread) ↦ elim (o.parse_uuid queue) [
    | none ↦ err uncertain
    | some _ ↦ elim (o.parse_uuid thread) [
      | none ↦ err uncertain
      | some received ↦
          if text_eq target received
          then ok (record { state = codes "queued"; queue_id = queue; thread_id = thread })
          else err uncertain
    ]
  ]
]

-- `filepath.IsAbs`.
abbrev pub is_abs : Text → Bool
is_abs [] = false
is_abs (c ∷ s) = c == b'/'

-- The run of `codex queue`; it is uncertain what a run has done that its context cut off.
unfoldable pub codex_submit : Outside → Context → Notice → Text → Text → Io HostReceipt
unfolding check_receipt notice_message
codex_submit o ctx n profile target = do
  (out, succeeded) ← o.run_codex ctx profile (
      codes "queue"
      ∷ codes "--thread"
      ∷ n.target.name
      ∷ codes "--message"
      ∷ notice_message o n
      ∷ [])
  time ← now
  if succeeded
      then (λ w. (check_receipt o target out, w))
      else elim (context_err ctx time) [ none ↦ raise io | some _ ↦ raise uncertain ]

-- `codexTransport.NotifyWithReceipt`.
unfoldable pub codex_notify : Outside → Context → Notice → Io HostReceipt
unfolding codex_submit
codex_notify o ctx n = elim n.address [
  | none ↦ pure (receipt_in (codes "deferred"))
  | some a ↦
      if not (is_abs a.profile)
      then pure (receipt_in (codes "deferred"))
      else elim (o.parse_uuid n.target.name) [
        | none ↦ raise malformed
        | some target ↦ codex_submit o ctx n a.profile target
      ]
]

-- A `ReceiptTransport`, whose `Notify` drops the receipt.
abbrev pub with_receipt : Text → (Context → Notice → Io HostReceipt) → Transport
with_receipt name notify = record {
  name = name;
  notify = λ ctx n. notify ctx n >> pure tt;
  receipt = some notify;
}

-- The transports: Pi watches its mailbox itself.
unfoldable pub claude_transport : Outside → Transport
unfolding claude_notify
claude_transport o = with_receipt (codes "claude") (claude_notify o)

unfoldable pub codex_transport : Outside → Transport
unfolding codex_notify
codex_transport o = with_receipt (codes "codex") (codex_notify o)

abbrev pub pi_transport : Transport
pi_transport = record { name = codes "pi"; notify = λ ctx n. pure tt; receipt = none }

-- The registry behind the package's `init` functions, which run in the order of their files.
unfoldable pub builtin : Outside → Registry
unfolding claude_transport codex_transport
builtin o = register (register (register [] (claude_transport o)) (codex_transport o)) pi_transport
