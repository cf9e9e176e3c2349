-- ===== src/Transports/Receipts.antt =====
-- The receipts of the transports against what Notify (notifications.go) accepts.
use agentqueue.Prelude.{
  Text, codes, text_eq, text_eq_iff, [], true, Bool-cases, inl, inr, Option, Option-cases, none,
  some, ◌≡◌, ◌⊎◌, ◌∙◌, sym, refl, ap, subst, arith,
}
use agentqueue.Data.{Address, io, malformed, HostReceipt, Error, uncertain, Result, ok, err}
use agentqueue.Fs.{Fs}
use agentqueue.Io.{World, raise, now}
use agentqueue.Io.Rules.{Triple, Anything, then_any, of_any, pure_rule, raise_rule, if_rule}
use agentqueue.Wake.{known_receipt}
use agentqueue.Transport.{Context, context_err, Notice}
use agentqueue.Transports.{
  Outside, receipt_in, first_receipt, lines, check_receipt, codex_submit, codex_notify,
}

-- A deferred wake, or one that Codex has queued for the thread of the notice.
abbrev pub IsOwn : Outside → Notice → HostReceipt → Type 0
IsOwn o n r =
    (r ≡ receipt_in (codes "deferred"))
    ⊎ ((r.state ≡ codes "queued")
        × (o.parse_uuid r.thread_id ≡ o.parse_uuid n.target.name)
        × (known_receipt r ≡ true))

abbrev OwnResult : Outside → Notice → Result HostReceipt → Fs → Type 0
OwnResult o n (ok r) fs = IsOwn o n r
OwnResult o n (err e) fs = Unit

queued_known :
    (queue thread : Text)
    → known_receipt (record { state = codes "queued"; queue_id = queue; thread_id = thread }) ≡ true
unfolding text_eq
queued_known queue thread = refl

check_receipt-own :
    (o : Outside) (target out : Text) (r : HostReceipt)
    → check_receipt o target out ≡ ok r
    → (r.state ≡ codes "queued")
      × (o.parse_uuid r.thread_id ≡ some target)
      × (known_receipt r ≡ true)
unfolding check_receipt
check_receipt-own o target out r h = elim (Option-cases (first_receipt (lines [] out))) [
  | inl k ↦ absurd (ground (arith, k, h))
  | inr ((queue, thread), k) ↦ elim (Option-cases (o.parse_uuid queue)) [
    | inl k' ↦ absurd (ground (arith, k, k', h))
    | inr (_, k') ↦ elim (Option-cases (o.parse_uuid thread)) [
      | inl k'' ↦ absurd (ground (arith, k, k', k'', h))
      | inr (received, k'') ↦ elim (Bool-cases (text_eq target received)) [
        | inr b ↦ absurd (ground (arith, k, k', k'', b, h))
        | inl b ↦
            let made : record { state = codes "queued"; queue_id = queue; thread_id = thread } ≡ r =
              ground (arith, k, k', k'', b, h) in
            let same = text_eq_iff target received in
            subst
              (λ r.
                (r.state ≡ codes "queued")
                × (o.parse_uuid r.thread_id ≡ some target)
                × (known_receipt r ≡ true))
              made (refl, k'' ∙ ap some (sym (same.0 b)), queued_known queue thread)
      ]
    ]
  ]
]

check_receipt-IsOwn :
    (o : Outside) (n : Notice) (target out : Text) (fs : Fs)
    → o.parse_uuid n.target.name ≡ some target
    → OwnResult o n (check_receipt o target out) fs
check_receipt-IsOwn o n target out fs e = own (check_receipt o target out) refl
  where
    own : (x : Result HostReceipt) → check_receipt o target out ≡ x → OwnResult o n x fs
    own (ok r) h =
        let (state, thread, known) = check_receipt-own o target out r h in
        inr (state, thread ∙ sym e, known)
    own (err x) h = tt

codex_submit_rule :
    (o : Outside) (ctx : Context) (n : Notice) (profile target : Text)
    → o.parse_uuid n.target.name ≡ some target
    → Triple Anything (λ _. Unit {0}) (OwnResult o n) (codex_submit o ctx n profile target)
unfolding codex_submit
codex_submit_rule o ctx n profile target e =
    then_any _ _ (λ _ _. tt)
      λ (out, succeeded).
        then_any now _ (λ _ _. tt)
          λ time.
            if_rule succeeded _ _
              (λ _. record { at = λ w q h. (q, check_receipt-IsOwn o n target out w.fs e) })
              (λ _. failed_run (context_err ctx time))
  where
    failed_run :
        (c : Option Error)
        → Triple Anything
            (λ _. Unit {0})
            (OwnResult o n)
            (elim c [ none ↦ raise io | some _ ↦ raise uncertain ])
    failed_run none = raise_rule io λ fs _. tt
    failed_run (some x) = raise_rule uncertain λ fs _. tt

codex_notify_rule :
    (o : Outside) (ctx : Context) (n : Notice) (a : Option Address) (u : Option Text)
    → n.address ≡ a
    → o.parse_uuid n.target.name ≡ u
    → Triple Anything (λ _. Unit {0}) (OwnResult o n) (codex_notify o ctx n)
unfolding codex_notify
codex_notify_rule o ctx n none u e k = rw e (pure_rule _ λ fs _. inl refl)
codex_notify_rule o ctx n (some a) none e k =
    rw (e, k)
      (if_rule _ _ _ (λ _. pure_rule _ λ fs _. inl refl) λ _. raise_rule malformed λ fs _. tt)
codex_notify_rule o ctx n (some a) (some target) e k =
    rw (e, k)
      (if_rule _ _ _ (λ _. pure_rule _ λ fs _. inl refl)
        λ _. codex_submit_rule o ctx n a.profile target k)

-- A receipt of the Codex transport defers the wake, or is one that Notify accepts and names the very
-- thread that the notice is for, whatever the command `codex` printed.
pub codex_notify-IsOwn :
    (o : Outside) (ctx : Context) (n : Notice) (w : World) (r : HostReceipt)
    → (codex_notify o ctx n w).0 ≡ ok r
    → IsOwn o n r
codex_notify-IsOwn o ctx n w r e =
    own _ e (of_any _ w (codex_notify_rule o ctx n n.address _ refl refl))
  where
    own :
        (x : Result HostReceipt)
        → x ≡ ok r
        → OwnResult o n x (codex_notify o ctx n w).1.fs
        → IsOwn o n r
    own (ok r') e k = subst (IsOwn o n) (cc e) k
    own (err x) e k = cc
