-- ===== src/Tests/Values.antt =====
-- The theorems on values, at concrete inputs.
use agentqueue.Prelude.{
  Text, codes, [], ◌∷◌, true, false, none, some, ◌≡◌, refl, ◌≤◌, ◌+◌, ◌^◌, length, arith, ltb, not,
  ◌&&◌, text_eq, trim, trim_right, is_space,
}
use agentqueue.Data.{target_string, uncertain, ok, HostReceipt, is_uncertain}
use agentqueue.Item.{parse_target, new_id, unix_epoch}
use agentqueue.Item.Round.{parse_target-target_string, parse_target-IsTarget, IsTarget}
use agentqueue.Item.Chronology.{new_id-chronological, Before}
use agentqueue.Segment.{sanitize}
use agentqueue.Segment.Safe.{sanitize-IsSegment, AllSafe}
use agentqueue.Fs.{join}
use agentqueue.Fs.Laws.{IsSegment}
use agentqueue.Queue.{target_dir}
use agentqueue.Queue.Paths.{target_dir-contained}
use agentqueue.Address.{cwd_segment, fnv1a, utf8}
use agentqueue.Address.Segment.{cwd_segment-bounded}
use agentqueue.Transport.{drain_lifetime, uncertain_lifetime}
use agentqueue.Wake.{flight_active, accept_receipt, submitting, record_failure, attempt_pending}
use agentqueue.Wake.Flight.{accept-flight_active, observe-flight_active, failure-attempt_pending}
use agentqueue.Receive.{observe}
use agentqueue.Session.{quote}
use agentqueue.Session.Quote.{shell_word, shell_word-quote, outside}
use agentqueue.Tests.{queue, alice, base, root, queued}

abbrev hostile : Text
hostile = codes " ../bob/.. "

abbrev tamed : Text
tamed = codes ".._bob_.."

hostile-tamed : sanitize hostile ≡ ok tamed
unfolding sanitize trim text_eq
hostile-tamed = refl

sanitize-IsSegment_example : AllSafe tamed × IsSegment tamed
sanitize-IsSegment_example = sanitize-IsSegment hostile tamed hostile-tamed

alice-base : target_dir queue alice ≡ ok base
unfolding target_dir sanitize trim text_eq join
alice-base = refl

target_dir-contained_example :
    (agent : Text) × (name : Text) × (base ≡ name ∷ agent ∷ root)
    × (AllSafe agent × IsSegment agent)
    × (AllSafe name × IsSegment name)
target_dir-contained_example = target_dir-contained queue alice base alice-base

new_id-chronological_example :
    Before (new_id unix_epoch none) (new_id (unix_epoch + 10 ^ 6) (some (255 ∷ [])))
new_id-chronological_example =
    new_id-chronological unix_epoch (unix_epoch + 10 ^ 6) none (some (255 ∷ [])) (omega arith)
      (omega arith)

alice-IsTarget : IsTarget alice
unfolding is_space trim_right
alice-IsTarget = record {
  agent = record { left = refl; right = refl; filled = λ e. cc };
  name = record { left = refl; right = refl; filled = λ e. cc };
  no_colon = omega arith;
}

parse_target-target_string_example : parse_target (target_string alice) ≡ ok alice
parse_target-target_string_example = parse_target-target_string alice alice-IsTarget

alice_parsed : parse_target (codes " alice") ≡ ok alice
unfolding parse_target trim
alice_parsed = refl

parse_target-IsTarget_example : IsTarget alice
parse_target-IsTarget_example = parse_target-IsTarget (codes " alice") alice alice_parsed

abbrev work_segment : Text
work_segment = codes "_work-1f92008dc8753ba3"

work_segmented : cwd_segment (codes "/work") ≡ ok work_segment
unfolding cwd_segment trim sanitize text_eq fnv1a utf8
work_segmented = refl

cwd_segment-bounded_example :
    AllSafe work_segment × IsSegment work_segment × (length work_segment ≤ 97)
cwd_segment-bounded_example = cwd_segment-bounded (codes "/work") work_segment work_segmented

abbrev queued_receipt : HostReceipt
queued_receipt = record { state = codes "queued"; queue_id = codes "1"; thread_id = [] }

accept-flight_active_example :
    flight_active
      (accept_receipt (submitting queued true (codes "cd") 3 []) true [] queued_receipt)
      9
    ≡ text_eq queued_receipt.state (codes "queued")
accept-flight_active_example = accept-flight_active queued (codes "cd") 3 9 [] queued_receipt

observe-flight_active_example :
    flight_active (observe queued false 3) 9 ≡ (not false && ltb 9 (3 + drain_lifetime))
observe-flight_active_example = observe-flight_active queued false 3 9 refl

failure-attempt_pending_example :
    attempt_pending (record_failure (submitting queued true (codes "cd") 3 []) uncertain) 9
    ≡ (is_uncertain uncertain && ltb 9 (3 + uncertain_lifetime))
failure-attempt_pending_example = failure-attempt_pending queued true (codes "cd") uncertain 3 9 []

shell_word-quote_example : shell_word outside (quote (codes "it's")) ≡ some (codes "it's")
shell_word-quote_example = shell_word-quote (codes "it's")
