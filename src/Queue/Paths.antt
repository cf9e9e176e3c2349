-- ===== src/Queue/Paths.antt =====
-- Where a target's files stand: two safe segments under the root, and one more for a state.
use agentqueue.Prelude.{
  Text, codes, FilePath, [], ◌∷◌, ◌++◌, ◌≡◌, ◌≢◌, ap, arith, All-append, ◌<◌, ◌≤◌, length,
  length-append, inl, inr,
}
use agentqueue.Data.{Target, State, pending, claimed, done, state_string, ok, Result-cases}
use agentqueue.Segment.{sanitize}
use agentqueue.Segment.Safe.{AllSafe, sanitize-IsSegment}
use agentqueue.Fs.Laws.{IsSegment, NoSlash, join_segment}
use agentqueue.Queue.{target_dir, item_path, tmp_path, tmp_dir_name}
use agentqueue.Config.{Queue}

-- A target directory is the sanitised name in the sanitised agent's directory in the root, and
-- both names are safe segments: no target leads outside the root.
pub target_dir-contained :
    (q : Queue) (t : Target) (base : FilePath)
    → target_dir q t ≡ ok base
    → (agent : Text) × (name : Text) × (base ≡ name ∷ agent ∷ q.root)
      × (AllSafe agent × IsSegment agent)
      × (AllSafe name × IsSegment name)
unfolding target_dir
target_dir-contained q t base h = elim (Result-cases (sanitize t.agent)) [
  | inr (x, e) ↦ absurd (ground (arith, e, h))
  | inl (agent, e) ↦ elim (Result-cases (sanitize t.name)) [
    | inr (x, e') ↦ absurd (ground (arith, e, e', h))
    | inl (name, e') ↦
        let sa = sanitize-IsSegment t.agent agent e in
        let sn = sanitize-IsSegment t.name name e' in
        (
          agent,
          name,
          ground (
            arith,
            e,
            e',
            h,
            join_segment q.root agent sa.1,
            join_segment (agent ∷ q.root) name sn.1,
          ),
          sa,
          sn,
        )
  ]
]

pub state_IsSegment : (st : State) → IsSegment (state_string st)
state_IsSegment pending = (omega arith, λ e. cc, λ e. cc, λ e. cc)
state_IsSegment claimed = (omega arith, λ e. cc, λ e. cc, λ e. cc)
state_IsSegment done = (omega arith, λ e. cc, λ e. cc, λ e. cc)

-- An id with no slash stays a segment with a suffix that is long enough.
suffixed_IsSegment :
    (id suffix : Text) → NoSlash id → NoSlash suffix → 2 < length suffix → IsSegment (id ++ suffix)
suffixed_IsSegment id suffix h k long = (
  All-append (λ d. d ≢ b'/') id suffix h k,
  λ e. short [] e (omega arith),
  λ e. short (codes ".") e (omega arith),
  λ e. short (codes "..") e (omega arith),
)
  where
    short : (s : Text) → id ++ suffix ≡ s → length s ≤ 2 → ⊥
    short s e l = omega (arith, ap length e, length-append id suffix, long, l)

pub item_path_lem :
    (base : FilePath) (st : State) (id : Text)
    → NoSlash id
    → item_path base st id ≡ (id ++ codes ".json") ∷ state_string st ∷ base
unfolding item_path
item_path_lem base st id h =
    rw (join_segment base (state_string st) (state_IsSegment st))
      (join_segment _ _ (suffixed_IsSegment id (codes ".json") h (omega arith) (omega arith)))

pub tmp_path_lem :
    (base : FilePath) (id : Text)
    → NoSlash id
    → tmp_path base id ≡ (id ++ codes ".json.tmp") ∷ tmp_dir_name ∷ base
unfolding tmp_path
tmp_path_lem base id h =
    rw (join_segment base tmp_dir_name (omega arith, λ e. cc, λ e. cc, λ e. cc))
      (join_segment _ _ (suffixed_IsSegment id (codes ".json.tmp") h (omega arith) (omega arith)))
