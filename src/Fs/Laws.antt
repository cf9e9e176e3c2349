-- ===== src/Fs/Laws.antt =====
-- The laws of the map and of the paths.
use mathlib.Core.List.{append-nil, append_assoc}
use agentqueue.Prelude.{
  Text, codes, FilePath, path_eq, path_eq_iff, text_eq_iff, [], ◌∷◌, ◌++◌, ◌∙◌, none, some,
  if◌then◌else◌, ◌≡◌, ◌≢◌, refl, arith, All, Bool-cases, inl, inr,
}
use agentqueue.Fs.{Node, Fs, lookup, without, insert, walk, enter, join}

pub lookup-without :
    (p r : FilePath) (fs : Fs)
    → lookup r (without p fs) ≡ (if path_eq p r then none else lookup r fs)
unfolding lookup without
lookup-without p r [] = ground arith
lookup-without p r ((k, v) ∷ fs) =
    ground (arith, lookup-without p r fs, path_eq_iff k p, path_eq_iff k r, path_eq_iff p r)

pub lookup-insert :
    (p r : FilePath) (v : Node) (fs : Fs)
    → lookup r (insert p v fs) ≡ (if path_eq p r then some v else lookup r fs)
unfolding insert lookup
lookup-insert p r v fs = ground (arith, lookup-without p r fs)

-- Every path has one entry at most.
abbrev pub IsMap : Fs → Type 0
IsMap [] = Unit
IsMap ((k, v) ∷ fs) = (lookup k fs ≡ none) × IsMap fs

pub without-IsMap : (p : FilePath) (fs : Fs) → IsMap fs → IsMap (without p fs)
unfolding without
without-IsMap p [] m = tt
without-IsMap p ((k, v) ∷ fs) (h, m) = elim (Bool-cases (path_eq k p)) [
  | inl e ↦ rw e (without-IsMap p fs m)
  | inr e ↦ rw e (ground (arith, lookup-without p k fs, h), without-IsMap p fs m)
]

pub insert-IsMap : (p : FilePath) (v : Node) (fs : Fs) → IsMap fs → IsMap (insert p v fs)
unfolding insert
insert-IsMap p v fs m =
    (ground (arith, lookup-without p p fs, path_eq_iff p p), without-IsMap p fs m)

-- The text has no slash.
abbrev pub NoSlash : Text → Type 0
NoSlash = All (λ c. c ≢ b'/')

-- A name that `filepath.Join` takes as one segment.
abbrev pub IsSegment : Text → Type 0
IsSegment s = NoSlash s × (s ≢ []) × (s ≢ codes ".") × (s ≢ codes "..")

walk_segment : (p : FilePath) (seen s : Text) → NoSlash s → walk p seen s ≡ enter p (seen ++ s)
unfolding walk
walk_segment p seen [] h = rw append-nil
walk_segment p seen (c ∷ s) (h, hs) =
    ground (arith, walk_segment p (seen ++ c ∷ []) s hs, append_assoc seen (c ∷ []) s)

-- A segment goes one directory down.
pub join_segment : (p : FilePath) (s : Text) → IsSegment s → join p s ≡ s ∷ p
unfolding join enter
join_segment p [] h = absurd (h.1 refl)
join_segment p (c ∷ s) h =
    walk_segment p [] (c ∷ s) h.0
    ∙ ground (arith, text_eq_iff (c ∷ s) (codes "."), text_eq_iff (c ∷ s) (codes ".."), h.2, h.3)
