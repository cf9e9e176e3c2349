-- ===== src/Queue/Mailbox/Listed.antt =====
-- The entries of a directory as the ids that `itemIDs` (queue.go) finds, and back.
use agentqueue.Prelude.{
  ◌<◌, Text, codes, text_eq, text_eq_iff, FilePath, path_eq, path_eq_iff, List, [], ◌∷◌, ◌++◌, Bool,
  true, false, not, ◌&&◌, any, cut_suffix, Option-cases, none, some, ◌≡◌, ◌≢◌, refl, ap, subst,
  arith, Bool-cases, inl, inr, length, length-append, All, All-map,
}
use agentqueue.Fs
use agentqueue.Fs.{Fs, Node, dir, file, item, is_dir, dir_at, lookup, children, entry_le}
use agentqueue.Fs.Laws.{NoSlash}
use agentqueue.Queue.{ids_of}

-- A name without a suffix that it ends in.
cut_suffix-append : (s x : Text) → 0 < length x → cut_suffix (s ++ x) x ≡ some s
unfolding cut_suffix
cut_suffix-append [] [] h = absurd (omega (arith, h))
cut_suffix-append [] (c ∷ x) h = rw ((text_eq_iff (c ∷ x) (c ∷ x)).1 refl) refl
cut_suffix-append (d ∷ s) x h = elim (Bool-cases (text_eq (d ∷ (s ++ x)) x)) [
  | inl e ↦
      absurd (omega (arith, ap length ((text_eq_iff (d ∷ (s ++ x)) x).0 e), length-append s x))
  | inr e ↦ rw (e, cut_suffix-append s x h) refl
]

pub append-cut_suffix : (s x r : Text) → cut_suffix s x ≡ some r → s ≡ r ++ x
unfolding cut_suffix
append-cut_suffix [] [] r h = cc h
append-cut_suffix [] (d ∷ x) r h = cc
append-cut_suffix (c ∷ s) x r h = elim (Bool-cases (text_eq (c ∷ s) x)) [
  | inl e ↦ ground (arith, e, h, text_eq_iff (c ∷ s) x)
  | inr e ↦ elim (Option-cases (cut_suffix s x)) [
    | inl n ↦ absurd (ground (arith, e, n, h))
    | inr (r', k) ↦ ground (arith, e, k, h, append-cut_suffix s x r' k)
  ]
]

-- The file is listed.
pub listed_child :
    (name : Text) (p : FilePath) (mode : Bool) (c : Fs.Content) (fs : Fs)
    → lookup (name ∷ p) fs ≡ some (file mode c)
    → any (λ (n, d). text_eq n name && not d) (children p fs) ≡ true
unfolding children lookup path_eq
listed_child name p mode c [] h = cc
listed_child name p mode c (([], v) ∷ fs) h = listed_child name p mode c fs h
listed_child name p mode c ((n ∷ d, v) ∷ fs) h =
    ground (arith, h, listed_child name p mode c fs, text_eq_iff n name)

pub listed_id :
    (id : Text) (entries : List (Text × Bool))
    → any (λ (n, d). text_eq n (id ++ codes ".json") && not d) entries ≡ true
    → any (text_eq id) (ids_of entries) ≡ true
unfolding ids_of
listed_id id [] h = cc
listed_id id ((n, true) ∷ entries) h = listed_id id entries (ground (arith, h))
listed_id id ((n, false) ∷ entries) h = elim (Bool-cases (text_eq n (id ++ codes ".json"))) [
  | inl e ↦
      rw
        (
          (text_eq_iff n (id ++ codes ".json")).0 e,
          cut_suffix-append id (codes ".json") (omega arith),
          (text_eq_iff id id).1 refl,
        )
        refl
  | inr e ↦ elim (Option-cases (cut_suffix n (codes ".json"))) [
    | inl k ↦ rw k (listed_id id entries (ground (arith, e, h)))
    | inr (r, k) ↦ rw k (ground (arith, listed_id id entries, e, h))
  ]
]

-- A path that the file system has an entry for, and whose names have no slash.
abbrev pub IsThere : Fs → FilePath → Type 0
IsThere fs p = (lookup p fs ≢ none) × All NoSlash p

-- The names of the files have no slash, as those of a file system.
abbrev pub AllPlain : Fs → Type 0
AllPlain fs = All (λ (p, v). All NoSlash p) fs

pub entries-IsThere : (fs : Fs) → AllPlain fs → All (λ e. IsThere fs e.0) fs
unfolding lookup
entries-IsThere [] h = tt
entries-IsThere ((k, v) ∷ fs) (h, hs) = (
  (ground (arith, path_eq_iff k k), h),
  All-map fs (λ e (l, n). (ground (arith, l), n)) (entries-IsThere fs hs),
)

pub children-IsThere :
    (whole : Fs) (p : FilePath) (fs : Fs)
    → All (λ e. IsThere whole e.0) fs
    → All (λ e. IsThere whole (e.0 ∷ p)) (children p fs)
unfolding children
children-IsThere whole p [] h = tt
children-IsThere whole p (([], v) ∷ fs) (h, hs) = children-IsThere whole p fs hs
children-IsThere whole p ((n ∷ d, v) ∷ fs) (h, hs) = elim (Bool-cases (path_eq d p)) [
  | inl e ↦
      rw e (
        subst (λ r. IsThere whole (n ∷ r)) ((path_eq_iff d p).0 e) h,
        children-IsThere whole p fs hs,
      )
  | inr e ↦ rw e (children-IsThere whole p fs hs)
]

pub All-prefix : (s x : Text) → NoSlash (s ++ x) → NoSlash s
All-prefix [] x h = tt
All-prefix (c ∷ s) x (h, hs) = (h, All-prefix s x hs)

pub ids-IsThere :
    (whole : Fs) (p : FilePath) (entries : List (Text × Bool))
    → All (λ e. IsThere whole (e.0 ∷ p)) entries
    → All (λ id. IsThere whole ((id ++ codes ".json") ∷ p)) (ids_of entries)
unfolding ids_of
ids-IsThere whole p [] h = tt
ids-IsThere whole p ((n, true) ∷ entries) (h, hs) = ids-IsThere whole p entries hs
ids-IsThere whole p ((n, false) ∷ entries) (h, hs) =
    elim (Option-cases (cut_suffix n (codes ".json"))) [
      | inl k ↦ rw k (ids-IsThere whole p entries hs)
      | inr (id, k) ↦ rw k (
        subst (λ m. IsThere whole (m ∷ p)) (append-cut_suffix n (codes ".json") id k) h,
        ids-IsThere whole p entries hs,
      )
    ]
