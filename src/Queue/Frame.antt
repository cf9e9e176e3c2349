-- ===== src/Queue/Frame.antt =====
-- The directories that an operation makes stand above every item, so that making them changes no
-- item's file.
use agentqueue.Prelude.{
  ◌<◌, ◌∙◌, Text, FilePath, path_eq, path_eq_iff, List, [], ◌∷◌, false, ◌≡◌, refl, ap, arith, All,
  Bool-cases, inl, inr, length, Option,
}
use agentqueue.Data.{Target, Error, pending, claimed, done, state_string, Result, ok, err}
use agentqueue.Fs.{Fs, Node, dir, lookup, make_dir, mkdir_all, and_then}
use agentqueue.Fs.Laws.{lookup-insert, IsSegment, join_segment}
use agentqueue.Io.{Slot, Io, mkdir_all as mkdir_all_io, ◌>>=◌}
use agentqueue.Io.Rules.{Triple, Stable, syscall_rule, pure_rule, lift_rule, bind_rule}
use agentqueue.Queue.{target_dir, make_all, ensure_dirs, tmp_dir_name}
use agentqueue.Config.{Queue}
use agentqueue.Queue.Paths.{state_IsSegment}

lookup-make_dir :
    (p r : FilePath) (fs : Fs) → path_eq p r ≡ false → lookup r (make_dir p fs).1 ≡ lookup r fs
unfolding make_dir
lookup-make_dir p r fs h = ground (arith, lookup-insert p r dir fs)

-- A path is not a longer one.
pub deeper_ne : (p r : FilePath) → length p < length r → path_eq p r ≡ false
deeper_ne p r h = elim (Bool-cases (path_eq p r)) [
  | inl e ↦ absurd (omega (arith, ap length ((path_eq_iff p r).0 e)))
  | inr e ↦ e
]

pub lookup-and_then :
    (r : FilePath) (v : Option Node) (m : Result (Unit {0}) × Fs) (f : Fs → Result (Unit {0}) × Fs)
    → lookup r m.1 ≡ v
    → ((fs : Fs) → lookup r fs ≡ v → lookup r (f fs).1 ≡ v)
    → lookup r (and_then m f).1 ≡ v
lookup-and_then r v (ok _, fs) f h k = k fs h
lookup-and_then r v (err e, fs) f h k = h

-- `MkdirAll` changes nothing below the directory that it makes.
pub lookup-mkdir_all :
    (p r : FilePath) (fs : Fs) (v : Option Node)
    → length p < length r
    → lookup r fs ≡ v
    → lookup r (mkdir_all p fs).1 ≡ v
unfolding mkdir_all
lookup-mkdir_all [] r fs v h e = e
lookup-mkdir_all (n ∷ p) r fs v h e =
    lookup-and_then r v (mkdir_all p fs) (make_dir (n ∷ p))
      (lookup-mkdir_all p r fs v (omega arith) e)
      λ fs' e'. lookup-make_dir (n ∷ p) r fs' (deeper_ne (n ∷ p) r h) ∙ e'

module _ {Q : Slot → Type 0} (P : Fs → Type 0) (stable : Stable Q P) (base : FilePath)
    (kept : (sub : Text) (fs : Fs) → IsSegment sub → P fs → P (mkdir_all (sub ∷ base) fs).1) where
  make_all-keeps :
      (subs : List Text) → All IsSegment subs → Triple Q P (λ _ fs. P fs) (make_all base subs)
  unfolding make_all mkdir_all_io
  make_all-keeps [] seg = pure_rule tt λ fs k. k
  make_all-keeps (sub ∷ subs) (s, seg) =
      bind_rule (λ _ fs. P fs) _ _
        (syscall_rule _ _ stable (λ fs k. k) λ fs k. rw (join_segment base sub s) (kept sub fs s k))
        (λ x fs k. k) λ _. make_all-keeps subs seg

  -- `ensureDirs` keeps what no directory of the target changes, and returns the target's directory.
  pub ensure_dirs-keeps :
      (q : Queue) (t : Target)
      → target_dir q t ≡ ok base
      → Triple Q P (λ res fs. P fs × ((b : FilePath) → res ≡ ok b → b ≡ base)) (ensure_dirs q t)
  unfolding ensure_dirs
  ensure_dirs-keeps q t e =
      bind_rule (λ res fs. P fs × ((b : FilePath) → res ≡ ok b → b ≡ base)) _ _
        (lift_rule (target_dir q t) λ fs k. (k, λ b eb. cc (e, eb)))
        (λ x fs k. (k.0, λ b eb. cc eb))
        λ b.
          bind_rule (λ _ fs. P fs × (b ≡ base)) _ _ (at_base b) (λ x fs k. (k.0, λ c ec. cc ec))
            λ _. pure_rule b λ fs k. (k.0, λ c ec. cc (ec, k.1))
    where
      dirs : List Text
      dirs = state_string pending ∷ state_string claimed ∷ state_string done ∷ tmp_dir_name ∷ []

      segments : All IsSegment dirs
      segments = (
        state_IsSegment pending,
        (
          state_IsSegment claimed,
          (state_IsSegment done, ((omega arith, λ e. cc, λ e. cc, λ e. cc), tt)),
        ),
      )

      at_base :
          (b : FilePath)
          → Triple Q
              (λ fs. P fs × ((c : FilePath) → ok b ≡ ok c → c ≡ base))
              (λ _ fs. P fs × (b ≡ base))
              (make_all b dirs)
      at_base b = record {
        at = λ w qs k.
            let same : b ≡ base = k.1 b refl in
            let made : Triple Q P (λ _ fs. P fs) (make_all b dirs) =
              rw same (make_all-keeps dirs segments) in
            let (q', l) = made.at w qs k.0 in (q', (l, same));
      }

  -- What follows `ensureDirs` runs in the target's directory.
  pub in_target_dir :
      {A : Type 0} (q : Queue) (t : Target) (R : Result A → Fs → Type 0) (f : FilePath → Io A)
      → target_dir q t ≡ ok base
      → ((e : Error) (fs : Fs) → P fs → R (err e) fs)
      → Triple Q P R (f base)
      → Triple Q P R (ensure_dirs q t >>= f)
  in_target_dir q t R f e ke k =
      bind_rule (λ res fs. P fs × ((b : FilePath) → res ≡ ok b → b ≡ base)) _ f
        (ensure_dirs-keeps q t e) (λ x fs h. ke x fs h.0)
        λ b. record {
          at = λ w qs h.
              let same : b ≡ base = h.1 b refl in
              let k' : Triple Q P R (f b) = rw same k in k'.at w qs h.0;
        }
