-- ===== src/Root/Agreement.antt =====
-- The resolutions of the root by caller.go and by cmd/agentqueue/main.go.
use agentqueue.Prelude.{
  Text, codes, FilePath, trim, is_empty, false, Bool-cases, inl, inr, ◌≡◌, refl,
}
use agentqueue.Data.{Result, ok, ◌>>=◌}
use agentqueue.Config.{abs}
use agentqueue.Root.{resolve_root, resolve_root_from}

-- The command line and the library find one root, whichever variable it comes from, where HOME is
-- not blank.
pub resolve_root-resolve_root_from :
    (cwd : FilePath) (override : Text) (getenv : Text → Text) (user_home : Result Text)
    → is_empty (trim (getenv (codes "HOME"))) ≡ false
    → resolve_root_from cwd override getenv
      ≡ (resolve_root override getenv user_home >>= λ root. ok (abs cwd root))
unfolding resolve_root resolve_root_from
resolve_root-resolve_root_from cwd override getenv user_home h =
    elim (Bool-cases (is_empty (trim override))) [
      | inr e ↦ rw (e, e) refl
      | inl e ↦ elim (Bool-cases (is_empty (trim (getenv (codes "AGENTQUEUE_ROOT"))))) [
        | inr e' ↦ rw (e, e') refl
        | inl e' ↦ elim (Bool-cases (is_empty (trim (getenv (codes "XDG_STATE_HOME"))))) [
          | inr e'' ↦ rw (e, e', e'') refl
          | inl e'' ↦ rw (e, e', e'', h) refl
        ]
      ]
    ]
