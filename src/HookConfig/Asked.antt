-- ===== src/HookConfig/Asked.antt =====
-- Without consent an installation writes nothing: hook_config.go.
use agentqueue.Prelude.{
  Text, trim, is_empty, List, [], ◌∷◌, Bool, true, false, not, ◌&&◌, ◌||◌, inl, inr, Option, none,
  some, if◌then◌else◌, ◌≡◌, ◌⊎◌, ◌∙◌, refl, arith,
}
use agentqueue.Data.{Error, Result, ok, err, malformed}
use agentqueue.Io.{World, Io, pure, raise, lift, continue, ◌>>=◌}
use agentqueue.HookConfig.{Manager, is_managed, agent_config_manager}
use agentqueue.HookConfig.Install.{
  Crossagent, ChangePlan, ChangeFlags, InstallFlags, Terminal, Done, unchanged, planned,
  confirm_change, ask_first, apply_hook_plan, choose_install_agents, installable, parse_agent_flag,
  install_all, install_parsed, is_yes,
}

-- The action leaves the files as they are.
abbrev pub Leaves : {A : Type 0} → Io A → Type 0
Leaves m = (w : World) → (m w).1.fs ≡ w.fs

bind-Leaves :
    {A B : Type 0} (m : Io A) (f : A → Io B)
    → Leaves m
    → ((a : A) → Leaves (f a))
    → Leaves (m >>= f)
unfolding ◌>>=◌
bind-Leaves m f h k w = after (m w).0 (m w).1 (h w)
  where
    after : (r : Result _) (w' : World) → w'.fs ≡ w.fs → (continue r f w').1.fs ≡ w.fs
    after (ok a) w' e = k a w' ∙ e
    after (err x) w' e = e

pure-Leaves : {A : Type 0} (a : A) → Leaves (pure a)
unfolding pure
pure-Leaves a w = refl

lift-Leaves : {A : Type 0} (r : Result A) → Leaves (lift r)
unfolding lift
lift-Leaves r w = refl

raise-Leaves : (A : Type 0) (e : Error) → Leaves {A = A} (raise e)
unfolding raise
raise-Leaves A e w = refl

if-Leaves :
    {A : Type 0} (b : Bool) (m n : Io A)
    → (b ≡ true → Leaves m)
    → (b ≡ false → Leaves n)
    → Leaves (if b then m else n)
if-Leaves true m n h k = h refl
if-Leaves false m n h k = k refl

-- The flags give no consent to a change: it is only to be shown, or there is neither `--yes` nor a
-- terminal to ask at.
abbrev pub NoConsent : Terminal → ChangeFlags → Type 0
NoConsent terminal f = ((f.diff || f.dry_run) ≡ true) ⊎ ((f.yes ≡ false) × (terminal ≡ none))

-- A line that is read at the terminal changes no file.
abbrev pub ReadsOnly : Terminal → Type 0
ReadsOnly none = Unit
ReadsOnly (some read_line) = Leaves read_line

unconfirmed-Leaves : (change : Io Done) → Leaves (ask_first none false change)
unfolding confirm_change raise ◌>>=◌
unconfirmed-Leaves change w = refl

ask_first-Leaves :
    (terminal : Terminal) (f : ChangeFlags) (change : Io Done)
    → (f.diff || f.dry_run) ≡ false
    → NoConsent terminal f
    → Leaves (ask_first terminal f.yes change)
ask_first-Leaves terminal f change shown (inl e) = absurd (ground (arith, e, shown))
ask_first-Leaves terminal f change shown (inr (y, t)) = rw (y, t) (unconfirmed-Leaves change)

apply_hook_plan-Leaves :
    (x : Crossagent) (manager : Manager) (plan : ChangePlan) (terminal : Terminal) (f : ChangeFlags)
    → NoConsent terminal f
    → Leaves (apply_hook_plan x manager plan terminal f)
unfolding apply_hook_plan
apply_hook_plan-Leaves x manager plan terminal f consent =
    if-Leaves (not plan.has_changes) _ _ (λ _. pure-Leaves unchanged)
      λ _.
        if-Leaves (f.diff || f.dry_run) _ _ (λ _. pure-Leaves planned)
          λ shown. ask_first-Leaves terminal f _ shown consent

install_all-Leaves :
    (x : Crossagent) (found_cwd : Bool) (terminal : Terminal) (f : InstallFlags)
    (invocation executable : Text) (agents : List (Text × Bool))
    → ((manager : Manager) → Leaves (x.plan_install manager))
    → NoConsent terminal f.change
    → Leaves (install_all x found_cwd terminal f invocation executable agents)
unfolding install_all
install_all-Leaves x found_cwd terminal f invocation executable [] plans consent = pure-Leaves tt
install_all-Leaves x found_cwd terminal f invocation executable ((name, found) ∷ agents) plans
      consent =
    let rest =
      install_all-Leaves x found_cwd terminal f invocation executable agents plans consent in
    if-Leaves (not (is_managed name) || not found) _ _ (λ _. rest)
      λ _.
        bind-Leaves _ _
          (lift-Leaves
            (agent_config_manager found_cwd name f.scope f.settings invocation executable))
          λ manager. bind-Leaves _ _ (plans manager) λ plan.
            bind-Leaves _ _ (apply_hook_plan-Leaves x manager plan terminal f.change consent)
              λ _. rest

choose_install_agents-Leaves :
    (x : Crossagent) (requested : Text) (terminal : Terminal) (f : ChangeFlags)
    → ReadsOnly terminal
    → Leaves (choose_install_agents x requested terminal f)
unfolding choose_install_agents
choose_install_agents-Leaves x requested terminal f reads =
    if-Leaves (not (is_empty (trim requested))) _ _ (λ _. named (x.parse_agent (trim requested)))
      λ _.
        if-Leaves (is_empty (installable x.detect)) _ _ (λ _. pure-Leaves [])
          λ _. asked terminal reads
  where
    named :
        (o : Option Text)
        → Leaves {A = List (Text × Bool)}
            (elim o [ none ↦ raise malformed | some name ↦ pure (x.detect_one name ∷ []) ])
    named none = raise-Leaves _ malformed
    named (some name) = pure-Leaves _

    asked :
        (t : Terminal)
        → ReadsOnly t
        → Leaves {A = List (Text × Bool)} (elim t [
          | none ↦ pure (if f.yes || f.dry_run || f.diff then installable x.detect else [])
          | some read_line ↦
              read_line >>= λ line. pure (if is_yes line then installable x.detect else [])
        ])
    asked none r = pure-Leaves _
    asked (some read_line) r = bind-Leaves read_line _ r λ line. pure-Leaves _

-- An installation changes no file if its flags only show the change, and if there is neither `--yes` nor
-- a terminal to ask at: where planning a change and reading a line change none.
pub install_parsed-Leaves :
    (x : Crossagent) (found_cwd : Bool) (terminal : Terminal) (f : InstallFlags)
    (command : Result (Text × Text)) (w : World)
    → ((manager : Manager) → Leaves (x.plan_install manager))
    → ReadsOnly terminal
    → NoConsent terminal f.change
    → (install_parsed x found_cwd terminal f command w).1.fs ≡ w.fs
unfolding install_parsed
install_parsed-Leaves x found_cwd terminal f command w plans reads consent =
    if-Leaves (not (is_empty (trim f.settings)) && is_empty (trim f.agent)) _ _
      (λ _. raise-Leaves _ malformed)
      (λ _. bind-Leaves _ _ (lift-Leaves (parse_agent_flag x f.agent)) λ agent.
        bind-Leaves _ _ (lift-Leaves command) λ (invocation, executable).
          bind-Leaves _ _ (choose_install_agents-Leaves x agent terminal f.change reads) λ chosen.
            install_all-Leaves x found_cwd terminal f invocation executable chosen plans consent)
      w
