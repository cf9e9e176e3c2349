-- ===== src/Session.antt =====
-- hookserve/register.go, hookserve/caller.go, and the target of hookserve.go: who a hook speaks for, and
-- the address that it publishes.
pub mod Quote
use agentqueue.Prelude.{
  ℕ, ℤ, Text, codes, FilePath, trim, text_eq, is_empty, [], ◌∷◌, ◌++◌, Bool, not, ◌&&◌, Option,
  none, some, if◌then◌else◌, ◌==◌,
}
use agentqueue.Data.{Target, Address, Snapshot, malformed, Result, ok, err}
use agentqueue.Data
use agentqueue.Item.{parse_target, default_agent}
use agentqueue.Fs.{join, path_string}
use agentqueue.Io.{Io, pure, ◌>>=◌, ◌>>◌}
use agentqueue.Config.{Queue, abs}
use agentqueue.Files.{put_receiver}
use agentqueue.Address.{put_address}
use agentqueue.Transport.{Host, wake_protocol_version}

pub record Payload : Type 0 where
  pub session_id : Text
  pub hook_event_name : Text
  pub cwd : Text
  pub permission_mode : Text
  pub source : Text
  pub stop_hook_active : Bool

pub record Options : Type 0 where
  pub to : Text
  pub max : ℤ
  pub no_block : Bool
  pub getenv : Text → Text

-- What the hooks take from elsewhere: the working directory and the parent process of the hook,
-- the snapshot that `sessioncontext.Collect` takes, whether crossagent knows an agent name, the
-- append to the caller's environment file, `time.RFC3339`, and the Host of the queue.
pub record Session : Type 0 where
  pub host : Host
  pub cwd : Option Text
  pub cwd_path : FilePath
  pub ppid : ℕ
  pub is_agent : Text → Bool
  pub collect : Text → Text → Text → Snapshot
  pub append_env : Text → Text → Io (Unit {0})
  pub rfc3339 : ℕ → Text

-- The first of two texts that is not empty.
abbrev pub or_else : Text → Text → Text
or_else a b = if is_empty a then b else a

-- `hookserve.Target`.
unfoldable pub hook_target : Text → Text → (Text → Text) → Result Target
hook_target to session_id getenv =
    if not (is_empty (trim to))
    then parse_target (trim to)
    else (let name = or_else (trim session_id) (trim (getenv (codes "CLAUDE_CODE_SESSION_ID"))) in
        if is_empty name then err malformed else ok (record { agent = default_agent; name = name }))

-- `RegisterTarget`.
unfoldable pub register_target : Text → Text → Text → (Text → Text) → Result Target
register_target to agent_name session_id getenv =
    if not (is_empty (trim to))
    then parse_target (trim to)
    else (let name = or_else (trim session_id) (trim (getenv (codes "CLAUDE_CODE_SESSION_ID"))) in
        if is_empty name
        then err malformed
        else ok (record { agent = or_else (trim agent_name) default_agent; name = name }))

-- The profile of Codex: `$CODEX_HOME`, else `$HOME/.codex`.
unfoldable pub codex_profile : FilePath → (Text → Text) → Text
unfolding path_string
codex_profile cwd getenv =
    let given = trim (getenv (codes "CODEX_HOME")) in
    let home = getenv (codes "HOME") in
    if not (is_empty given)
    then path_string (abs cwd given)
    else if is_empty home
    then []
    else path_string (join (abs cwd home) (codes ".codex"))

-- `AddressFor`.
unfoldable pub address_for : Session → Target → Payload → (Text → Text) → Address
unfolding codex_profile
address_for s t payload getenv =
    let given = trim payload.cwd in
    let wd : Text = elim s.cwd [ none ↦ given | some wd ↦ wd ] in
    let cwd = or_else given wd in
    let is_codex = text_eq t.agent (codes "codex") in
    record {
      wake_protocol = wake_protocol_version;
      context = some (s.collect cwd (if s.is_agent t.agent then t.agent else []) t.name);
      agent = t.agent;
      name = t.name;
      cwd = cwd;
      pid = s.ppid;
      updated_at = 0;
      socket = if is_codex then [] else trim (getenv (codes "CLAUDE_CODE_MESSAGING_SOCKET"));
      profile = if is_codex then codex_profile s.cwd_path getenv else [];
      agent_version = trim (getenv (codes "CLAUDE_CODE_VERSION"));
    }

-- `RegisterAddress`.
unfoldable pub register_address : Session → Queue → Target → Payload → (Text → Text) → Io (Unit {0})
unfolding address_for
register_address s q t payload getenv = do
  put_address q (address_for s t payload getenv)
  if text_eq t.agent (codes "claude") && text_eq payload.session_id t.name
      then put_receiver q t (record {
        socket = trim (getenv (codes "CLAUDE_CODE_MESSAGING_SOCKET"));
        token = getenv (codes "CLAUDE_CODE_MESSAGING_TOKEN");
        permission_mode = payload.permission_mode;
      })
      else pure tt

-- The body of `quote` in `exportCaller`: each single quote leaves and enters the quotes again.
unfoldable pub quoted : Text → Text
quoted [] = []
quoted (c ∷ s) = (if c == b'\'' then codes "'\\''" else c ∷ []) ++ quoted s

unfoldable pub quote : Text → Text
unfolding quoted
quote s = codes "'" ++ (quoted s ++ codes "'")

-- `exportCaller`.
unfoldable pub export_caller : Session → Queue → Target → (Text → Text) → Io (Unit {0})
unfolding quote path_string
export_caller s q t getenv =
    let path = trim (getenv (codes "CLAUDE_ENV_FILE")) in
    if is_empty path
    then pure tt
    else s.append_env path (
        codes "\nexport CROSSAGENT_AGENT="
        ++ quote t.agent
        ++ codes "\nexport CROSSAGENT_SESSION_ID="
        ++ quote t.name
        ++ codes "\nexport AGENTQUEUE_ROOT="
        ++ quote (path_string q.root)
        ++ codes "\n")
