-- ===== src/Root.antt =====
-- The queue's root directory and the caller: ResolveRoot and ResolveCaller (caller.go), and
-- resolveRoot (cmd/agentqueue/main.go). A path that is not absolute yet is a text.
pub mod Agreement
use agentqueue.Prelude.{
  Text, codes, FilePath, trim, text_eq, is_empty, List, [], ◌∷◌, ◌++◌, not, ◌||◌, if◌then◌else◌,
  ◌==◌,
}
use agentqueue.Data.{Target, malformed, Result, ok, err, ◌>>=◌}
use agentqueue.Item.{parse_target}
use agentqueue.Fs.{join, path_string}
use agentqueue.Config.{abs}

-- One segment of a relative path, by `filepath.Clean`: what leads above the beginning stays.
abbrev up : FilePath → FilePath
up [] = codes ".." ∷ []
up (n ∷ p) = if text_eq n (codes "..") then codes ".." ∷ n ∷ p else p

unfoldable pub enter_relative : FilePath → Text → FilePath
enter_relative p s =
    if is_empty s || text_eq s (codes ".")
    then p
    else if text_eq s (codes "..")
    then up p
    else s ∷ p

unfoldable pub walk_relative : FilePath → Text → Text → FilePath
unfolding enter_relative
walk_relative p seen [] = enter_relative p seen
walk_relative p seen (c ∷ s) =
    walk_relative (if c == b'/' then enter_relative p seen else p)
      (if c == b'/' then [] else seen ++ c ∷ []) s

-- A relative path as text; the directory itself is `.`.
unfoldable pub relative_string : FilePath → Text
relative_string [] = codes "."
relative_string (n ∷ []) = n
relative_string (n ∷ m ∷ p) = relative_string (m ∷ p) ++ codes "/" ++ n

-- `filepath.Clean`.
unfoldable pub clean : Text → Text
unfolding walk_relative relative_string path_string
clean [] = codes "."
clean (c ∷ s) =
    if c == b'/'
    then path_string (join [] (c ∷ s))
    else relative_string (walk_relative [] [] (c ∷ s))

-- `filepath.Join` of texts, of which the first is not empty.
unfoldable pub join_text : Text → List Text → Text
unfolding clean
join_text s parts = clean (joined s parts)
  where
    joined : Text → List Text → Text
    joined s [] = s
    joined s (p ∷ ps) = joined (s ++ codes "/" ++ p) ps

abbrev home_root : Text → Text
home_root home = join_text home (codes ".local" ∷ codes "state" ∷ codes "agentqueue" ∷ [])

-- `resolveRoot` of main.go; `user_home` is what `os.UserHomeDir` gives.
unfoldable pub resolve_root : Text → (Text → Text) → Result Text → Result Text
resolve_root override getenv user_home =
    let given = trim override in
    let root = trim (getenv (codes "AGENTQUEUE_ROOT")) in
    let state = trim (getenv (codes "XDG_STATE_HOME")) in
    let home = trim (getenv (codes "HOME")) in
    if not (is_empty given)
    then ok given
    else if not (is_empty root)
    then ok root
    else if not (is_empty state)
    then ok (join_text state (codes "agentqueue" ∷ []))
    else if not (is_empty home)
    then ok (home_root home)
    else (user_home >>= λ home. ok (home_root home))

-- `ResolveRoot` of caller.go, from the working directory `cwd`.
unfoldable pub resolve_root_from : FilePath → Text → (Text → Text) → Result FilePath
resolve_root_from cwd root getenv =
    let given = trim root in
    let root' = if is_empty given then trim (getenv (codes "AGENTQUEUE_ROOT")) else given in
    let state = trim (getenv (codes "XDG_STATE_HOME")) in
    let home = trim (getenv (codes "HOME")) in
    if not (is_empty root')
    then ok (abs cwd root')
    else if not (is_empty state)
    then ok (abs cwd (join_text state (codes "agentqueue" ∷ [])))
    else if is_empty home
    then err malformed
    else ok (abs cwd (home_root home))

pub record Caller : Type 0 where
  pub target : Target
  pub root : FilePath

-- The text that `ResolveCaller` takes for the target; `resolve` is crossagent's `processcontext.Resolve`,
-- which gives an agent and the id of a session.
unfoldable pub caller_name :
    ((Text → Text) → Result (Text × Text)) → Text → (Text → Text) → Result Text
caller_name resolve target getenv =
    if is_empty (trim target)
    then (resolve getenv >>= λ (agent, session). ok (agent ++ (codes ":" ++ session)))
    else ok (trim target)

-- `ResolveCaller`.
unfoldable pub resolve_caller :
    FilePath → ((Text → Text) → Result (Text × Text)) → Text → Text → (Text → Text) → Result Caller
unfolding caller_name resolve_root_from
resolve_caller cwd resolve target root getenv = caller_name resolve target getenv >>= λ name.
    parse_target name >>= λ t.
    resolve_root_from cwd root getenv >>= λ r. ok (record { target = t; root = r })
