-- ===== src/Config.antt =====
-- queue.go: the configuration of a queue, `Open` and the options.
use agentqueue.Prelude.{
  ℕ, zero, suc, ◌*◌, ◌^◌, ℤ, pos, negsuc, Text, codes, FilePath, trim, is_empty, List, [], ◌∷◌,
  ◌++◌, Option, none, some, if◌then◌else◌, ◌==◌,
}
use agentqueue.Data.{Target, target_string, malformed}
use agentqueue.Fs.{join}
use agentqueue.Io.{Io, mkdir_all, pure, raise, ◌>>◌}

-- 250 ms, in nanoseconds.
abbrev pub default_poll_interval : ℕ
default_poll_interval = 250 * 10 ^ 6

-- `now` maps the time of the machine to what the configured clock shows. A function that is `nil`
-- is `none`.
pub record Queue : Type 0 where
  pub root : FilePath
  pub now : ℕ → ℕ
  pub fetch_cmd : Option (Target → Text)
  pub ack_cmd : Option (Target → Text → Text)
  pub poll_interval : ℤ

unfoldable pub default_fetch_cmd : Target → Text
default_fetch_cmd t = codes "agentqueue receive --to " ++ target_string t ++ codes " --json"

unfoldable pub default_ack_cmd : Target → Text → Text
default_ack_cmd t id = codes "agentqueue ack --to " ++ target_string t ++ codes " " ++ id

-- The options of `Open`; a `nil` function is `none`.
pub data Setting : Type 0 where
  with_fetch_cmd : Option (Target → Text) → Setting
  with_ack_cmd : Option (Target → Text → Text) → Setting
  with_poll_interval : ℤ → Setting
  with_clock : Option (ℕ → ℕ) → Setting

unfoldable pub configure : Queue → Setting → Queue
configure q (with_fetch_cmd none) = q
configure q (with_fetch_cmd (some f)) = record q { fetch_cmd = some f }
configure q (with_ack_cmd none) = q
configure q (with_ack_cmd (some f)) = record q { ack_cmd = some f }
configure q (with_poll_interval d) = record q { poll_interval = d }
configure q (with_clock none) = q
configure q (with_clock (some f)) = record q { now = f }

unfoldable pub configure_all : Queue → List Setting → Queue
unfolding configure
configure_all q [] = q
configure_all q (s ∷ ss) = configure_all (configure q s) ss

-- `filepath.Abs` from the working directory `cwd`.
unfoldable pub abs : FilePath → Text → FilePath
abs cwd [] = cwd
abs cwd (c ∷ s) = if c == b'/' then join [] (c ∷ s) else join cwd (c ∷ s)

-- `Open`.
unfoldable pub open_queue : FilePath → Text → List Setting → Io Queue
unfolding abs configure_all
open_queue cwd root settings = if is_empty (trim root) then raise malformed else do
  mkdir_all (abs cwd root)
  pure (
      configure_all
        (record {
          root = abs cwd root;
          now = λ t. t;
          fetch_cmd = some default_fetch_cmd;
          ack_cmd = some default_ack_cmd;
          poll_interval = pos default_poll_interval;
        })
        settings)

-- `Queue.FetchCmd`.
unfoldable pub fetch_cmd : Queue → Target → Text
fetch_cmd q t = elim q.fetch_cmd [ none ↦ default_fetch_cmd t | some f ↦ f t ]

-- `Queue.AckCmd`.
unfoldable pub ack_cmd : Queue → Target → Text → Text
ack_cmd q t id = elim q.ack_cmd [ none ↦ default_ack_cmd t id | some f ↦ f t id ]

-- `Queue.poll`.
unfoldable pub poll : Queue → ℕ
poll q = elim q.poll_interval [
  | pos zero ↦ default_poll_interval
  | pos (suc n) ↦ suc n
  | negsuc n ↦ default_poll_interval
]
