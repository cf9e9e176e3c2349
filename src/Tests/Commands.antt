-- ===== src/Tests/Commands.antt =====
-- The theorems on the command line, the sessions and the transports, at concrete inputs.
use agentqueue.Prelude.{
  ◌*◌, ◌^◌, pos, Text, codes, trim, text_eq, is_empty, List, [], ◌∷◌, true, false, none, some, ◌≡◌,
  refl, arith, All,
}
use agentqueue.Data.{Target, Item, HostReceipt, Result, ok, err, malformed, not_exist}
use agentqueue.Data
use agentqueue.Fs
use agentqueue.Queue.{list}
use agentqueue.Io.{pure, raise, ◌>>=◌}
use agentqueue.Config.{abs}
use agentqueue.Root.{resolve_root, resolve_root_from}
use agentqueue.Root.Agreement.{resolve_root-resolve_root_from}
use agentqueue.Cli.{Shell, Outcome, item_block, parse_meta, parsed}
use agentqueue.Cli.Waiting.{WaitFlags, wait_duration}
use agentqueue.Cli.Registration.{HookArgs, flags, hook, claude, codex}
use agentqueue.Cli.Words.{wait_duration-exact, IsPair, value_of, last_value, parse_meta-last}
use agentqueue.Cli.Exit.{Exits, hook-Exits}
use agentqueue.Sessions.{Found, Discovery, SessionsOptions, Timed}
use agentqueue.Transport.{background, Notice}
use agentqueue.Transports.{Outside, codex_notify}
use agentqueue.Transports.Receipts.{IsOwn, codex_notify-IsOwn}
use agentqueue.HookConfig.Install.{Crossagent, InstallFlags, install_parsed}
use agentqueue.HookConfig.Asked.{install_parsed-Leaves}
use agentqueue.Io.{remove}
use agentqueue.Prelude.{inl}
use agentqueue.Tests.{base}
use agentqueue.Tests.{root, message, dirs, one_message, world_of, session, stopping, alice_address}

abbrev home : Text → Text
home name = codes "/q"

home_filled : is_empty (trim (home (codes "HOME"))) ≡ false
unfolding trim
home_filled = refl

resolve_root-resolve_root_from_example :
    resolve_root_from root (codes "q") home
    ≡ Data.◌>>=◌ (resolve_root (codes "q") home (err malformed)) λ r. ok (abs root r)
resolve_root-resolve_root_from_example =
    resolve_root-resolve_root_from root (codes "q") home (err malformed) home_filled

wait_duration-exact_example : wait_duration (pos 3600) ≡ pos (3600 * 10 ^ 9)
wait_duration-exact_example = wait_duration-exact 3600 (omega arith)

abbrev pairs : List Text
pairs = codes "from=ci" ∷ codes "from=bot" ∷ []

pairs_parsed : parse_meta pairs ≡ ok ((codes "from", codes "bot") ∷ [])
unfolding parse_meta trim text_eq
pairs_parsed = refl

parse_meta-last_example :
    All IsPair pairs
    × (value_of (codes "from") ((codes "from", codes "bot") ∷ [])
        ≡ last_value (codes "from") pairs none)
parse_meta-last_example =
    parse_meta-last pairs ((codes "from", codes "bot") ∷ []) (codes "from") pairs_parsed

abbrev shell : Shell
shell = record {
  argv0 = codes "agentqueue";
  cwd = [];
  getenv = home;
  user_home = err malformed;
  stdin = raise malformed;
  shell_quote = λ s. s;
}

abbrev wait_flags : WaitFlags
wait_flags = record {
  to = codes "claude:alice";
  root = codes "/q";
  timeout = pos 1;
  take = true;
  json = true;
}

abbrev waited_for : Outcome
waited_for = record { printed = item_block true message ∷ []; code = 0; fault = none }

abbrev hook_args : HookArgs
hook_args = flags (parsed (record { to = []; root = []; max = pos 0; no_block = false }))

hook-Exits_example :
    Exits 0 (hook shell session (ok stopping) (claude hook_args) (world_of one_message)).0
    × Exits 0 (hook shell session (ok stopping) (codex hook_args) (world_of one_message)).0
hook-Exits_example =
    hook-Exits shell session (ok stopping) hook_args (world_of one_message) λ e. cc e

abbrev bob : Found
bob = record {
  agent = codes "codex";
  session_id = codes "bob";
  cwd = codes "/work/";
  source = codes "rollout";
  label = [];
  state = [];
  last_activity = 7;
}

abbrev discovery : Discovery
discovery = record { names = codes "codex" ∷ []; is_agent = λ a. true; list = λ a. pure (bob ∷ []) }

abbrev asked_for : SessionsOptions
asked_for = record { agent = []; cwd = codes "/work"; limit = pos 5 }

abbrev bob_row : Timed
bob_row = (record { found = bob; mailbox = false; registered = false; context = none }, 0)

abbrev thread : Text
thread = codes "00000000-0000-0000-0000-000000000001"

abbrev outside : Outside
outside = record {
  windows = false;
  dial = λ ctx s. raise not_exist;
  set_deadline = λ t. pure tt;
  write = λ s. pure tt;
  new_uuid = pure thread;
  parse_uuid = λ s. some s;
  auth_json = λ s. s;
  frame_json = λ id s. s;
  rfc3339_nano = λ t. codes "now";
  run_codex = λ ctx profile args. pure (
    codes
        "Queued message 00000000-0000-0000-0000-000000000002 for thread 00000000-0000-0000-0000-000000000001.\n",
    true,
  );
}

abbrev notice : Notice
notice = record {
  target = record { agent = codes "codex"; name = thread };
  item_id = [];
  pending = 1;
  fetch_cmd = [];
  item = message;
  id = [];
  generated_at = 0;
  address = some (record alice_address { profile = codes "/home/a/.codex" });
  receiver = none;
}

abbrev receipt : HostReceipt
receipt = record {
  state = codes "queued";
  queue_id = codes "00000000-0000-0000-0000-000000000002";
  thread_id = thread;
}

receipt_given : (codex_notify outside background notice (world_of dirs)).0 ≡ ok receipt
unfolding codex_notify ◌>>=◌ text_eq
receipt_given = refl

codex_notify-IsOwn_example : IsOwn outside notice receipt
codex_notify-IsOwn_example =
    codex_notify-IsOwn outside background notice (world_of dirs) receipt receipt_given

abbrev crossagent : Crossagent
crossagent = record {
  plan_install = λ m. pure (record { has_changes = true; installs = true });
  plan_uninstall = λ m. pure (record { has_changes = true; installs = false });
  apply = λ m plan skip. remove base;
  parse_agent = λ s. some s;
  detect = (codes "claude", true) ∷ [];
  detect_one = λ name. (name, true);
}

abbrev shown_only : InstallFlags
shown_only = record {
  agent = [];
  scope = [];
  settings = [];
  change = record { yes = true; dry_run = true; diff = false; skip_check = false };
}

install_parsed-Leaves_example :
    (install_parsed crossagent true none shown_only
      (ok (codes "agentqueue", codes "agentqueue"))
      (world_of dirs)).1.fs
    ≡ dirs
unfolding pure
install_parsed-Leaves_example =
    install_parsed-Leaves crossagent true none shown_only
      (ok (codes "agentqueue", codes "agentqueue")) (world_of dirs) (λ m w. refl) tt (inl refl)
