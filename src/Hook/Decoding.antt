-- ===== src/Hook/Decoding.antt =====
-- hookserve.go: `ParsePayload`.
use agentqueue.Prelude.{Text, trim, is_empty, [], false, if◌then◌else◌}
use agentqueue.Data.{Result, ok, err}
use agentqueue.Session.{Payload}

-- `Payload{}`.
abbrev pub empty_payload : Payload
empty_payload = record {
  session_id = [];
  hook_event_name = [];
  cwd = [];
  permission_mode = [];
  source = [];
  stop_hook_active = false;
}

-- `ParsePayload` of what `io.ReadAll` gives; `decode` is `json.Unmarshal` into a payload.
unfoldable pub parse_payload : (Text → Result Payload) → Result Text → Result Payload
parse_payload decode (err e) = err e
parse_payload decode (ok body) = if is_empty (trim body) then ok empty_payload else decode body
