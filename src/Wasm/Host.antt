-- ===== src/Wasm/Host.antt =====
-- crates/boardproof-tools-wasm/src/host.rs and the state of limits.rs: what a guest may ask of its host.
use uniclaw.Prelude.{
  ℕ, zero, suc, Bool, true, false, ◌&&◌, ◌||◌, ltb, leb, ◌==◌, List, [], ◌∷◌, ◌++◌, Option, none,
  some, Result, ok, err, is_ok, if◌then◌else◌, ite, length, take, drop, Text, Text-discrete, text,
}
use uniclaw.Budget.{u32_max, u64_max, saturating_add}
use uniclaw.Receipt.Crypto.{Foreign}
use uniclaw.Tools.{
  ToolCall, ToolOutput, ToolError, invalid_input, failed, capability_denied, timeout, not_found,
}
use uniclaw.Tools.Capabilities.{Capability}
use uniclaw.Fetch.Requests
use uniclaw.Fetch.Requests.{
  AuthSpec, bearer_header, HttpFetchInput, HttpFetchOutput, Libraries, Broker, HttpFetchTool,
}

pub data LogLevel : Type 0 where
  trace debug info warn error : LogLevel

pub record LogRecord : Type 0 where
  pub level : LogLevel
  pub message : Text

abbrev pub max_log_entries : ℕ
max_log_entries = 1000

abbrev pub max_log_message_bytes : ℕ
max_log_message_bytes = 4096

-- The body is of bytes here.
pub record HttpResponse : Type 0 where
  pub status : ℕ
  pub headers : List (Text × Text)
  pub body : List ℕ

pub record HostState : Type 0 where
  pub http : HttpFetchTool
  pub broker : Broker
  pub secrets_used : List Text
  pub logs : List LogRecord
  pub http_fetch_calls : ℕ

unfoldable pub new_host : HttpFetchTool → Broker → HostState
new_host http broker = record {
  http = http;
  broker = broker;
  secrets_used = [];
  logs = [];
  http_fetch_calls = 0;
}

-- Whether `seen.iter().any(|t| t == s)`.
unfoldable pub holds : List Text → Text → Bool
holds [] s = false
holds (t ∷ ts) s = ite (Text-discrete t s) true (holds ts s)

-- The loop of `HostState::secrets_used`
unfoldable pub deduplicate : List Text → List Text → List Text
deduplicate seen [] = seen
deduplicate seen (s ∷ ss) = deduplicate (if holds seen s then seen else seen ++ s ∷ []) ss

unfoldable pub secrets_of : HostState → List Text
secrets_of h = deduplicate [] h.secrets_used

-- `str::is_char_boundary`: the start, the end, or before a byte that begins a character.
abbrev begins : List ℕ → Bool
begins [] = true
begins (b ∷ bs) = ltb b 128 || leb 192 b

unfoldable pub is_char_boundary : Text → ℕ → Bool
is_char_boundary s i = i == 0 || (leb i (length s) && begins (drop i s))

-- The last boundary at or before an index.
unfoldable pub floor_boundary : Text → ℕ → ℕ
floor_boundary s zero = zero
floor_boundary s (suc i) =
    let rest = floor_boundary s i in if is_char_boundary s (suc i) then suc i else rest

unfoldable pub truncate : Text → Text
truncate message =
    if ltb max_log_message_bytes (length message)
    then take (floor_boundary message max_log_message_bytes) message
    else message

unfoldable pub record_log : HostState → LogLevel → Text → HostState
record_log h level message =
    if leb max_log_entries (length h.logs)
    then h
    else record h { logs = h.logs ++ record { level = level; message = truncate message } ∷ [] }

unfoldable pub check_secret_exists : HostState → Text → Bool
check_secret_exists h name = is_ok (h.broker name)

-- The derived serde encodings of the fetch tool's input and output, base 64, and the derived `Debug`
-- of a capability.
pub record Codecs : Type 0 where
  pub encode_input : HttpFetchInput → Result Text (List ℕ)
  pub decode_output : List ℕ → Result Text HttpFetchOutput
  pub decode_base64 : Text → Result Text (List ℕ)
  pub debug_capability : Capability → Text

module _ (codecs : Codecs) where
  unfoldable pub host_error_message : ToolError → Text
  host_error_message (capability_denied attempted) =
      text "capability denied: " ++ codecs.debug_capability attempted
  host_error_message (invalid_input msg) = text "invalid input: " ++ msg
  host_error_message (failed msg) = text "failed: " ++ msg
  host_error_message timeout = text "timeout"
  host_error_message (not_found tool_name) = text "tool not found: " ++ tool_name

-- The secret that an authentication names.
abbrev pub named : Option AuthSpec → List Text
named none = []
named (some (bearer_header secret_ref)) = secret_ref ∷ []

-- The state once the call is counted and the name of its secret noted.
unfoldable pub noted : HostState → Option AuthSpec → HostState
noted h auth = record h {
  http_fetch_calls = saturating_add u32_max h.http_fetch_calls 1;
  secrets_used = h.secrets_used ++ named auth;
}

module _ (lib : Foreign) (net : Libraries) (codecs : Codecs) where
  abbrev pub fetch_call : Text → List ℕ → ToolCall
  fetch_call url bytes = record {
    tool_name = text "http_fetch";
    target = url;
    input = bytes;
    input_hash = lib.blake3 bytes;
  }

  abbrev unpacked : HttpFetchOutput → Result Text (List ℕ) → Result Text HttpResponse
  unpacked envelope (ok body) =
      ok (record { status = envelope.status; headers = envelope.headers; body = body })
  unpacked envelope (err e) = err (text "decode base64 body: " ++ e)

  abbrev opened : Result Text HttpFetchOutput → Result Text HttpResponse
  opened (ok envelope) = unpacked envelope (codecs.decode_base64 envelope.body_b64)
  opened (err e) = err (text "decode HttpFetchOutput: " ++ e)

  -- What a guest is told of the fetch tool's answer.
  abbrev pub told : Result ToolError ToolOutput → Result Text HttpResponse
  told (ok out) = opened (codecs.decode_output out.bytes)
  told (err e) = err (host_error_message codecs e)

  abbrev pub answered_with :
      HostState → Result ToolError ToolOutput → Result Text HttpResponse × HostState
  answered_with h (ok out) =
      (told (ok out), record h { secrets_used = h.secrets_used ++ out.metadata.secrets_used })
  answered_with h (err e) = (told (err e), h)

  abbrev pub sent_with :
      HostState → Text → Result Text (List ℕ) → Result Text HttpResponse × HostState
  sent_with h url (ok bytes) = answered_with h (Requests.call lib net h.http (fetch_call url bytes))
  sent_with h url (err e) = (err (text "encode HttpFetchInput: " ++ e), h)

  -- The timeout that the guest suggests is not used.
  unfoldable pub run_http_fetch :
      HostState → Text → Option AuthSpec → Option ℕ → Result Text HttpResponse × HostState
  run_http_fetch h url auth timeout_ms =
      sent_with (noted h auth) url (codecs.encode_input (record { url = url; auth = auth }))

-- `StoreData`, without its WASI context
pub record StoreData : Type 0 where
  pub max_memory_bytes : ℕ
  pub host : Option HostState

unfoldable pub log_message : StoreData → LogLevel → Text → StoreData
unfolding record_log
log_message d level message = elim d.host [
  | some h ↦ record d { host = some (record_log h level message) }
  | none ↦ d
]

-- The system's clock: milliseconds since 1970, or none when it stands before.
unfoldable pub now_millis : Option ℕ → ℕ
now_millis none = 0
now_millis (some ms) = if leb ms u64_max then ms else u64_max

unfoldable pub secret_exists : StoreData → Text → Bool
secret_exists d name = elim d.host [ some h ↦ check_secret_exists h name | none ↦ false ]

module _ (lib : Foreign) (net : Libraries) (codecs : Codecs) where
  abbrev put_back :
      StoreData → Result Text HttpResponse × HostState → Result Text HttpResponse × StoreData
  put_back d (r, h) = (r, record d { host = some h })

  unfoldable pub http_fetch :
      StoreData → Text → Option AuthSpec → Option ℕ → Result Text HttpResponse × StoreData
  http_fetch d url auth timeout_ms = elim d.host [
    | some h ↦ put_back d (run_http_fetch lib net codecs h url auth timeout_ms)
    | none ↦ (err (text "host imports not configured"), d)
  ]
