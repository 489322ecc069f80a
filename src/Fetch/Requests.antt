-- ===== src/Fetch/Requests.antt =====
-- crates/boardproof-tools-http/src: lib.rs, envelope.rs and config.rs, the tool that fetches a URL.
use uniclaw.Prelude.{
  ℕ, ◌+◌, Bool, not, ◌&&◌, ltb, min, List, [], ◌∷◌, ◌++◌, map, Option, none, some, Result, ok, err,
  if◌then◌else◌, ite, length, to_ascii_lowercase, decimal, Text, Text-discrete, text,
}
use uniclaw.Budget.{u64_max}
use uniclaw.Receipt.Crypto.{Foreign}
use uniclaw.Tools.{
  never, ToolManifest, ToolCall, ToolOutput, ToolError, invalid_input, failed, capability_denied,
}
use uniclaw.Tools.Capabilities.{Capability, is_granted_by}
use uniclaw.Secrets.{SecretValue, BrokerError, broker_error_message}
use uniclaw.Fetch.{IpAddr, is_disallowed_ip}

pub data AuthSpec : Type 0 where
  bearer_header : Text → AuthSpec

pub record HttpFetchInput : Type 0 where
  pub url : Text
  pub auth : Option AuthSpec

pub record HttpFetchOutput : Type 0 where
  pub status : ℕ
  pub headers : List (Text × Text)
  pub body_b64 : Text

-- The time is in milliseconds.
pub record HttpFetchConfig : Type 0 where
  pub timeout : ℕ
  pub max_response_bytes : ℕ
  pub user_agent : Text
  pub allow_private_ips : Bool

-- An answer of the HTTP library; `read n` reads the body up to `n` bytes.
pub record HttpResponse : Type 0 where
  pub status : ℕ
  pub headers_names : List Text
  pub header : Text → Option Text
  pub read : ℕ → Result Text (List ℕ)

-- An answer of any status, or a failure of the transport with its kind.
pub data Sent : Type 0 where
  answered : HttpResponse → Sent
  transport : (kind message : Text) → Sent

-- What goes out: the URL and the Authorization header, with the names of the secrets that are in it.
pub record Request : Type 0 where
  pub url : Text
  pub authorization : Option Text
  pub secrets_used : List Text

-- The libraries of URLs, addresses, HTTP, base 64 and JSON.
pub record Libraries : Type 1 where
  pub Url : Type 0
  pub parse_url : Text → Result Text Url
  pub scheme : Url → Text
  pub host_str : Url → Option Text
  pub as_str : Url → Text
  pub parse_ip : Text → Option IpAddr
  pub send : HttpFetchConfig → Text → Option Text → Sent
  pub base64 : List ℕ → Text
  pub from_json : List ℕ → Result Text HttpFetchInput
  pub to_json : HttpFetchOutput → Result Text (List ℕ)

abbrev pub Broker : Type 0
Broker = Text → Result BrokerError SecretValue

pub record HttpFetchTool : Type 0 where
  pub manifest : ToolManifest
  pub config : HttpFetchConfig
  pub broker : Option Broker

-- `HttpFetchTool::build`
unfoldable pub build : List Text → HttpFetchConfig → Option Broker → HttpFetchTool
build allowed_hosts config broker = record {
  manifest = record {
    name = text "http_fetch";
    description = text "GET an HTTP/HTTPS URL with capability and SSRF guards.";
    action_kind = text "tool.http_fetch";
    declared_capabilities = map Capability.net_connect allowed_hosts;
    default_approval = never;
  };
  config = config;
  broker = broker;
}

infixl 5 ◌>>=◌
abbrev pub ◌>>=◌ :
    {A B : Type 0} → Result ToolError A → (A → Result ToolError B) → Result ToolError B
ok a >>= f = f a
err e >>= f = err e

abbrev pub invalid : {A : Type 0} → Text → Result Text A → Result ToolError A
invalid prefix (ok a) = ok a
invalid prefix (err e) = err (invalid_input (prefix ++ e))

abbrev pub fails : {A : Type 0} → Text → Result Text A → Result ToolError A
fails prefix (ok a) = ok a
fails prefix (err e) = err (failed (prefix ++ e))

abbrev pub host_or : Option Text → Result ToolError Text
host_or none = err (invalid_input (text "URL has no host"))
host_or (some host) = ok host

unfoldable pub check_scheme : Text → Result ToolError (Unit {0})
check_scheme scheme = ite (Text-discrete scheme (text "http")) (ok tt) (
    ite (Text-discrete scheme (text "https")) (ok tt)
      (err (invalid_input (text "unsupported scheme: " ++ scheme))))

abbrev pub fetched : Text → Text → Result BrokerError SecretValue → Result ToolError Request
fetched url secret_ref (ok secret) = ok (record {
  url = url;
  authorization = some (text "Bearer " ++ secret.bytes);
  secrets_used = secret_ref ∷ [];
})
fetched url secret_ref (err e) = err (
    failed
      (text "failed to fetch secret '" ++ (secret_ref ++ (text "': " ++ broker_error_message e))))

abbrev pub with_broker : Text → Text → Option Broker → Result ToolError Request
with_broker url secret_ref none =
    err (failed (text "input requested authentication but tool has no SecretBroker configured"))
with_broker url secret_ref (some broker) = fetched url secret_ref (broker secret_ref)

-- The authentication: no secret is dropped silently.
unfoldable pub authenticate : Option Broker → Text → Option AuthSpec → Result ToolError Request
authenticate broker url none = ok (record { url = url; authorization = none; secrets_used = [] })
authenticate broker url (some (bearer_header secret_ref)) = with_broker url secret_ref broker

module _ (lib : Foreign) (net : Libraries) where
  -- The two gates.
  unfoldable pub check_host : HttpFetchTool → Text → Result ToolError (Unit {0})
  check_host tool host =
      let requested = Capability.net_connect host in
      if is_granted_by tool.manifest.declared_capabilities requested
      then (if not tool.config.allow_private_ips && is_disallowed_ip net.parse_ip host
          then err (failed (text "refusing private/loopback/link-local IP: " ++ host))
          else ok tt)
      else err (capability_denied requested)

  -- Everything before the request goes out.
  unfoldable pub request_of : HttpFetchTool → ToolCall → Result ToolError Request
  request_of tool call = do
    input ← invalid (text "input not valid JSON: ") (net.from_json call.input)
    url ← invalid (text "malformed URL: ") (net.parse_url input.url)
    _ ← check_scheme (net.scheme url)
    host ← host_or (net.host_str url)
    _ ← check_host tool host
    authenticate tool.broker (net.as_str url) input.auth

  abbrev listed : Text → Option Text → List (Text × Text) → List (Text × Text)
  listed name none rest = rest
  listed name (some v) rest = (to_ascii_lowercase name, v) ∷ rest

  unfoldable pub collect_headers : List Text → (Text → Option Text) → List (Text × Text)
  collect_headers [] header = []
  collect_headers (name ∷ names) header = listed name (header name) (collect_headers names header)

  abbrev pub small_enough : ℕ → List ℕ → Result ToolError (Unit {0})
  small_enough max body =
      if ltb max (length body)
      then err (failed (text "response exceeded max_response_bytes (" ++ (decimal max ++ text ")")))
      else ok tt

  -- What is made of an answer.
  unfoldable pub receive : HttpFetchTool → Request → HttpResponse → Result ToolError ToolOutput
  receive tool r response = do
    let max = tool.config.max_response_bytes
    body ← fails (text "read body: ") (response.read (min (max + 1) u64_max))
    _ ← small_enough max body
    bytes ← fails (text "encode envelope: ") (
        net.to_json (record {
          status = response.status;
          headers = collect_headers response.headers_names response.header;
          body_b64 = net.base64 body;
        }))
    ok (record {
      bytes = bytes;
      output_hash = lib.blake3 bytes;
      metadata = record { secrets_used = r.secrets_used };
    })

  abbrev pub received : HttpFetchTool → Request → Sent → Result ToolError ToolOutput
  received tool r (answered response) = receive tool r response
  received tool r (transport kind message) =
      err (failed (text "transport [" ++ (kind ++ (text "]: " ++ message))))

  -- `HttpFetchTool::call`
  unfoldable pub call : HttpFetchTool → ToolCall → Result ToolError ToolOutput
  call tool c = do
    r ← request_of tool c
    received tool r (net.send tool.config r.url r.authorization)
