-- ===== src/Tests/Tooling.antt =====
-- The theorems on redaction (crates/boardproof-redact) and on the addresses that the HTTP tool
-- refuses (crates/boardproof-tools-http) at concrete inputs.
use uniclaw.Prelude.{
  lookup, insert, refl, ok, err, ◌⊎◌, false, ◌≡◌, ◌↔◌, true, [], ◌∷◌, Option, none, some, ite, Text,
  Text-discrete, text, arith,
}
use uniclaw.Fetch.{IpAddr, v4, is_disallowed_ip}
use uniclaw.Fetch.Hosts.{Hosts}
use uniclaw.Tests.Urls.{
  read_ip, host_in, spelled, hosted, domain_is, v4_is, v6_is, read_spelled, read_in_range,
}
use uniclaw.Fetch.Requests.{
  HttpResponse, Libraries, answered, bearer_header, HttpFetchTool, build, Request, request_of,
  check_host, check_scheme, authenticate, call, received,
}
use uniclaw.Fetch.Guards.{Guarded, call-Guarded}
use uniclaw.Secrets.{InMemorySecretBroker, insert_string, fetch}
use uniclaw.Tools.Capabilities.{matches_request, is_granted_by}
use uniclaw.Tools.Glob.{glob_match}
use uniclaw.Kernel.{zero_digest}
use uniclaw.Tools.{ToolCall, ToolOutput, ToolError}
use uniclaw.Fetch.Ranges.{Listed, disallowed_ip-Listed}
use uniclaw.Redact.{Redactor, PatternRedactor, Regexes, pattern_redactor}
use uniclaw.Tests.{lib}

-- The only host that is an address is the one of a cloud's metadata service.
abbrev parse : Text → Option IpAddr
parse host =
    ite (Text-discrete host (text "169.254.169.254"))
      (some (v4 (record { a = 169; b = 254; c = 169; d = 254 }))) none

abbrev metadata_service : Text
metadata_service = text "169.254.169.254"

disallowed_ip-Listed_example :
    (is_disallowed_ip parse metadata_service ≡ true) ↔ Listed (parse metadata_service)
unfolding Text-discrete
disallowed_ip-Listed_example =
    disallowed_ip-Listed parse metadata_service
      (record { a_in = omega arith; b_in = omega arith; c_in = omega arith; d_in = omega arith })

-- Patterns that are texts, and match a text that is equal to them.
abbrev whole_text : Regexes
whole_text = record {
  Regex = Text;
  find_count = λ p s. ite (Text-discrete p s) 1 0;
  replace_all = λ p s r. ite (Text-discrete p s) r s;
}

abbrev patterns : PatternRedactor whole_text
patterns = record {
  id = text "defaults";
  rules =
      record { id = text "token"; regex = text "ghp_1"; replacement = text "[REDACTED:token]" }
      ∷ [];
}

abbrev redactor : Redactor
redactor = pattern_redactor lib (λ b. b) patterns

-- A server that answers every request, and inputs that are a URL, with a token asked for.
abbrev response : HttpResponse
response = record {
  status = 200;
  headers_names = text "Content-Type" ∷ [];
  header = λ n. some (text "text/plain");
  read = λ n. ok (text "hello");
}

abbrev pub net : Libraries
net = record {
  Url = Text;
  parse_url = λ u. ok u;
  scheme = λ u. text "https";
  host_str = λ u. some u;
  as_str = λ u. u;
  parse_ip = read_ip;
  send = λ c u a. answered response;
  base64 = λ b. b;
  from_json = λ b. ok (record { url = b; auth = some (bearer_header (text "github.token")) });
  to_json = λ o. ok o.body_b64;
}

-- What is documented of hosts holds of these.
abbrev pub urls : Hosts net
urls = record {
  host = λ u. some (host_in u);
  show_v4 = spelled;
  show_v6 = λ a. text "::1";
  no_host = hosted;
  domain_shown = domain_is;
  v4_shown = v4_is;
  v6_shown = v6_is;
  v4_read = read_spelled;
  no_bracket = λ s. refl;
  in_range = read_in_range;
}

abbrev pub broker : InMemorySecretBroker
broker = insert_string (record { secrets = [] }) (text "github.token") (text "ghp_1")

abbrev pub tool : HttpFetchTool
tool =
    build (text "api.*.com" ∷ [])
      (record {
        timeout = 30000;
        max_response_bytes = 10;
        user_agent = text "boardproof-tools-http/0.0.1";
        allow_private_ips = false;
      })
      (some (fetch broker))

abbrev tool_call : ToolCall
tool_call = record {
  tool_name = text "http_fetch";
  target = text "api.a.com";
  input = text "api.a.com";
  input_hash = zero_digest;
}

-- The loopback of version 6 is asked although private addresses are not allowed: where a capability
-- grants the text of its host, nothing else is in the way.
abbrev any_host : HttpFetchTool
any_host = build (text "*" ∷ []) tool.config (some (fetch broker))

abbrev loopback_call : ToolCall
loopback_call = record tool_call { input = text "[::1]" }

loopback_asked :
    request_of lib net any_host loopback_call
    ≡ ok (record {
      url = text "[::1]";
      authorization = some (text "Bearer ghp_1");
      secrets_used = text "github.token" ∷ [];
    })
unfolding request_of check_host check_scheme authenticate Text-discrete is_granted_by build fetch
    matches_request glob_match is_disallowed_ip lookup insert_string insert
loopback_asked = refl

call-Guarded_example :
    ((e : ToolError) × (call lib net tool tool_call ≡ err e)
      × ((r : Request) → ¬ Guarded lib net urls tool tool_call r))
    ⊎ ((r : Request) × Guarded lib net urls tool tool_call r
        × (call lib net tool tool_call
            ≡ received lib net tool r (net.send tool.config r.url r.authorization))
        × ((out : ToolOutput)
            → call lib net tool tool_call ≡ ok out
            → out.metadata.secrets_used ≡ r.secrets_used))
call-Guarded_example = call-Guarded lib net urls tool tool_call
