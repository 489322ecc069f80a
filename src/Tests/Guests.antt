-- ===== src/Tests/Guests.antt =====
-- The theorems on WebAssembly tools (crates/boardproof-tools-wasm) at concrete inputs.
use uniclaw.Prelude.{
  ℕ, zero, suc, ◌≤◌, ◌<◌, ◌≡◌, refl, sym, ap, arith, ◌↔◌, ◌⊎◌, pos, true, List, [], ◌∷◌, ◌++◌,
  Option, none, some, Result, ok, err, length, take, drop, Text, Text-discrete, text, lookup,
  insert,
}
use uniclaw.Kernel.{zero_digest}
use uniclaw.Tools.{ToolCall, ToolOutput, ToolError}
use uniclaw.Fetch.Requests
use uniclaw.Fetch.Requests.{
  AuthSpec, bearer_header, HttpFetchInput, Libraries, Broker, HttpFetchTool, build,
}
use uniclaw.Tools.Capabilities.{matches_request, is_granted_by}
use uniclaw.Tools.Glob.{glob_match}
use uniclaw.Fetch.{is_disallowed_ip}
use uniclaw.Fetch.Hosts.{Hosts}
use uniclaw.Secrets.{fetch, insert_string}
use uniclaw.Wasm.{default_config}
use uniclaw.Wasm.Host
use uniclaw.Wasm.Host.{
  LogLevel, max_log_entries, max_log_message_bytes, HostState, new_host, Codecs, truncate,
  is_char_boundary, log_message, record_log, run_http_fetch, noted, secret_exists,
  check_secret_exists, secrets_of, deduplicate, holds,
}
use uniclaw.Wasm.Guests.{Guest, done, logs, asks_secret, fetches, run, lines_of, named_by}
use uniclaw.Wasm.Tool
use uniclaw.Wasm.Tool.{Engine, output, limits_of, call_export, call_core, call_component_with_host}
use uniclaw.Wasm.Memory.{packed, call_core-packed}
use uniclaw.Wasm.Secrets.{Among, NoDuplicates}
use uniclaw.Wasm.Requests.{hosted}
use uniclaw.Wasm.Logs.{truncate_lem, run_logs}
use uniclaw.Wasm.Audit.{call_component_with_host-names}
use uniclaw.Wasm.Gates.{AllFetches, Gated, run-Gated}
use uniclaw.Tests.{lib}
use uniclaw.Tests.Tooling.{net, urls, tool, broker}

-- An encoding of inputs: the length of the secret's name, which is one more, the name, and the URL.
abbrev encode : HttpFetchInput → Result Text (List ℕ)
encode x = elim x.auth [
  | none ↦ ok (0 ∷ x.url)
  | some (bearer_header n) ↦ ok (suc (length n) ∷ n ++ x.url)
]

abbrev decode : List ℕ → Result Text HttpFetchInput
decode [] = err []
decode (zero ∷ u) = ok (record { url = u; auth = none })
decode (suc k ∷ r) = ok (record { url = drop k r; auth = some (bearer_header (take k r)) })

take-append : (n u : Text) → take (length n) (n ++ u) ≡ n
take-append [] u = refl
take-append (c ∷ n) u = ap (λ (t : Text). c ∷ t) (take-append n u)

drop-append : (n u : Text) → drop (length n) (n ++ u) ≡ u
drop-append [] u = refl
drop-append (c ∷ n) u = drop-append n u

abbrev online : Libraries
online = record net { from_json = decode }

abbrev guest_urls : Hosts online
guest_urls = record {
  host = urls.host;
  show_v4 = urls.show_v4;
  show_v6 = urls.show_v6;
  no_host = urls.no_host;
  domain_shown = urls.domain_shown;
  v4_shown = urls.v4_shown;
  v6_shown = urls.v6_shown;
  v4_read = urls.v4_read;
  no_bracket = urls.no_bracket;
  in_range = urls.in_range;
}

abbrev codecs : Codecs
codecs = record {
  encode_input = encode;
  decode_output = λ b. ok (record { status = 200; headers = []; body_b64 = b });
  decode_base64 = λ t. ok t;
  debug_capability = λ c. text "NetConnect";
}

round_trip :
    (x : HttpFetchInput) (b : List ℕ) → codecs.encode_input x ≡ ok b → online.from_json b ≡ ok x
round_trip x b h =
    elim x.auth
        as (λ a.
          encode (record { url = x.url; auth = a }) ≡ ok b
          → decode b ≡ ok (record { url = x.url; auth = a })) [
            | none ↦ λ e. let eq : 0 ∷ x.url ≡ b = ground (arith, e) in rw (sym eq) refl
            | some (bearer_header n) ↦ λ e.
                let eq : suc (length n) ∷ n ++ x.url ≡ b = ground (arith, e) in
                rw (sym eq, take-append n x.url, drop-append n x.url) refl
          ]
      h

-- A guest that logs, asks for a secret and fetches twice with it.
abbrev guest : Guest
guest = logs LogLevel.info (text "start") (
    asks_secret (text "other") (λ found.
      fetches (text "api.a.com") (some (bearer_header (text "github.token"))) (some 5) (λ first.
        fetches (text "localhost") (some (bearer_header (text "github.token"))) none
          (λ second. done (ok (ok (text "hello")))))))

abbrev clock : ℕ → Option ℕ
clock i = some i

-- A core module whose answer is the two bytes at the place 1 of its memory.
abbrev engine : Engine
engine = record {
  Module = Unit {0};
  Component = List ℕ → Guest;
  State = List ℕ;
  setup = ok tt;
  parse_wat = λ t. ok t;
  module_of = λ b. ok tt;
  component_of = λ b. ok (λ input. guest);
  exports = λ m. text "memory" ∷ text "alloc" ∷ text "call" ∷ [];
  set_fuel = λ n. ok tt;
  instantiate = λ l m. ok [];
  has_memory = λ s. true;
  alloc_typed = λ s. ok tt;
  call_typed = λ s. ok tt;
  alloc = λ n s. ok (pos 0, s);
  write = λ s p input. ok input;
  call_func = λ p n s. ok (packed 1 2, s);
  memory_data = λ s. s;
  link_wasi = ok tt;
  link_host = ok tt;
  run_component = λ l c input. ok (ok []);
  guest_of = λ l c input. c input;
}

abbrev wasm_call : ToolCall
wasm_call = record {
  tool_name = text "guest";
  target = [];
  input = text "abcd";
  input_hash = zero_digest;
}

entered : call_export engine lib default_config tt wasm_call ≡ ok (packed 1 2, text "abcd")
unfolding call_export Tool.fresh_store Tool.input_length Tool.input_offset
entered = refl

call_core-packed_example :
    (3 ≤ 4
      → call_core engine lib default_config tt wasm_call ≡ ok (output engine lib (text "bc") []))
    × (4 < 3 → (x : ToolError) × (call_core engine lib default_config tt wasm_call ≡ err x))
call_core-packed_example =
    call_core-packed engine lib default_config tt wasm_call 1 2 (text "abcd") (omega arith)
      (omega arith) entered

run_logs_example :
    (h : HostState) × ((run lib online codecs clock
        (hosted 65536 (new_host tool (fetch broker)))
        0
        guest).1
      ≡ hosted 65536 h)
    × (h.logs
        ≡ take max_log_entries (
            lines_of lib online codecs clock (hosted 65536 (new_host tool (fetch broker))) 0 guest))
run_logs_example = run_logs lib online codecs clock tool (fetch broker) 65536 guest

truncate_lem_example :
    ((length (text "start") ≤ max_log_message_bytes) × (truncate (text "start") ≡ text "start"))
    ⊎ ((n : ℕ) × (truncate (text "start") ≡ take n (text "start"))
        × (n ≤ max_log_message_bytes)
        × (is_char_boundary (text "start") n ≡ true)
        × ((j : ℕ) → j ≤ max_log_message_bytes → is_char_boundary (text "start") j ≡ true → j ≤ n))
truncate_lem_example = truncate_lem (text "start")

run-Gated_example :
    AllFetches lib online codecs clock
      (Gated lib online codecs clock guest_urls tool)
      (hosted 65536 (new_host tool (fetch broker)))
      0
      guest
run-Gated_example =
    run-Gated lib online codecs clock round_trip guest_urls tool (fetch broker) 65536 guest

abbrev shown : ToolOutput
shown = output engine lib (text "hello") (text "github.token" ∷ [])

succeeded :
    call_component_with_host engine lib online codecs clock default_config
      (λ input. guest)
      tool
      (fetch broker)
      wasm_call
    ≡ ok shown
unfolding call_component_with_host Tool.fresh_store run log_message record_log truncate
    Host.http_fetch run_http_fetch noted secret_exists check_secret_exists secrets_of deduplicate
    holds new_host Requests.call Requests.request_of Requests.check_host Requests.check_scheme
    Requests.receive Requests.collect_headers Requests.authenticate Text-discrete is_granted_by
    build fetch matches_request glob_match is_disallowed_ip lookup insert_string insert
succeeded = refl

call_component_with_host-names_example :
    NoDuplicates (text "github.token" ∷ [])
    × ((x : Text)
        → Among x (text "github.token" ∷ [])
          ↔ Among x (
              named_by lib online codecs clock
                (hosted default_config.max_memory_bytes (new_host tool (fetch broker)))
                0
                guest))
call_component_with_host-names_example =
    call_component_with_host-names lib online codecs clock round_trip engine default_config
      (λ input. guest) tool (fetch broker) wasm_call shown succeeded
