-- ===== src/Fetch/Guards.antt =====
-- What the HTTP tool makes sure of before a request goes out (crates/boardproof-tools-http/src/lib.rs).
use uniclaw.Prelude.{◌≡◌, ◌⊎◌, inl, inr, true, false, ok, err, Text, text, arith, ◌↔◌}
use uniclaw.Receipt.Crypto.{Foreign}
use uniclaw.Tools.{ToolCall, ToolOutput, ToolError}
use uniclaw.Tools.Capabilities.{Capability, is_granted_by}
use uniclaw.Tools.Grants.{is_granted_by-Grants}
use uniclaw.Fetch.{is_disallowed_ip}
use uniclaw.Fetch.Hosts.{Hosts, Allowed, refused-Outside, host_of_name}
use uniclaw.Fetch.Requests.{
  HttpFetchInput, Request, Libraries, HttpFetchTool, invalid, host_or, check_scheme, check_host,
  request_of, received, call,
}
use uniclaw.Fetch.Calls.{
  bind_inv, invalid_inv, host_inv, authenticate-url, authenticate_inv, check_scheme_iff,
  authenticate_lem, call-cases,
}

module _ (lib : Foreign) (net : Libraries) (urls : Hosts net) (tool : HttpFetchTool) where
  -- The request is the one that the tool may send for the input of the call.
  pub record Guarded (c : ToolCall) (r : Request) : Type 0 where
    pub input : HttpFetchInput
    pub input_read : net.from_json c.input ≡ ok input
    pub allowed : Allowed net urls tool input r

  check_host_iff :
      (host : Text)
      → (check_host lib net tool host ≡ ok tt) ↔ (
          (is_granted_by tool.manifest.declared_capabilities (Capability.net_connect host) ≡ true)
          × ((tool.config.allow_private_ips ≡ true) ⊎ (is_disallowed_ip net.parse_ip host ≡ false)))
  unfolding check_host
  check_host_iff host = (λ h. (ground (arith, h), ground (arith, h)), λ h. ground (arith, h))

  pub request_of-Guarded :
      (c : ToolCall) (r : Request) → request_of lib net tool c ≡ ok r → Guarded c r
  unfolding request_of
  request_of-Guarded c r h =
      let (input, at_input, h₁) =
        bind_inv (invalid (text "input not valid JSON: ") (net.from_json c.input)) _ h in
      let (url, at_url, h₂) =
        bind_inv (invalid (text "malformed URL: ") (net.parse_url input.url)) _ h₁ in
      let (_, web, h₃) = bind_inv (check_scheme (net.scheme url)) _ h₂ in
      let (name, at_name, h₄) = bind_inv (host_or (net.host_str url)) _ h₃ in
      let (_, checked, h₅) = bind_inv (check_host lib net tool name) _ h₄ in
      let name_read = host_inv (net.host_str url) at_name in
      let (host, host_read) = host_of_name net urls url name name_read in
      let (granted, passed) = (check_host_iff name).0 checked in
      record {
        input = input;
        input_read = invalid_inv (text "input not valid JSON: ") (net.from_json c.input) at_input;
        allowed = record {
          url = url;
          host = host;
          name = name;
          url_read = invalid_inv (text "malformed URL: ") (net.parse_url input.url) at_url;
          web = (check_scheme_iff (net.scheme url)).0 web;
          host_read = host_read;
          name_read = name_read;
          granted =
              (is_granted_by-Grants tool.manifest.declared_capabilities
                  (Capability.net_connect name)).0
                granted;
          outside = elim passed [
            | inl any ↦ inl any
            | inr out ↦ inr ((refused-Outside net urls url host name host_read name_read).0 out)
          ];
          sent_url = authenticate-url tool (net.as_str url) input.auth r h₅;
          authorised = authenticate_inv tool (net.as_str url) input.auth r h₅;
        };
      }

  pub Guarded-request_of :
      (c : ToolCall) (r : Request) → Guarded c r → request_of lib net tool c ≡ ok r
  unfolding request_of
  Guarded-request_of c r g =
      let a = g.allowed in
      let passed : (tool.config.allow_private_ips ≡ true)
          ⊎ (is_disallowed_ip net.parse_ip a.name ≡ false) =
        elim a.outside [
          | inl any ↦ inl any
          | inr out ↦
              inr ((refused-Outside net urls a.url a.host a.name a.host_read a.name_read).1 out)
        ] in
      let granted =
        (is_granted_by-Grants tool.manifest.declared_capabilities (Capability.net_connect a.name)).1
          a.granted in
      rw
        (
          g.input_read,
          a.url_read,
          (check_scheme_iff (net.scheme a.url)).1 a.web,
          a.name_read,
          (check_host_iff a.name).1 (granted, passed),
        )
        (authenticate_lem tool (net.as_str a.url) g.input.auth r a.sent_url a.authorised)

  -- A call either ends in an error, and then no request is one that the tool may send for its input,
  -- or it sends such a request and gives what comes of the answer, with the names of the secrets that
  -- are in the request. A request that the tool may send is for the very URL of the input, whose
  -- scheme is http or https and whose host a declared capability grants; where the configuration does
  -- not allow private addresses, the host is neither a name that reads as an address of the ranges
  -- that ssrf.rs lists nor an address of version 4 in them, but it may be any address of version 6;
  -- and the authentication is the one that the input asks for, by the value of the broker. Here the
  -- libraries of URLs and addresses treat hosts as they document.
  pub call-Guarded :
      (c : ToolCall)
      → ((e : ToolError) × (call lib net tool c ≡ err e) × ((r : Request) → ¬ Guarded c r))
        ⊎ ((r : Request) × Guarded c r
            × (call lib net tool c
                ≡ received lib net tool r (net.send tool.config r.url r.authorization))
            × ((out : ToolOutput)
                → call lib net tool c ≡ ok out
                → out.metadata.secrets_used ≡ r.secrets_used))
  call-Guarded c = elim (call-cases lib net tool c) [
    | inl (e, h, k) ↦ inl (e, k, λ r g. absurd (ground (arith, h, Guarded-request_of c r g)))
    | inr (r, h, k, names) ↦ inr (r, request_of-Guarded c r h, k, names)
  ]
