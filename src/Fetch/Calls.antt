-- ===== src/Fetch/Calls.antt =====
-- A call of the HTTP tool, step by step (crates/boardproof-tools-http/src/lib.rs).
use uniclaw.Prelude.{
  ◌+◌, min, ◌≡◌, refl, ◌⊎◌, inl, inr, Option, none, some, Result, ok, err, Text, Text-discrete,
  text, arith, if_pos, if_neg, ◌↔◌, Result-cases, Option-cases,
}
use uniclaw.Receipt.Crypto.{Foreign}
use uniclaw.Tools.{ToolCall, ToolOutput, ToolError}
use uniclaw.Budget.{u64_max}
use uniclaw.Fetch.Hosts.{Authorised}
use uniclaw.Fetch.Requests.{
  AuthSpec, bearer_header, HttpFetchInput, Sent, answered, transport, Request, Libraries,
  HttpFetchTool, ◌>>=◌, invalid, fails, host_or, check_scheme, fetched, authenticate, check_host,
  request_of, small_enough, receive, received, call, collect_headers,
}

pub bind_inv :
    {A B : Type 0} (m : Result ToolError A) (f : A → Result ToolError B) {b : B}
    → (m >>= f) ≡ ok b
    → (a : A) × (m ≡ ok a) × (f a ≡ ok b)
bind_inv (ok a) f h = (a, refl, h)
bind_inv (err e) f h = cc

pub invalid_inv :
    {A : Type 0} (p : Text) (m : Result Text A) {a : A} → invalid p m ≡ ok a → m ≡ ok a
invalid_inv p (ok a) h = ground (arith, h)
invalid_inv p (err e) h = absurd (ground (arith, h))

fails_inv : {A : Type 0} (p : Text) (m : Result Text A) {a : A} → fails p m ≡ ok a → m ≡ ok a
fails_inv p (ok a) h = ground (arith, h)
fails_inv p (err e) h = absurd (ground (arith, h))

pub host_inv : (o : Option Text) {h : Text} → host_or o ≡ ok h → o ≡ some h
host_inv none h = absurd (ground (arith, h))
host_inv (some x) h = ground (arith, h)

pub authenticate-url :
    (tool : HttpFetchTool) (url : Text) (a : Option AuthSpec) (r : Request)
    → authenticate tool.broker url a ≡ ok r
    → r.url ≡ url
unfolding authenticate
authenticate-url tool url none r h = ground (arith, h)
authenticate-url tool url (some (bearer_header name)) r h = elim (Option-cases tool.broker) [
  | inl e ↦ absurd (ground (arith, h, e))
  | inr (b, e) ↦ elim (Result-cases (b name)) [
    | inr (x, f) ↦ absurd (ground (arith, (rw (e, f) at h)))
    | inl (v, f) ↦
        let sent : fetched url name (ok v) ≡ ok r = rw (e, f) at h in ground (arith, sent)
  ]
]

pub authenticate_inv :
    (tool : HttpFetchTool) (url : Text) (a : Option AuthSpec) (r : Request)
    → authenticate tool.broker url a ≡ ok r
    → Authorised tool a r
unfolding authenticate
authenticate_inv tool url none r h = (ground (arith, h), ground (arith, h))
authenticate_inv tool url (some (bearer_header name)) r h = elim (Option-cases tool.broker) [
  | inl e ↦ absurd (ground (arith, h, e))
  | inr (b, e) ↦ elim (Result-cases (b name)) [
    | inr (x, f) ↦ absurd (ground (arith, (rw (e, f) at h)))
    | inl (v, f) ↦
        let sent : fetched url name (ok v) ≡ ok r = rw (e, f) at h in
        (b, v, e, f, ground (arith, sent), ground (arith, sent))
  ]
]

pub check_scheme_iff :
    (s : Text) → (check_scheme s ≡ ok tt) ↔ ((s ≡ text "http") ⊎ (s ≡ text "https"))
unfolding check_scheme
check_scheme_iff s = elim (Text-discrete s (text "http")) [
  | yes e ↦ (λ _. inl e, λ _. rw (if_pos _ e) refl)
  | no n ↦ elim (Text-discrete s (text "https")) [
    | yes e ↦ (λ _. inr e, λ _. rw (if_neg _ n, if_pos _ e) refl)
    | no m ↦ (
      λ h. absurd (ground (arith, (rw (if_neg _ n, if_neg _ m) at h))),
      λ w. elim w [ inl e ↦ absurd (n e) | inr e ↦ absurd (m e) ],
    )
  ]
]

-- What `authenticate` makes of an authentication that can be given.
pub authenticate_lem :
    (tool : HttpFetchTool) (url : Text) (a : Option AuthSpec) (r : Request)
    → r.url ≡ url
    → Authorised tool a r
    → authenticate tool.broker url a ≡ ok r
unfolding authenticate
authenticate_lem tool url none r same (h, k) = ground arith
authenticate_lem tool url (some (bearer_header name)) r same (b, v, e, f, h, k) =
    rw (e, f) (ground arith)

module _ (lib : Foreign) (net : Libraries) (tool : HttpFetchTool) where
  -- The authentication of a request is the one that the input asks for.
  pub request_of-Authorised :
      (c : ToolCall) (r : Request)
      → request_of lib net tool c ≡ ok r
      → (input : HttpFetchInput) × (net.from_json c.input ≡ ok input) × Authorised tool input.auth r
  unfolding request_of
  request_of-Authorised c r h =
      let (input, at_input, h₁) =
        bind_inv (invalid (text "input not valid JSON: ") (net.from_json c.input)) _ h in
      let (url, _, h₂) =
        bind_inv (invalid (text "malformed URL: ") (net.parse_url input.url)) _ h₁ in
      let (_, _, h₃) = bind_inv (check_scheme (net.scheme url)) _ h₂ in
      let (name, _, h₄) = bind_inv (host_or (net.host_str url)) _ h₃ in
      let (_, _, h₅) = bind_inv (check_host lib net tool name) _ h₄ in
      (
        input,
        invalid_inv (text "input not valid JSON: ") (net.from_json c.input) at_input,
        authenticate_inv tool (net.as_str url) input.auth r h₅,
      )

  received_inv :
      (r : Request) (s : Sent) (out : ToolOutput)
      → received lib net tool r s ≡ ok out
      → out.metadata.secrets_used ≡ r.secrets_used
  unfolding receive
  received_inv r (transport kind message) out h = absurd (ground (arith, h))
  received_inv r (answered response) out h =
      let max = tool.config.max_response_bytes in
      let (body, _, h₁) =
        bind_inv (fails (text "read body: ") (response.read (min (max + 1) u64_max))) _ h in
      let (_, _, h₂) = bind_inv (small_enough lib net max body) _ h₁ in
      let (bytes, _, h₃) =
        bind_inv
          (fails (text "encode envelope: ") (
            net.to_json (record {
              status = response.status;
              headers = collect_headers lib net response.headers_names response.header;
              body_b64 = net.base64 body;
            })))
          _ h₂ in
      ground (arith, h₃)

  -- No request can be made, or the call gives what comes of the one that is.
  pub call-cases :
      (c : ToolCall)
      → ((e : ToolError) × (request_of lib net tool c ≡ err e) × (call lib net tool c ≡ err e))
        ⊎ ((r : Request) × (request_of lib net tool c ≡ ok r)
            × (call lib net tool c
                ≡ received lib net tool r (net.send tool.config r.url r.authorization))
            × ((out : ToolOutput)
                → call lib net tool c ≡ ok out
                → out.metadata.secrets_used ≡ r.secrets_used))
  unfolding call
  call-cases c = elim (Result-cases (request_of lib net tool c)) [
    | inr (e, h) ↦ inl (e, h, rw h refl)
    | inl (r, h) ↦ inr (r, h, rw h refl, λ out o. received_inv r _ out (rw h at o))
  ]
