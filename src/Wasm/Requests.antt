-- ===== src/Wasm/Requests.antt =====
-- What a guest's fetches leave in its host's state, and what goes out (crates/boardproof-tools-wasm/src/host.rs).
use uniclaw.Prelude.{
  ℕ, ◌≡◌, refl, sym, ◌∙◌, subst, arith, ◌↔◌, ◌⊎◌, inl, inr, List, ◌++◌, Option, none, some, Result,
  ok, err, Result-cases, Text, text,
}
use uniclaw.Budget.{u32_max, saturating_add}
use uniclaw.Receipt.Crypto.{Foreign}
use uniclaw.Tools.{ToolOutput, ToolError}
use uniclaw.Fetch.Requests.{
  AuthSpec, bearer_header, HttpFetchInput, Libraries, HttpFetchTool, Request, received, request_of,
}
use uniclaw.Fetch.Hosts.{Authorised}
use uniclaw.Fetch.Calls.{request_of-Authorised, call-cases}
use uniclaw.Wasm.Host.{
  HostState, Codecs, fetch_call, answered_with, noted, named, run_http_fetch, host_error_message,
  StoreData,
}
use uniclaw.Wasm.Secrets.{Among, Among-append}

-- A host's state in a store.
abbrev pub hosted : ℕ → HostState → StoreData
hosted cap h = record { max_memory_bytes = cap; host = some h }

-- A fetch changes nothing but the counter and the names, to which it adds that of its secret.
pub record Noted (h : HostState) (auth : Option AuthSpec) (h' : HostState) : Type 0 where
  pub same_http : h'.http ≡ h.http
  pub same_broker : h'.broker ≡ h.broker
  pub same_logs : h'.logs ≡ h.logs
  pub counted : h'.http_fetch_calls ≡ saturating_add u32_max h.http_fetch_calls 1
  pub names : (x : Text) → Among x h'.secrets_used ↔ (Among x h.secrets_used ⊎ Among x (named auth))

module _ (lib : Foreign) (net : Libraries) (codecs : Codecs)
    (round_trip : (x : HttpFetchInput) (b : List ℕ)
      → codecs.encode_input x ≡ ok b
      → net.from_json b ≡ ok x) where
  noted-Noted :
      (h : HostState) (auth : Option AuthSpec) (more : List Text)
      → ((x : Text) → Among x more → Among x (named auth))
      → Noted h auth (record (noted h auth) { secrets_used = (noted h auth).secrets_used ++ more })
  unfolding noted
  noted-Noted h auth more inside = record {
    same_http = refl;
    same_broker = refl;
    same_logs = refl;
    counted = refl;
    names = λ x.
        let (to, from) = Among-append x (h.secrets_used ++ named auth) more in
        let (to', from') = Among-append x h.secrets_used (named auth) in
        (λ a. elim (to a) [ inl b ↦ to' b | inr b ↦ inr (inside x b) ], λ a. from (inl (from' a)));
  }

  noted-Noted_alone : (h : HostState) (auth : Option AuthSpec) → Noted h auth (noted h auth)
  unfolding noted
  noted-Noted_alone h auth = record {
    same_http = refl;
    same_broker = refl;
    same_logs = refl;
    counted = refl;
    names = λ x. Among-append x h.secrets_used (named auth);
  }

  secrets_used-Authorised :
      (tool : HttpFetchTool) (auth : Option AuthSpec) (r : Request)
      → Authorised tool auth r
      → r.secrets_used ≡ named auth
  secrets_used-Authorised tool none r a = a.1
  secrets_used-Authorised tool (some (bearer_header name)) r (b, v, _, _, _, e) = e

  -- The authentication of a guest's request is the one that the guest gave.
  asked-Authorised :
      (h : HostState) (x : HttpFetchInput) (bytes : List ℕ) (r : Request)
      → codecs.encode_input x ≡ ok bytes
      → request_of lib net h.http (fetch_call lib net codecs x.url bytes) ≡ ok r
      → Authorised h.http x.auth r
  asked-Authorised h x bytes r e made =
      let (input, read, authorised) =
        request_of-Authorised lib net h.http (fetch_call lib net codecs x.url bytes) r made in
      let both : ◌≡◌ {A = Result Text HttpFetchInput} (ok input) (ok x) =
        sym read ∙ round_trip x bytes e in
      let same : input ≡ x = ground (arith, both) in
      subst (λ (i : HttpFetchInput). Authorised h.http i.auth r) same authorised

  -- What a guest's fetch comes to: no request goes out and the guest is told why, or one does.
  pub fetch-cases :
      (h : HostState) (url : Text) (auth : Option AuthSpec) (t : Option ℕ)
      → let asked : HttpFetchInput = record { url = url; auth = auth } in
        ((x : Text) × (run_http_fetch lib net codecs h url auth t ≡ (err x, noted h auth))
          × (((e : Text) × (codecs.encode_input asked ≡ err e))
              ⊎ ((bytes : List ℕ) × (e : ToolError) × (codecs.encode_input asked ≡ ok bytes)
                  × (request_of lib net h.http (fetch_call lib net codecs url bytes) ≡ err e))))
        ⊎ ((bytes : List ℕ) × (r : Request) × (codecs.encode_input asked ≡ ok bytes)
            × (request_of lib net h.http (fetch_call lib net codecs url bytes) ≡ ok r)
            × (run_http_fetch lib net codecs h url auth t
                ≡ answered_with lib net codecs
                    (noted h auth)
                    (received lib net h.http r (net.send h.http.config r.url r.authorization)))
            × ((out : ToolOutput)
                → received lib net h.http r (net.send h.http.config r.url r.authorization) ≡ ok out
                → out.metadata.secrets_used ≡ named auth))
  unfolding run_http_fetch noted
  fetch-cases h url auth t =
      let asked : HttpFetchInput = record { url = url; auth = auth } in
      elim (Result-cases (codecs.encode_input asked)) [
        | inr (x, e) ↦ inl (text "encode HttpFetchInput: " ++ x, rw e refl, inl (x, e))
        | inl (bytes, e) ↦ elim (call-cases lib net h.http (fetch_call lib net codecs url bytes)) [
          | inl (x, r, c) ↦ inl (host_error_message codecs x, rw (e, c) refl, inr (bytes, x, e, r))
          | inr (r, made, c, names) ↦ inr (
            bytes,
            r,
            e,
            made,
            rw (e, c) refl,
            λ out o.
                names out (c ∙ o)
                ∙ secrets_used-Authorised h.http auth r (asked-Authorised h asked bytes r e made),
          )
        ]
      ]

  answered_with-Noted :
      (h : HostState) (auth : Option AuthSpec) (a : Result ToolError ToolOutput)
      → ((out : ToolOutput) → a ≡ ok out → out.metadata.secrets_used ≡ named auth)
      → Noted h auth (answered_with lib net codecs (noted h auth) a).1
  answered_with-Noted h auth (err x) same = noted-Noted_alone h auth
  answered_with-Noted h auth (ok out) same =
      noted-Noted h auth out.metadata.secrets_used
        (λ x a. subst (λ (names : List Text). Among x names) (same out refl) a)

  pub run_http_fetch-Noted :
      (h : HostState) (url : Text) (auth : Option AuthSpec) (t : Option ℕ)
      → Noted h auth (run_http_fetch lib net codecs h url auth t).1
  run_http_fetch-Noted h url auth t = elim (fetch-cases h url auth t) [
    | inl (x, e, _) ↦ rw e (noted-Noted_alone h auth)
    | inr (bytes, r, _, _, e, names) ↦ rw e (
        answered_with-Noted h auth
          (received lib net h.http r (net.send h.http.config r.url r.authorization)) names)
  ]
