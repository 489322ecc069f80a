-- ===== src/Wasm/Gates.antt =====
-- The gates that every fetch of a run of a guest goes through (crates/boardproof-tools-wasm/src/host.rs).
use uniclaw.Prelude.{
  ℕ, suc, ◌≡◌, refl, sym, ◌∙◌, subst, arith, ◌↔◌, ◌⊎◌, inl, inr, List, Option, Result, ok, err,
  Text,
}
use uniclaw.Receipt.Crypto.{Foreign}
use uniclaw.Tools.{ToolOutput, ToolError}
use uniclaw.Fetch.Requests.{
  AuthSpec, HttpFetchInput, Libraries, Broker, HttpFetchTool, Request, received,
}
use uniclaw.Fetch.Hosts.{Hosts, Allowed}
use uniclaw.Fetch.Guards.{Guarded, request_of-Guarded, Guarded-request_of}
use uniclaw.Wasm.Host.{
  LogLevel, now_millis, secret_exists, HttpResponse, HostState, new_host, Codecs, fetch_call, told,
  answered_with, noted, run_http_fetch, StoreData, http_fetch, log_message, record_log,
}
use uniclaw.Wasm.Guests.{Guest, done, logs, asks_time, asks_secret, fetches}
use uniclaw.Wasm.Requests.{hosted, fetch-cases, run_http_fetch-Noted}

record_log-http :
    (h : HostState) (level : LogLevel) (msg : Text) → (record_log h level msg).http ≡ h.http
unfolding record_log
record_log-http h level msg = ground arith

module _ (lib : Foreign) (net : Libraries) (codecs : Codecs) (clock : ℕ → Option ℕ) where
  -- Something holds of each fetch of a run, with what the guest is told.
  abbrev pub AllFetches :
      (Text → Option AuthSpec → Result Text HttpResponse → Type 0) → StoreData → ℕ → Guest → Type 0
  AllFetches P d i (done a) = Unit
  AllFetches P d i (logs level msg g) = AllFetches P (log_message d level msg) i g
  AllFetches P d i (asks_time k) = AllFetches P d (suc i) (k (now_millis (clock i)))
  AllFetches P d i (asks_secret name k) = AllFetches P d i (k (secret_exists d name))
  AllFetches P d i (fetches url auth t k) =
      let (r, d') = http_fetch lib net codecs d url auth t in P url auth r × AllFetches P d' i (k r)

  module _ (urls : Hosts net) where
    -- No request may be sent for an input, or it cannot be encoded.
    abbrev pub Unsendable : HttpFetchTool → HttpFetchInput → Type 0
    Unsendable http x =
        ((e : Text) × (codecs.encode_input x ≡ err e))
        ⊎ ((r : Request) → ¬ Allowed net urls http x r)

    -- The guest is told an error where no request may be sent for what it asks, or what came of one that
    -- may.
    abbrev pub Gated : HttpFetchTool → Text → Option AuthSpec → Result Text HttpResponse → Type 0
    Gated http url auth answer =
        ((x : Text) × (answer ≡ err x) × Unsendable http (record { url = url; auth = auth }))
        ⊎ ((r : Request) × Allowed net urls http (record { url = url; auth = auth }) r
            × (answer
                ≡ told lib net codecs
                    (received lib net http r (net.send http.config r.url r.authorization))))

  answered_with-told :
      (h : HostState) (a : Result ToolError ToolOutput)
      → (answered_with lib net codecs h a).0 ≡ told lib net codecs a
  answered_with-told h (ok out) = refl
  answered_with-told h (err x) = refl

  module _
      (round_trip : (x : HttpFetchInput) (b : List ℕ)
        → codecs.encode_input x ≡ ok b
        → net.from_json b ≡ ok x) where
    module _ (urls : Hosts net) where
      -- A guest's request for its input, by what the tool may send for that input.
      asked-Guarded :
          (h : HostState) (x : HttpFetchInput) (bytes : List ℕ) (r : Request)
          → codecs.encode_input x ≡ ok bytes
          → Guarded lib net urls h.http (fetch_call lib net codecs x.url bytes) r
            ↔ Allowed net urls h.http x r
      asked-Guarded h x bytes r e = (
        λ g.
            let both : ◌≡◌ {A = Result Text HttpFetchInput} (ok g.input) (ok x) =
              sym g.input_read ∙ round_trip x bytes e in
            let same : g.input ≡ x = ground (arith, both) in
            subst (λ (i : HttpFetchInput). Allowed net urls h.http i r) same g.allowed,
        λ a. record { input = x; input_read = round_trip x bytes e; allowed = a },
      )

      gate :
          (h : HostState) (url : Text) (auth : Option AuthSpec) (t : Option ℕ)
          → Gated urls h.http url auth (run_http_fetch lib net codecs h url auth t).0
      gate h url auth t =
          let asked : HttpFetchInput = record { url = url; auth = auth } in
          elim (fetch-cases lib net codecs round_trip h url auth t) [
            | inl (x, e, inl u) ↦ inl (x, rw e refl, inl u)
            | inl (x, e, inr (bytes, y, encoded, refused)) ↦ inl (
              x,
              rw e refl,
              inr (λ r a.
                  let made =
                    Guarded-request_of lib net urls h.http (fetch_call lib net codecs url bytes) r
                      ((asked-Guarded h asked bytes r encoded).1 a) in
                  absurd (ground (arith, refused, made))),
            )
            | inr (bytes, r, encoded, made, e, _) ↦ inr (
              r,
              (asked-Guarded h asked bytes r encoded).0 (
                  request_of-Guarded lib net urls h.http (fetch_call lib net codecs url bytes) r
                    made),
              rw e (
                  answered_with-told (noted h auth)
                    (received lib net h.http r (net.send h.http.config r.url r.authorization))),
            )
          ]

      hosted-Gated :
          (http : HttpFetchTool) (cap : ℕ) (h : HostState) (i : ℕ) (g : Guest)
          → h.http ≡ http
          → AllFetches (Gated urls http) (hosted cap h) i g
      unfolding log_message http_fetch
      hosted-Gated http cap h i (done a) same = tt
      hosted-Gated http cap h i (logs level msg g) same =
          hosted-Gated http cap (record_log h level msg) i g (record_log-http h level msg ∙ same)
      hosted-Gated http cap h i (asks_time k) same =
          hosted-Gated http cap h (suc i) (k (now_millis (clock i))) same
      hosted-Gated http cap h i (asks_secret name k) same =
          hosted-Gated http cap h i (k (secret_exists (hosted cap h) name)) same
      hosted-Gated http cap h i (fetches url auth t k) same =
          let (a, h₁) = run_http_fetch lib net codecs h url auth t in
          (
            subst (λ (x : HttpFetchTool). Gated urls x url auth a) same (gate h url auth t),
            hosted-Gated http cap h₁ i (k a)
                ((run_http_fetch-Noted lib net codecs round_trip h url auth t).same_http ∙ same),
          )

      -- Whatever a guest does that runs with a host, each of its fetches comes to one of two things.
      -- Either the guest is told an error, and the input of its URL and its authentication cannot be
      -- encoded or is one for which the fetch tool that the operator configured may send no request.
      -- Or the guest is told what that tool makes of the answer to a request that it may send for
      -- this input: for the very URL that the guest gave, whose scheme is http or https and whose
      -- host a declared capability of the tool grants; where private addresses are not allowed, the
      -- host is neither a name that reads as an address of the ranges that ssrf.rs lists nor an
      -- address of version 4 in them, but it may be any address of version 6; and the authentication
      -- is the one that the guest asked for, by the value of the tool's broker. Here the JSON that an
      -- input is encoded as is read back as that input, and the libraries of URLs and addresses treat
      -- hosts as they document.
      pub run-Gated :
          (http : HttpFetchTool) (broker : Broker) (cap : ℕ) (g : Guest)
          → AllFetches (Gated urls http) (hosted cap (new_host http broker)) 0 g
      unfolding new_host
      run-Gated http broker cap g = hosted-Gated http cap (new_host http broker) 0 g refl
