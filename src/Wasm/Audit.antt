-- ===== src/Wasm/Audit.antt =====
-- Whole runs of a guest: the names of secrets that the tool's output shows
-- (crates/boardproof-tools-wasm/src/host.rs and tool.rs).
use uniclaw.Prelude.{
  ℕ, suc, length, leb, ◌≡◌, refl, sym, ap, ◌∙◌, arith, ◌↔◌, ◌⊎◌, inl, inr, Bool-cases, List, [],
  ◌++◌, Option, ok, Text, text,
}
use uniclaw.Receipt.Crypto.{Foreign}
use uniclaw.Tools.{ToolCall, ToolOutput}
use uniclaw.Fetch.Requests.{AuthSpec, HttpFetchInput, Libraries, Broker, HttpFetchTool, fails}
use uniclaw.Fetch.Calls.{bind_inv}
use uniclaw.Wasm.{WasmConfig}
use uniclaw.Wasm.Host.{
  LogLevel, max_log_entries, now_millis, secret_exists, HostState, new_host, Codecs, named,
  run_http_fetch, deduplicate, secrets_of, StoreData, http_fetch, log_message, record_log,
}
use uniclaw.Wasm.Guests.{Answer, Guest, done, logs, asks_time, asks_secret, fetches, run, named_by}
use uniclaw.Wasm.Tool.{
  Engine, Limits, limits_of, fresh_store, ran, guest_said, harvested, finished,
  call_component_with_host,
}
use uniclaw.Wasm.Secrets.{Among, NoDuplicates, Among-append, deduplicate_lem}
use uniclaw.Wasm.Requests.{hosted, Noted, run_http_fetch-Noted}

-- What a run leaves in its host's state.
record Ran (h : HostState) (names : List Text) (h' : HostState) : Type 0 where
  pub same_http : h'.http ≡ h.http
  pub same_broker : h'.broker ≡ h.broker
  pub names_in : (x : Text) → Among x h'.secrets_used ↔ (Among x h.secrets_used ⊎ Among x names)

logged-Ran :
    (h : HostState) (level : LogLevel) (msg : Text) (names : List Text) (h' : HostState)
    → Ran (record_log h level msg) names h'
    → Ran h names h'
unfolding record_log
logged-Ran h level msg names h' r = elim (Bool-cases (leb max_log_entries (length h.logs))) [
  | inl full ↦ rw full at r
  | inr room ↦
      let r' = rw room at r in
      record { same_http = r'.same_http; same_broker = r'.same_broker; names_in = r'.names_in }
]

fetched-Ran :
    (h h' h'' : HostState) (auth : Option AuthSpec) (names : List Text)
    → Noted h auth h'
    → Ran h' names h''
    → Ran h (named auth ++ names) h''
fetched-Ran h h' h'' auth names n r = record {
  same_http = r.same_http ∙ n.same_http;
  same_broker = r.same_broker ∙ n.same_broker;
  names_in = λ x.
      let (to, from) = Among-append x (named auth) names in
      (
        λ a. elim ((r.names_in x).0 a) [
          | inl b ↦ elim ((n.names x).0 b) [ inl c ↦ inl c | inr c ↦ inr (from (inl c)) ]
          | inr b ↦ inr (from (inr b))
        ],
        λ a. elim a [
          | inl b ↦ (r.names_in x).1 (inl ((n.names x).1 (inl b)))
          | inr b ↦ elim (to b) [
            | inl c ↦ (r.names_in x).1 (inl ((n.names x).1 (inr c)))
            | inr c ↦ (r.names_in x).1 (inr c)
          ]
        ],
      );
}

module _ (lib : Foreign) (net : Libraries) (codecs : Codecs) (clock : ℕ → Option ℕ) where
  module _
      (round_trip : (x : HttpFetchInput) (b : List ℕ)
        → codecs.encode_input x ≡ ok b
        → net.from_json b ≡ ok x) where
    run-Ran :
        (cap : ℕ) (h : HostState) (i : ℕ) (g : Guest)
        → (h' : HostState) × ((run lib net codecs clock (hosted cap h) i g).1 ≡ hosted cap h')
          × Ran h (named_by lib net codecs clock (hosted cap h) i g) h'
    unfolding run named_by log_message http_fetch
    run-Ran cap h i (done a) = (
      h,
      refl,
      record {
        same_http = refl;
        same_broker = refl;
        names_in = λ x. (inl, λ s. elim s [ inl b ↦ b | inr b ↦ absurd b ]);
      },
    )
    run-Ran cap h i (logs level msg g) =
        let (h', e, r) = run-Ran cap (record_log h level msg) i g in
        (h', e, logged-Ran h level msg _ h' r)
    run-Ran cap h i (asks_time k) = run-Ran cap h (suc i) (k (now_millis (clock i)))
    run-Ran cap h i (asks_secret name k) = run-Ran cap h i (k (secret_exists (hosted cap h) name))
    run-Ran cap h i (fetches url auth t k) =
        let (a, h₁) = run_http_fetch lib net codecs h url auth t in
        let (h', e, r) = run-Ran cap h₁ i (k a) in
        (
          h',
          e,
          fetched-Ran h h₁ h' auth _ (run_http_fetch-Noted lib net codecs round_trip h url auth t)
              r,
        )

    module _ (e : Engine) where
      fresh_store_inv :
          (config : WasmConfig) {l : Limits} → fresh_store e config ≡ ok l → l ≡ limits_of e config
      unfolding fresh_store
      fresh_store_inv config h =
          let (_, _, same) = bind_inv (fails (text "set_fuel: ") (e.set_fuel config.fuel)) _ h in
          ground (arith, same)

      finished_inv :
          (p : Answer × StoreData) (out : ToolOutput)
          → finished e lib net codecs clock p ≡ ok out
          → out.metadata.secrets_used ≡ harvested e lib net codecs clock p.1.host
      finished_inv (a, d) out h =
          let (result, _, h₁) = bind_inv (ran e a) _ h in
          let (bytes, _, h₂) = bind_inv (guest_said e result) _ h₁ in ground (arith, h₂)

      -- A call of a component with a host that succeeds shows in its output, each once, exactly the
      -- names of the secrets that the authentications of its guest's fetches named in that run,
      -- whatever came of them; here the JSON that an input is encoded as is read back as that input.
      pub call_component_with_host-names :
          (config : WasmConfig) (k : e.Component) (http : HttpFetchTool) (broker : Broker)
          (c : ToolCall) (out : ToolOutput)
          → call_component_with_host e lib net codecs clock config k http broker c ≡ ok out
          → NoDuplicates out.metadata.secrets_used
            × ((x : Text)
                → Among x out.metadata.secrets_used
                  ↔ Among x (
                      named_by lib net codecs clock
                        (hosted config.max_memory_bytes (new_host http broker))
                        0
                        (e.guest_of (limits_of e config) k c.input)))
      unfolding call_component_with_host new_host secrets_of
      call_component_with_host-names config k http broker c out h =
          let (limits, fresh, h₁) = bind_inv (fresh_store e config) _ h in
          let (_, _, h₂) = bind_inv (fails (text "add WASI to linker: ") e.link_wasi) _ h₁ in
          let (_, _, h₃) =
            bind_inv (fails (text "add host imports to linker: ") e.link_host) _ h₂ in
          let cap = config.max_memory_bytes in
          let start = new_host http broker in
          let g = e.guest_of limits k c.input in
          let (h', ran_to, r) = run-Ran cap start 0 g in
          let shown : out.metadata.secrets_used ≡ deduplicate [] h'.secrets_used =
            finished_inv (run lib net codecs clock (hosted cap start) 0 g) out h₃
            ∙ ap (λ (d : StoreData). harvested e lib net codecs clock d.host) ran_to in
          let (clean, same) = deduplicate_lem [] h'.secrets_used tt in
          rw (shown, sym (fresh_store_inv config fresh))
            (
              clean,
              λ x. (
                λ a. elim ((same x).0 a) [
                  | inl b ↦ absurd b
                  | inr b ↦ elim ((r.names_in x).0 b) [ inl c ↦ absurd c | inr c ↦ c ]
                ],
                λ a. (same x).1 (inr ((r.names_in x).1 (inr a))),
              ),
            )
