-- ===== src/Wasm/Logs.antt =====
-- What a guest may log: `record_log` in crates/boardproof-tools-wasm/src/host.rs.
use mathlib.Core.List.{append_assoc, append-nil}
use uniclaw.Prelude.{
  ℕ, ℕ_discrete, zero, suc, ◌≤◌, ◌≡◌, refl, sym, ap, ◌∙◌, subst, arith, ◌⊎◌, inl, inr, true,
  Bool-cases, ltb, leb, List, [], ◌∷◌, ◌++◌, Option, Result, ok, err, length, length-append, take,
  Text,
}
use uniclaw.Receipt.Crypto.{Foreign}
use uniclaw.Tools.{ToolOutput, ToolError}
use uniclaw.Fetch.Requests
use uniclaw.Fetch.Requests.{AuthSpec, Libraries, Broker, HttpFetchTool}
use uniclaw.Wasm.Host.{
  LogLevel, LogRecord, max_log_entries, max_log_message_bytes, now_millis, secret_exists, HostState,
  new_host, Codecs, fetch_call, answered_with, sent_with, noted, run_http_fetch, http_fetch,
  log_message, record_log, truncate, is_char_boundary, floor_boundary,
}
use uniclaw.Wasm.Guests.{Guest, done, logs, asks_time, asks_secret, fetches, run, lines_of}
use uniclaw.Wasm.Requests.{hosted}

floor_boundary_lem :
    (s : Text) (n : ℕ)
    → (floor_boundary s n ≤ n)
      × (is_char_boundary s (floor_boundary s n) ≡ true)
      × ((j : ℕ) → j ≤ n → is_char_boundary s j ≡ true → j ≤ floor_boundary s n)
unfolding floor_boundary
floor_boundary_lem s zero = (omega arith, start, λ j le b. le)
  where
    start : is_char_boundary s 0 ≡ true
    start = unfold is_char_boundary in refl
floor_boundary_lem s (suc n) =
    let (below, boundary, last) = floor_boundary_lem s n in
    elim (Bool-cases (is_char_boundary s (suc n))) [
      | inl h ↦ rw h (omega arith, h, λ j le b. le)
      | inr h ↦ rw h (
        omega (arith, below),
        boundary,
        λ j le b. elim (ℕ_discrete j (suc n)) [
          | yes e ↦ absurd (ground (arith, h, (rw e at b)))
          | no ne ↦ last j (omega (arith, ne)) b
        ],
      )
    ]

-- A message is logged whole if it is of at most 4096 bytes, and otherwise cut at the last of its
-- character boundaries that leaves at most so many.
pub truncate_lem :
    (s : Text)
    → ((length s ≤ max_log_message_bytes) × (truncate s ≡ s))
      ⊎ ((n : ℕ) × (truncate s ≡ take n s)
          × (n ≤ max_log_message_bytes)
          × (is_char_boundary s n ≡ true)
          × ((j : ℕ) → j ≤ max_log_message_bytes → is_char_boundary s j ≡ true → j ≤ n))
unfolding truncate
truncate_lem s = elim (Bool-cases (ltb max_log_message_bytes (length s))) [
  | inr h ↦ inl (ground (arith, h), rw h refl)
  | inl h ↦
      let (below, boundary, last) = floor_boundary_lem s max_log_message_bytes in
      inr (floor_boundary s max_log_message_bytes, rw h refl, below, boundary, last)
]

take_all : (n : ℕ) (xs : List LogRecord) → length xs ≤ n → take n xs ≡ xs
take_all zero [] h = refl
take_all zero (x ∷ xs) h = absurd (omega arith)
take_all (suc n) [] h = refl
take_all (suc n) (x ∷ xs) h = ap (λ (t : List LogRecord). x ∷ t) (take_all n xs (omega arith))

take_full :
    (n : ℕ) (xs ys zs : List LogRecord) → length xs ≡ n → take n (xs ++ ys) ≡ take n (xs ++ zs)
take_full zero [] ys zs h = refl
take_full zero (x ∷ xs) ys zs h = absurd (omega arith)
take_full (suc n) [] ys zs h = absurd (omega arith)
take_full (suc n) (x ∷ xs) ys zs h =
    ap (λ (t : List LogRecord). x ∷ t) (take_full n xs ys zs (omega arith))

module _ (lib : Foreign) (net : Libraries) (codecs : Codecs) (clock : ℕ → Option ℕ) where
  answered_with-logs :
      (h : HostState) (a : Result ToolError ToolOutput)
      → (answered_with lib net codecs h a).1.logs ≡ h.logs
  answered_with-logs h (ok out) = refl
  answered_with-logs h (err x) = refl

  sent_with-logs :
      (h : HostState) (url : Text) (b : Result Text (List ℕ))
      → (sent_with lib net codecs h url b).1.logs ≡ h.logs
  sent_with-logs h url (ok bytes) =
      answered_with-logs h (Requests.call lib net h.http (fetch_call lib net codecs url bytes))
  sent_with-logs h url (err x) = refl

  run_http_fetch-logs :
      (h : HostState) (url : Text) (auth : Option AuthSpec) (t : Option ℕ)
      → (run_http_fetch lib net codecs h url auth t).1.logs ≡ h.logs
  unfolding run_http_fetch noted
  run_http_fetch-logs h url auth t =
      sent_with-logs (noted h auth) url (codecs.encode_input (record { url = url; auth = auth }))

  -- One more message.
  record_log-logs :
      (h : HostState) (level : LogLevel) (msg : Text) (more : List LogRecord)
      → length h.logs ≤ max_log_entries
      → (length (record_log h level msg).logs ≤ max_log_entries)
        × (take max_log_entries ((record_log h level msg).logs ++ more)
            ≡ take max_log_entries
                (h.logs ++ record { level = level; message = truncate msg } ∷ more))
  unfolding record_log
  record_log-logs h level msg more small =
      let line : LogRecord = record { level = level; message = truncate msg } in
      elim (Bool-cases (leb max_log_entries (length h.logs))) [
        | inl full ↦ rw full (
          small,
          take_full max_log_entries h.logs more (line ∷ more) (ground (arith, full, small)),
        )
        | inr room ↦ rw room (
          ground (arith, room, length-append h.logs (line ∷ [])),
          ap (λ (l : List LogRecord). take max_log_entries l)
              (append_assoc h.logs (line ∷ []) more),
        )
      ]

  logged_from :
      (cap : ℕ) (h : HostState) (i : ℕ) (g : Guest)
      → length h.logs ≤ max_log_entries
      → (h' : HostState) × ((run lib net codecs clock (hosted cap h) i g).1 ≡ hosted cap h')
        × (h'.logs
            ≡ take max_log_entries (h.logs ++ lines_of lib net codecs clock (hosted cap h) i g))
  unfolding run lines_of log_message http_fetch
  logged_from cap h i (done a) small = (
    h,
    refl,
    sym (
        ap (λ (l : List LogRecord). take max_log_entries l) (append-nil h.logs)
        ∙ take_all max_log_entries h.logs small),
  )
  logged_from cap h i (logs level msg g) small =
      let (fits, same) = record_log-logs h level msg _ small in
      let (h', e, l) = logged_from cap (record_log h level msg) i g fits in (h', e, l ∙ same)
  logged_from cap h i (asks_time k) small =
      logged_from cap h (suc i) (k (now_millis (clock i))) small
  logged_from cap h i (asks_secret name k) small =
      logged_from cap h i (k (secret_exists (hosted cap h) name)) small
  logged_from cap h i (fetches url auth t k) small =
      let (a, h₁) = run_http_fetch lib net codecs h url auth t in
      let kept = run_http_fetch-logs h url auth t in
      let (h', e, l) =
        logged_from cap h₁ i (k a)
          (subst (λ (x : List LogRecord). length x ≤ max_log_entries) (sym kept) small) in
      let later = lines_of lib net codecs clock (hosted cap h₁) i (k a) in
      (h', e, l ∙ ap (λ (x : List LogRecord). take max_log_entries (x ++ later)) kept)

  -- After any run of a guest, its host holds the first 1000 of the messages that it logged, in their
  -- order and each cut to at most 4096 bytes, or all of them if they are fewer.
  pub run_logs :
      (http : HttpFetchTool) (broker : Broker) (cap : ℕ) (g : Guest)
      → (h : HostState) × ((run lib net codecs clock (hosted cap (new_host http broker)) 0 g).1
          ≡ hosted cap h)
        × (h.logs
            ≡ take max_log_entries
                (lines_of lib net codecs clock (hosted cap (new_host http broker)) 0 g))
  unfolding new_host
  run_logs http broker cap g = logged_from cap (new_host http broker) 0 g (omega arith)
