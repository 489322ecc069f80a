-- ===== src/Wasm/Guests.antt =====
-- The runs of a guest with its host's answers (crates/boardproof-tools-wasm/src/bindings.rs, and
-- `call_component_with_host` of tool.rs).
use uniclaw.Prelude.{ℕ, suc, Bool, List, [], ◌∷◌, ◌++◌, Option, Result, Text}
use uniclaw.Receipt.Crypto.{Foreign}
use uniclaw.Fetch.Requests.{AuthSpec, Libraries}
use uniclaw.Wasm.{WasmError}
use uniclaw.Wasm.Host.{
  LogLevel, LogRecord, HttpResponse, Codecs, StoreData, log_message, now_millis, secret_exists,
  http_fetch, named, truncate,
}

-- What a component answers, or the error that stops it.
abbrev pub Answer : Type 0
Answer = Result WasmError (Result Text (List ℕ))

-- A run of a guest: what it asks of its host, and how it goes on with each answer.
pub data Guest : Type 0 where
  done : Answer → Guest
  logs : LogLevel → Text → Guest → Guest
  asks_time : (ℕ → Guest) → Guest
  asks_secret : Text → (Bool → Guest) → Guest
  fetches : Text → Option AuthSpec → Option ℕ → (Result Text HttpResponse → Guest) → Guest

module _ (lib : Foreign) (net : Libraries) (codecs : Codecs) (clock : ℕ → Option ℕ) where
  -- A guest with its host; `i` counts the readings of the system's clock.
  unfoldable pub run : StoreData → ℕ → Guest → Answer × StoreData
  run d i (done a) = (a, d)
  run d i (logs level msg g) = run (log_message d level msg) i g
  run d i (asks_time k) = run d (suc i) (k (now_millis (clock i)))
  run d i (asks_secret name k) = run d i (k (secret_exists d name))
  run d i (fetches url auth timeout_ms k) =
      let (r, d') = http_fetch lib net codecs d url auth timeout_ms in run d' i (k r)

  -- The messages that a run logs, cut to the bound.
  unfoldable pub lines_of : StoreData → ℕ → Guest → List LogRecord
  lines_of d i (done a) = []
  lines_of d i (logs level msg g) =
      record { level = level; message = truncate msg } ∷ lines_of (log_message d level msg) i g
  lines_of d i (asks_time k) = lines_of d (suc i) (k (now_millis (clock i)))
  lines_of d i (asks_secret name k) = lines_of d i (k (secret_exists d name))
  lines_of d i (fetches url auth timeout_ms k) =
      let (r, d') = http_fetch lib net codecs d url auth timeout_ms in lines_of d' i (k r)

  -- The secrets that the authentications of a run's fetches name.
  unfoldable pub named_by : StoreData → ℕ → Guest → List Text
  named_by d i (done a) = []
  named_by d i (logs level msg g) = named_by (log_message d level msg) i g
  named_by d i (asks_time k) = named_by d (suc i) (k (now_millis (clock i)))
  named_by d i (asks_secret name k) = named_by d i (k (secret_exists d name))
  named_by d i (fetches url auth timeout_ms k) =
      let (r, d') = http_fetch lib net codecs d url auth timeout_ms in
      named auth ++ named_by d' i (k r)
