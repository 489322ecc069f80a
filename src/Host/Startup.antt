-- ===== src/Host/Startup.antt =====
-- crates/boardproof-host/src/bin/boardproof-host.rs: what the host does before it listens.
pub mod Modes
pub mod Sorting
pub mod Loading
use uniclaw.Prelude.{
  ℕ, Bool, true, false, not, ◌&&◌, leb, List, [], ◌∷◌, ◌++◌, Option, none, some, Result, ok, err,
  map_err, if◌then◌else◌, ite, take, Text, Text-discrete, text,
}
use uniclaw.Constitution.{Constitution}
use uniclaw.Receipt.{Digest, PublicKey, Receipt, PublicKey-discrete}
use uniclaw.Receipt.Hex.{HexDecodeError, to_hex_bytes, from_hex}
use uniclaw.Receipt.Crypto.{Foreign}
use uniclaw.Kernel.{Kernel, Clock, Signer}
use uniclaw.Store.{ReceiptLog, AppendError, new_log, append}
use uniclaw.Host.{Server, ed25519_signer, resume_after, build_kernel_from_log}
use uniclaw.Host.Auth.{AuthConfig, AuthConfigError, with_token, insecure}
use uniclaw.Sqlite
use uniclaw.Sqlite.{Engine, SqliteReceiptLog}
use uniclaw.Sqlite.Opening.{Failure, open_path, peek_issuer}

-- The command line, without the address to bind.
pub record Args : Type 0 where
  pub db : Option Text
  pub receipts_dir : Text
  pub constitution : Option Text
  pub signer_seed_hex : Option Text
  pub key_id : Option Text
  pub bearer_token_hex : Option Text
  pub insecure_no_auth : Bool

pub record Entry : Type 0 where
  pub path : Text
  pub extension : Option Text

-- The environment, the file system, and the parsers of receipts and of constitutions. An error is its
-- `Display`.
pub record System : Type 1 where
  pub issuer_variable : Result Text Text
  pub is_dir : Text → Bool
  pub read_dir : Text → Result Text (List (Result Text Entry))
  pub read : Text → Result Text (List ℕ)
  pub read_to_string : Text → Result Text Text
  pub receipt_from_json : List ℕ → Result Text Receipt
  pub parse_toml : Text → Result Text Constitution

-- The bytes of a dash and of an ellipsis.
abbrev pub em_dash : Text
em_dash = 226 ∷ 128 ∷ 148 ∷ []

abbrev pub ellipsis : Text
ellipsis = 226 ∷ 128 ∷ 166 ∷ []

-- `sort_by_key` by the sequence number: it is stable.
unfoldable pub insert_by_sequence : Receipt → List Receipt → List Receipt
insert_by_sequence r [] = r ∷ []
insert_by_sequence r (s ∷ rs) =
    let rest = insert_by_sequence r rs in
    if leb r.body.merkle_leaf.sequence s.body.merkle_leaf.sequence then r ∷ s ∷ rs else s ∷ rest

unfoldable pub sort_by_sequence : List Receipt → List Receipt
unfolding insert_by_sequence
sort_by_sequence [] = []
sort_by_sequence (r ∷ rs) = insert_by_sequence r (sort_by_sequence rs)

unfoldable pub issuer_prefix : PublicKey → Text
issuer_prefix issuer = to_hex_bytes (take 4 issuer.bytes)

unfoldable pub is_json : Option Text → Bool
is_json none = false
is_json (some e) = ite (Text-discrete e (text "json")) true false

infixl 5 ◌>>=◌
abbrev pub ◌>>=◌ : {E A B : Type 0} → Result E A → (A → Result E B) → Result E B
ok a >>= f = f a
err e >>= f = err e

module _ (lib : Foreign) (sql : Engine) where
  -- An `anyhow::Error`: a message, or the error of a part, under any contexts.
  pub data StartError : Type 0 where
    message : Text → StartError
    hex : HexDecodeError → StartError
    token : AuthConfigError → StartError
    database : Failure sql → StartError
    refused : AppendError → StartError
    context : Text → StartError → StartError

  -- `.context(...)` on a result and on an option.
  abbrev pub within : {E A : Type 0} → Text → (E → StartError) → Result E A → Result StartError A
  within msg wrap (ok a) = ok a
  within msg wrap (err e) = err (context msg (wrap e))

  abbrev pub expect : {A : Type 0} → Text → Option A → Result StartError A
  expect msg none = err (message msg)
  expect msg (some a) = ok a

  -- A token that was given.
  abbrev token_from : Text → Result StartError AuthConfig
  token_from token_hex = do
    digest ←
        within (text "--bearer-token-hex must be exactly 64 hex characters (32 bytes)") hex
          (from_hex token_hex)
    within (text "invalid bearer token length") token (with_token digest.bytes)

  unfoldable pub build_auth_config : Args → Result StartError AuthConfig
  build_auth_config args = elim args.bearer_token_hex [
    | some token_hex ↦
        if args.insecure_no_auth
        then err (
            message (
              text "--bearer-token-hex and --insecure-no-auth are mutually exclusive "
              ++ (em_dash ++ text " pick one")))
        else token_from token_hex
    | none ↦
        if args.insecure_no_auth
        then ok insecure
        else err (
            message (
              text
                "proposal mode (--constitution) requires either --bearer-token-hex <64-hex> (recommended) or --insecure-no-auth (loopback / fully-trusted network only). Refusing to expose /v1 unauthenticated by default."))
  ]

  module _ (sys : System) where
    abbrev pub issuer_of : Text → Result StartError PublicKey
    issuer_of s = do
      digest ← within (text "UNICLAW_HOST_ISSUER must be 64 hex characters") hex (from_hex s)
      ok (record { bytes = digest.bytes })

    unfoldable pub pin_issuer_from_env : Result StartError PublicKey
    pin_issuer_from_env = do s ← map_err message sys.issuer_variable; issuer_of s

    unfoldable pub read_or_require_issuer : Text → Result StartError PublicKey
    read_or_require_issuer db_path = do
      existing ←
          within (text "inspecting existing SQLite log for pinned issuer") database
            (peek_issuer sql db_path)
      elim existing [
        | some issuer ↦ ok issuer
        | none ↦ do
          s ←
              within (text "fresh SQLite log; set UNICLAW_HOST_ISSUER=<64-hex> to pin it") message
                sys.issuer_variable
          issuer_of s
      ]

    abbrev pub read_receipt : Text → Result StartError Receipt
    read_receipt path = do
      bytes ← within (text "read " ++ path) message (sys.read path)
      within (text "parse receipt " ++ path) message (sys.receipt_from_json bytes)

    -- The loop over the directory.
    unfoldable pub read_entries : List (Result Text Entry) → Result StartError (List Receipt)
    unfolding is_json
    read_entries [] = ok []
    read_entries (err e ∷ es) = err (message e)
    read_entries (ok entry ∷ es) =
        let rest = read_entries es in
        if is_json entry.extension
        then (do receipt ← read_receipt entry.path; receipts ← rest; ok (receipt ∷ receipts))
        else rest

    abbrev pub replayed :
        Result AppendError (Unit {0}) → Result StartError ReceiptLog → Result StartError ReceiptLog
    replayed (ok _) rest = rest
    replayed (err e) rest = err (
        context
          (text "append failed during load " ++ (em_dash ++ text " chain broken or out of order"))
          (refused e))

    -- The loop of appends.
    unfoldable pub replay : ReceiptLog → List Receipt → Result StartError ReceiptLog
    replay log [] = ok log
    replay log (r ∷ rs) = let (answer, log') = append lib log r in replayed answer (replay log' rs)

    unfoldable pub load_sorted : List Receipt → Result StartError ReceiptLog
    load_sorted [] = do
      issuer ← (elim pin_issuer_from_env [
        | ok issuer ↦ ok issuer
        | err e ↦
            err (
              context (text "empty receipts dir; set UNICLAW_HOST_ISSUER=<64-hex> to pin the log")
                e)
      ])
      ok (new_log issuer)
    load_sorted (r ∷ rs) = replay (new_log r.issuer) (r ∷ rs)

    unfoldable pub load_receipts_dir : Text → Result StartError ReceiptLog
    load_receipts_dir dir =
        if sys.is_dir dir
        then (do
          listing ← within (text "read_dir " ++ dir) message (sys.read_dir dir)
          entries ← read_entries listing
          load_sorted (sort_by_sequence entries))
        else err (message (dir ++ text " is not a directory"))
