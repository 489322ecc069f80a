-- ===== src/Host/Startup/Modes.antt =====
-- `main` and the proposal mode of crates/boardproof-host/src/bin/boardproof-host.rs, before the host
-- listens.
use uniclaw.Prelude.{◌++◌, Option, none, some, Result, ok, err, ite, Text, text}
use uniclaw.Constitution.{Constitution}
use uniclaw.Receipt.{Digest, PublicKey, PublicKey-discrete}
use uniclaw.Receipt.Hex.{from_hex}
use uniclaw.Receipt.Crypto.{Foreign}
use uniclaw.Kernel.{Kernel, Clock, Signer}
use uniclaw.Store.{ReceiptLog, new_log}
use uniclaw.Host.{ed25519_signer, resume_after, build_kernel_from_log}
use uniclaw.Host.Auth.{AuthConfig}
use uniclaw.Host.Startup.{
  Args, System, StartError, message, hex, database, context, within, expect, ◌>>=◌, ellipsis,
  issuer_prefix, build_auth_config, read_or_require_issuer, load_receipts_dir,
}
use uniclaw.Sqlite
use uniclaw.Sqlite.{Engine, SqliteReceiptLog}
use uniclaw.Sqlite.Opening.{open_path, peek_issuer}

-- What the host serves: a kernel with its log, or a log to read.
pub data Backend (sql : Engine) : Type 0 where
  in_memory : ReceiptLog → Backend sql
  sqlite : SqliteReceiptLog sql → Backend sql

pub record Started (sql : Engine) : Type 0 where
  pub kernel : Kernel
  pub log : Backend sql
  pub auth : AuthConfig

pub data Running (sql : Engine) : Type 0 where
  proposals : Started sql → Running sql
  readonly : Backend sql → Running sql

module _ (lib : Foreign) (sql : Engine) (sys : System) (from_seed : Digest → lib.SigningKey)
    (clock : Clock) where
  -- The head of either log.
  unfoldable pub kernel_for : Backend sql → Signer → Constitution → Kernel
  kernel_for (in_memory log) signer rules = build_kernel_from_log log signer clock rules
  kernel_for (sqlite log) signer rules = resume_after (Sqlite.last sql log) signer clock rules

  abbrev loaded :
      Text → Result (StartError lib sql) ReceiptLog → Result (StartError lib sql) ReceiptLog
  loaded dir (ok log) = ok log
  loaded dir (err e) = err (context (text "loading receipts from " ++ dir) e)

  abbrev pub checked_issuer :
      Text → PublicKey → Option PublicKey → Result (StartError lib sql) (Unit {0})
  checked_issuer db_path issuer none = ok tt
  checked_issuer db_path issuer (some existing) = ite (PublicKey-discrete existing issuer) (ok tt) (
      err (
        message (
          text "kernel signing key (issuer "
          ++ (issuer_prefix issuer
              ++ (ellipsis
                  ++ (text ") does not match the pinned issuer of the SQLite log at "
                      ++ (db_path
                          ++ (text " (issuer "
                              ++ (issuer_prefix existing
                                  ++ (ellipsis
                                      ++ text
                                          "). Refusing to fork the chain. Use the original signing seed, or start a new DB at a different path."))))))))))

  -- The log of the proposal mode: in a file that is pinned to no other key, or in memory.
  unfoldable pub proposal_log : Option Text → PublicKey → Result (StartError lib sql) (Backend sql)
  proposal_log none issuer = ok (in_memory (new_log issuer))
  proposal_log (some db_path) issuer = do
    existing ←
        within lib sql (text "inspecting existing SQLite log for pinned issuer") database
          (peek_issuer sql db_path)
    _ ← checked_issuer db_path issuer existing
    log ←
        within lib sql (text "opening SQLite log at " ++ db_path) database
          (open_path sql db_path issuer)
    ok (sqlite log)

  -- `run_proposal_mode` and `serve_proposal_mode`, before the host listens.
  unfoldable pub run_proposal_mode : Text → Args → Result (StartError lib sql) (Started sql)
  run_proposal_mode c_path args = do
    seed_hex ←
        expect lib sql (text "--constitution requires --signer-seed-hex (dev key, 64 hex chars)")
          args.signer_seed_hex
    seed ←
        within lib sql (text "--signer-seed-hex must be 64 hex characters") hex (from_hex seed_hex)
    let signer = ed25519_signer lib (from_seed seed) args.key_id
    auth ← build_auth_config lib sql args
    toml_src ←
        within lib sql (text "reading constitution " ++ c_path) message (sys.read_to_string c_path)
    rules ←
        within lib sql (text "parsing constitution " ++ c_path) message (sys.parse_toml toml_src)
    log ← proposal_log args.db signer.public_key
    ok (record { kernel = kernel_for log signer rules; log = log; auth = auth })

  -- `main`, before the host listens
  unfoldable pub start : Args → Result (StartError lib sql) (Running sql)
  start args = elim args.constitution [
    | some c_path ↦ do started ← run_proposal_mode c_path args; ok (proposals started)
    | none ↦ elim args.db [
      | some db_path ↦ do
        issuer ← read_or_require_issuer lib sql sys db_path
        log ←
            within lib sql (text "opening SQLite log at " ++ db_path) database
              (open_path sql db_path issuer)
        ok (readonly (sqlite log))
      | none ↦ do
        log ← loaded args.receipts_dir (load_receipts_dir lib sql sys args.receipts_dir)
        ok (readonly (in_memory log))
    ]
  ]
