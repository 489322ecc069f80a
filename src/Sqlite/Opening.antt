-- ===== src/Sqlite/Opening.antt =====
-- `open_inner`, `peek_issuer` and the `meta` table of crates/boardproof-store-sqlite/src/lib.rs.
use uniclaw.Prelude.{
  ℕ, ◌+◌, ◌*◌, List, [], ◌∷◌, ◌++◌, Option, none, some, Result, ok, err, map_err, if◌then◌else◌,
  ite, ◌==◌, Text, text, decimal, length, Bool, true, false, Step, ◌>>=◌, ◌>>◌,
}
use uniclaw.Receipt.{Digest, PublicKey, Receipt, receipt_format_version, PublicKey-discrete}
use uniclaw.Kernel.{le_bytes}
use uniclaw.Sqlite.{Engine, SqliteReceiptLog}

-- `SCHEMA_VERSION`
abbrev pub schema_version : ℕ
schema_version = 1

pub data OpenError (E D : Type 0) : Type 0 where
  sqlite : E → OpenError E D
  decode : D → OpenError E D
  issuer_mismatch : PublicKey → PublicKey → OpenError E D
  unsupported_schema : ℕ → ℕ → OpenError E D
  unsupported_format_version : ℕ → ℕ → OpenError E D

-- Its `Display`, over those of the two errors inside.
unfoldable pub open_error_message : {E D : Type 0} → (E → Text) → (D → Text) → OpenError E D → Text
open_error_message sql_message decode_message (sqlite e) = text "sqlite error: " ++ sql_message e
open_error_message sql_message decode_message (decode e) =
    text "receipt decode failed: " ++ decode_message e
open_error_message sql_message decode_message (issuer_mismatch expected got) =
    text "database is pinned to a different issuer than the one provided"
open_error_message sql_message decode_message (unsupported_schema found expected) =
    text "unsupported schema version "
    ++ (decimal found ++ (text " (this build expects " ++ (decimal expected ++ text ")")))
open_error_message sql_message decode_message (unsupported_format_version found expected) =
    text "unsupported receipt format version "
    ++ (decimal found ++ (text " (this build expects " ++ (decimal expected ++ text ")")))

-- `u32::from_le_bytes`
abbrev pub of_le_bytes : List ℕ → ℕ
of_le_bytes [] = 0
of_le_bytes (b ∷ bs) = b + 256 * of_le_bytes bs

module _ (sql : Engine) where
  abbrev pub Failure : Type 0
  Failure = OpenError sql.SqlError sql.DecodeError

  abbrev pub Run : Type 0 → Type 0
  Run A = Step sql.Connection Failure A

  -- A writing statement and a query, their errors turned into `OpenError::Sqlite`.
  abbrev pub execute :
      (sql.Connection → Result sql.SqlError (Unit {0}) × sql.Connection) → Run (Unit {0})
  execute statement c = let (answer, c') = statement c in (map_err sqlite answer, c')

  abbrev pub query : {A : Type 0} → (sql.Connection → Result sql.SqlError A) → Run A
  query q c = (map_err sqlite (q c), c)

  -- A test that does not touch the connection.
  abbrev pub tested : {A : Type 0} → Result Failure A → Run A
  tested r c = (r, c)

  -- `check_or_set_meta_u32` on a key that is there.
  unfoldable pub check_meta : Text → ℕ → (ℕ → ℕ → Failure) → List ℕ → Result Failure (Unit {0})
  check_meta key expected on_mismatch bytes =
      if length bytes == 4
      then (if of_le_bytes bytes == expected
          then ok tt
          else err (on_mismatch (of_le_bytes bytes) expected))
      else err (sqlite (sql.invalid_column (key ++ text " length")))

  abbrev check_or_set : Text → ℕ → (ℕ → ℕ → Failure) → Option (List ℕ) → Run (Unit {0})
  check_or_set key expected on_mismatch (some bytes) =
      tested (check_meta key expected on_mismatch bytes)
  check_or_set key expected on_mismatch none = execute (sql.insert_meta key (le_bytes 4 expected))

  unfoldable pub check_or_set_meta_u32 : Text → ℕ → (ℕ → ℕ → Failure) → Run (Unit {0})
  check_or_set_meta_u32 key expected on_mismatch = do
    found ← query (sql.select_meta key)
    check_or_set key expected on_mismatch found

  -- The issuer that is pinned, against the caller's.
  unfoldable pub check_issuer : PublicKey → List ℕ → Result Failure PublicKey
  check_issuer issuer bytes =
      let stored : PublicKey = record { bytes = bytes } in
      if length bytes == 32
      then ite (PublicKey-discrete stored issuer) (ok stored) (err (issuer_mismatch stored issuer))
      else err (sqlite (sql.invalid_column (text "issuer length")))

  abbrev pin_or_check : PublicKey → Option (List ℕ) → Run PublicKey
  pin_or_check issuer (some bytes) = tested (check_issuer issuer bytes)
  pin_or_check issuer none = do
    execute (sql.insert_meta (text "issuer") issuer.bytes)
    tested (ok issuer)

  unfoldable pub pin_issuer : PublicKey → Run PublicKey
  pin_issuer issuer = do found ← query (sql.select_meta (text "issuer")); pin_or_check issuer found

  abbrev leaf_in : Result sql.DecodeError Receipt → Result Failure (Option Digest)
  leaf_in (ok r) = ok (some r.body.merkle_leaf.leaf_hash)
  leaf_in (err e) = err (decode e)

  -- The cached leaf hash, read only where there is a row.
  abbrev leaf_if : Bool → Run (Option Digest)
  leaf_if true = tested (ok none)
  leaf_if false = do json ← query sql.select_last; tested (leaf_in (sql.from_json json))

  unfoldable pub cached_leaf : ℕ → Run (Option Digest)
  cached_leaf cached_len = leaf_if (cached_len == 0)

  abbrev pub opened : PublicKey → ℕ → Option Digest → Run (SqliteReceiptLog sql)
  opened issuer cached_len leaf c = (
    ok (record {
      conn = c;
      issuer = issuer;
      cached_len = cached_len;
      cached_last_leaf_hash = leaf;
    }),
    c,
  )

  unfoldable pub prepare : Run (Unit {0})
  prepare = do
    execute (sql.pragma_update (text "journal_mode") (text "WAL"))
    execute (sql.pragma_update (text "synchronous") (text "NORMAL"))
    execute (sql.pragma_update (text "foreign_keys") (text "ON"))
    execute sql.create_tables

  unfoldable pub open_inner : PublicKey → Run (SqliteReceiptLog sql)
  open_inner issuer = do
    prepare
    check_or_set_meta_u32 (text "schema_version") schema_version unsupported_schema
    check_or_set_meta_u32 (text "format_version") receipt_format_version unsupported_format_version
    pinned ← pin_issuer issuer
    cached_len ← query sql.select_count
    leaf ← cached_leaf cached_len
    opened pinned cached_len leaf

  abbrev connected : {A : Type 0} → Result sql.SqlError sql.Connection → Run A → Result Failure A
  connected (err e) run = err (sqlite e)
  connected (ok c) run = (run c).0

  -- `open`
  unfoldable pub open_path : Text → PublicKey → Result Failure (SqliteReceiptLog sql)
  open_path path issuer = connected (sql.connect path) (open_inner issuer)

  -- A key of 32 bytes; any other value counts as none.
  abbrev key_of : Option (List ℕ) → Option PublicKey
  key_of none = none
  key_of (some bytes) = if length bytes == 32 then some (record { bytes = bytes }) else none

  abbrev issuer_if : Option Bool → Run (Option PublicKey)
  issuer_if (some true) = do
    bytes ← query (sql.select_meta (text "issuer"))
    tested (ok (key_of bytes))
  issuer_if (some false) = tested (ok none)
  issuer_if none = tested (ok none)

  unfoldable pub peek_issuer : Text → Result Failure (Option PublicKey)
  peek_issuer path =
      if sql.exists path
      then connected (sql.connect path) (do table ← query sql.select_meta_table; issuer_if table)
      else ok none
