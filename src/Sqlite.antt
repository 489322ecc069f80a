-- ===== src/Sqlite.antt =====
-- crates/boardproof-store-sqlite/src/lib.rs: the receipt log in a SQLite file. SQLite (through
-- rusqlite) and serde_json are foreign code: the record `Engine` stands for them, one field for each
-- statement that the source sends.
pub mod Opening
pub mod Storage
pub mod Refines
pub mod Appends
pub mod Reads
pub mod Outcomes
pub mod Reopens
use uniclaw.Prelude.{
  ℕ, zero, suc, ◌+◌, ◌-◌, ◌^◌, Bool, true, false, List, [], ◌∷◌, ◌++◌, map, Option, none, some,
  Result, ok, err, is_ok, map_err, if◌then◌else◌, ite, ◌==◌, ltb, leb, Text, text, length,
}
use uniclaw.Receipt.{
  Digest, PublicKey, Receipt, receipt_format_version, Digest-discrete, PublicKey-discrete,
}
use uniclaw.Receipt.Crypto.{Foreign, verify, content_id}
use uniclaw.Kernel.{zero_digest}
use uniclaw.Store.{
  AppendError, out_of_order, chain_broken, signature_invalid, issuer_mismatch, unsupported_version,
  duplicate_id, VerifyChainError, sequence_gap_at, broken_at, signature_invalid_at,
}

-- A row of the table `receipts`.
pub record Row : Type 0 where
  pub sequence : ℕ
  pub content_id : List ℕ
  pub issuer : List ℕ
  pub body_json : List ℕ

pub record Engine : Type 1 where
  pub Connection : Type 0
  pub SqlError : Type 0
  pub DecodeError : Type 0
  -- `extended_code` of a `SqliteFailure`, and the `InvalidColumnType` that the source makes up
  pub extended_code : SqlError → Option ℕ
  pub invalid_column : Text → SqlError
  -- the statements, with the connection as they leave it where they write
  pub pragma_update : Text → Text → Connection → Result SqlError (Unit {0}) × Connection
  pub create_tables : Connection → Result SqlError (Unit {0}) × Connection
  pub select_meta : Text → Connection → Result SqlError (Option (List ℕ))
  pub insert_meta : Text → List ℕ → Connection → Result SqlError (Unit {0}) × Connection
  pub insert_receipt : Row → Connection → Result SqlError (Unit {0}) × Connection
  pub select_count : Connection → Result SqlError ℕ
  pub select_last : Connection → Result SqlError (List ℕ)
  pub select_by_sequence : ℕ → Connection → Result SqlError (Option (List ℕ))
  pub select_by_id : List ℕ → Connection → Result SqlError (Option (List ℕ))
  pub select_all : Connection → Result SqlError (List (Result SqlError (List ℕ)))
  -- `Connection::open` on a path, whether a file is there, and whether it has a table `meta`
  pub connect : Text → Result SqlError Connection
  pub exists : Text → Bool
  pub select_meta_table : Connection → Result SqlError (Option Bool)
  -- what `Display` writes for the two errors
  pub sql_message : SqlError → Text
  pub decode_message : DecodeError → Text
  -- `serde_json::to_vec` and `from_slice` of a receipt
  pub to_json : Receipt → List ℕ
  pub from_json : List ℕ → Result DecodeError Receipt

-- `SQLITE_CONSTRAINT_UNIQUE`
abbrev pub constraint_unique : ℕ
constraint_unique = 2067

-- `i64::MAX`
abbrev pub i64_max : ℕ
i64_max = 2 ^ 63 - 1

abbrev pub unwrap_or : Digest → Option Digest → Digest
unwrap_or d none = d
unwrap_or d (some e) = e

-- `Result::ok`, `Option::flatten` and `?` on what a query gave back.
abbrev pub flattened {ℓ κ} : {E : Type ℓ} {A : Type κ} → Result E (Option A) → Option A
flattened (ok o) = o
flattened (err e) = none

abbrev pub succeeded {ℓ κ} : {E : Type ℓ} {A : Type κ} → Result E A → Option A
succeeded (ok a) = some a
succeeded (err e) = none

module _ (sql : Engine) where
  pub record SqliteReceiptLog : Type 0 where
    pub conn : sql.Connection
    pub issuer : PublicKey
    pub cached_len : ℕ
    pub cached_last_leaf_hash : Option Digest

  unfoldable pub len : SqliteReceiptLog → ℕ
  len log = log.cached_len

  abbrev pub decoded : Option (List ℕ) → Option Receipt
  decoded none = none
  decoded (some json) = succeeded (sql.from_json json)

  unfoldable pub last : SqliteReceiptLog → Option Receipt
  last log = if log.cached_len == 0 then none else decoded (succeeded (sql.select_last log.conn))

  unfoldable pub get_by_sequence : SqliteReceiptLog → ℕ → Option Receipt
  get_by_sequence log sequence =
      if leb sequence i64_max
      then decoded (flattened (sql.select_by_sequence sequence log.conn))
      else none

  unfoldable pub get_by_id : SqliteReceiptLog → Digest → Option Receipt
  get_by_id log id = decoded (flattened (sql.select_by_id id.bytes log.conn))

  -- A violation of UNIQUE is a duplicate; any other failure is reported as a bad signature.
  abbrev is_unique : Option ℕ → Bool
  is_unique none = false
  is_unique (some code) = code == constraint_unique

  abbrev pub insert_refused : Digest → sql.SqlError → AppendError
  insert_refused id e =
      if is_unique (sql.extended_code e) then duplicate_id id else signature_invalid

  module _ (lib : Foreign) where
    abbrev pub row_of : Receipt → Row
    row_of r = record {
      sequence = r.body.merkle_leaf.sequence;
      content_id = (content_id lib r).bytes;
      issuer = r.issuer.bytes;
      body_json = sql.to_json r;
    }

    -- The checks of `append` up to the insertion, in their order.
    unfoldable pub check : SqliteReceiptLog → Receipt → Result AppendError (Unit {0})
    check log r =
        let leaf = r.body.merkle_leaf in
        let expected_prev = unwrap_or zero_digest log.cached_last_leaf_hash in
        if r.version == receipt_format_version
        then ite (PublicKey-discrete r.issuer log.issuer)
            (if leaf.sequence == log.cached_len
              then ite (Digest-discrete leaf.prev_hash expected_prev)
                  (if is_ok (verify lib r)
                    then (if leb leaf.sequence i64_max
                        then ok tt
                        else err (out_of_order log.cached_len leaf.sequence))
                    else err signature_invalid)
                  (err (chain_broken expected_prev leaf.prev_hash))
              else err (out_of_order log.cached_len leaf.sequence))
            (err (issuer_mismatch log.issuer r.issuer))
        else err (unsupported_version r.version receipt_format_version)

    -- What `append` makes of the answer to its insertion: the cache moves on after a success only.
    abbrev pub inserted :
        SqliteReceiptLog
        → Receipt
        → Result sql.SqlError (Unit {0}) × sql.Connection
        → Result AppendError (Unit {0}) × SqliteReceiptLog
    inserted log r (ok _, conn) = (
      ok tt,
      record log {
        conn = conn;
        cached_len = log.cached_len + 1;
        cached_last_leaf_hash = some r.body.merkle_leaf.leaf_hash;
      },
    )
    inserted log r (err e, conn) =
        (err (insert_refused (content_id lib r) e), record log { conn = conn })

    unfoldable pub append :
        SqliteReceiptLog → Receipt → Result AppendError (Unit {0}) × SqliteReceiptLog
    append log r = elim (check log r) [
      | err e ↦ (err e, log)
      | ok _ ↦ inserted log r (sql.insert_receipt (row_of r) log.conn)
    ]

    -- The tests of the loop of `verify_chain` on one receipt.
    unfoldable pub verify_link : ℕ → Digest → Receipt → Result VerifyChainError (Unit {0})
    verify_link i expected r =
        let leaf = r.body.merkle_leaf in
        if leaf.sequence == i
        then ite (Digest-discrete leaf.prev_hash expected)
            (if is_ok (verify lib r) then ok tt else err (signature_invalid_at leaf.sequence))
            (err (broken_at leaf.sequence expected leaf.prev_hash))
        else err (sequence_gap_at i leaf.sequence)

    -- The receipt of a row, if the row was read and decodes.
    abbrev pub receipt_in : Result sql.SqlError (List ℕ) → Option Receipt
    receipt_in row = decoded (succeeded row)

    abbrev on_receipt :
        ℕ
        → Digest
        → Option Receipt
        → (Digest → Result VerifyChainError (Unit {0}))
        → Result VerifyChainError (Unit {0})
    on_receipt i expected none rest = err (signature_invalid_at i)
    on_receipt i expected (some r) rest = elim (verify_link i expected r) [
      | err e ↦ err e
      | ok _ ↦ rest r.body.merkle_leaf.leaf_hash
    ]

    -- The loop of `verify_chain` over the rows in the order of their sequence numbers.
    unfoldable pub walk_rows :
        ℕ → Digest → List (Result sql.SqlError (List ℕ)) → Result VerifyChainError (Unit {0})
    walk_rows i expected [] = ok tt
    walk_rows i expected (row ∷ rows) =
        on_receipt i expected (receipt_in row) (λ leaf_hash. walk_rows (suc i) leaf_hash rows)

    unfoldable pub verify_chain : SqliteReceiptLog → Result VerifyChainError (Unit {0})
    verify_chain log = elim (sql.select_all log.conn) [
      | err e ↦ err (signature_invalid_at 0)
      | ok rows ↦ walk_rows 0 zero_digest rows
    ]
