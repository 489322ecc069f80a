-- ===== src/Sqlite/Storage.antt =====
-- What SQLite does with the statements of crates/boardproof-store-sqlite/src/lib.rs: the documented
-- behaviour of a connection, by the tables that it shows.
use uniclaw.Prelude.{
  ℕ, ◌≡◌, ◌≢◌, List, [], ◌∷◌, Option, none, some, Result, ok, err, if◌then◌else◌, ite, ltb, ◌==◌,
  Text, Text-discrete, length,
}
use uniclaw.Receipt.{Receipt}
use uniclaw.Sqlite.{Engine, Row, constraint_unique}

-- A row put in its place by sequence number.
unfoldable pub insert_row : Row → List Row → List Row
insert_row row [] = row ∷ []
insert_row row (x ∷ rows) =
    if ltb row.sequence x.sequence then row ∷ x ∷ rows else x ∷ insert_row row rows

-- `WHERE sequence = ?1` and `WHERE content_id = ?1`
unfoldable pub body_at : ℕ → List Row → Option (List ℕ)
body_at n [] = none
body_at n (x ∷ rows) = if x.sequence == n then some x.body_json else body_at n rows

unfoldable pub body_with : List ℕ → List Row → Option (List ℕ)
body_with id [] = none
body_with id (x ∷ rows) = ite (Text-discrete x.content_id id) (some x.body_json) (body_with id rows)

abbrev pub Unused : List ℕ → List Row → Type 0
Unused id [] = Unit
Unused id (x ∷ rows) = (x.content_id ≢ id) × Unused id rows

-- `ORDER BY sequence DESC LIMIT 1`
unfoldable pub last_body : List Row → Option (List ℕ)
last_body [] = none
last_body (x ∷ []) = some x.body_json
last_body (x ∷ y ∷ rows) = last_body (y ∷ rows)

abbrev pub bodies : {E : Type 0} → List Row → List (Result E (List ℕ))
bodies [] = []
bodies (x ∷ rows) = ok x.body_json ∷ bodies rows

-- Connections to files that can be read, and what they show: whether the two tables are there, the
-- rows of `receipts` in the order of their sequence numbers, and the values of `meta`; a table that is
-- not there shows nothing. Any statement that writes may fail, for any reason.
pub record Stores (sql : Engine) : Type 1 where
  pub tables : sql.Connection → Type 0
  pub rows : sql.Connection → List Row
  pub meta : sql.Connection → Text → Option (List ℕ)
  -- pragmas, and tables that are created if they are not there
  pub pragma_keeps :
      (key value : Text) (c : sql.Connection)
      → (rows (sql.pragma_update key value c).1 ≡ rows c)
        × (meta (sql.pragma_update key value c).1 ≡ meta c)
  pub create_keeps :
      (c : sql.Connection)
      → (rows (sql.create_tables c).1 ≡ rows c) × (meta (sql.create_tables c).1 ≡ meta c)
  pub create_makes :
      (c : sql.Connection) → (sql.create_tables c).0 ≡ ok tt → tables (sql.create_tables c).1
  -- the key-value table: an insertion that fails changes nothing
  pub meta_reads :
      (key : Text) (c : sql.Connection) → tables c → sql.select_meta key c ≡ ok (meta c key)
  pub meta_stays :
      (key : Text) (value : List ℕ) (c : sql.Connection)
      → tables c
      → tables (sql.insert_meta key value c).1 × (rows (sql.insert_meta key value c).1 ≡ rows c)
  pub meta_enters :
      (key : Text) (value : List ℕ) (c : sql.Connection)
      → (sql.insert_meta key value c).0 ≡ ok tt
      → (other : Text)
      → meta (sql.insert_meta key value c).1 other
        ≡ ite (Text-discrete key other) (some value) (meta c other)
  pub meta_refused :
      (key : Text) (value : List ℕ) (c : sql.Connection) (e : sql.SqlError)
      → (sql.insert_meta key value c).0 ≡ err e
      → meta (sql.insert_meta key value c).1 ≡ meta c
  -- an insertion that succeeds had an unused content id; one that fails changes nothing
  pub row_stays : (row : Row) (c : sql.Connection) → tables c → tables (sql.insert_receipt row c).1
  pub row_enters :
      (row : Row) (c : sql.Connection)
      → (sql.insert_receipt row c).0 ≡ ok tt
      → Unused row.content_id (rows c)
        × (rows (sql.insert_receipt row c).1 ≡ insert_row row (rows c))
  pub row_refused :
      (row : Row) (c : sql.Connection) (e : sql.SqlError)
      → (sql.insert_receipt row c).0 ≡ err e
      → rows (sql.insert_receipt row c).1 ≡ rows c
  pub unique_means :
      (row : Row) (c : sql.Connection) (e : sql.SqlError)
      → (sql.insert_receipt row c).0 ≡ err e
      → sql.extended_code e ≡ some constraint_unique
      → ¬ Unused row.content_id (rows c)
  -- the queries
  pub counts : (c : sql.Connection) → tables c → sql.select_count c ≡ ok (length (rows c))
  pub ends :
      (c : sql.Connection) (json : List ℕ)
      → tables c
      → last_body (rows c) ≡ some json
      → sql.select_last c ≡ ok json
  pub finds_sequence :
      (n : ℕ) (c : sql.Connection) → tables c → sql.select_by_sequence n c ≡ ok (body_at n (rows c))
  pub finds_id :
      (id : List ℕ) (c : sql.Connection)
      → tables c
      → sql.select_by_id id c ≡ ok (body_with id (rows c))
  pub lists : (c : sql.Connection) → tables c → sql.select_all c ≡ ok (bodies (rows c))
  -- the JSON form of a receipt reads back
  pub json_reads : (r : Receipt) → sql.from_json (sql.to_json r) ≡ ok r
