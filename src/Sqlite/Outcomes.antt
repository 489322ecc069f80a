-- ===== src/Sqlite/Outcomes.antt =====
-- What the steps of opening a SQLite log leave (`open_inner` of crates/boardproof-store-sqlite/src/lib.rs).
use uniclaw.Prelude.{
  ℕ, ◌≡◌, ◌≢◌, refl, sym, ap, ◌∙◌, subst, ◌⊎◌, inl, inr, List, none, some, Result, ok, err, map_err,
  continue, if_pos, if_neg, length, Text, text, Result-cases,
}
use uniclaw.Receipt.{PublicKey, receipt_format_version}
use uniclaw.Kernel.{le_bytes}
use uniclaw.Sqlite.{Engine, Row}
use uniclaw.Sqlite.Storage.{Stores}
use uniclaw.Sqlite.Opening.{sqlite, schema_version, Failure, execute}

module _ (sql : Engine) (db : Stores sql) where
  -- The key is not there yet, or it has the value.
  abbrev pub Fits : sql.Connection → Text → List ℕ → Type 0
  Fits c key value = (db.meta c key ≡ none) ⊎ (db.meta c key ≡ some value)

  -- A file that this build may open for the issuer: new, or made by it for that issuer.
  pub record CanOpen (c : sql.Connection) (issuer : PublicKey) : Type 0 where
    pub schema : Fits c (text "schema_version") (le_bytes 4 schema_version)
    pub format : Fits c (text "format_version") (le_bytes 4 receipt_format_version)
    pub pinned : Fits c (text "issuer") issuer.bytes
    pub full_key : length issuer.bytes ≡ 32

  module _ (issuer : PublicKey) (held : List Row) where
    -- A file that holds the rows and that may be opened for the issuer.
    pub record Waits (c : sql.Connection) : Type 0 where
      pub rows_held : db.rows c ≡ held
      pub can : CanOpen c issuer

    -- The error of a statement that writes to such a file: a pragma, the creation of the tables, or a
    -- new key.
    abbrev pub Refused : sql.SqlError → Type 0
    Refused e =
        (d : sql.Connection) × Waits d
        × (((key : Text) × (value : Text) × ((sql.pragma_update key value d).0 ≡ err e))
            ⊎ ((sql.create_tables d).0 ≡ err e)
            ⊎ ((key : Text) × (value : List ℕ) × ((sql.insert_meta key value d).0 ≡ err e)))

    -- A step ends in a value, or a statement that writes was refused and the file is still one that
    -- may be opened.
    pub data Outcome {A : Type 0} (Q : A → sql.Connection → Type 0)
        : Result (Failure sql) A × sql.Connection → Type 0 where
      ends : {a : A} {c : sql.Connection} → Q a c → Outcome Q (ok a, c)
      stops :
          {e : sql.SqlError} {c : sql.Connection}
          → Waits c
          → Refused e
          → Outcome Q (err (sqlite e), c)

    pub then :
        {A B : Type 0} (Q : A → sql.Connection → Type 0) (R : B → sql.Connection → Type 0)
        (f : A → sql.Connection → Result (Failure sql) B × sql.Connection)
        {x : Result (Failure sql) A × sql.Connection}
        → Outcome Q x
        → ((a : A) (c : sql.Connection) → Q a c → Outcome R (f a c))
        → Outcome R (continue f x)
    then Q R f (ends q) next = next _ _ q
    then Q R f (stops w r) next = stops w r

    executed :
        (Q : Unit {0} → sql.Connection → Type 0)
        (x : Result sql.SqlError (Unit {0}) × sql.Connection)
        → Waits x.1
        → ((e : sql.SqlError) → x.0 ≡ err e → Refused e)
        → (x.0 ≡ ok tt → Q tt x.1)
        → Outcome Q (map_err sqlite x.0, x.1)
    executed Q (ok a, c) w refused q = ends (q refl)
    executed Q (err e, c) w refused q = stops w (refused e refl)

    same_Waits :
        (c c' : sql.Connection)
        → db.rows c' ≡ db.rows c
        → db.meta c' ≡ db.meta c
        → Waits c
        → Waits c'
    same_Waits c c' rows meta w =
        let fits = λ (key : Text) (value : List ℕ).
          subst (λ m. (m key ≡ none) ⊎ (m key ≡ some value)) (sym meta) in
        record {
          rows_held = rows ∙ w.rows_held;
          can = record {
            schema = fits _ _ w.can.schema;
            format = fits _ _ w.can.format;
            pinned = fits _ _ w.can.pinned;
            full_key = w.can.full_key;
          };
        }

    pub pragma-Outcome :
        (key value : Text) (c : sql.Connection)
        → Waits c
        → Outcome (λ _ c'. Waits c') (execute sql (sql.pragma_update key value) c)
    pragma-Outcome key value c w =
        let (rows, meta) = db.pragma_keeps key value c in
        let w' = same_Waits c (sql.pragma_update key value c).1 rows meta w in
        executed (λ _ c'. Waits c') (sql.pragma_update key value c) w'
          (λ e h. (c, w, inl (key, value, h))) (λ _. w')

    pub create-Outcome :
        (c : sql.Connection)
        → Waits c
        → Outcome (λ _ c'. Waits c' × db.tables c') (execute sql sql.create_tables c)
    create-Outcome c w =
        let (rows, meta) = db.create_keeps c in
        let w' = same_Waits c (sql.create_tables c).1 rows meta w in
        executed (λ _ c'. Waits c' × db.tables c') (sql.create_tables c) w'
          (λ e h. (c, w, inr (inl h))) (λ h. (w', db.create_makes c h))

    -- The value that a new key gets is the one that it is expected to have.
    abbrev pub Suits : Text → List ℕ → Text → List ℕ → Type 0
    Suits key value other expected = (key ≢ other) ⊎ ((key ≡ other) × (value ≡ expected))

    pub record IsExpected (key : Text) (value : List ℕ) : Type 0 where
      pub schema : Suits key value (text "schema_version") (le_bytes 4 schema_version)
      pub format : Suits key value (text "format_version") (le_bytes 4 receipt_format_version)
      pub pinned : Suits key value (text "issuer") issuer.bytes

    entered-Fits :
        (key : Text) (value : List ℕ) (other : Text) (expected : List ℕ) (c : sql.Connection)
        → (sql.insert_meta key value c).0 ≡ ok tt
        → Suits key value other expected
        → Fits c other expected
        → Fits (sql.insert_meta key value c).1 other expected
    entered-Fits key value other expected c h (inl apart) fits =
        let kept : db.meta (sql.insert_meta key value c).1 other ≡ db.meta c other =
          db.meta_enters key value c h other ∙ rw (if_neg _ apart) refl in
        subst (λ o. (o ≡ none) ⊎ (o ≡ some expected)) (sym kept) fits
    entered-Fits key value other expected c h (inr (same, e)) fits =
        inr (db.meta_enters key value c h other ∙ (rw (if_pos _ same) refl ∙ ap some e))

    insert-Waits :
        (key : Text) (value : List ℕ) (c : sql.Connection)
        → db.tables c
        → IsExpected key value
        → Waits c
        → Waits (sql.insert_meta key value c).1
    insert-Waits key value c there x w =
        let rows = (db.meta_stays key value c there).1 in
        elim (Result-cases (sql.insert_meta key value c).0) [
          | inr (e, h) ↦
              same_Waits c (sql.insert_meta key value c).1 rows (db.meta_refused key value c e h) w
          | inl (_, h) ↦ record {
            rows_held = rows ∙ w.rows_held;
            can = record {
              schema = entered-Fits key value _ _ c h x.schema w.can.schema;
              format = entered-Fits key value _ _ c h x.format w.can.format;
              pinned = entered-Fits key value _ _ c h x.pinned w.can.pinned;
              full_key = w.can.full_key;
            };
          }
        ]

    pub insert-Outcome :
        (key : Text) (value : List ℕ) (c : sql.Connection)
        → Waits c
        → db.tables c
        → IsExpected key value
        → Outcome (λ _ c'. Waits c' × db.tables c') (execute sql (sql.insert_meta key value) c)
    insert-Outcome key value c w there x =
        let w' = insert-Waits key value c there x w in
        executed (λ _ c'. Waits c' × db.tables c') (sql.insert_meta key value c) w'
          (λ e h. (c, w, inr (inr (key, value, h))))
          (λ _. (w', (db.meta_stays key value c there).0))

    pub Outcome_inv :
        {A : Type 0} (Q : A → sql.Connection → Type 0) {x : Result (Failure sql) A × sql.Connection}
        → Outcome Q x
        → ((a : A) × (x.0 ≡ ok a) × Q a x.1)
          ⊎ ((e : sql.SqlError) × (x.0 ≡ err (sqlite e)) × Refused e × Waits x.1)
    Outcome_inv Q (ends q) = inl (_, refl, q)
    Outcome_inv Q (stops w r) = inr (_, refl, r, w)
