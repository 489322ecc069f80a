-- ===== src/Sqlite/Reopens.antt =====
-- Opening a SQLite log (`open_inner` of crates/boardproof-store-sqlite/src/lib.rs).
use uniclaw.Prelude.{
  ℕ, suc, ◌≡◌, refl, sym, ap, ◌∙◌, ◌≢◌, ◌⊎◌, inl, inr, true, false, List, [], ◌∷◌, map, Option,
  none, some, ok, err, Result, continue, ◌>>=◌, if_pos, arith, length, ◌==◌, ==_iff, Text, text,
}
use uniclaw.Receipt.{Digest, PublicKey, Receipt, PublicKey-discrete, receipt_format_version}
use uniclaw.Receipt.Crypto.{Foreign}
use uniclaw.Kernel.{zero_digest, le_bytes}
use uniclaw.Store.{ReceiptLog, last_leaf}
use uniclaw.Sqlite.{Engine, Row, SqliteReceiptLog, row_of, unwrap_or}
use uniclaw.Sqlite.Storage.{Stores, last_body}
use uniclaw.Sqlite.Opening.{
  sqlite, unsupported_schema, unsupported_format_version, schema_version, of_le_bytes, Failure,
  check_meta, check_or_set_meta_u32, check_issuer, pin_issuer, cached_leaf, prepare, open_inner,
  execute, query, opened,
}
use uniclaw.Sqlite.Outcomes.{
  CanOpen, Fits, Refused, Waits, Outcome, ends, then, pragma-Outcome, create-Outcome,
  insert-Outcome, IsExpected, Outcome_inv,
}
use uniclaw.Sqlite.Refines.{Represents}

heads_apart : (x y : ℕ) (xs ys : Text) → (x == y) ≡ false → (x ∷ xs) ≢ (y ∷ ys)
heads_apart x y xs ys h e = absurd (ground (arith, h, e))

format_not_schema : text "format_version" ≢ text "schema_version"
format_not_schema = heads_apart b'f' b's' _ _ refl

issuer_not_schema : text "issuer" ≢ text "schema_version"
issuer_not_schema = heads_apart b'i' b's' _ _ refl

issuer_not_format : text "issuer" ≢ text "format_version"
issuer_not_format = heads_apart b'i' b'f' _ _ refl

module _ (sql : Engine) (db : Stores sql) where
  module _ (issuer : PublicKey) (held : List Row) where
    -- A file whose tables are there as well.
    abbrev IsReady : sql.Connection → Type 0
    IsReady c = Waits sql db issuer held c × db.tables c

    schema-IsExpected :
        IsExpected sql db issuer held (text "schema_version") (le_bytes 4 schema_version)
    schema-IsExpected = record {
      schema = inr (refl, refl);
      format = inl (λ e. format_not_schema (sym e));
      pinned = inl (λ e. issuer_not_schema (sym e));
    }

    format-IsExpected :
        IsExpected sql db issuer held (text "format_version") (le_bytes 4 receipt_format_version)
    format-IsExpected = record {
      schema = inl format_not_schema;
      format = inr (refl, refl);
      pinned = inl (λ e. issuer_not_format (sym e));
    }

    issuer-IsExpected : IsExpected sql db issuer held (text "issuer") issuer.bytes
    issuer-IsExpected = record {
      schema = inl issuer_not_schema;
      format = inl issuer_not_format;
      pinned = inr (refl, refl);
    }

    check_or_set-Outcome :
        (key : Text) (n : ℕ) (f : ℕ → ℕ → Failure sql) (c : sql.Connection)
        → of_le_bytes (le_bytes 4 n) ≡ n
        → IsExpected sql db issuer held key (le_bytes 4 n)
        → IsReady c
        → Fits sql db c key (le_bytes 4 n)
        → Outcome sql db issuer held (λ _ c'. IsReady c') (check_or_set_meta_u32 sql key n f c)
    unfolding check_or_set_meta_u32 check_meta
    check_or_set-Outcome key n f c back x (w, there) (inl h) =
        rw (db.meta_reads key c there, h)
          (insert-Outcome sql db issuer held key (le_bytes 4 n) c w there x)
    check_or_set-Outcome key n f c back x (w, there) (inr h) =
        let same : (of_le_bytes (le_bytes 4 n) == n) ≡ true = (==_iff _ n).1 back in
        rw (db.meta_reads key c there, h, same) (ends (w, there))

    pin_issuer-Outcome :
        (c : sql.Connection)
        → IsReady c
        → Outcome sql db issuer held (λ a c'. (a ≡ issuer) × IsReady c') (pin_issuer sql issuer c)
    unfolding pin_issuer check_issuer
    pin_issuer-Outcome c (w, there) = elim w.can.pinned [
      | inl h ↦
          rw (db.meta_reads (text "issuer") c there, h)
            (then sql db issuer held (λ _ c'. IsReady c') (λ a c'. (a ≡ issuer) × IsReady c') _
              (insert-Outcome sql db issuer held (text "issuer") issuer.bytes c w there
                issuer-IsExpected)
              (λ _ c' q. ends (refl, q)))
      | inr h ↦
          let long : (length issuer.bytes == 32) ≡ true = (==_iff _ 32).1 w.can.full_key in
          let stored : PublicKey = record { bytes = issuer.bytes } in
          rw
            (
              db.meta_reads (text "issuer") c there,
              h,
              long,
              if_pos (PublicKey-discrete stored issuer) refl,
            )
            (ends (refl, (w, there)))
    ]

    -- A pragma before further steps.
    pragma_then :
        (key value : Text) (m : sql.Connection → Result (Failure sql) (Unit {0}) × sql.Connection)
        (c : sql.Connection)
        → Waits sql db issuer held c
        → ((c' : sql.Connection)
            → Waits sql db issuer held c'
            → Outcome sql db issuer held (λ _ c''. IsReady c'') (m c'))
        → Outcome sql db issuer held
            (λ _ c''. IsReady c'')
            (continue (λ _. m) (execute sql (sql.pragma_update key value) c))
    pragma_then key value m c w next =
        then sql db issuer held (λ _ c'. Waits sql db issuer held c') (λ _ c''. IsReady c'')
          (λ _. m) (pragma-Outcome sql db issuer held key value c w) (λ _ c' w'. next c' w')

    prepare-Outcome :
        (c : sql.Connection)
        → Waits sql db issuer held c
        → Outcome sql db issuer held (λ _ c'. IsReady c') (prepare sql c)
    unfolding prepare
    prepare-Outcome c w = pragma_then (text "journal_mode") (text "WAL") _ c w λ c₁ w₁.
        pragma_then (text "synchronous") (text "NORMAL") _ c₁ w₁ λ c₂ w₂.
          pragma_then (text "foreign_keys") (text "ON") _ c₂ w₂
            λ c₃ w₃. create-Outcome sql db issuer held c₃ w₃

  module _ (lib : Foreign) where
    ends_with :
        (d : Digest) (x : Receipt) (rs : List Receipt)
        → (r : Receipt) × (last_body (map (row_of sql lib) (x ∷ rs)) ≡ some (sql.to_json r))
          × (last_leaf d (x ∷ rs) ≡ r.body.merkle_leaf.leaf_hash)
    unfolding last_body last_leaf
    ends_with d x [] = (x, refl, refl)
    ends_with d x (y ∷ rs) = ends_with x.body.merkle_leaf.leaf_hash y rs

    cached_leaf_lem :
        (c : sql.Connection) (rs : List Receipt)
        → db.tables c
        → db.rows c ≡ map (row_of sql lib) rs
        → (l : Option Digest) × (cached_leaf sql (length rs) c ≡ (ok l, c))
          × (unwrap_or zero_digest l ≡ last_leaf zero_digest rs)
    unfolding cached_leaf
    cached_leaf_lem c [] there e = (none, refl, unfold last_leaf in refl)
    cached_leaf_lem c (x ∷ rs) there e =
        let (r, last, leaf) = ends_with zero_digest x rs in
        let read = db.ends c (sql.to_json r) there (ap last_body e ∙ last) in
        let filled : (suc (length rs) == 0) ≡ false = ground arith in
        (some r.body.merkle_leaf.leaf_hash, rw (filled, read, db.json_reads r) refl, sym leaf)

    length-table : (rs : List Receipt) → length (map (row_of sql lib) rs) ≡ length rs
    length-table [] = refl
    length-table (x ∷ rs) = ap suc (length-table rs)

    module _ (log : ReceiptLog) where
      abbrev pub held : List Row
      held = map (row_of sql lib) log.receipts

      -- The file once its keys are set, up to the log that is opened.
      abbrev Held : SqliteReceiptLog sql → sql.Connection → Type 0
      Held s c = Represents sql db lib s log

      cached-Outcome :
          (pinned : PublicKey) (c : sql.Connection)
          → pinned ≡ log.issuer
          → IsReady log.issuer held c
          → Outcome sql db log.issuer held Held (
              continue
                (λ cached_len. cached_leaf sql cached_len >>= opened sql pinned cached_len)
                (query sql sql.select_count c))
      cached-Outcome pinned c same (w, there) =
          let counted : length (db.rows c) ≡ length log.receipts =
            ap length w.rows_held ∙ length-table log.receipts in
          let (l, cached, ended) = cached_leaf_lem c log.receipts there w.rows_held in
          rw (db.counts c there, counted, cached)
            (ends (record {
              there = there;
              same_issuer = same;
              same_rows = w.rows_held;
              counted = refl;
              ended = ended;
            }))

      open_inner-Outcome :
          (c : sql.Connection)
          → Waits sql db log.issuer held c
          → Outcome sql db log.issuer held Held (open_inner sql log.issuer c)
      unfolding open_inner
      open_inner-Outcome c w =
          let ready = λ (_ : Unit {0}). IsReady log.issuer held in
          then sql db log.issuer held ready Held _ (prepare-Outcome log.issuer held c w) λ _ c₁ q₁.
            then sql db log.issuer held ready Held _
              (check_or_set-Outcome log.issuer held (text "schema_version") schema_version
                unsupported_schema c₁ refl (schema-IsExpected log.issuer held) q₁ q₁.0.can.schema)
              λ _ c₂ q₂.
                then sql db log.issuer held ready Held _
                  (check_or_set-Outcome log.issuer held (text "format_version")
                    receipt_format_version unsupported_format_version c₂ refl
                    (format-IsExpected log.issuer held) q₂ q₂.0.can.format)
                  λ _ c₃ q₃.
                    then sql db log.issuer held
                      (λ a c'. (a ≡ log.issuer) × IsReady log.issuer held c') Held _
                      (pin_issuer-Outcome log.issuer held c₃ q₃)
                      λ pinned c₄ q₄. cached-Outcome pinned c₄ q₄.0 q₄.1

    -- Opening a file that is new, or that this build made for the same issuer, and whose rows are
    -- those of a log in memory of that issuer: the log that is opened holds what that one holds; or
    -- else the answer is the error of a pragma, of the creation of the tables or of the insertion of a
    -- key that the database refused on such a file, and the file has the same rows and may still be
    -- opened for the issuer. Here the file can be read, and the database treats its statements as it
    -- documents.
    pub open_inner_lem :
        (c : sql.Connection) (log : ReceiptLog)
        → CanOpen sql db c log.issuer
        → db.rows c ≡ map (row_of sql lib) log.receipts
        → ((s : SqliteReceiptLog sql) × ((open_inner sql log.issuer c).0 ≡ ok s)
            × Represents sql db lib s log)
          ⊎ ((e : sql.SqlError) × ((open_inner sql log.issuer c).0 ≡ err (sqlite e))
              × Refused sql db log.issuer (held log) e
              × (db.rows (open_inner sql log.issuer c).1 ≡ db.rows c)
              × CanOpen sql db (open_inner sql log.issuer c).1 log.issuer)
    open_inner_lem c log can rows =
        elim (Outcome_inv sql db log.issuer (held log) (Held log)
          (open_inner-Outcome log c (record { rows_held = rows; can = can }))) [
            | inl found ↦ inl found
            | inr (e, h, refused, w) ↦ inr (e, h, refused, w.rows_held ∙ sym rows, w.can)
          ]
