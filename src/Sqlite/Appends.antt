-- ===== src/Sqlite/Appends.antt =====
-- The SQLite log refines the log in memory: appending (crates/boardproof-store-sqlite/src/lib.rs).
use uniclaw.Prelude.{
  ◌+◌, ◌≤◌, ◌≡◌, refl, sym, ap, ◌∙◌, subst, ◌⊎◌, inl, inr, true, [], ◌∷◌, none, some, Result, ok,
  err, if◌then◌else◌, arith, length, length-append, ◌==◌, ==_iff, Bool-cases, Result-cases,
  Option-cases,
}
use uniclaw.Receipt.{Receipt}
use uniclaw.Receipt.Crypto.{Foreign, content_id}
use uniclaw.Kernel.{zero_digest}
use uniclaw.Store.{
  ReceiptLog, AppendError, signature_invalid, duplicate_id, position, last_leaf, nth, push,
  contains_key,
}
use uniclaw.Store
use uniclaw.Store.Verifies.{last_leaf-append}
use uniclaw.Store.Lookup.{IsSound}
use uniclaw.Sqlite.{
  Engine, SqliteReceiptLog, constraint_unique, i64_max, row_of, insert_refused, check, inserted,
  append,
}
use uniclaw.Sqlite.Storage.{Stores, insert_row, Unused}
use uniclaw.Sqlite.Refines.{Represents, insert_row-last, position-Unused, Unused-position}

module _ (sql : Engine) (db : Stores sql) (lib : Foreign) where
  -- The checks before the insertion are those of the log in memory, but for the duplicate.
  check-agrees :
      (s : SqliteReceiptLog sql) (log : ReceiptLog) (r : Receipt)
      → Represents sql db lib s log
      → length log.receipts ≤ i64_max
      → ((check sql lib s r ≡ ok tt)
          × (Store.check lib log r ≡ (
              if contains_key (position (content_id lib r) log.by_id)
              then err (duplicate_id (content_id lib r))
              else ok tt))
          × (r.body.merkle_leaf.sequence ≡ length log.receipts))
        ⊎ ((e : AppendError) × (check sql lib s r ≡ err e) × (Store.check lib log r ≡ err e))
  unfolding check Store.check
  check-agrees s log r p room = elim (Result-cases (check sql lib s r)) [
    | inl (_, h) ↦
        inl (h, ground (arith, h, p.same_issuer, p.counted, p.ended), ground (arith, h, p.counted))
    | inr (e, h) ↦ inr (e, h, ground (arith, h, p.same_issuer, p.counted, p.ended))
  ]

  inserted-ok :
      (s : SqliteReceiptLog sql) (r : Receipt)
      (answer : Result sql.SqlError (Unit {0}) × sql.Connection)
      → answer.0 ≡ ok tt
      → inserted sql lib s r answer ≡ (
        ok tt,
        record s {
          conn = answer.1;
          cached_len = s.cached_len + 1;
          cached_last_leaf_hash = some r.body.merkle_leaf.leaf_hash;
        },
      )
  inserted-ok s r (ok _, c) h = refl
  inserted-ok s r (err e, c) h = cc

  inserted-err :
      (s : SqliteReceiptLog sql) (r : Receipt)
      (answer : Result sql.SqlError (Unit {0}) × sql.Connection) (e : sql.SqlError)
      → answer.0 ≡ err e
      → inserted sql lib s r answer
        ≡ (err (insert_refused sql (content_id lib r) e), record s { conn = answer.1 })
  inserted-err s r (ok _, c) e h = cc
  inserted-err s r (err x, c) e h = ground (arith, h)

  -- The log in memory after a receipt that the table took.
  pushed-Represents :
      (s : SqliteReceiptLog sql) (log : ReceiptLog) (r : Receipt) (conn : sql.Connection)
      → Represents sql db lib s log
      → IsSound lib log
      → r.body.merkle_leaf.sequence ≡ length log.receipts
      → db.tables conn
      → db.rows conn ≡ insert_row (row_of sql lib r) (db.rows s.conn)
      → Represents sql db lib
          (record s {
            conn = conn;
            cached_len = s.cached_len + 1;
            cached_last_leaf_hash = some r.body.merkle_leaf.leaf_hash;
          })
          (push lib log r)
  unfolding push
  pushed-Represents s log r conn p sound next there e = record {
    there = there;
    same_issuer = p.same_issuer;
    same_rows =
        e
        ∙ (ap (insert_row (row_of sql lib r)) p.same_rows
            ∙ insert_row-last sql db lib 0 zero_digest log.receipts r sound.chain
                (omega (arith, next)));
    counted = omega (arith, p.counted, length-append log.receipts (r ∷ []));
    ended = sym (last_leaf-append zero_digest log.receipts r);
  }

  -- An insertion that was made: the log in memory takes the receipt too.
  entered :
      (s : SqliteReceiptLog sql) (log : ReceiptLog) (r : Receipt)
      → Represents sql db lib s log
      → IsSound lib log
      → Unused (content_id lib r).bytes (db.rows s.conn)
      → position (content_id lib r) log.by_id ≡ none
  entered s log r p sound u =
      Unused-position sql db lib log (content_id lib r) sound.index
        (subst (Unused (content_id lib r).bytes) p.same_rows u)

  -- A duplicate that UNIQUE refused: the log in memory has the id.
  duplicated :
      (s : SqliteReceiptLog sql) (log : ReceiptLog) (r : Receipt)
      → Represents sql db lib s log
      → IsSound lib log
      → ¬ Unused (content_id lib r).bytes (db.rows s.conn)
      → contains_key (position (content_id lib r) log.by_id) ≡ true
  duplicated s log r p sound n = elim (Option-cases (position (content_id lib r) log.by_id)) [
    | inr (i, e) ↦ rw e
    | inl e ↦ absurd (
        n (
          subst (Unused (content_id lib r).bytes) (sym p.same_rows)
            (position-Unused sql db lib log (content_id lib r) sound.index e)))
  ]

  module _ (s : SqliteReceiptLog sql) (log : ReceiptLog) (r : Receipt)
      (p : Represents sql db lib s log) (sound : IsSound lib log)
      (room : length log.receipts ≤ i64_max) where
    -- The same answer, and logs that hold the same after it.
    abbrev pub Agrees : Type 0
    Agrees =
        ((append sql lib s r).0 ≡ (Store.append lib log r).0)
        × Represents sql db lib (append sql lib s r).1 (Store.append lib log r).1

    -- An insertion that failed for a reason of the storage's own.
    abbrev pub Fails : Type 0
    Fails =
        (e : sql.SqlError) × ((sql.insert_receipt (row_of sql lib r) s.conn).0 ≡ err e)
        × ((append sql lib s r).0 ≡ err signature_invalid)
        × Represents sql db lib (append sql lib s r).1 log

    runs :
        check sql lib s r ≡ ok tt
        → append sql lib s r ≡ inserted sql lib s r (sql.insert_receipt (row_of sql lib r) s.conn)
    unfolding append
    runs h = rw (h, append) refl

    halts : (e : AppendError) → check sql lib s r ≡ err e → append sql lib s r ≡ (err e, s)
    unfolding append
    halts e h = rw (h, append) refl

    stores : Store.check lib log r ≡ ok tt → Store.append lib log r ≡ (ok tt, push lib log r)
    unfolding Store.append
    stores h = rw (h, Store.append) refl

    rejects :
        (e : AppendError) → Store.check lib log r ≡ err e → Store.append lib log r ≡ (err e, log)
    unfolding Store.append
    rejects e h = rw (h, Store.append) refl

    module _ (checked : check sql lib s r ≡ ok tt)
        (there : Store.check lib log r ≡ (
          if contains_key (position (content_id lib r) log.by_id)
          then err (duplicate_id (content_id lib r))
          else ok tt))
        (next : r.body.merkle_leaf.sequence ≡ length log.receipts) where
      abbrev answer : Result sql.SqlError (Unit {0}) × sql.Connection
      answer = sql.insert_receipt (row_of sql lib r) s.conn

      taken : answer.0 ≡ ok tt → Agrees
      taken h =
          let (unused, rows) = db.row_enters (row_of sql lib r) s.conn h in
          let free = entered s log r p sound unused in
          let both : Store.check lib log r ≡ ok tt = rw (there, free) refl in
          rw (runs checked ∙ inserted-ok s r answer h, stores both)
            (
              refl,
              pushed-Represents s log r answer.1 p sound next
                  (db.row_stays (row_of sql lib r) s.conn p.there) rows,
            )

      refused_Represents :
          (e : sql.SqlError)
          → answer.0 ≡ err e
          → Represents sql db lib (record s { conn = answer.1 }) log
      refused_Represents e h = record {
        there = db.row_stays (row_of sql lib r) s.conn p.there;
        same_issuer = p.same_issuer;
        same_rows = db.row_refused (row_of sql lib r) s.conn e h ∙ p.same_rows;
        counted = p.counted;
        ended = p.ended;
      }

      refused : (e : sql.SqlError) → answer.0 ≡ err e → Agrees ⊎ Fails
      refused e h = elim (Option-cases (sql.extended_code e)) [
        | inl c ↦ inr (
          e,
          h,
          rw (runs checked ∙ inserted-err s r answer e h, c) refl,
          rw (runs checked ∙ inserted-err s r answer e h) (refused_Represents e h),
        )
        | inr (code, c) ↦ elim (Bool-cases (code == constraint_unique)) [
          | inr other ↦ inr (
            e,
            h,
            rw (runs checked ∙ inserted-err s r answer e h, c, other) refl,
            rw (runs checked ∙ inserted-err s r answer e h) (refused_Represents e h),
          )
          | inl unique ↦
              let used = duplicated s log r p sound (
                db.unique_means (row_of sql lib r) s.conn e h
                  (c ∙ ap some ((==_iff code constraint_unique).0 unique))) in
              let both : Store.check lib log r ≡ err (duplicate_id (content_id lib r)) =
                rw (there, used) refl in
              inl (
                rw (runs checked ∙ inserted-err s r answer e h, c, unique, rejects _ both)
                  (refl, refused_Represents e h))
        ]
      ]

    -- Appending to the SQLite log of a sound log in memory with fewer than 2 ^ 63 receipts gives the
    -- answer that the log in memory gives, and the two hold the same receipts afterwards; or else the
    -- insertion failed, the answer says that the signature is invalid, and the SQLite log still holds
    -- what it held.
    pub append_refines : Agrees ⊎ Fails
    append_refines = elim (check-agrees s log r p room) [
      | inr (e, here, there) ↦ inl (rw (halts e here, rejects e there) (refl, p))
      | inl (here, there, next) ↦
          elim (Result-cases (sql.insert_receipt (row_of sql lib r) s.conn).0) [
            | inl (_, h) ↦ inl (taken here there next h)
            | inr (e, h) ↦ refused here there next e h
          ]
    ]
