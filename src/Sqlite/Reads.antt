-- ===== src/Sqlite/Reads.antt =====
-- The SQLite log refines the log in memory: reading and opening
-- (crates/boardproof-store-sqlite/src/lib.rs).
use uniclaw.Prelude.{
  ℕ, zero, suc, ◌+◌, ◌≤◌, ◌≡◌, refl, sym, ap, ◌∙◌, subst, ◌≢◌, ◌⊎◌, inl, inr, true, false, List, [],
  ◌∷◌, map, Option, none, some, Result, ok, err, if_pos, if_neg, arith, length, leb, ◌==◌,
  Bool-cases, Result-cases, Option-cases, Text-discrete,
}
use uniclaw.Receipt.{Digest, Receipt}
use uniclaw.Receipt.Crypto.{Foreign, content_id}
use uniclaw.Kernel.{zero_digest}
use uniclaw.Store.{ReceiptLog, VerifyChainError, position, nth, nth_of, walk}
use uniclaw.Store
use uniclaw.Store.Verifies.{IsChain}
use uniclaw.Store.Lookup.{IsSound}
use uniclaw.Sqlite.{
  Engine, Row, SqliteReceiptLog, i64_max, decoded, row_of, last, get_by_sequence, get_by_id,
  receipt_in, verify_link, walk_rows, verify_chain,
}
use uniclaw.Sqlite.Storage.{Stores, body_at, body_with, last_body, bodies}
use uniclaw.Sqlite.Refines.{Represents}

module _ (sql : Engine) (db : Stores sql) (lib : Foreign) where
  abbrev table : List Receipt → List Row
  table = map (row_of sql lib)

  -- The receipt whose JSON form a query gives.
  abbrev json_of : Option Receipt → Option (List ℕ)
  json_of none = none
  json_of (some r) = some (sql.to_json r)

  decoded-json_of : (o : Option Receipt) → decoded sql (json_of o) ≡ o
  decoded-json_of none = refl
  decoded-json_of (some r) = rw (db.json_reads r) refl

  last_body-table : (rs : List Receipt) → last_body (table rs) ≡ json_of (Store.last rs)
  unfolding last_body Store.last
  last_body-table [] = refl
  last_body-table (x ∷ []) = refl
  last_body-table (x ∷ y ∷ rs) = last_body-table (y ∷ rs)

  -- In a chain from `i`, the number `i + j` is that of the receipt at place `j`.
  body_at-table :
      (i j k : ℕ) (d : Digest) (rs : List Receipt)
      → IsChain lib i d rs
      → k ≡ i + j
      → body_at k (table rs) ≡ json_of (nth rs j)
  unfolding body_at
  body_at-table i j k d [] c e = refl
  body_at-table i zero k d (x ∷ rs) c e =
      let here : (x.body.merkle_leaf.sequence == k) ≡ true = ground (arith, c.0) in rw here refl
  body_at-table i (suc j) k d (x ∷ rs) c e =
      let other : (x.body.merkle_leaf.sequence == k) ≡ false = ground (arith, c.0) in
      rw other (body_at-table (suc i) j k x.body.merkle_leaf.leaf_hash rs c.3 (omega arith))

  nth-none : (rs : List Receipt) (i : ℕ) → length rs ≤ i → nth rs i ≡ none
  nth-none [] i h = refl
  nth-none (x ∷ rs) zero h = absurd (omega arith)
  nth-none (x ∷ rs) (suc i) h = nth-none rs i (omega arith)

  -- A search by content id finds the receipt of some place, or there is none.
  body_with-cases :
      (id : Digest) (rs : List Receipt)
      → ((i : ℕ) × (r : Receipt) × (nth rs i ≡ some r)
          × (content_id lib r ≡ id)
          × (body_with id.bytes (table rs) ≡ some (sql.to_json r)))
        ⊎ (((i : ℕ) (r : Receipt) → nth rs i ≡ some r → content_id lib r ≢ id)
            × (body_with id.bytes (table rs) ≡ none))
  unfolding body_with
  body_with-cases id [] = inr (λ i r h. absurd (ground (arith, h)), refl)
  body_with-cases id (x ∷ rs) =
      let ih = body_with-cases id rs in
      elim (Text-discrete (content_id lib x).bytes id.bytes) [
        | yes e ↦ inl (
          0,
          x,
          refl,
          ap (λ b. let d : Digest = record { bytes = b } in d) e,
          rw (if_pos _ e) refl,
        )
        | no n ↦ elim ih [
          | inl (i, r, at, same, found) ↦ inl (suc i, r, at, same, rw (if_neg _ n) found)
          | inr (absent, found) ↦ inr (λ j r. not_there n absent j r, rw (if_neg _ n) found)
        ]
      ]
    where
      not_there :
          ¬ ((content_id lib x).bytes ≡ id.bytes)
          → ((i : ℕ) (r : Receipt) → nth rs i ≡ some r → content_id lib r ≢ id)
          → (j : ℕ) (r : Receipt) → nth (x ∷ rs) j ≡ some r
          → content_id lib r ≢ id
      not_there n absent zero r h e =
          let same : x ≡ r = ground (arith, h) in
          n (ap (λ (y : Receipt). (content_id lib y).bytes) same ∙ ap (λ (y : Digest). y.bytes) e)
      not_there n absent (suc j) r h e = absent j r h e

  last-some : (x : Receipt) (rs : List Receipt) → (r : Receipt) × (Store.last (x ∷ rs) ≡ some r)
  unfolding Store.last
  last-some x [] = (x, refl)
  last-some x (y ∷ rs) = last-some y rs

  verify_link-walk :
      (i : ℕ) (d : Digest) (r : Receipt) (rs : List Receipt)
      → walk lib i d (r ∷ rs) ≡ (elim (verify_link sql lib i d r) [
        | err e ↦ err e
        | ok _ ↦ walk lib (suc i) r.body.merkle_leaf.leaf_hash rs
      ])
  unfolding walk verify_link
  verify_link-walk i d r rs = ground arith

  -- One round of the loop over the rows, on a row that decodes.
  walk_rows-some :
      (i : ℕ) (d : Digest) (row : Result sql.SqlError (List ℕ)) (r : Receipt)
      (rows : List (Result sql.SqlError (List ℕ)))
      → receipt_in sql lib row ≡ some r
      → walk_rows sql lib i d (row ∷ rows) ≡ (elim (verify_link sql lib i d r) [
        | err e ↦ err e
        | ok _ ↦ walk_rows sql lib (suc i) r.body.merkle_leaf.leaf_hash rows
      ])
  unfolding walk_rows
  walk_rows-some i d row r rows h = rw h refl

  walk_rows-bodies :
      (i : ℕ) (d : Digest) (rs : List Receipt)
      → walk_rows sql lib i d (bodies (table rs)) ≡ walk lib i d rs
  walk_rows-bodies i d [] = unfold walk_rows walk in refl
  walk_rows-bodies i d (x ∷ rs) =
      let ih = walk_rows-bodies (suc i) x.body.merkle_leaf.leaf_hash rs in
      let read : receipt_in sql lib (ok (sql.to_json x)) ≡ some x = rw (db.json_reads x) refl in
      walk_rows-some i d (ok (sql.to_json x)) x (bodies (table rs)) read
      ∙ (elim (Result-cases (verify_link sql lib i d x)) [
        | inl (_, v) ↦ rw v ih
        | inr (e, v) ↦ rw v refl
      ]
          ∙ sym (verify_link-walk i d x rs))

  module _ (s : SqliteReceiptLog sql) (log : ReceiptLog) (p : Represents sql db lib s log)
      (sound : IsSound lib log) (room : length log.receipts ≤ i64_max) where
    last_agrees : last sql s ≡ Store.last log.receipts
    last_agrees = by_rows log.receipts p.same_rows p.counted
      where
        by_rows :
            (rs : List Receipt)
            → db.rows s.conn ≡ table rs
            → s.cached_len ≡ length rs
            → last sql s ≡ Store.last rs
        by_rows [] e n = unfold last Store.last in rw n refl
        by_rows (x ∷ rs) e n =
            let (r, h) = last-some x rs in
            let read =
              db.ends s.conn (sql.to_json r) p.there
                (ap last_body e ∙ (last_body-table (x ∷ rs) ∙ ap json_of h)) in
            let filled : (s.cached_len == 0) ≡ false = ground (arith, n) in
            rw h (unfold last in rw (filled, read, db.json_reads r) refl)

    sequence_agrees : (n : ℕ) → get_by_sequence sql s n ≡ Store.get_by_sequence log n
    unfolding get_by_sequence Store.get_by_sequence
    sequence_agrees n = elim (Bool-cases (leb n i64_max)) [
      | inl h ↦
          rw
            (
              h,
              db.finds_sequence n s.conn p.there,
              p.same_rows,
              body_at-table 0 n n zero_digest log.receipts sound.chain (omega arith),
            )
            (decoded-json_of (nth log.receipts n))
      | inr h ↦ rw (h, nth-none log.receipts n (ground (arith, h))) refl
    ]

    id_agrees : (id : Digest) → get_by_id sql s id ≡ Store.get_by_id log id
    unfolding get_by_id Store.get_by_id
    id_agrees id = rw (db.finds_id id.bytes s.conn p.there, p.same_rows) found
      where
        found :
            decoded sql (body_with id.bytes (table log.receipts))
            ≡ nth_of log.receipts (position id log.by_id)
        found = elim (body_with-cases id log.receipts) [
          | inl (i, r, at, same, e) ↦
              let placed : position id log.by_id ≡ some i =
                subst (λ x. position x log.by_id ≡ some i) same (sound.index.complete i r at) in
              rw (e, placed, at, db.json_reads r) refl
          | inr (absent, e) ↦ elim (Option-cases (position id log.by_id)) [
            | inl q ↦ rw (e, q) refl
            | inr (i, q) ↦
                let (r, at, same) = sound.index.sound id i q in absurd (absent i r at same)
          ]
        ]

    chain_agrees : verify_chain sql lib s ≡ Store.verify_chain lib log
    unfolding verify_chain Store.verify_chain
    chain_agrees =
        rw (db.lists s.conn p.there, p.same_rows, verify_chain)
          (walk_rows-bodies 0 zero_digest log.receipts)

    -- Whatever is asked of the SQLite log of a sound log in memory with fewer than 2 ^ 63 receipts, the
    -- last receipt, the receipt of any sequence number or of any content id, or whether the chain
    -- verifies, the answer is the one of the log in memory.
    pub read_refines :
        (last sql s ≡ Store.last log.receipts)
        × ((n : ℕ) → get_by_sequence sql s n ≡ Store.get_by_sequence log n)
        × ((id : Digest) → get_by_id sql s id ≡ Store.get_by_id log id)
        × (verify_chain sql lib s ≡ Store.verify_chain lib log)
    read_refines = (last_agrees, sequence_agrees, id_agrees, chain_agrees)
