-- ===== src/Sqlite/Refines.antt =====
-- What the table of the SQLite log holds (crates/boardproof-store-sqlite/src/lib.rs).
use uniclaw.Prelude.{
  ℕ, zero, suc, ◌+◌, ◌≡◌, refl, ap, ◌∙◌, subst, ◌≢◌, inl, inr, false, List, [], ◌∷◌, ◌++◌, map,
  none, some, arith, length, ltb, Option-cases,
}
use uniclaw.Receipt.{Digest, Receipt}
use uniclaw.Receipt.Crypto.{Foreign, content_id}
use uniclaw.Kernel.{zero_digest}
use uniclaw.Store.{ReceiptLog, position, last_leaf, nth}
use uniclaw.Store.Verifies.{IsChain}
use uniclaw.Store.Lookup.{IsIndexed}
use uniclaw.Sqlite.{Engine, SqliteReceiptLog, unwrap_or, row_of}
use uniclaw.Sqlite.Storage.{Stores, insert_row, Unused}

module _ (sql : Engine) (db : Stores sql) (lib : Foreign) where
  -- A SQLite log whose tables are there and whose table and cache hold what a log in memory holds.
  pub record Represents (s : SqliteReceiptLog sql) (log : ReceiptLog) : Type 0 where
    pub there : db.tables s.conn
    pub same_issuer : s.issuer ≡ log.issuer
    pub same_rows : db.rows s.conn ≡ map (row_of sql lib) log.receipts
    pub counted : s.cached_len ≡ length log.receipts
    pub ended : unwrap_or zero_digest s.cached_last_leaf_hash ≡ last_leaf zero_digest log.receipts

  -- Every number in a chain from `i` is below its end, so a row with that number goes last.
  pub insert_row-last :
      (i : ℕ) (d : Digest) (rs : List Receipt) (r : Receipt)
      → IsChain lib i d rs
      → r.body.merkle_leaf.sequence ≡ i + length rs
      → insert_row (row_of sql lib r) (map (row_of sql lib) rs)
        ≡ map (row_of sql lib) (rs ++ r ∷ [])
  unfolding insert_row
  insert_row-last i d [] r c e = refl
  insert_row-last i d (x ∷ rs) r c e =
      let ih = insert_row-last (suc i) x.body.merkle_leaf.leaf_hash rs r c.3 (omega arith) in
      let later : ltb r.body.merkle_leaf.sequence x.body.merkle_leaf.sequence ≡ false =
        ground (arith, c.0) in
      rw (later, ih) refl

  -- An id that no receipt of the list has is unused in its rows.
  Unused-rows :
      (id : Digest) (rs : List Receipt)
      → ((i : ℕ) (r : Receipt) → nth rs i ≡ some r → content_id lib r ≢ id)
      → Unused id.bytes (map (row_of sql lib) rs)
  Unused-rows id [] h = tt
  Unused-rows id (x ∷ rs) h = (
    λ e. h 0 x refl (ap (λ b. let d : Digest = record { bytes = b } in d) e),
    Unused-rows id rs (λ i r e. h (suc i) r e),
  )

  Unused-nth :
      (id : Digest) (rs : List Receipt) (i : ℕ) (r : Receipt)
      → Unused id.bytes (map (row_of sql lib) rs)
      → nth rs i ≡ some r
      → content_id lib r ≢ id
  Unused-nth id [] i r u h = absurd (ground (arith, h))
  Unused-nth id (x ∷ rs) zero r u h =
      let same : x ≡ r = ground (arith, h) in
      λ e.
        u.0 (ap (λ (y : Receipt). (content_id lib y).bytes) same ∙ ap (λ (y : Digest). y.bytes) e)
  Unused-nth id (x ∷ rs) (suc i) r u h = Unused-nth id rs i r u.1 h

  -- An id is free in a sound log exactly where it is unused in the rows.
  pub position-Unused :
      (log : ReceiptLog) (id : Digest)
      → IsIndexed lib log
      → position id log.by_id ≡ none
      → Unused id.bytes (map (row_of sql lib) log.receipts)
  position-Unused log id ix h = Unused-rows id log.receipts λ i r e same.
      absurd
        (ground (arith, h, subst (λ x. position x log.by_id ≡ some i) same (ix.complete i r e)))

  pub Unused-position :
      (log : ReceiptLog) (id : Digest)
      → IsIndexed lib log
      → Unused id.bytes (map (row_of sql lib) log.receipts)
      → position id log.by_id ≡ none
  Unused-position log id ix u = elim (Option-cases (position id log.by_id)) [
    | inl e ↦ e
    | inr (i, e) ↦
        let (r, at, same) = ix.sound id i e in absurd (Unused-nth id log.receipts i r u at same)
  ]
