-- ===== src/Store/Verifies.antt =====
-- The log holds a verified chain (crates/boardproof-store/src/memory.rs).
use uniclaw.Prelude.{
  ℕ, suc, ◌+◌, ◌≡◌, refl, ◌↔◌, ◌⊎◌, inl, inr, true, List, [], ◌∷◌, ◌++◌, none, ok, err, is_ok,
  arith, length, Result-cases, ok_of_is_ok,
}
use uniclaw.Receipt.{Digest, Receipt, receipt_format_version}
use uniclaw.Receipt.Crypto.{Foreign, verify, content_id}
use uniclaw.Kernel.{zero_digest}
use uniclaw.Store.{
  ReceiptLog, AppendError, position, last_leaf, check, push, append, walk, verify_chain,
}

pub last_leaf-append :
    (d : Digest) (rs : List Receipt) (r : Receipt)
    → last_leaf d (rs ++ r ∷ []) ≡ r.body.merkle_leaf.leaf_hash
unfolding last_leaf
last_leaf-append d [] r = refl
last_leaf-append d (x ∷ rs) r = last_leaf-append _ rs r

module _ (lib : Foreign) where
  -- Each receipt has the number of its place, the leaf hash of the receipt before it, and a
  -- signature that verifies.
  abbrev pub IsChain : ℕ → Digest → List Receipt → Type 0
  IsChain i expected [] = Unit
  IsChain i expected (r ∷ rs) =
      (r.body.merkle_leaf.sequence ≡ i)
      × (r.body.merkle_leaf.prev_hash ≡ expected)
      × (verify lib r ≡ ok tt)
      × IsChain (suc i) r.body.merkle_leaf.leaf_hash rs

  -- `verify_chain` accepts exactly the chains from sequence 0 and the zero hash.
  walk-ok_iff :
      (i : ℕ) (d : Digest) (rs : List Receipt) → (walk lib i d rs ≡ ok tt) ↔ IsChain i d rs
  unfolding walk
  walk-ok_iff i d [] = (λ h. tt, λ h. refl)
  walk-ok_iff i d (r ∷ rs) =
      let ih = walk-ok_iff (suc i) r.body.merkle_leaf.leaf_hash rs in
      (
        λ h.
            let signed : is_ok (verify lib r) ≡ true = ground arith in
            let later : walk lib (suc i) r.body.merkle_leaf.leaf_hash rs ≡ ok tt = ground arith in
            (ground arith, ground arith, ok_of_is_ok (verify lib r) signed, ih.0 later),
        λ h. ground (arith, ih.1 h.3),
      )

  pub IsChain-snoc :
      (i : ℕ) (d : Digest) (rs : List Receipt) (r : Receipt)
      → IsChain i d rs
      → r.body.merkle_leaf.sequence ≡ i + length rs
      → r.body.merkle_leaf.prev_hash ≡ last_leaf d rs
      → verify lib r ≡ ok tt
      → IsChain i d (rs ++ r ∷ [])
  unfolding last_leaf
  IsChain-snoc i d [] r c s p v = (omega arith, p, v, tt)
  IsChain-snoc i d (x ∷ rs) r c s p v =
      (c.0, c.1, c.2, IsChain-snoc (suc i) _ rs r c.3 (omega arith) p v)

  -- `verify_chain` accepts a log exactly if its receipts are numbered from 0, each holds the leaf
  -- hash of the one before it, the first the zero hash, and every signature verifies.
  pub verify_chain-ok_iff :
      (log : ReceiptLog) → (verify_chain lib log ≡ ok tt) ↔ IsChain 0 zero_digest log.receipts
  unfolding verify_chain
  verify_chain-ok_iff log = walk-ok_iff 0 zero_digest log.receipts

  -- What a receipt must be for the log to take it.
  pub record Extends (log : ReceiptLog) (r : Receipt) : Type 0 where
    pub known_version : r.version ≡ receipt_format_version
    pub pinned : r.issuer ≡ log.issuer
    pub next_number : r.body.merkle_leaf.sequence ≡ length log.receipts
    pub chained : r.body.merkle_leaf.prev_hash ≡ last_leaf zero_digest log.receipts
    pub signed : verify lib r ≡ ok tt
    pub fresh : position (content_id lib r) log.by_id ≡ none

  check-Extends : (log : ReceiptLog) (r : Receipt) → check lib log r ≡ ok tt → Extends log r
  unfolding check
  check-Extends log r h =
      let good : is_ok (verify lib r) ≡ true = ground arith in
      record {
        known_version = ground arith;
        pinned = ground arith;
        next_number = ground arith;
        chained = ground arith;
        signed = ok_of_is_ok (verify lib r) good;
        fresh = ground arith;
      }

  pub Extends-check : (log : ReceiptLog) (r : Receipt) → Extends log r → check lib log r ≡ ok tt
  unfolding check
  Extends-check log r x = ground (arith, x.signed)

  -- An append either takes a receipt that extends the chain, or fails and leaves the log alone.
  pub append-cases :
      (log : ReceiptLog) (r : Receipt)
      → (Extends log r × (append lib log r ≡ (ok tt, push lib log r)))
        ⊎ ((e : AppendError) × (append lib log r ≡ (err e, log)))
  unfolding append
  append-cases log r = elim (Result-cases (check lib log r)) [
    | inl (_, h) ↦ inl (check-Extends log r h, rw (h, append))
    | inr (e, h) ↦ inr (e, rw (h, append))
  ]
