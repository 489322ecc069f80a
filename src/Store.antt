-- ===== src/Store.antt =====
-- crates/boardproof-store/src/log.rs and memory.rs: the issuer-pinned receipt log in memory.
pub mod Verifies
pub mod Messages
pub mod Lookup
use uniclaw.Prelude.{
  ℕ, zero, suc, ◌+◌, Bool, true, false, List, [], ◌∷◌, ◌++◌, Option, none, some, Result, ok, err,
  is_ok, if◌then◌else◌, ite, ◌==◌, length,
}
use uniclaw.Receipt.{
  Digest, PublicKey, Receipt, receipt_format_version, Digest-discrete, PublicKey-discrete,
}
use uniclaw.Receipt.Crypto.{Foreign, verify, content_id}
use uniclaw.Kernel.{zero_digest}

pub data AppendError : Type 0 where
  out_of_order : ℕ → ℕ → AppendError
  chain_broken : Digest → Digest → AppendError
  signature_invalid : AppendError
  issuer_mismatch : PublicKey → PublicKey → AppendError
  unsupported_version : ℕ → ℕ → AppendError
  duplicate_id : Digest → AppendError

pub data VerifyChainError : Type 0 where
  sequence_gap_at : ℕ → ℕ → VerifyChainError
  broken_at : ℕ → Digest → Digest → VerifyChainError
  signature_invalid_at : ℕ → VerifyChainError

-- `InMemoryReceiptLog`: the receipts in order, and the position of each content id.
pub record ReceiptLog : Type 0 where
  pub issuer : PublicKey
  pub receipts : List Receipt
  pub by_id : List (Digest × ℕ)

-- `InMemoryReceiptLog::new`
abbrev pub new_log : PublicKey → ReceiptLog
new_log issuer = record { issuer = issuer; receipts = []; by_id = [] }

-- `BTreeMap::get`
unfoldable pub position : Digest → List (Digest × ℕ) → Option ℕ
position id [] = none
position id ((d, n) ∷ rest) = ite (Digest-discrete d id) (some n) (position id rest)

abbrev pub contains_key : Option ℕ → Bool
contains_key none = false
contains_key (some n) = true

-- `receipts.last().map_or(Digest([0u8; 32]), |r| r.body.merkle_leaf.leaf_hash)`
unfoldable pub last_leaf : Digest → List Receipt → Digest
last_leaf d [] = d
last_leaf d (r ∷ rs) = last_leaf r.body.merkle_leaf.leaf_hash rs

unfoldable pub last : List Receipt → Option Receipt
last [] = none
last (r ∷ []) = some r
last (r ∷ s ∷ rs) = last (s ∷ rs)

abbrev pub nth : List Receipt → ℕ → Option Receipt
nth [] i = none
nth (r ∷ rs) zero = some r
nth (r ∷ rs) (suc i) = nth rs i

-- A `usize` holds every u64.
unfoldable pub get_by_sequence : ReceiptLog → ℕ → Option Receipt
get_by_sequence log sequence = nth log.receipts sequence

abbrev pub nth_of : List Receipt → Option ℕ → Option Receipt
nth_of rs none = none
nth_of rs (some i) = nth rs i

unfoldable pub get_by_id : ReceiptLog → Digest → Option Receipt
get_by_id log id = nth_of log.receipts (position id log.by_id)

module _ (lib : Foreign) where
  -- The checks of `append`, in their order.
  unfoldable pub check : ReceiptLog → Receipt → Result AppendError (Unit {0})
  unfolding last_leaf
  check log r =
      if r.version == receipt_format_version
      then ite (PublicKey-discrete r.issuer log.issuer)
          (if r.body.merkle_leaf.sequence == length log.receipts
            then ite
                (Digest-discrete r.body.merkle_leaf.prev_hash (last_leaf zero_digest log.receipts))
                (if is_ok (verify lib r)
                  then (if contains_key (position (content_id lib r) log.by_id)
                      then err (duplicate_id (content_id lib r))
                      else ok tt)
                  else err signature_invalid)
                (err
                  (chain_broken (last_leaf zero_digest log.receipts) r.body.merkle_leaf.prev_hash))
            else err (out_of_order (length log.receipts) r.body.merkle_leaf.sequence))
          (err (issuer_mismatch log.issuer r.issuer))
      else err (unsupported_version r.version receipt_format_version)

  -- The log with the receipt pushed and its id entered.
  unfoldable pub push : ReceiptLog → Receipt → ReceiptLog
  push log r = record log {
    receipts = log.receipts ++ r ∷ [];
    by_id = (content_id lib r, length log.receipts) ∷ log.by_id;
  }

  unfoldable pub append : ReceiptLog → Receipt → Result AppendError (Unit {0}) × ReceiptLog
  append log r = elim (check log r) [ ok _ ↦ (ok tt, push log r) | err e ↦ (err e, log) ]

  -- The loop of `verify_chain`, from an index and the hash that is expected there.
  unfoldable pub walk : ℕ → Digest → List Receipt → Result VerifyChainError (Unit {0})
  walk i expected [] = ok tt
  walk i expected (r ∷ rs) =
      let leaf = r.body.merkle_leaf in
      let rest = walk (suc i) leaf.leaf_hash rs in
      if leaf.sequence == i
      then ite (Digest-discrete leaf.prev_hash expected)
          (if is_ok (verify lib r) then rest else err (signature_invalid_at leaf.sequence))
          (err (broken_at leaf.sequence expected leaf.prev_hash))
      else err (sequence_gap_at i leaf.sequence)

  unfoldable pub verify_chain : ReceiptLog → Result VerifyChainError (Unit {0})
  verify_chain log = walk 0 zero_digest log.receipts
