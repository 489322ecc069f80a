-- ===== src/Receipt/Crypto.antt =====
-- `content_id`, `canonicalize_for_schema` and the module `crypto` of
-- crates/boardproof-receipt/src/lib.rs. BLAKE3, Ed25519 and the derived serde encodings are foreign
-- code: the record `Foreign` stands for them.
use uniclaw.Prelude.{
  ℕ, ◌≤◌, ◌≡◌, Bool, true, List, ◌++◌, some, Text, text, decimal, Result, ok, err, ltb, leb,
  if◌then◌else◌, arith,
}
use uniclaw.Receipt.{
  Digest, Signature, PublicKey, Action, Decision, ReceiptBody, Receipt, receipt_format_version,
}
use uniclaw.Receipt.Json.{Value}
use uniclaw.Receipt.Canonical.{to_vec}

pub record Foreign : Type 1 where
  -- `blake3::hash`
  pub blake3 : List ℕ → Digest
  -- `serde_json::to_vec` of an action, a decision and a body
  pub action_json : Action → List ℕ
  pub decision_json : Decision → List ℕ
  pub body_json : ReceiptBody → List ℕ
  -- `serde_json::to_value` of a body. The receipt schema has no float, so it has a canonical form.
  pub body_value : ReceiptBody → Value
  pub body_canonical : (b : ReceiptBody) → (bytes : List ℕ) × (to_vec (body_value b) ≡ some bytes)
  -- ed25519_dalek: a secret key, its public key, signing, and the two steps of a verification
  pub SigningKey : Type 0
  pub verifying_key : SigningKey → PublicKey
  pub key_parses : PublicKey → Bool
  pub sign_bytes : SigningKey → List ℕ → Signature
  pub verify_bytes : PublicKey → List ℕ → Signature → Bool

-- What the program relies on: a key's own signature verifies under its public key.
pub record SignsSoundly (lib : Foreign) : Type 0 where
  pub own_key_parses : (k : lib.SigningKey) → lib.key_parses (lib.verifying_key k) ≡ true
  pub own_signature_verifies :
      (k : lib.SigningKey) (m : List ℕ)
      → lib.verify_bytes (lib.verifying_key k) m (lib.sign_bytes k m) ≡ true

pub data VerifyError : Type 0 where
  invalid_issuer_key signature_mismatch encoding_failed : VerifyError
  unsupported_version : ℕ → ℕ → VerifyError

-- Its `Display`
unfoldable pub verify_error_message : VerifyError → Text
verify_error_message invalid_issuer_key = text "invalid issuer public key"
verify_error_message signature_mismatch = text "signature did not verify"
verify_error_message (unsupported_version found expected) =
    text "unsupported receipt version "
    ++ (decimal found ++ (text " (verifier supports " ++ (decimal expected ++ text ")")))
verify_error_message encoding_failed = text "could not canonically encode receipt body"

module _ (lib : Foreign) where
  -- The encoder panics on a float only; `body_canonical` holds the bytes that it returns.
  unfoldable pub canonicalize_for_schema : ReceiptBody → List ℕ
  canonicalize_for_schema body =
      if leb body.schema_version 1 then lib.body_json body else (lib.body_canonical body).0

  unfoldable pub content_id : Receipt → Digest
  content_id r = lib.blake3 (canonicalize_for_schema r.body)

  -- `crypto::sign`
  unfoldable pub sign : ReceiptBody → lib.SigningKey → Receipt
  sign body key = record {
    version = receipt_format_version;
    body = body;
    issuer = lib.verifying_key key;
    signature = lib.sign_bytes key (canonicalize_for_schema body);
  }

  -- `crypto::verify`
  unfoldable pub verify : Receipt → Result VerifyError (Unit {0})
  verify r =
      if ltb receipt_format_version r.version
      then err (unsupported_version r.version receipt_format_version)
      else if lib.key_parses r.issuer
      then (if lib.verify_bytes r.issuer (canonicalize_for_schema r.body) r.signature
          then ok tt
          else err signature_mismatch)
      else err invalid_issuer_key

  -- What is signed with a key verifies.
  pub verify-sign :
      SignsSoundly lib
      → (body : ReceiptBody) (key : lib.SigningKey) → verify (sign body key) ≡ ok tt
  unfolding verify sign
  verify-sign sound body key = ground (
    arith,
    sound.own_key_parses key,
    sound.own_signature_verifies key (canonicalize_for_schema body),
  )

  -- From version 2 on, what is signed and addressed is the canonical form.
  pub canonicalize_for_schema-eq-to_vec :
      (body : ReceiptBody)
      → 2 ≤ body.schema_version
      → to_vec (lib.body_value body) ≡ some (canonicalize_for_schema body)
  unfolding canonicalize_for_schema
  canonicalize_for_schema-eq-to_vec body h = ground (arith, (lib.body_canonical body).1)
