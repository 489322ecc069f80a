-- ===== src/Receipt.antt =====
-- crates/boardproof-receipt/src/lib.rs: the wire format of a receipt.
pub mod Hex
pub mod Json
pub mod Canonical
pub mod Crypto
use uniclaw.Prelude.{ℕ, Bool, List, Option, Text, ℕ_discrete}

-- `RECEIPT_FORMAT_VERSION`
abbrev pub receipt_format_version : ℕ
receipt_format_version = 2

-- A digest: 32 bytes.
pub record Digest : Type 0 where
  pub bytes : List ℕ

-- A signature: 64 bytes.
pub record Signature : Type 0 where
  pub bytes : List ℕ

-- A public key: 32 bytes.
pub record PublicKey : Type 0 where
  pub bytes : List ℕ

pub record Action : Type 0 where
  pub kind : Text
  pub target : Text
  pub input_hash : Digest

pub data Decision : Type 0 where
  allowed denied approved pending : Decision

pub record RuleRef : Type 0 where
  pub id : Text
  pub matched : Bool

pub record ProvenanceEdge : Type 0 where
  pub from : Text
  pub to : Text
  pub kind : Text

pub record RuleMatch : Type 0 where
  pub rule_id : Text
  pub count : ℕ

pub record RedactionReport : Type 0 where
  pub redacted_output_hash : Digest
  pub matches : List RuleMatch
  pub stack_hash : Digest

pub record MerkleLeaf : Type 0 where
  pub sequence : ℕ
  pub leaf_hash : Digest
  pub prev_hash : Digest

pub record ReceiptBody : Type 0 where
  pub schema_version : ℕ
  pub issued_at : Text
  pub action : Action
  pub decision : Decision
  pub constitution_rules : List RuleRef
  pub provenance : List ProvenanceEdge
  pub redactor_stack_hash : Option Digest
  pub key_id : Option Text
  pub merkle_leaf : MerkleLeaf

pub record Receipt : Type 0 where
  pub version : ℕ
  pub body : ReceiptBody
  pub issuer : PublicKey
  pub signature : Signature

-- The derived `PartialEq` instances.
unfoldable pub Digest-discrete : Discrete Digest
unfolding ℕ_discrete
Digest-discrete = hlevel ℕ_discrete

unfoldable pub PublicKey-discrete : Discrete PublicKey
unfolding ℕ_discrete
PublicKey-discrete = hlevel ℕ_discrete

unfoldable pub Decision-discrete : Discrete Decision
Decision-discrete = hlevel

unfoldable pub Action-discrete : Discrete Action
unfolding ℕ_discrete Digest-discrete
Action-discrete = hlevel (ℕ_discrete, Digest-discrete)
