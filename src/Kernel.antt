-- ===== src/Kernel.antt =====
-- The types of crates/boardproof-kernel/src (state.rs, event.rs, outcome.rs, traits.rs, leaf.rs) and
-- the minting of receipts (kernel.rs).
pub mod Proposals
pub mod Messages
pub mod Approvals
pub mod Reports
pub mod Executions
pub mod Machine
use uniclaw.Prelude.{
  ℕ, ◌+◌, ◌/◌, ◌%◌, ◌^◌, ◌++◌, zero, suc, Bool, List, [], ◌∷◌, Option, none, some, Result, Text,
  text, leb, if◌then◌else◌, length,
}
use uniclaw.Budget.{CapabilityLease, ResourceUse, zero_use, BudgetError, saturating_add, u64_max}
use uniclaw.Constitution.{Constitution}
use uniclaw.Receipt.{
  Digest, PublicKey, Action, Decision, RuleRef, ProvenanceEdge, RedactionReport, MerkleLeaf,
  ReceiptBody, Receipt, receipt_format_version,
}
use uniclaw.Receipt.Crypto.{Foreign}
use uniclaw.Receipt.Hex.{to_hex_bytes}
use uniclaw.Sleep.{LightSleepReport, DeepSleepReport}
use uniclaw.Tools.{ToolError, ToolOutput}

-- state.rs
pub record KernelState : Type 0 where
  pub sequence : ℕ
  pub prev_hash : Digest

abbrev pub zeros : ℕ → List ℕ
zeros zero = []
zeros (suc n) = 0 ∷ zeros n

-- `Digest([0u8; 32])`
abbrev pub zero_digest : Digest
zero_digest = record { bytes = zeros 32 }

abbrev pub genesis : KernelState
genesis = record { sequence = 0; prev_hash = zero_digest }

unfoldable pub advance : KernelState → Digest → KernelState
advance s new_leaf = record { sequence = saturating_add u64_max s.sequence 1; prev_hash = new_leaf }

-- approval/src/lib.rs
pub data ApprovalDecision : Type 0 where
  approves denies : ApprovalDecision

-- event.rs
pub record Proposal : Type 0 where
  pub action : Action
  pub decision : Decision
  pub constitution_rules : List RuleRef
  pub provenance : List ProvenanceEdge
  pub lease : Option CapabilityLease
  pub charge : ResourceUse

-- `Proposal::unbounded` and `Proposal::with_lease`
abbrev pub unbounded : Action → Decision → List RuleRef → List ProvenanceEdge → Proposal
unbounded action decision rules provenance = record {
  action = action;
  decision = decision;
  constitution_rules = rules;
  provenance = provenance;
  lease = none;
  charge = zero_use;
}

abbrev pub with_lease :
    Action
    → Decision
    → List RuleRef
    → List ProvenanceEdge
    → CapabilityLease
    → ResourceUse
    → Proposal
with_lease action decision rules provenance lease charge = record {
  action = action;
  decision = decision;
  constitution_rules = rules;
  provenance = provenance;
  lease = some lease;
  charge = charge;
}

pub record ToolExecution : Type 0 where
  pub allowed_receipt : Receipt
  pub original_proposal : Proposal
  pub result : Result ToolError ToolOutput
  pub redaction : Option RedactionReport

pub record Approval : Type 0 where
  pub pending_receipt : Receipt
  pub original_proposal : Proposal
  pub response : ApprovalDecision

pub data KernelEvent : Type 0 where
  evaluate_proposal : Proposal → KernelEvent
  resolve_approval : Approval → KernelEvent
  run_light_sleep : LightSleepReport → KernelEvent
  run_deep_sleep : DeepSleepReport → KernelEvent
  record_tool_execution : ToolExecution → KernelEvent

-- outcome.rs
pub data OutcomeKind : Type 0 where
  allowed denied_by_constitution allowed_as_denied pending_approval : OutcomeKind
  approved_after_pending denied_by_operator : OutcomeKind
  denied_by_budget denied_by_budget_at_approve_time : BudgetError → OutcomeKind
  light_sleep_completed deep_sleep_completed : ℕ → OutcomeKind
  tool_executed_allowed : Digest → Digest → OutcomeKind
  tool_executed_failed : Digest → OutcomeKind

pub record KernelOutcome : Type 0 where
  pub receipt : Receipt
  pub lease_after : Option CapabilityLease
  pub kind : OutcomeKind

pub data ApprovalRejection : Type 0 where
  pending_signature_invalid pending_issuer_mismatch not_a_pending_receipt : ApprovalRejection
  action_mismatch : ApprovalRejection

pub data ToolExecutionRejection : Type 0 where
  allowed_signature_invalid allowed_issuer_mismatch : ToolExecutionRejection
  not_an_allowed_receipt not_a_tool_action action_mismatch : ToolExecutionRejection

pub data KernelError : Type 0 where
  resolve_approval_rejected : ApprovalRejection → KernelError
  record_tool_execution_rejected : ToolExecutionRejection → KernelError

-- traits.rs. A signer is given; its receipts are what it makes of bodies.
pub record Signer : Type 0 where
  pub sign : ReceiptBody → Receipt
  pub public_key : PublicKey
  pub key_id : Option Text

-- A clock answers each reading; `now n` is its answer to the reading number n.
pub record Clock : Type 0 where
  pub now : ℕ → Text

-- kernel.rs: the fields of `Kernel`, with the number of readings that the clock has answered.
pub record Kernel : Type 0 where
  pub state : KernelState
  pub signer : Signer
  pub clock : Clock
  pub readings : ℕ
  pub constitution : Constitution

-- `Kernel::resume`
abbrev pub resume : KernelState → Signer → Clock → Constitution → Kernel
resume state signer clock constitution = record {
  state = state;
  signer = signer;
  clock = clock;
  readings = 0;
  constitution = constitution;
}

-- `Kernel::new`
abbrev pub new_kernel : Signer → Clock → Constitution → Kernel
new_kernel = resume genesis

-- `u64::to_le_bytes`
abbrev pub le_bytes : ℕ → ℕ → List ℕ
le_bytes zero n = []
le_bytes (suc w) n = n % 256 ∷ le_bytes w (n / 256)

-- `hex32`: two digits for a byte, as `Digest::to_hex` has them.
abbrev pub hex32 : Digest → Text
hex32 d = to_hex_bytes d.bytes

module _ (lib : Foreign) where
  -- `compute_leaf_hash` of leaf.rs
  unfoldable pub compute_leaf_hash : ℕ → Text → Action → Decision → Digest → Digest
  compute_leaf_hash sequence issued_at action decision prev_hash = lib.blake3 (
      le_bytes 8 sequence
      ++ (issued_at ++ (lib.action_json action ++ (lib.decision_json decision ++ prev_hash.bytes))))

  -- The body that `mint` hands to the signer.
  unfoldable pub minted_body :
      Kernel
      → Text
      → Action
      → Decision
      → List RuleRef
      → List ProvenanceEdge
      → Option Digest
      → ReceiptBody
  minted_body k issued_at action decision rules provenance stack_hash = record {
    schema_version = receipt_format_version;
    issued_at = issued_at;
    action = action;
    decision = decision;
    constitution_rules = rules;
    provenance = provenance;
    redactor_stack_hash = stack_hash;
    key_id = k.signer.key_id;
    merkle_leaf = record {
      sequence = k.state.sequence;
      leaf_hash = compute_leaf_hash k.state.sequence issued_at action decision k.state.prev_hash;
      prev_hash = k.state.prev_hash;
    };
  }

  -- `Kernel::mint`: the receipt is signed and the chain moves on.
  unfoldable pub mint :
      Kernel
      → Text
      → Action
      → Decision
      → List RuleRef
      → List ProvenanceEdge
      → Option Digest
      → Receipt × Kernel
  unfolding minted_body advance
  mint k issued_at action decision rules provenance stack_hash =
      let body = minted_body k issued_at action decision rules provenance stack_hash in
      (k.signer.sign body, record k { state = advance k.state body.merkle_leaf.leaf_hash })

-- `self.clock.now_iso8601()`
unfoldable pub read_clock : Kernel → Text × Kernel
read_clock k = (k.clock.now k.readings, record k { readings = k.readings + 1 })
