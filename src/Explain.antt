-- ===== src/Explain.antt =====
-- crates/boardproof-explain/src/lib.rs: what a receipt, read by itself, says of its decision.
pub mod Render
pub mod Agreement
use mathlib.Core.List.{reverse}
use uniclaw.Prelude.{
  ℕ, Bool, true, false, ◌&&◌, List, [], ◌∷◌, ◌++◌, map, Option, none, some, ok, err, if◌then◌else◌,
  ite, ◌==◌, length, Text, Text-discrete, text, strip_prefix, starts_with, Result,
}
use uniclaw.Budget.{BudgetError, from_short_name, budget_message}
use uniclaw.Receipt.{Action, Decision, MerkleLeaf, ProvenanceEdge, Receipt, RuleRef}
use uniclaw.Receipt
use uniclaw.Receipt.Crypto.{Foreign, VerifyError, verify, verify_error_message, content_id}
use uniclaw.Receipt.Hex.{to_hex_bytes}

pub data SignatureStatus : Type 0 where
  verified : SignatureStatus
  failed : Text → SignatureStatus

pub record ActionInfo : Type 0 where
  pub kind : Text
  pub target : Text
  pub input_hash : Text

-- `ActionInfo::from_action`; `hex` writes two digits for a byte, as `Digest::to_hex` does.
abbrev pub from_action : Action → ActionInfo
from_action a = record {
  kind = a.kind;
  target = a.target;
  input_hash = to_hex_bytes a.input_hash.bytes;
}

pub record BudgetReasonInfo : Type 0 where
  pub short_name : Text
  pub display : Text

pub record ApprovalReasonInfo : Type 0 where
  pub short_name : Text
  pub display : Text

pub data RuleKind : Type 0 where
  constitution : RuleKind
  kernel_budget : BudgetReasonInfo → RuleKind
  kernel_approval : ApprovalReasonInfo → RuleKind
  unknown_kernel : RuleKind

pub record RuleEntry : Type 0 where
  pub id : Text
  pub matched : Bool
  pub kind : RuleKind

pub data Verdict : Type 0 where
  allowed : ℕ → Verdict
  denied_by_constitution : Text → Verdict
  denied_by_budget : BudgetReasonInfo → Verdict
  denied_as_proposed : Verdict
  approved : Verdict
  pending : ℕ → Verdict
  denied_by_operator : Verdict

pub record MerkleInfo : Type 0 where
  pub sequence : ℕ
  pub leaf_hash : Text
  pub prev_hash : Text
  pub is_genesis : Bool

abbrev all_zero : List ℕ → Bool
all_zero [] = true
all_zero (b ∷ bs) = b == 0 && all_zero bs

-- `MerkleInfo::from_leaf`
abbrev pub from_leaf : MerkleLeaf → MerkleInfo
from_leaf l = record {
  sequence = l.sequence;
  leaf_hash = to_hex_bytes l.leaf_hash.bytes;
  prev_hash = to_hex_bytes l.prev_hash.bytes;
  is_genesis = all_zero l.prev_hash.bytes;
}

pub record ProvenanceInfo : Type 0 where
  pub from : Text
  pub to : Text
  pub kind : Text

abbrev pub from_edge : ProvenanceEdge → ProvenanceInfo
from_edge e = record { from = e.from; to = e.to; kind = e.kind }

pub record Explanation : Type 0 where
  pub receipt_id : Text
  pub canonical_url : Text
  pub issuer : Text
  pub issued_at : Text
  pub signature : SignatureStatus
  pub action : ActionInfo
  pub decision : Decision
  pub rules : List RuleEntry
  pub verdict : Verdict
  pub merkle : MerkleInfo
  pub provenance : List ProvenanceInfo

abbrev pub budget_prefix : Text
budget_prefix = text "$kernel/budget/"

abbrev pub approval_prefix : Text
approval_prefix = text "$kernel/approval/"

abbrev pub by_operator : Text
by_operator = text "denied_by_operator"

abbrev displayed : Option BudgetError → Text
displayed none = []
displayed (some e) = budget_message e

unfoldable pub budget_reason : Text → BudgetReasonInfo
budget_reason rest = record { short_name = rest; display = displayed (from_short_name rest) }

unfoldable pub approval_reason : Text → ApprovalReasonInfo
approval_reason rest = record {
  short_name = rest;
  display = ite (Text-discrete rest by_operator) (text "operator denied this action") [];
}

-- The tests of `classify_rule`, in their order.
abbrev pub unprefixed : Bool → RuleKind
unprefixed true = unknown_kernel
unprefixed false = constitution

abbrev pub not_budget : Text → Option Text → RuleKind
not_budget id (some rest) = kernel_approval (approval_reason rest)
not_budget id none = unprefixed (starts_with (text "$") id)

abbrev pub kind_from : Text → Option Text → RuleKind
kind_from id (some rest) = kernel_budget (budget_reason rest)
kind_from id none = not_budget id (strip_prefix approval_prefix id)

unfoldable pub kind_of : Text → RuleKind
kind_of id = kind_from id (strip_prefix budget_prefix id)

unfoldable pub classify_rule : RuleRef → RuleEntry
classify_rule r = record { id = r.id; matched = r.matched; kind = kind_of r.id }

-- The three loops over the rules of a denial: each returns at its first hit.
abbrev is_operator : RuleKind → Bool
is_operator (kernel_approval reason) = ite (Text-discrete reason.short_name by_operator) true false
is_operator constitution = false
is_operator (kernel_budget reason) = false
is_operator unknown_kernel = false

unfoldable pub operator_denied : List RuleEntry → Bool
operator_denied [] = false
operator_denied (r ∷ rs) = if r.matched && is_operator r.kind then true else operator_denied rs

abbrev reason_of : RuleKind → Option BudgetReasonInfo
reason_of (kernel_budget reason) = some reason
reason_of constitution = none
reason_of (kernel_approval reason) = none
reason_of unknown_kernel = none

abbrev or_later : Option BudgetReasonInfo → Option BudgetReasonInfo → Option BudgetReasonInfo
or_later none later = later
or_later (some reason) later = some reason

unfoldable pub budget_hit : List RuleEntry → Option BudgetReasonInfo
budget_hit [] = none
budget_hit (r ∷ rs) = or_later (if r.matched then reason_of r.kind else none) (budget_hit rs)

abbrev is_authored : RuleKind → Bool
is_authored constitution = true
is_authored (kernel_budget reason) = false
is_authored (kernel_approval reason) = false
is_authored unknown_kernel = false

unfoldable pub constitution_hit : List RuleEntry → Option Text
constitution_hit [] = none
constitution_hit (r ∷ rs) =
    if r.matched && is_authored r.kind then some r.id else constitution_hit rs

abbrev pub by_rule : Option Text → Verdict
by_rule none = denied_as_proposed
by_rule (some id) = denied_by_constitution id

abbrev pub by_budget : Option BudgetReasonInfo → Option Text → Verdict
by_budget (some reason) hit = denied_by_budget reason
by_budget none hit = by_rule hit

-- The budget loop runs over the rules from the last.
unfoldable pub denial : List RuleEntry → Verdict
denial rules =
    if operator_denied rules
    then denied_by_operator
    else by_budget (budget_hit (reverse rules)) (constitution_hit rules)

unfoldable pub compute_verdict : Decision → List RuleEntry → Verdict
compute_verdict Receipt.allowed rules = allowed (length rules)
compute_verdict Receipt.denied rules = denial rules
compute_verdict Receipt.approved rules = approved
compute_verdict Receipt.pending rules = pending (length rules)

abbrev signature_status : Result VerifyError (Unit {0}) → SignatureStatus
signature_status (ok _) = verified
signature_status (err e) = failed (verify_error_message e)

module _ (lib : Foreign) where
  unfoldable pub explain : Receipt → Explanation
  explain receipt =
      let body = receipt.body in
      let rules = map classify_rule body.constitution_rules in
      let receipt_id = to_hex_bytes (content_id lib receipt).bytes in
      record {
        receipt_id = receipt_id;
        canonical_url = text "boardproof://receipt/" ++ receipt_id;
        issuer = to_hex_bytes receipt.issuer.bytes;
        issued_at = body.issued_at;
        signature = signature_status (verify lib receipt);
        action = from_action body.action;
        decision = body.decision;
        rules = rules;
        verdict = compute_verdict body.decision rules;
        merkle = from_leaf body.merkle_leaf;
        provenance = map from_edge body.provenance;
      }
