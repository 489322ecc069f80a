-- ===== src/Kernel/Approvals.antt =====
-- `handle_resolve_approval` of crates/boardproof-kernel/src/kernel.rs.
use uniclaw.Prelude.{
  true, List, [], ◌∷◌, ◌++◌, Option, none, some, Result, ok, err, is_ok, if◌then◌else◌, ite, text,
}
use uniclaw.Budget.{CapabilityLease, ResourceUse, BudgetError, try_charge}
use uniclaw.Receipt.{
  Digest, Action, Decision, RuleRef, ProvenanceEdge, Receipt, PublicKey-discrete, Decision-discrete,
  Action-discrete,
}
use uniclaw.Receipt
use uniclaw.Receipt.Crypto.{Foreign, verify, content_id}
use uniclaw.Kernel.{
  ApprovalDecision, approves, denies, Approval, KernelOutcome, OutcomeKind, approved_after_pending,
  denied_by_operator, denied_by_budget_at_approve_time, ApprovalRejection,
  pending_signature_invalid, pending_issuer_mismatch, not_a_pending_receipt, KernelError,
  resolve_approval_rejected, Kernel, hex32, mint, read_clock,
}
use uniclaw.Kernel.Proposals.{budget_rule}

-- The virtual rule that records the operator's refusal.
unfoldable pub operator_rule : RuleRef
operator_rule = record { id = text "$kernel/approval/denied_by_operator"; matched = true }

-- The local variables of the handler after the decision.
pub record Resolved : Type 0 where
  pub decision : Decision
  pub rules : List RuleRef
  pub lease_after : Option CapabilityLease
  pub kind : OutcomeKind

abbrev pub recharged : CapabilityLease × Result BudgetError (Unit {0}) → Resolved
recharged (l, ok _) = record {
  decision = Receipt.approved;
  rules = [];
  lease_after = some l;
  kind = approved_after_pending;
}
recharged (l, err e) = record {
  decision = Receipt.denied;
  rules = budget_rule e ∷ [];
  lease_after = some l;
  kind = denied_by_budget_at_approve_time e;
}

-- The budget is charged at the approval, and is left alone by a refusal.
unfoldable pub resolve : ApprovalDecision → Option CapabilityLease → ResourceUse → Resolved
resolve approves none charge = record {
  decision = Receipt.approved;
  rules = [];
  lease_after = none;
  kind = approved_after_pending;
}
resolve approves (some l) charge = recharged (try_charge l charge)
resolve denies lease charge = record {
  decision = Receipt.denied;
  rules = operator_rule ∷ [];
  lease_after = lease;
  kind = denied_by_operator;
}

-- The edge from the pending receipt to the decision.
unfoldable pub approval_edge : Digest → ProvenanceEdge
approval_edge id = record {
  from = text "receipt:" ++ hex32 id;
  to = text "decision";
  kind = text "approval_response";
}

module _ (lib : Foreign) where
  -- The authenticity gate, in the order of its tests.
  unfoldable pub approval_gate : Kernel → Approval → Result ApprovalRejection (Unit {0})
  approval_gate k a =
      if is_ok (verify lib a.pending_receipt)
      then ite (PublicKey-discrete a.pending_receipt.issuer k.signer.public_key)
          (ite (Decision-discrete a.pending_receipt.body.decision Receipt.pending)
            (ite (Action-discrete a.original_proposal.action a.pending_receipt.body.action) (ok tt)
              (err ApprovalRejection.action_mismatch))
            (err not_a_pending_receipt))
          (err pending_issuer_mismatch)
      else err pending_signature_invalid

  unfoldable pub resolve_and_mint : Kernel → Approval → KernelOutcome × Kernel
  resolve_and_mint k a =
      let (issued_at, k₁) = read_clock k in
      let p = a.original_proposal in
      let provenance = p.provenance ++ approval_edge (content_id lib a.pending_receipt) ∷ [] in
      let r = resolve a.response p.lease p.charge in
      let (receipt, k₂) = mint lib k₁ issued_at p.action r.decision r.rules provenance none in
      (record { receipt = receipt; lease_after = r.lease_after; kind = r.kind }, k₂)

  unfoldable pub handle_resolve_approval :
      Kernel → Approval → Result KernelError KernelOutcome × Kernel
  handle_resolve_approval k a = elim (approval_gate k a) [
    | err e ↦ (err (resolve_approval_rejected e), k)
    | ok _ ↦ let (outcome, k') = resolve_and_mint k a in (ok outcome, k')
  ]
