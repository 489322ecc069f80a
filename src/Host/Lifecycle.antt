-- ===== src/Host/Lifecycle.antt =====
-- What follows a proposal: the receipt that it yields is accepted for the next step
-- (crates/boardproof-kernel/src/kernel.rs).
use uniclaw.Prelude.{
  ◌≡◌, refl, sym, ap, ◌∙◌, inl, inr, Bool, true, Option, none, some, List, Result, ok, arith, text,
  starts_with,
}
use uniclaw.Budget.{BudgetError, CapabilityLease, ResourceUse}
use uniclaw.Receipt.{Decision, Receipt, ReceiptBody, RedactionReport, RuleRef}
use uniclaw.Receipt
use uniclaw.Receipt.Crypto.{Foreign, verify}
use uniclaw.Tools.{ToolError, ToolOutput}
use uniclaw.Kernel.{
  Kernel, Proposal, Approval, ApprovalDecision, ToolExecution, allowed, pending_approval,
  resolve_approval, record_tool_execution, minted_body, mint, read_clock,
}
use uniclaw.Kernel.Proposals.{
  judge, budget_step, proposal_kind, handle_proposal, or_else, overrides, sets_pending,
}
use uniclaw.Kernel.Approvals.{resolve_and_mint}
use uniclaw.Kernel.Executions.{execute_and_mint}
use uniclaw.Kernel.Machine.{handle}
use uniclaw.Kernel.Machine.Gates.{resolve_gated, execution_gated}
use uniclaw.Kernel.Machine.Authority.{outcome, minted}
use uniclaw.Host.Tracking.{IsHonest}

pending_decision :
    (e : Option BudgetError) (d : Decision) (b : Bool)
    → proposal_kind e d b ≡ pending_approval
    → d ≡ Receipt.pending
unfolding proposal_kind
pending_decision (some e) d b h = absurd (ground arith)
pending_decision none Receipt.pending b h = refl
pending_decision none Receipt.allowed b h = absurd (ground arith)
pending_decision none Receipt.denied b h = absurd (ground arith)
pending_decision none Receipt.approved b h = absurd (ground arith)

allowed_decision :
    (o : Option Decision) (d : Decision) (rules : List RuleRef) (lease : Option CapabilityLease)
    (charge : ResourceUse)
    → d ≡ Receipt.allowed
    → let j = budget_step (or_else o d) (sets_pending o) rules lease charge in
      proposal_kind j.budget_error j.decision (overrides o) ≡ allowed → j.decision ≡ Receipt.allowed
unfolding budget_step proposal_kind
allowed_decision none d rules lease charge e h = ground (arith, e)
allowed_decision (some o) d rules lease charge e h = ground arith

module _ (lib : Foreign) (k k' : Kernel) (honest : IsHonest lib k.signer)
    (same : k'.signer.public_key ≡ k.signer.public_key) (p : Proposal) where
  signed-eq : (outcome lib k p).receipt ≡ k.signer.sign (minted lib k p)
  unfolding handle_proposal mint read_clock
  signed-eq = refl

  -- The operator's answer to the receipt of the proposal.
  abbrev pub answer : ApprovalDecision → Approval
  answer response = record {
    pending_receipt = (outcome lib k p).receipt;
    original_proposal = p;
    response = response;
  }

  -- What a tool did on the receipt of the proposal.
  abbrev pub report : Result ToolError ToolOutput → Option RedactionReport → ToolExecution
  report result redaction = record {
    allowed_receipt = (outcome lib k p).receipt;
    original_proposal = p;
    result = result;
    redaction = redaction;
  }

  body-eq : (outcome lib k p).receipt.body ≡ minted lib k p
  body-eq = ap (λ (r : Receipt). r.body) signed-eq ∙ honest.body_kept (minted lib k p)

  verified-eq : verify lib (outcome lib k p).receipt ≡ ok tt
  verified-eq = ap (verify lib) signed-eq ∙ honest.valid (minted lib k p)

  issuer-eq : (outcome lib k p).receipt.issuer ≡ k'.signer.public_key
  issuer-eq =
      ap (λ (r : Receipt). r.issuer) signed-eq ∙ (honest.own_key (minted lib k p) ∙ sym same)

  action-eq : p.action ≡ (outcome lib k p).receipt.body.action
  unfolding minted_body
  action-eq = sym (ap (λ (b : ReceiptBody). b.action) body-eq)

  decision-eq : (outcome lib k p).receipt.body.decision ≡ (judge k p).decision
  unfolding minted_body
  decision-eq = ap (λ (b : ReceiptBody). b.decision) body-eq

  -- A proposal that must wait can be answered: whatever the operator says, by the kernel in any later
  -- state, the receipt of the proposal is accepted and a resolution is minted, where the signer is
  -- honest and its key unchanged.
  pub pending_resolves :
      (response : ApprovalDecision)
      → (outcome lib k p).kind ≡ pending_approval
      → handle lib k' (resolve_approval (answer response)) ≡ (
        ok (resolve_and_mint lib k' (answer response)).0,
        (resolve_and_mint lib k' (answer response)).1,
      )
  unfolding handle_proposal
  pending_resolves response h = elim (resolve_gated lib k' (answer response)) [
    | inl (_, e) ↦ e
    | inr (refused, _, _) ↦ absurd (
        refused (record {
          verified = verified-eq;
          ours = issuer-eq;
          is_pending = decision-eq ∙ pending_decision _ _ _ h;
          same_action = action-eq;
        }))
  ]

  -- A tool's action that was proposed as allowed, and was allowed, can be reported on: whatever the
  -- tool did, by the kernel in any later state, the execution is recorded, where the signer is honest
  -- and its key unchanged.
  pub allowed_records :
      (result : Result ToolError ToolOutput) (redaction : Option RedactionReport)
      → p.decision ≡ Receipt.allowed
      → starts_with (text "tool.") p.action.kind ≡ true
      → (outcome lib k p).kind ≡ allowed
      → handle lib k' (record_tool_execution (report result redaction)) ≡ (
        ok (execute_and_mint lib k' (report result redaction)).0,
        (execute_and_mint lib k' (report result redaction)).1,
      )
  unfolding handle_proposal judge
  allowed_records result redaction d t h = elim (execution_gated lib k' (report result redaction)) [
    | inl (_, e) ↦ e
    | inr (refused, _, _) ↦ absurd (
        refused (record {
          verified = verified-eq;
          ours = issuer-eq;
          is_allowed =
              decision-eq
              ∙ allowed_decision (k.constitution p.action).override_decision p.decision _ p.lease
                  p.charge d h;
          is_tool = rw (sym action-eq) t;
          same_action = action-eq;
        }))
  ]
