-- ===== src/Tests/Proposals.antt =====
-- The theorems on what is decided (crates/boardproof-kernel) at concrete proposals, approvals and tool
-- executions.
use uniclaw.Prelude.{
  true, ◌≡◌, refl, sym, ap, ◌∙◌, ◌⊎◌, inl, inr, ◌≢◌, none, some, ok, err, arith, Text-discrete,
  starts_with, text,
}
use uniclaw.Budget.{try_charge}
use uniclaw.Constitution.{deny, require_approval, evaluate, matches, scan}
use uniclaw.Constitution.Precedence.{Fires}
use uniclaw.Receipt.{Receipt, ReceiptBody, PublicKey-discrete, Digest-discrete}
use uniclaw.Receipt
use uniclaw.Kernel.{
  Approval, ToolExecution, approves, resolve_approval, record_tool_execution, ApprovalRejection,
  ToolExecutionRejection, Proposal, allowed, denied_by_constitution, pending_approval,
  approved_after_pending, resolve_approval_rejected, record_tool_execution_rejected, minted_body,
}
use uniclaw.Kernel.Proposals.{handle_proposal, judge, budget_step, proposal_kind}
use uniclaw.Kernel.Approvals.{resolve, resolve_and_mint}
use uniclaw.Kernel.Executions.{execute_and_mint}
use uniclaw.Kernel.Machine.{handle}
use uniclaw.Kernel.Machine.Gates.{IsAuthentic, IsAnchored, resolve_gated, execution_gated}
use uniclaw.Kernel.Machine.Authority.{
  Paid, minted, outcome, allowed_means, deny_rule_wins, approval_rule_waits, own_pending_charges,
  approval_means,
}
use uniclaw.Tools.{ToolError}
use uniclaw.Host.Lifecycle.{answer, report, pending_resolves, allowed_records}
use uniclaw.Tests.{
  signer-IsHonest, allowance, lib, signer, kernel, lease, one_use, rules, call_tool, shell, fetch,
  pay, propose,
}

shell_denied : Fires deny rules shell
unfolding matches Text-discrete
shell_denied = inl (refl, refl)

pay_waits : Fires require_approval rules pay
unfolding matches Text-discrete
pay_waits = inr (inl (refl, refl))

pay_not_denied : ¬ Fires deny rules pay
unfolding matches Text-discrete
pay_not_denied (inl h) = absurd (ground (arith, h.0))
pay_not_denied (inr (inl h)) = absurd (ground (arith, h.1))
pay_not_denied (inr (inr h)) = h

fetch_free : (kernel.constitution fetch).override_decision ≡ none
unfolding evaluate scan matches Text-discrete
fetch_free = refl

charge_granted : (try_charge lease one_use).1 ≡ ok tt
unfolding try_charge
charge_granted = refl

abbrev denial : Proposal
denial = propose shell Receipt.allowed

abbrev payment : Proposal
payment = propose pay Receipt.allowed

abbrev asking : Proposal
asking = propose fetch Receipt.pending

deny_rule_wins_example :
    ((minted lib kernel denial).decision ≡ Receipt.denied)
    × ((outcome lib kernel denial).receipt ≡ signer.sign (minted lib kernel denial))
    × ((outcome lib kernel denial).kind ≡ denied_by_constitution)
    × ((outcome lib kernel denial).lease_after ≡ some lease)
deny_rule_wins_example = deny_rule_wins lib kernel denial rules refl shell_denied

own_pending_charges_example :
    ((outcome lib kernel asking).kind ≡ pending_approval)
    × ((minted lib kernel asking).decision ≡ Receipt.pending)
    × ((outcome lib kernel asking).lease_after ≡ some (try_charge lease one_use).0)
own_pending_charges_example =
    own_pending_charges lib kernel asking lease fetch_free refl refl charge_granted

allowed_fetch : (outcome lib kernel allowance).kind ≡ allowed
unfolding handle_proposal judge budget_step proposal_kind try_charge evaluate scan matches
    Text-discrete
allowed_fetch = refl

allowed_means_example :
    ((kernel.constitution fetch).override_decision ≡ none)
    × (Receipt.allowed ≢ Receipt.denied)
    × (Receipt.allowed ≢ Receipt.pending)
    × Paid (some lease) one_use (outcome lib kernel allowance).lease_after
allowed_means_example = allowed_means lib kernel allowance allowed_fetch

-- The operator's consent to the payment that waits.
abbrev approval : Approval
approval = record {
  pending_receipt = signer.sign (minted lib kernel payment);
  original_proposal = payment;
  response = approves;
}

approval-IsAuthentic : IsAuthentic lib kernel approval
unfolding minted_body
approval-IsAuthentic = record {
  verified = signer-IsHonest.valid _;
  ours = signer-IsHonest.own_key _;
  is_pending =
      ap (λ (b : ReceiptBody). b.decision) (signer-IsHonest.body_kept _)
      ∙ (approval_rule_waits lib kernel payment rules refl pay_waits pay_not_denied).0;
  same_action =
      sym (
        ap (λ (b : ReceiptBody). b.action) (signer-IsHonest.body_kept (minted lib kernel payment)));
}

resolve_gated_example :
    (IsAuthentic lib kernel approval
      × (handle lib kernel (resolve_approval approval) ≡ (
        ok (resolve_and_mint lib kernel approval).0,
        (resolve_and_mint lib kernel approval).1,
      )))
    ⊎ ((¬ IsAuthentic lib kernel approval)
        × (x : ApprovalRejection) × (handle lib kernel (resolve_approval approval)
            ≡ (err (resolve_approval_rejected x), kernel)))
resolve_gated_example = resolve_gated lib kernel approval

approval_goes : (resolve_and_mint lib kernel approval).0.kind ≡ approved_after_pending
unfolding resolve_and_mint resolve try_charge
approval_goes = refl

approval_handled :
    handle lib kernel (resolve_approval approval)
    ≡ (ok (resolve_and_mint lib kernel approval).0, (resolve_and_mint lib kernel approval).1)
approval_handled = elim (resolve_gated lib kernel approval) [
  | inl (_, e) ↦ e
  | inr (n, _, _) ↦ absurd (n approval-IsAuthentic)
]

approval_means_example :
    IsAuthentic lib kernel approval
    × (approves ≡ approves)
    × Paid (some lease) one_use (resolve_and_mint lib kernel approval).0.lease_after
approval_means_example =
    approval_means lib kernel (resolve_and_mint lib kernel approval).1 approval
      (resolve_and_mint lib kernel approval).0 approval_handled approval_goes

abbrev tool_use : Proposal
tool_use = propose call_tool Receipt.allowed

abbrev execution : ToolExecution
execution = record {
  allowed_receipt = signer.sign (minted lib kernel tool_use);
  original_proposal = tool_use;
  result = err ToolError.timeout;
  redaction = none;
}

execution_gated_example :
    (IsAnchored lib kernel execution
      × (handle lib kernel (record_tool_execution execution) ≡ (
        ok (execute_and_mint lib kernel execution).0,
        (execute_and_mint lib kernel execution).1,
      )))
    ⊎ ((¬ IsAnchored lib kernel execution)
        × (x : ToolExecutionRejection) × (handle lib kernel (record_tool_execution execution)
            ≡ (err (record_tool_execution_rejected x), kernel)))
execution_gated_example = execution_gated lib kernel execution

pending_payment : (outcome lib kernel payment).kind ≡ pending_approval
pending_payment = (approval_rule_waits lib kernel payment rules refl pay_waits pay_not_denied).2

pending_resolves_example :
    handle lib kernel
      (resolve_approval (answer lib kernel kernel signer-IsHonest refl payment approves))
    ≡ (
      ok
          (resolve_and_mint lib kernel
            (answer lib kernel kernel signer-IsHonest refl payment approves)).0,
      (resolve_and_mint lib kernel
          (answer lib kernel kernel signer-IsHonest refl payment approves)).1,
    )
pending_resolves_example =
    pending_resolves lib kernel kernel signer-IsHonest refl payment approves pending_payment

allowed_tool : (outcome lib kernel tool_use).kind ≡ allowed
unfolding handle_proposal judge budget_step proposal_kind try_charge evaluate scan matches
    Text-discrete
allowed_tool = refl

is_tool : starts_with (text "tool.") call_tool.kind ≡ true
unfolding starts_with
is_tool = refl

abbrev recorded : ToolExecution
recorded = report lib kernel kernel signer-IsHonest refl tool_use (err ToolError.timeout) none

allowed_records_example :
    handle lib kernel (record_tool_execution recorded)
    ≡ (ok (execute_and_mint lib kernel recorded).0, (execute_and_mint lib kernel recorded).1)
allowed_records_example =
    allowed_records lib kernel kernel signer-IsHonest refl tool_use (err ToolError.timeout) none
      refl is_tool allowed_tool
