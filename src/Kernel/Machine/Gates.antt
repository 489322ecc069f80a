-- ===== src/Kernel/Machine/Gates.antt =====
-- The authenticity gates of crates/boardproof-kernel/src/kernel.rs: which prior receipts an approval
-- and a tool execution may rest on.
use uniclaw.Prelude.{
  ◌≡◌, refl, ◌↔◌, ◌⊎◌, inl, inr, true, ok, err, is_ok, ok_of_is_ok, Result-cases, arith,
  starts_with, text,
}
use uniclaw.Receipt.{allowed, pending}
use uniclaw.Receipt.Crypto.{Foreign, verify}
use uniclaw.Kernel.{
  Approval, ToolExecution, Kernel, resolve_approval_rejected, record_tool_execution_rejected,
  resolve_approval, record_tool_execution, ApprovalRejection, ToolExecutionRejection,
}
use uniclaw.Kernel.Approvals.{approval_gate, handle_resolve_approval, resolve_and_mint}
use uniclaw.Kernel.Executions.{execution_gate, handle_record_tool_execution, execute_and_mint}
use uniclaw.Kernel.Machine.{handle}

module _ (lib : Foreign) where
  -- The pending receipt verifies, is this kernel's, is pending, and is of the action proposed.
  pub record IsAuthentic (k : Kernel) (a : Approval) : Type 0 where
    pub verified : verify lib a.pending_receipt ≡ ok tt
    pub ours : a.pending_receipt.issuer ≡ k.signer.public_key
    pub is_pending : a.pending_receipt.body.decision ≡ pending
    pub same_action : a.original_proposal.action ≡ a.pending_receipt.body.action

  -- The allowed receipt verifies, is this kernel's, is allowed, and is of the tool action proposed.
  pub record IsAnchored (k : Kernel) (e : ToolExecution) : Type 0 where
    pub verified : verify lib e.allowed_receipt ≡ ok tt
    pub ours : e.allowed_receipt.issuer ≡ k.signer.public_key
    pub is_allowed : e.allowed_receipt.body.decision ≡ allowed
    pub is_tool : starts_with (text "tool.") e.allowed_receipt.body.action.kind ≡ true
    pub same_action : e.original_proposal.action ≡ e.allowed_receipt.body.action

  approval_gate-ok_iff :
      (k : Kernel) (a : Approval) → (approval_gate lib k a ≡ ok tt) ↔ IsAuthentic k a
  unfolding approval_gate
  approval_gate-ok_iff k a = (
    λ h.
        let good : is_ok (verify lib a.pending_receipt) ≡ true = ground arith in
        record {
          verified = ok_of_is_ok _ good;
          ours = ground arith;
          is_pending = ground arith;
          same_action = ground arith;
        },
    λ h. ground (arith, h.verified, h.ours, h.is_pending, h.same_action),
  )

  execution_gate-ok_iff :
      (k : Kernel) (e : ToolExecution) → (execution_gate lib k e ≡ ok tt) ↔ IsAnchored k e
  unfolding execution_gate
  execution_gate-ok_iff k e = (
    λ h.
        let good : is_ok (verify lib e.allowed_receipt) ≡ true = ground arith in
        record {
          verified = ok_of_is_ok _ good;
          ours = ground arith;
          is_allowed = ground arith;
          is_tool = ground arith;
          same_action = ground arith;
        },
    λ h. ground (arith, h.verified, h.ours, h.is_allowed, h.is_tool, h.same_action),
  )

  -- An approval is resolved exactly if the pending receipt verifies, is this kernel's, is pending
  -- and is of the action proposed; otherwise it is rejected and the kernel stays as it was.
  pub resolve_gated :
      (k : Kernel) (a : Approval)
      → (IsAuthentic k a
          × (handle lib k (resolve_approval a)
              ≡ (ok (resolve_and_mint lib k a).0, (resolve_and_mint lib k a).1)))
        ⊎ ((¬ IsAuthentic k a)
            × (x : ApprovalRejection) × (handle lib k (resolve_approval a)
                ≡ (err (resolve_approval_rejected x), k)))
  unfolding handle handle_resolve_approval
  resolve_gated k a = elim (Result-cases (approval_gate lib k a)) [
    | inl (_, g) ↦ inl ((approval_gate-ok_iff k a).0 g, rw (g, handle_resolve_approval) refl)
    | inr (x, g) ↦ inr (
      λ h. absurd (ground (arith, (approval_gate-ok_iff k a).1 h)),
      x,
      rw (g, handle_resolve_approval) refl,
    )
  ]

  -- A tool execution is recorded exactly if the prior receipt verifies, is this kernel's, is allowed,
  -- and is of the tool action proposed; otherwise it is rejected and the kernel stays as it was.
  pub execution_gated :
      (k : Kernel) (e : ToolExecution)
      → (IsAnchored k e
          × (handle lib k (record_tool_execution e)
              ≡ (ok (execute_and_mint lib k e).0, (execute_and_mint lib k e).1)))
        ⊎ ((¬ IsAnchored k e)
            × (x : ToolExecutionRejection) × (handle lib k (record_tool_execution e)
                ≡ (err (record_tool_execution_rejected x), k)))
  unfolding handle handle_record_tool_execution
  execution_gated k e = elim (Result-cases (execution_gate lib k e)) [
    | inl (_, g) ↦ inl ((execution_gate-ok_iff k e).0 g, rw (g, handle_record_tool_execution) refl)
    | inr (x, g) ↦ inr (
      λ h. absurd (ground (arith, (execution_gate-ok_iff k e).1 h)),
      x,
      rw (g, handle_record_tool_execution) refl,
    )
  ]
