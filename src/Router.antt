-- ===== src/Router.antt =====
-- crates/boardproof-router/src: router.rs and orchestrate.rs, a pending receipt brought to an operator
-- and the answer brought back to the kernel. Router/Cli is cli.rs.
pub mod Cli
pub mod Asking
pub mod Routing
use uniclaw.Prelude.{Bool, true, false, ◌++◌, Result, ok, err, Text, text}
use uniclaw.Receipt.{Receipt}
use uniclaw.Receipt.Crypto.{Foreign}
use uniclaw.Kernel.{
  Proposal, ApprovalDecision, Approval, KernelEvent, evaluate_proposal, resolve_approval,
  KernelError, KernelOutcome, OutcomeKind, Kernel,
}
use uniclaw.Kernel
use uniclaw.Kernel.Machine.{handle}
use uniclaw.Kernel.Messages.{kernel_error_message}

pub data RouterError : Type 0 where
  io invalid_input : Text → RouterError
  cancelled : RouterError
  backend : Text → RouterError

-- Its `Display`
unfoldable pub router_error_message : RouterError → Text
router_error_message (io s) = text "router IO error: " ++ s
router_error_message (invalid_input s) = text "router invalid operator input: " ++ s
router_error_message cancelled = text "router cancelled by operator"
router_error_message (backend s) = text "router backend error: " ++ s

-- The trait `ApprovalRouter`: a router answers, and is another one afterwards.
abbrev pub ApprovalRouter : Type 0 → Type 0
ApprovalRouter R = R → Receipt → Proposal → Result RouterError ApprovalDecision × R

pub data OrchestrationError : Type 0 where
  kernel_error : KernelError → OrchestrationError
  router_error : RouterError → OrchestrationError

-- Its `Display`
unfoldable pub orchestration_error_message : OrchestrationError → Text
unfolding router_error_message
orchestration_error_message (kernel_error e) = text "kernel: " ++ kernel_error_message e
orchestration_error_message (router_error e) = text "router: " ++ router_error_message e

abbrev pub is_pending_approval : OutcomeKind → Bool
is_pending_approval Kernel.pending_approval = true
is_pending_approval Kernel.allowed = false
is_pending_approval Kernel.denied_by_constitution = false
is_pending_approval Kernel.allowed_as_denied = false
is_pending_approval Kernel.approved_after_pending = false
is_pending_approval Kernel.denied_by_operator = false
is_pending_approval (Kernel.denied_by_budget e) = false
is_pending_approval (Kernel.denied_by_budget_at_approve_time e) = false
is_pending_approval (Kernel.light_sleep_completed n) = false
is_pending_approval (Kernel.deep_sleep_completed n) = false
is_pending_approval (Kernel.tool_executed_allowed d e) = false
is_pending_approval (Kernel.tool_executed_failed d) = false

module _ (lib : Foreign) {R : Type 0} (route : ApprovalRouter R) where
  -- The answer of the kernel to the operator's decision.
  abbrev pub settled :
      Result KernelError KernelOutcome × Kernel
      → R
      → Result OrchestrationError KernelOutcome × Kernel × R
  settled (ok outcome, k) r = (ok outcome, k, r)
  settled (err e, k) r = (err (kernel_error e), k, r)

  abbrev pub routed :
      Kernel
      → Proposal
      → Receipt
      → Result RouterError ApprovalDecision × R
      → Result OrchestrationError KernelOutcome × Kernel × R
  routed k p pending (err e, r) = (err (router_error e), k, r)
  routed k p pending (ok response, r) =
      settled
        (handle lib k (
          resolve_approval
            (record { pending_receipt = pending; original_proposal = p; response = response })))
        r

  abbrev pub evaluated :
      R
      → Proposal
      → Result KernelError KernelOutcome × Kernel
      → Result OrchestrationError KernelOutcome × Kernel × R
  evaluated r p (err e, k) = (err (kernel_error e), k, r)
  evaluated r p (ok outcome, k) = elim (is_pending_approval outcome.kind) [
    | false ↦ (ok outcome, k, r)
    | true ↦ routed k p outcome.receipt (route r outcome.receipt p)
  ]

  unfoldable pub evaluate_with_routing :
      Kernel → R → Proposal → Result OrchestrationError KernelOutcome × Kernel × R
  evaluate_with_routing k r p = evaluated r p (handle lib k (evaluate_proposal p))
