-- ===== src/Kernel/Messages.antt =====
-- The texts of the errors of crates/boardproof-kernel/src/outcome.rs.
use uniclaw.Prelude.{[], ◌∷◌, ◌++◌, Text, text}
use uniclaw.Kernel.{
  ApprovalRejection, pending_signature_invalid, pending_issuer_mismatch, not_a_pending_receipt,
  ToolExecutionRejection, allowed_signature_invalid, allowed_issuer_mismatch,
  not_an_allowed_receipt, not_a_tool_action, KernelError, resolve_approval_rejected,
  record_tool_execution_rejected,
}

unfoldable pub approval_rejection_message : ApprovalRejection → Text
approval_rejection_message pending_signature_invalid =
    text "pending receipt signature did not verify"
approval_rejection_message pending_issuer_mismatch =
    text "pending receipt was signed by a different issuer"
approval_rejection_message not_a_pending_receipt = text "receipt body decision is not Pending"
approval_rejection_message ApprovalRejection.action_mismatch =
    text "original proposal action does not match pending receipt action"

unfoldable pub execution_rejection_message : ToolExecutionRejection → Text
execution_rejection_message allowed_signature_invalid =
    text "allowed receipt signature did not verify"
execution_rejection_message allowed_issuer_mismatch =
    text "allowed receipt was signed by a different issuer"
execution_rejection_message not_an_allowed_receipt = text "receipt body decision is not Allowed"
execution_rejection_message not_a_tool_action =
    text "action.kind does not start with " ++ (34 ∷ text "tool." ++ 34 ∷ [])
execution_rejection_message ToolExecutionRejection.action_mismatch =
    text "original proposal action does not match allowed receipt action"

unfoldable pub kernel_error_message : KernelError → Text
unfolding approval_rejection_message execution_rejection_message
kernel_error_message (resolve_approval_rejected r) =
    text "resolve-approval rejected: " ++ approval_rejection_message r
kernel_error_message (record_tool_execution_rejected r) =
    text "record-tool-execution rejected: " ++ execution_rejection_message r
