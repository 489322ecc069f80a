-- ===== src/Kernel/Machine.antt =====
-- `Kernel::handle` of crates/boardproof-kernel/src/kernel.rs, and a kernel that is fed events.
pub mod Chain
pub mod Gates
pub mod Authority
use uniclaw.Prelude.{List, [], ◌∷◌, ◌++◌, Option, none, some, Result, ok, err}
use uniclaw.Receipt.{Receipt}
use uniclaw.Receipt.Crypto.{Foreign}
use uniclaw.Kernel.{
  KernelEvent, evaluate_proposal, resolve_approval, run_light_sleep, run_deep_sleep,
  record_tool_execution, KernelError, KernelOutcome, Kernel,
}
use uniclaw.Kernel.Proposals.{handle_proposal}
use uniclaw.Kernel.Approvals.{handle_resolve_approval}
use uniclaw.Kernel.Reports.{handle_light_sleep, handle_deep_sleep}
use uniclaw.Kernel.Executions.{handle_record_tool_execution}

abbrev always : KernelOutcome × Kernel → Result KernelError KernelOutcome × Kernel
always (outcome, k) = (ok outcome, k)

module _ (lib : Foreign) where
  unfoldable pub handle : Kernel → KernelEvent → Result KernelError KernelOutcome × Kernel
  handle k (evaluate_proposal p) = always (handle_proposal lib k p)
  handle k (resolve_approval a) = handle_resolve_approval lib k a
  handle k (run_light_sleep r) = always (handle_light_sleep lib k r)
  handle k (run_deep_sleep r) = always (handle_deep_sleep lib k r)
  handle k (record_tool_execution e) = handle_record_tool_execution lib k e
