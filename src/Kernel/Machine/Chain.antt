-- ===== src/Kernel/Machine/Chain.antt =====
-- Every event that the kernel accepts mints one receipt, which is the next link of its chain
-- (crates/boardproof-kernel/src/kernel.rs).
use uniclaw.Prelude.{◌+◌, ◌≡◌, refl, ◌⊎◌, inl, inr, List, Option, ok, err, Result-cases}
use uniclaw.Budget.{saturating_add, u64_max}
use uniclaw.Receipt.{
  Digest, Action, Decision, RuleRef, ProvenanceEdge, ReceiptBody, Receipt, receipt_format_version,
}
use uniclaw.Receipt.Crypto.{Foreign}
use uniclaw.Kernel.{
  Proposal, Approval, ToolExecution, KernelEvent, evaluate_proposal, resolve_approval,
  run_light_sleep, run_deep_sleep, record_tool_execution, KernelError, resolve_approval_rejected,
  record_tool_execution_rejected, KernelOutcome, Kernel, compute_leaf_hash, minted_body, mint,
  read_clock,
}
use uniclaw.Sleep.{LightSleepReport, DeepSleepReport}
use uniclaw.Kernel.Proposals.{handle_proposal}
use uniclaw.Kernel.Approvals.{approval_gate, resolve_and_mint, handle_resolve_approval}
use uniclaw.Kernel.Reports.{handle_light_sleep, handle_deep_sleep}
use uniclaw.Kernel.Executions.{execution_gate, execute_and_mint, handle_record_tool_execution}
use uniclaw.Kernel.Machine.{handle}

module _ (lib : Foreign) where
  -- The receipt is the signer's, of a body that is the next link: the kernel's sequence number and
  -- previous hash, the clock's time, the leaf hash of it all; and the kernel moves past it.
  pub record Mints (k : Kernel) (r : Receipt) (k' : Kernel) : Type 0 where
    pub body : ReceiptBody
    pub signed : r ≡ k.signer.sign body
    pub versioned : body.schema_version ≡ receipt_format_version
    pub timed : body.issued_at ≡ k.clock.now k.readings
    pub named : body.key_id ≡ k.signer.key_id
    pub numbered : body.merkle_leaf.sequence ≡ k.state.sequence
    pub linked : body.merkle_leaf.prev_hash ≡ k.state.prev_hash
    pub hashed :
        body.merkle_leaf.leaf_hash
        ≡ compute_leaf_hash lib k.state.sequence body.issued_at body.action body.decision
            k.state.prev_hash
    pub counted : k'.state.sequence ≡ saturating_add u64_max k.state.sequence 1
    pub advanced : k'.state.prev_hash ≡ body.merkle_leaf.leaf_hash
    pub same_signer : k'.signer ≡ k.signer
    pub same_clock : k'.clock ≡ k.clock
    pub same_constitution : k'.constitution ≡ k.constitution
    pub ticked : k'.readings ≡ k.readings + 1

  mint-Mints :
      (k : Kernel) (a : Action) (d : Decision) (rules : List RuleRef) (edges : List ProvenanceEdge)
      (h : Option Digest)
      → let (issued_at, k₁) = read_clock k in
        let (r, k₂) = mint lib k₁ issued_at a d rules edges h in Mints k r k₂
  unfolding mint read_clock
  mint-Mints k a d rules edges h = record {
    body = minted_body lib (read_clock k).1 (read_clock k).0 a d rules edges h;
    signed = refl;
    versioned = refl;
    timed = refl;
    named = refl;
    numbered = refl;
    linked = refl;
    hashed = refl;
    counted = refl;
    advanced = refl;
    same_signer = refl;
    same_clock = refl;
    same_constitution = refl;
    ticked = refl;
  }

  handle_proposal-Mints :
      (k : Kernel) (p : Proposal)
      → Mints k (handle_proposal lib k p).0.receipt (handle_proposal lib k p).1
  unfolding handle_proposal
  handle_proposal-Mints k p = mint-Mints k _ _ _ _ _

  light_sleep-Mints :
      (k : Kernel) (r : LightSleepReport)
      → Mints k (handle_light_sleep lib k r).0.receipt (handle_light_sleep lib k r).1
  unfolding handle_light_sleep
  light_sleep-Mints k r = mint-Mints k _ _ _ _ _

  deep_sleep-Mints :
      (k : Kernel) (r : DeepSleepReport)
      → Mints k (handle_deep_sleep lib k r).0.receipt (handle_deep_sleep lib k r).1
  unfolding handle_deep_sleep
  deep_sleep-Mints k r = mint-Mints k _ _ _ _ _

  resolve_and_mint-Mints :
      (k : Kernel) (a : Approval)
      → Mints k (resolve_and_mint lib k a).0.receipt (resolve_and_mint lib k a).1
  unfolding resolve_and_mint
  resolve_and_mint-Mints k a = mint-Mints k _ _ _ _ _

  execute_and_mint-Mints :
      (k : Kernel) (e : ToolExecution)
      → Mints k (execute_and_mint lib k e).0.receipt (execute_and_mint lib k e).1
  unfolding execute_and_mint
  execute_and_mint-Mints k e = mint-Mints k _ _ _ _ _

  -- An event is answered by a receipt that is the kernel's next link, or by an error that leaves the
  -- kernel, its clock readings included, as it was.
  pub handle-cases :
      (k : Kernel) (e : KernelEvent)
      → ((o : KernelOutcome) × (k' : Kernel) × (handle lib k e ≡ (ok o, k')) × Mints k o.receipt k')
        ⊎ ((x : KernelError) × (handle lib k e ≡ (err x, k)))
  unfolding handle
  handle-cases k (evaluate_proposal p) = inl (_, _, refl, handle_proposal-Mints k p)
  handle-cases k (run_light_sleep r) = inl (_, _, refl, light_sleep-Mints k r)
  handle-cases k (run_deep_sleep r) = inl (_, _, refl, deep_sleep-Mints k r)
  handle-cases k (resolve_approval a) = elim (Result-cases (approval_gate lib k a)) [
    | inl (_, g) ↦ inl (
      (resolve_and_mint lib k a).0,
      (resolve_and_mint lib k a).1,
      unfold handle_resolve_approval in rw (g, handle_resolve_approval),
      resolve_and_mint-Mints k a,
    )
    | inr (x, g) ↦ inr (
      resolve_approval_rejected x,
      unfold handle_resolve_approval in rw (g, handle_resolve_approval),
    )
  ]
  handle-cases k (record_tool_execution e) = elim (Result-cases (execution_gate lib k e)) [
    | inl (_, g) ↦ inl (
      (execute_and_mint lib k e).0,
      (execute_and_mint lib k e).1,
      unfold handle_record_tool_execution in rw (g, handle_record_tool_execution),
      execute_and_mint-Mints k e,
    )
    | inr (x, g) ↦ inr (
      record_tool_execution_rejected x,
      unfold handle_record_tool_execution in rw (g, handle_record_tool_execution),
    )
  ]
