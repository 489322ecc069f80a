-- ===== src/Kernel/Machine/Authority.antt =====
-- Who decides: the constitution over the caller, the budget over both, the operator over what is
-- pending (crates/boardproof-kernel/src/kernel.rs).
use uniclaw.Prelude.{
  ◌≡◌, ◌≢◌, refl, sym, ap, subst, ◌∙◌, ◌⊎◌, inl, inr, Bool, true, false, List, Option, none, some,
  Result, ok, Result-cases, arith,
}
use uniclaw.Budget.{CapabilityLease, ResourceUse, BudgetError, try_charge}
use uniclaw.Constitution.{Rule, deny, require_approval, evaluate}
use uniclaw.Constitution.Precedence.{Fires, evaluate_lem}
use uniclaw.Receipt.{Action, Decision, ReceiptBody, Receipt, RuleRef, denied, approved, pending}
use uniclaw.Receipt
use uniclaw.Receipt.Crypto.{Foreign}
use uniclaw.Kernel.{
  Proposal, Approval, ApprovalDecision, approves, denies, resolve_approval, KernelError,
  KernelOutcome, allowed, denied_by_constitution, pending_approval, approved_after_pending, Kernel,
  minted_body, mint, read_clock,
}
use uniclaw.Kernel.Proposals.{
  judge, charge_lease, budget_step, proposal_kind, handle_proposal, is_denied, is_pending, or_else,
  overrides, sets_pending,
}
use uniclaw.Kernel.Approvals.{resolve, resolve_and_mint}
use uniclaw.Kernel.Machine.{handle}
use uniclaw.Kernel.Machine.Gates.{IsAuthentic, resolve_gated}

-- Nothing was charged for a proposal, or its lease was and it gave the amount.
pub data Paid (lease : Option CapabilityLease) (charge : ResourceUse)
    (after : Option CapabilityLease) : Type 0 where
  free : lease ≡ none → after ≡ none → Paid lease charge after
  charged :
      (l : CapabilityLease)
      → lease ≡ some l
      → (try_charge l charge).1 ≡ ok tt
      → after ≡ some (try_charge l charge).0
      → Paid lease charge after

charge_lease-Paid :
    (d : Decision) (rules : List RuleRef) (lease : Option CapabilityLease) (charge : ResourceUse)
    → (charge_lease d rules lease charge).budget_error ≡ none
    → Paid lease charge (charge_lease d rules lease charge).lease_after
charge_lease-Paid d rules none charge h = free refl refl
charge_lease-Paid d rules (some l) charge h = elim (Result-cases (try_charge l charge).1) [
  | inl (_, e) ↦ charged l refl e (ground (arith, e))
  | inr (_, e) ↦ absurd (ground (arith, e))
]

no_error :
    (e : Option BudgetError) (d : Decision) (b : Bool)
    → proposal_kind e d b ≡ allowed
    → (e ≡ none) × (is_pending d ≡ false) × (b ≡ false) × (is_denied d ≡ false)
unfolding proposal_kind
no_error none d b h = ground arith
no_error (some e) d b h = absurd (ground arith)

-- The budget step changes the decision only along with an error.
charge_lease-decision :
    (d : Decision) (rules : List RuleRef) (lease : Option CapabilityLease) (charge : ResourceUse)
    → (charge_lease d rules lease charge).budget_error ≡ none
    → (charge_lease d rules lease charge).decision ≡ d
charge_lease-decision d rules none charge h = refl
charge_lease-decision d rules (some l) charge h = ground arith

step_allowed :
    (o : Option Decision) (d : Decision) (rules : List RuleRef) (lease : Option CapabilityLease)
    (charge : ResourceUse)
    → let j = budget_step (or_else o d) (sets_pending o) rules lease charge in
      proposal_kind j.budget_error j.decision (overrides o) ≡ allowed
      → (o ≡ none) × (d ≢ denied) × (d ≢ pending) × Paid lease charge j.lease_after
unfolding budget_step
step_allowed (some x) d rules lease charge h = absurd (ground (arith, no_error _ _ _ h))
step_allowed none Receipt.denied rules lease charge h = absurd (ground (arith, no_error _ _ _ h))
step_allowed none Receipt.pending rules lease charge h =
    let free = no_error _ _ _ h in
    absurd (ground (arith, charge_lease-decision Receipt.pending rules lease charge free.0, free.1))
step_allowed none Receipt.allowed rules lease charge h = (
  refl,
  λ e. cc,
  λ e. cc,
  charge_lease-Paid Receipt.allowed rules lease charge (no_error _ _ _ h).0,
)
step_allowed none Receipt.approved rules lease charge h = (
  refl,
  λ e. cc,
  λ e. cc,
  charge_lease-Paid Receipt.approved rules lease charge (no_error _ _ _ h).0,
)

module _ (lib : Foreign) (k : Kernel) (p : Proposal) where
  abbrev pub override : Option Decision
  override = (k.constitution p.action).override_decision

  abbrev pub outcome : KernelOutcome
  outcome = (handle_proposal lib k p).0

  -- The body of the receipt that the proposal mints.
  abbrev pub minted : ReceiptBody
  minted =
      minted_body lib (read_clock k).1 (read_clock k).0 p.action (judge k p).decision
        (judge k p).rules p.provenance none

  kind-eq :
      outcome.kind
      ≡ proposal_kind (judge k p).budget_error (judge k p).decision (overrides override)
  unfolding handle_proposal
  kind-eq = refl

  lease-eq : outcome.lease_after ≡ (judge k p).lease_after
  unfolding handle_proposal
  lease-eq = refl

  -- The kernel reports a proposal as allowed only if the constitution did not override it, the caller
  -- proposed neither a denial nor a wait, and the lease, if there is one, granted the charge and
  -- comes back charged.
  pub allowed_means :
      outcome.kind ≡ allowed
      → (override ≡ none)
        × (p.decision ≢ denied)
        × (p.decision ≢ pending)
        × Paid p.lease p.charge outcome.lease_after
  unfolding handle_proposal judge
  allowed_means h = step_allowed override p.decision _ p.lease p.charge h

  stopped :
      (d : Decision)
      → override ≡ some d
      → ((is_denied d ≡ true) ⊎ (is_pending d ≡ true))
      → ((minted).decision ≡ d)
        × (outcome.receipt ≡ k.signer.sign minted)
        × (outcome.kind
            ≡ (elim (is_pending d) [ true ↦ pending_approval | false ↦ denied_by_constitution ]))
        × (outcome.lease_after ≡ p.lease)
  unfolding handle_proposal judge mint proposal_kind budget_step read_clock
  stopped d e s = (ground (arith, e), refl, ground (arith, e), ground (arith, e))

module _ (lib : Foreign) (k : Kernel) (p : Proposal) (rules : List Rule)
    (ruled : k.constitution ≡ evaluate rules) where
  override-eq :
      (k.constitution p.action).override_decision ≡ (evaluate rules p.action).override_decision
  override-eq = ap (λ (c : Action → _). (c p.action).override_decision) ruled

  -- Where the kernel's constitution is a list of rules and a deny rule of it matches, whatever the
  -- caller proposed, the receipt's body says denied, the outcome says denied by the constitution,
  -- and the lease comes back as it was.
  pub deny_rule_wins :
      Fires deny rules p.action
      → ((minted lib k p).decision ≡ denied)
        × ((outcome lib k p).receipt ≡ k.signer.sign (minted lib k p))
        × ((outcome lib k p).kind ≡ denied_by_constitution)
        × ((outcome lib k p).lease_after ≡ p.lease)
  deny_rule_wins h =
      stopped lib k p denied (override-eq ∙ (evaluate_lem rules p.action).1.1 h) (inl refl)

  -- Where the kernel's constitution is a list of rules, an approval rule of it matches and no deny
  -- rule does, the receipt's body and the outcome say pending, and the lease comes back as it was.
  pub approval_rule_waits :
      Fires require_approval rules p.action
      → (¬ Fires deny rules p.action)
      → ((minted lib k p).decision ≡ pending)
        × ((outcome lib k p).receipt ≡ k.signer.sign (minted lib k p))
        × ((outcome lib k p).kind ≡ pending_approval)
        × ((outcome lib k p).lease_after ≡ p.lease)
  approval_rule_waits h n =
      stopped lib k p pending (override-eq ∙ (evaluate_lem rules p.action).2.1 (h, n)) (inr refl)

module _ (lib : Foreign) (k : Kernel) (p : Proposal) (l : CapabilityLease) where
  -- A proposal in which the caller asks to wait, which no rule overrides, and whose lease grants
  -- the charge, is pending, and its lease comes back charged all the same.
  pub own_pending_charges :
      (k.constitution p.action).override_decision ≡ none
      → p.decision ≡ pending
      → p.lease ≡ some l
      → (try_charge l p.charge).1 ≡ ok tt
      → ((outcome lib k p).kind ≡ pending_approval)
        × ((minted lib k p).decision ≡ pending)
        × ((outcome lib k p).lease_after ≡ some (try_charge l p.charge).0)
  unfolding handle_proposal judge mint proposal_kind budget_step
  own_pending_charges o d e c =
      (ground (arith, o, d, e, c), ground (arith, o, d, e, c), ground (arith, o, d, e, c))

module _ (lib : Foreign) where
  resolved_approved :
      (a : ApprovalDecision) (lease : Option CapabilityLease) (charge : ResourceUse)
      → (resolve a lease charge).kind ≡ approved_after_pending
      → (a ≡ approves)
        × ((resolve a lease charge).decision ≡ approved)
        × Paid lease charge (resolve a lease charge).lease_after
  unfolding resolve
  resolved_approved approves none charge h = (refl, refl, free refl refl)
  resolved_approved approves (some l) charge h = elim (Result-cases (try_charge l charge).1) [
    | inl (_, e) ↦ (refl, ground (arith, e), charged l refl e (ground (arith, e)))
    | inr (_, e) ↦ absurd (ground (arith, e))
  ]
  resolved_approved denies lease charge h = absurd (ground arith)

  resolved-kind :
      (k : Kernel) (a : Approval)
      → (resolve a.response a.original_proposal.lease a.original_proposal.charge).kind
        ≡ (resolve_and_mint lib k a).0.kind
  unfolding resolve_and_mint
  resolved-kind k a = refl

  resolved-lease :
      (k : Kernel) (a : Approval)
      → (resolve a.response a.original_proposal.lease a.original_proposal.charge).lease_after
        ≡ (resolve_and_mint lib k a).0.lease_after
  unfolding resolve_and_mint
  resolved-lease k a = refl

  same_outcome :
      {r : Result KernelError KernelOutcome × Kernel} {o o' : KernelOutcome} {k k' : Kernel}
      → r ≡ (ok o, k)
      → r ≡ (ok o', k')
      → o ≡ o'
  same_outcome h e = ground (arith, h, e)

  -- An approval goes through only on an authentic pending receipt of this kernel, with the operator's
  -- consent, and with a lease, if there is one, that granted the charge.
  pub approval_means :
      (k k' : Kernel) (a : Approval) (o : KernelOutcome)
      → handle lib k (resolve_approval a) ≡ (ok o, k')
      → o.kind ≡ approved_after_pending
      → IsAuthentic lib k a
        × (a.response ≡ approves)
        × Paid a.original_proposal.lease a.original_proposal.charge o.lease_after
  approval_means k k' a o h kind = elim (resolve_gated lib k a) [
    | inl (g, e) ↦
        let same : o ≡ (resolve_and_mint lib k a).0 = same_outcome h e in
        let won =
          resolved_approved a.response a.original_proposal.lease a.original_proposal.charge
            (resolved-kind k a ∙ ap (λ (x : KernelOutcome). x.kind) (sym same) ∙ kind) in
        (
          g,
          won.0,
          subst (Paid a.original_proposal.lease a.original_proposal.charge)
              (resolved-lease k a ∙ ap (λ (x : KernelOutcome). x.lease_after) (sym same)) won.2,
        )
    | inr (_, x, e) ↦ absurd (ground (arith, h, e))
  ]
