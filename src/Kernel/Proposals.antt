-- ===== src/Kernel/Proposals.antt =====
-- `handle_proposal` of crates/boardproof-kernel/src/kernel.rs.
use uniclaw.Prelude.{
  Bool, true, false, not, ◌&&◌, List, [], ◌∷◌, ◌++◌, Option, none, some, Result, ok, err,
  if◌then◌else◌, text,
}
use uniclaw.Budget.{CapabilityLease, ResourceUse, BudgetError, try_charge, short_name}
use uniclaw.Receipt.{Action, Decision, RuleRef, Receipt}
use uniclaw.Receipt
use uniclaw.Receipt.Crypto.{Foreign}
use uniclaw.Kernel.{
  Proposal, KernelOutcome, OutcomeKind, allowed, denied_by_constitution, allowed_as_denied,
  pending_approval, denied_by_budget, Kernel, mint, read_clock,
}

-- `merge_constitution_rules`: the constitution's rules, or the caller's if none matched.
unfoldable pub merge_constitution_rules : List RuleRef → List RuleRef → List RuleRef
merge_constitution_rules caller [] = caller
merge_constitution_rules caller (r ∷ rs) = r ∷ rs

abbrev pub is_denied : Decision → Bool
is_denied Receipt.denied = true
is_denied Receipt.allowed = false
is_denied Receipt.approved = false
is_denied Receipt.pending = false

abbrev pub is_pending : Decision → Bool
is_pending Receipt.pending = true
is_pending Receipt.allowed = false
is_pending Receipt.approved = false
is_pending Receipt.denied = false

abbrev pub or_else : Option Decision → Decision → Decision
or_else none d = d
or_else (some o) d = o

abbrev pub overrides : Option Decision → Bool
overrides none = false
overrides (some o) = true

-- `== Some(Decision::Pending)`
abbrev pub sets_pending : Option Decision → Bool
sets_pending none = false
sets_pending (some o) = is_pending o

-- The virtual rule that records a budget error.
unfoldable pub budget_rule : BudgetError → RuleRef
budget_rule e = record { id = text "$kernel/budget/" ++ short_name e; matched = true }

-- The local variables of the handler after the budget step.
pub record Judged : Type 0 where
  pub decision : Decision
  pub rules : List RuleRef
  pub lease_after : Option CapabilityLease
  pub budget_error : Option BudgetError

abbrev pub judged :
    Decision → List RuleRef → CapabilityLease × Result BudgetError (Unit {0}) → Judged
judged d rules (l, ok _) = record {
  decision = d;
  rules = rules;
  lease_after = some l;
  budget_error = none;
}
judged d rules (l, err e) = record {
  decision = Receipt.denied;
  rules = rules ++ budget_rule e ∷ [];
  lease_after = some l;
  budget_error = some e;
}

abbrev pub charge_lease : Decision → List RuleRef → Option CapabilityLease → ResourceUse → Judged
charge_lease d rules none charge = record {
  decision = d;
  rules = rules;
  lease_after = none;
  budget_error = none;
}
charge_lease d rules (some l) charge = judged d rules (try_charge l charge)

-- The budget is charged if the decision is no denial and the constitution did not set Pending.
unfoldable pub budget_step :
    Decision → Bool → List RuleRef → Option CapabilityLease → ResourceUse → Judged
budget_step d set_pending rules lease charge =
    if not (is_denied d) && not set_pending
    then charge_lease d rules lease charge
    else record { decision = d; rules = rules; lease_after = lease; budget_error = none }

unfoldable pub proposal_kind : Option BudgetError → Decision → Bool → OutcomeKind
proposal_kind (some e) d overrode = denied_by_budget e
proposal_kind none d overrode =
    if is_pending d
    then pending_approval
    else if overrode
    then denied_by_constitution
    else if is_denied d
    then allowed_as_denied
    else allowed

-- What the constitution and the budget make of a proposal.
unfoldable pub judge : Kernel → Proposal → Judged
unfolding budget_step
judge k p =
    let verdict = k.constitution p.action in
    budget_step (or_else verdict.override_decision p.decision)
      (sets_pending verdict.override_decision)
      (merge_constitution_rules p.constitution_rules verdict.matched_rules) p.lease p.charge

module _ (lib : Foreign) where
  unfoldable pub handle_proposal : Kernel → Proposal → KernelOutcome × Kernel
  handle_proposal k p =
      let (issued_at, k₁) = read_clock k in
      let j = judge k p in
      let (receipt, k₂) = mint lib k₁ issued_at p.action j.decision j.rules p.provenance none in
      (
        record {
          receipt = receipt;
          lease_after = j.lease_after;
          kind =
              proposal_kind j.budget_error j.decision
                (overrides (k.constitution p.action).override_decision);
        },
        k₂,
      )
