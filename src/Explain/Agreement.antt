-- ===== src/Explain/Agreement.antt =====
-- The explanation agrees with the kernel (crates/boardproof-explain/src/lib.rs and
-- crates/boardproof-kernel/src/kernel.rs).
use mathlib.Core.List.{reverse, reverse-append}
use uniclaw.Prelude.{
  ◌≡◌, refl, sym, ap, subst, ◌≢◌, ◌⊎◌, inl, inr, true, false, suc, List, [], ◌∷◌, ◌++◌, map, Option,
  none, some, ok, arith, length, Text, Text-discrete, text, strip_prefix, starts_with, Bool-cases,
  Result-cases,
}
use uniclaw.Budget.{
  BudgetError, CapabilityLease, ResourceUse, try_charge, short_name, budget_message,
}
use uniclaw.Budget.Names.{from_short_name-short_name}
use uniclaw.Constitution.{Rule, RuleVerdict, deny, require_approval, matches, evaluate}
use uniclaw.Constitution.Precedence.{Fires, firing, reference, evaluate_lem}
use uniclaw.Receipt.{Action, Decision, Receipt, RuleRef}
use uniclaw.Receipt
use uniclaw.Receipt.Crypto.{Foreign}
use uniclaw.Kernel.{
  OutcomeKind, KernelEvent, evaluate_proposal, resolve_approval, run_light_sleep, run_deep_sleep,
  record_tool_execution, KernelOutcome, Kernel, Proposal, Approval, mint, read_clock,
  ApprovalDecision, approves, denies,
}
use uniclaw.Kernel.Proposals.{
  budget_rule, budget_step, proposal_kind, handle_proposal, judge, or_else, sets_pending, overrides,
  merge_constitution_rules,
}
use uniclaw.Kernel.Approvals.{operator_rule, resolve, resolve_and_mint}
use uniclaw.Kernel.Machine.{handle}
use uniclaw.Kernel.Machine.Gates.{resolve_gated}
use uniclaw.Host.Tracking.{IsHonest}
use uniclaw.Explain.{
  Verdict, RuleKind, RuleEntry, constitution, budget_prefix, budget_reason, approval_reason,
  kind_of, classify_rule, operator_denied, budget_hit, constitution_hit, denial, compute_verdict,
  explain,
}

-- An id that the kernel could not have made up.
abbrev pub IsAuthored : Text → Type 0
IsAuthored id = starts_with (text "$") id ≡ false

not_prefixed : (ps id : Text) → IsAuthored id → strip_prefix (b'$' ∷ ps) id ≡ none
unfolding strip_prefix starts_with
not_prefixed ps [] h = refl
not_prefixed ps (c ∷ cs) h = ground arith

kind_of-IsAuthored : (id : Text) → IsAuthored id → kind_of id ≡ constitution
unfolding kind_of
kind_of-IsAuthored id h = rw (not_prefixed _ id h, not_prefixed _ id h, h) refl

module _ {P : Type 0} where
  not-none : (o : Option P) (x : P) → o ≡ none → o ≢ some x
  not-none o x h e = absurd (ground (arith, h, e))

-- Every id of the list is authored.
abbrev pub AllAuthored : List RuleRef → Type 0
AllAuthored [] = Unit
AllAuthored (r ∷ rs) = IsAuthored r.id × AllAuthored rs

abbrev entries : List RuleRef → List RuleEntry
entries rs = map classify_rule rs

classify-IsAuthored :
    (r : RuleRef)
    → IsAuthored r.id
    → classify_rule r ≡ record { id = r.id; matched = r.matched; kind = constitution }
unfolding classify_rule
classify-IsAuthored r h = rw (kind_of-IsAuthored r.id h) refl

operator_denied-none : (rs : List RuleRef) → AllAuthored rs → operator_denied (entries rs) ≡ false
unfolding operator_denied
operator_denied-none [] h = refl
operator_denied-none (r ∷ rs) h =
    rw (classify-IsAuthored r h.0) (ground (arith, operator_denied-none rs h.1))

budget_hit-append :
    (xs ys : List RuleEntry)
    → budget_hit xs ≡ none
    → budget_hit ys ≡ none
    → budget_hit (xs ++ ys) ≡ none
unfolding budget_hit
budget_hit-append [] ys h k = k
budget_hit-append (x ∷ xs) ys h k = ground (arith, budget_hit-append xs ys)

budget_hit-reverse : (rs : List RuleRef) → AllAuthored rs → budget_hit (reverse (entries rs)) ≡ none
budget_hit-reverse [] h = unfold budget_hit in refl
budget_hit-reverse (r ∷ rs) h =
    rw (reverse-append (classify_rule r ∷ []) (entries rs), classify-IsAuthored r h.0)
      (budget_hit-append _ _ (budget_hit-reverse rs h.1) (unfold budget_hit in ground arith))

-- A denial that the constitution made is put down to the first rule that matched.
denial-authored :
    (r : Rule) (rs : List RuleRef)
    → IsAuthored r.id
    → AllAuthored rs
    → denial (entries (reference r ∷ rs)) ≡ Verdict.denied_by_constitution r.id
unfolding denial
denial-authored r rs h hs =
    rw
      (
        operator_denied-none (reference r ∷ rs) (h, hs),
        budget_hit-reverse (reference r ∷ rs) (h, hs),
        classify-IsAuthored (reference r) h,
      )
      (unfold constitution_hit in refl)

budget_reason_lem :
    (e : BudgetError)
    → budget_reason (short_name e)
      ≡ record { short_name = short_name e; display = budget_message e }
unfolding budget_reason
budget_reason_lem e = rw ((from_short_name-short_name (short_name e) e).1 refl) refl

kind_of-budget :
    (e : BudgetError)
    → kind_of (budget_prefix ++ short_name e)
      ≡ RuleKind.kernel_budget (record { short_name = short_name e; display = budget_message e })
unfolding kind_of strip_prefix
kind_of-budget e = ap RuleKind.kernel_budget (budget_reason_lem e)

-- A denial for the budget is put down to the resource that ran out.
denial-budget :
    (e : BudgetError)
    → denial (entries (budget_rule e ∷ []))
      ≡ Verdict.denied_by_budget (record { short_name = short_name e; display = budget_message e })
unfolding denial budget_rule classify_rule
denial-budget e = rw (kind_of-budget e) (unfold operator_denied budget_hit in refl)

denial-operator : denial (entries (operator_rule ∷ [])) ≡ Verdict.denied_by_operator
unfolding denial operator_rule operator_denied classify_rule kind_of strip_prefix Text-discrete
    approval_reason
denial-operator = refl

-- Every rule of a constitution has an authored id.
abbrev pub AllWritten : List Rule → Type 0
AllWritten [] = Unit
AllWritten (r ∷ rs) = IsAuthored r.id × AllWritten rs

module _ (a : Action) where
  firing-AllAuthored :
      (rules : List Rule) → AllWritten rules → AllAuthored (map reference (firing rules a))
  unfolding firing
  firing-AllAuthored [] h = tt
  firing-AllAuthored (r ∷ rs) h =
      let ih = firing-AllAuthored rs h.1 in
      elim (Bool-cases (matches r.match_clause a)) [ inl e ↦ rw e (h.0, ih) | inr e ↦ rw e ih ]

  -- A rule that decides stands in the list of those that match.
  Fires-firing :
      (v : RuleVerdict) (rules : List Rule)
      → Fires v rules a
      → (r : Rule) × (rs : List Rule) × (firing rules a ≡ r ∷ rs)
  unfolding firing
  Fires-firing v [] h = absurd h
  Fires-firing v (r ∷ rs) (inl h) = (r, firing rs a, rw h.0)
  Fires-firing v (r ∷ rs) (inr h) =
      let (x, xs, e) = Fires-firing v rs h in
      elim (Bool-cases (matches r.match_clause a)) [
        | inl m ↦ (r, firing rs a, rw m)
        | inr m ↦ (x, xs, rw (m, e))
      ]

  Fires-either :
      (r : Rule) (rs : List Rule)
      → matches r.match_clause a ≡ true
      → Fires deny (r ∷ rs) a ⊎ Fires require_approval (r ∷ rs) a
  Fires-either r rs m = either r.verdict refl
    where
      either :
          (v : RuleVerdict)
          → r.verdict ≡ v
          → Fires deny (r ∷ rs) a ⊎ Fires require_approval (r ∷ rs) a
      either deny e = inl (inl (m, e))
      either require_approval e = inr (inl (m, e))

  -- Where no rule decides, none matches.
  quiet-firing :
      (rules : List Rule)
      → ¬ Fires require_approval rules a
      → ¬ Fires deny rules a
      → firing rules a ≡ []
  unfolding firing
  quiet-firing [] n d = refl
  quiet-firing (r ∷ rs) n d =
      let ih = quiet-firing rs (λ h. n (inr h)) (λ h. d (inr h)) in
      elim (Bool-cases (matches r.match_clause a)) [
        | inl m ↦ elim (Fires-either r rs m) [ inl h ↦ absurd (d h) | inr h ↦ absurd (n h) ]
        | inr m ↦ rw (m, ih)
      ]

  evaluate-override :
      (rules : List Rule)
      → ((evaluate rules a).override_decision ≡ some Receipt.denied)
        ⊎ (((evaluate rules a).override_decision ≡ some Receipt.pending)
            ⊎ ((evaluate rules a).override_decision ≡ none))
  unfolding evaluate
  evaluate-override rules = ground arith

abbrev first_id : List RuleRef → Option Verdict
first_id [] = none
first_id (r ∷ rs) = some (Verdict.denied_by_constitution r.id)

abbrev lease_denial : BudgetError → Verdict
lease_denial e =
    Verdict.denied_by_budget (record { short_name = short_name e; display = budget_message e })

-- The verdict that a decision of the kernel calls for, from its kind and the receipt's rules.
pub told : OutcomeKind → List RuleRef → Option Verdict
told OutcomeKind.allowed rs = some (Verdict.allowed (length rs))
told OutcomeKind.denied_by_constitution rs = first_id rs
told OutcomeKind.allowed_as_denied rs = some Verdict.denied_as_proposed
told OutcomeKind.pending_approval rs = some (Verdict.pending (length rs))
told OutcomeKind.approved_after_pending rs = some Verdict.approved
told OutcomeKind.denied_by_operator rs = some Verdict.denied_by_operator
told (OutcomeKind.denied_by_budget e) rs = some (lease_denial e)
told (OutcomeKind.denied_by_budget_at_approve_time e) rs = some (lease_denial e)
told (OutcomeKind.light_sleep_completed n) rs = none
told (OutcomeKind.deep_sleep_completed n) rs = none
told (OutcomeKind.tool_executed_allowed d e) rs = none
told (OutcomeKind.tool_executed_failed d) rs = none

-- A decision, the rules that its receipt names and the kind that the kernel reports.
abbrev Reads : Decision → List RuleRef → OutcomeKind → Type 0
Reads d rs kind = some (compute_verdict d (entries rs)) ≡ told kind rs

length-entries : (rs : List RuleRef) → length (entries rs) ≡ length rs
length-entries [] = refl
length-entries (r ∷ rs) = ap suc (length-entries rs)

resolve-Reads :
    (response : ApprovalDecision) (lease : Option CapabilityLease) (charge : ResourceUse)
    → let r = resolve response lease charge in Reads r.decision r.rules r.kind
unfolding compute_verdict told resolve
resolve-Reads approves none charge = refl
resolve-Reads approves (some l) charge = elim (Result-cases (try_charge l charge).1) [
  | inl (_, e) ↦ rw e refl
  | inr (x, e) ↦ rw e (ap some (denial-budget x))
]
resolve-Reads denies lease charge = ap some denial-operator

-- The proposals that no rule overrides.
free-Reads :
    (d : Decision) (lease : Option CapabilityLease) (charge : ResourceUse)
    → d ≢ Receipt.approved
    → let j = budget_step d false [] lease charge in
      Reads j.decision j.rules (proposal_kind j.budget_error j.decision false)
unfolding compute_verdict told budget_step proposal_kind
free-Reads Receipt.allowed none charge n = refl
free-Reads Receipt.pending none charge n = refl
free-Reads Receipt.approved lease charge n = absurd (n refl)
free-Reads Receipt.denied lease charge n =
    unfold denial operator_denied budget_hit constitution_hit in refl
free-Reads Receipt.allowed (some l) charge n = elim (Result-cases (try_charge l charge).1) [
  | inl (_, e) ↦ rw e refl
  | inr (x, e) ↦ rw e (ap some (denial-budget x))
]
free-Reads Receipt.pending (some l) charge n = elim (Result-cases (try_charge l charge).1) [
  | inl (_, e) ↦ rw e refl
  | inr (x, e) ↦ rw e (ap some (denial-budget x))
]

-- What is judged from a verdict of the constitution, given by its parts.
abbrev Judges : Option Decision → List RuleRef → Proposal → Type 0
Judges o m p =
    let j =
      budget_step (or_else o p.decision) (sets_pending o)
        (merge_constitution_rules p.constitution_rules m) p.lease p.charge in
    Reads j.decision j.rules (proposal_kind j.budget_error j.decision (overrides o))

denied-Judges :
    (p : Proposal) (r : Rule) (rs : List RuleRef)
    → IsAuthored r.id
    → AllAuthored rs
    → Judges (some Receipt.denied) (reference r ∷ rs) p
unfolding compute_verdict told budget_step proposal_kind merge_constitution_rules
denied-Judges p r rs h hs = ap some (denial-authored r rs h hs)

pending-Judges : (p : Proposal) (m : List RuleRef) → Judges (some Receipt.pending) m p
unfolding compute_verdict told budget_step proposal_kind
pending-Judges p m = ap (λ n. some (Verdict.pending n)) (length-entries _)

free-Judges :
    (p : Proposal) → p.constitution_rules ≡ [] → p.decision ≢ Receipt.approved → Judges none [] p
unfolding merge_constitution_rules
free-Judges p e n = rw e (free-Reads p.decision p.lease p.charge n)

module _ (lib : Foreign) (k : Kernel) (rules : List Rule) (ruled : k.constitution ≡ evaluate rules)
    (written : AllWritten rules) where
  rules-Judges :
      (p : Proposal)
      → p.constitution_rules ≡ []
      → p.decision ≢ Receipt.approved
      → let v = evaluate rules p.action in Judges v.override_decision v.matched_rules p
  rules-Judges p own n =
      let a = p.action in
      let (listed, denies_iff, asks_iff, quiet_iff) = evaluate_lem rules a in
      elim (evaluate-override a rules) [
        | inl d ↦
            let (r, rs, e) = Fires-firing a deny rules (denies_iff.0 d) in
            let safe : AllAuthored (map reference (r ∷ rs)) =
              subst (λ xs. AllAuthored (map reference xs)) e (firing-AllAuthored a rules written) in
            rw (d, listed, e) (denied-Judges p r (map reference rs) safe.0 safe.1)
        | inr (inl w) ↦ rw w (pending-Judges p _)
        | inr (inr q) ↦
            let (asks, denials) = quiet_iff.0 q in
            rw (q, listed, quiet-firing a rules asks denials) (free-Judges p own n)
      ]

  -- The requests that decide, and what is asked of a proposal: it brings no rules of its own, and
  -- does not come as approved already.
  abbrev pub Decides : KernelEvent → Type 0
  Decides (evaluate_proposal p) = (p.constitution_rules ≡ []) × (p.decision ≢ Receipt.approved)
  Decides (resolve_approval a) = Unit
  Decides (run_light_sleep r) = ⊥
  Decides (run_deep_sleep r) = ⊥
  Decides (record_tool_execution x) = ⊥

  module _ (honest : IsHonest lib k.signer) where
    proposal_told :
        (p : Proposal)
        → p.constitution_rules ≡ []
        → p.decision ≢ Receipt.approved
        → let o = (handle_proposal lib k p).0 in
          some (explain lib o.receipt).verdict ≡ told o.kind o.receipt.body.constitution_rules
    unfolding handle_proposal mint judge explain compute_verdict told read_clock proposal_kind
    proposal_told p own n = rw (honest.body_kept, ruled) (rules-Judges p own n)

    approval_told :
        (a : Approval)
        → let o = (resolve_and_mint lib k a).0 in
          some (explain lib o.receipt).verdict ≡ told o.kind o.receipt.body.constitution_rules
    unfolding resolve_and_mint mint explain compute_verdict told read_clock resolve
    approval_told a =
        rw honest.body_kept
          (resolve-Reads a.response a.original_proposal.lease a.original_proposal.charge)

    -- What a receipt, read by itself, says of its decision is what the kernel decided: the verdict is
    -- the one that the outcome's kind calls for. It is so for each resolution of an approval, and for
    -- each proposal that brings no rules of its own and does not come as approved already, where the
    -- signer is honest, the constitution is a list of rules, and no id of these begins with a dollar
    -- sign. A denial by the constitution is put down to the first rule that matched.
    pub explain-handle :
        (e : KernelEvent) {o : KernelOutcome} {k' : Kernel}
        → Decides e
        → handle lib k e ≡ (ok o, k')
        → told o.kind o.receipt.body.constitution_rules ≡ some (explain lib o.receipt).verdict
    unfolding handle
    explain-handle (evaluate_proposal p) {o} d h =
        let same : (handle_proposal lib k p).0 ≡ o = ground (arith, h) in
        subst
          (λ (x : KernelOutcome).
            told x.kind x.receipt.body.constitution_rules ≡ some (explain lib x.receipt).verdict)
          same (sym (proposal_told p d.0 d.1))
    explain-handle (resolve_approval a) {o} d h = elim (resolve_gated lib k a) [
      | inl (_, e) ↦
          let same : (resolve_and_mint lib k a).0 ≡ o = ground (arith, h, e) in
          subst
            (λ (x : KernelOutcome).
              told x.kind x.receipt.body.constitution_rules ≡ some (explain lib x.receipt).verdict)
            same (sym (approval_told a))
      | inr (_, x, e) ↦ absurd (ground (arith, h, e))
    ]
    explain-handle (run_light_sleep r) d h = absurd d
    explain-handle (run_deep_sleep r) d h = absurd d
    explain-handle (record_tool_execution x) d h = absurd d
