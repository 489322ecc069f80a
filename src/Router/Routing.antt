-- ===== src/Router/Routing.antt =====
-- Routing never fails by the kernel (crates/boardproof-router/src/orchestrate.rs).
use uniclaw.Prelude.{◌≡◌, ◌≢◌, refl, ◌∙◌, ◌⊎◌, inl, inr, true, Result, ok, err, Bool-cases, arith}
use uniclaw.Receipt.Crypto.{Foreign}
use uniclaw.Kernel.{
  Kernel, Proposal, ApprovalDecision, KernelOutcome, OutcomeKind, pending_approval, mint,
  read_clock,
}
use uniclaw.Kernel.Proposals.{handle_proposal}
use uniclaw.Kernel.Approvals.{resolve_and_mint}
use uniclaw.Kernel.Machine.{handle}
use uniclaw.Kernel.Machine.Authority.{outcome}
use uniclaw.Host.Tracking.{IsHonest}
use uniclaw.Host.Lifecycle.{answer, pending_resolves}
use uniclaw.Router.{
  RouterError, ApprovalRouter, router_error, is_pending_approval, evaluated, evaluate_with_routing,
}

pending_only : (o : OutcomeKind) → is_pending_approval o ≡ true → o ≡ pending_approval
pending_only pending_approval h = refl
pending_only _ h = cc

module _ (lib : Foreign) {R : Type 0} (route : ApprovalRouter R) (k : Kernel) (r : R) (p : Proposal)
    (honest : IsHonest lib k.signer) where
  -- The kernel after the proposal, and its answer to the operator's.
  abbrev pub after : Kernel
  after = (handle_proposal lib k p).1

  pub same_key : after.signer.public_key ≡ k.signer.public_key
  unfolding handle_proposal mint read_clock
  same_key = refl

  abbrev pub resolved : ApprovalDecision → KernelOutcome × Kernel
  resolved d = resolve_and_mint lib after (answer lib k after honest same_key p d)

  evaluated-eq :
      evaluate_with_routing lib route k r p ≡ evaluated lib route r p (ok (outcome lib k p), after)
  unfolding evaluate_with_routing handle
  evaluated-eq = refl

  -- With an honest signer the kernel's part of routing never fails. The operator is asked once, about
  -- the receipt of the proposal, if that is pending, and not at all otherwise: the outcome is then
  -- the proposal's own. An answer is always resolved, and a failure of the router is passed on, the
  -- kernel standing behind the proposal.
  pub routing-cases :
      ((outcome lib k p).kind ≢ pending_approval
        × (evaluate_with_routing lib route k r p ≡ (ok (outcome lib k p), after, r)))
      ⊎ (((outcome lib k p).kind ≡ pending_approval)
          × (((e : RouterError) × (r' : R) × (route r (outcome lib k p).receipt p ≡ (err e, r'))
                × (evaluate_with_routing lib route k r p ≡ (err (router_error e), after, r')))
              ⊎ ((d : ApprovalDecision) × (r' : R) × (route r (outcome lib k p).receipt p
                    ≡ (ok d, r'))
                  × (evaluate_with_routing lib route k r p
                      ≡ (ok (resolved d).0, (resolved d).1, r')))))
  routing-cases = elim (Bool-cases (is_pending_approval (outcome lib k p).kind)) [
    | inr own ↦ inl (λ e. absurd (ground (arith, own, e)), evaluated-eq ∙ rw (own, evaluated) refl)
    | inl waits ↦ inr (pending_only _ waits, asked waits (route r (outcome lib k p).receipt p) refl)
  ]
    where
      asked :
          is_pending_approval (outcome lib k p).kind ≡ true
          → (a : Result RouterError ApprovalDecision × R) → route r (outcome lib k p).receipt p ≡ a
          → ((e : RouterError) × (r' : R) × (route r (outcome lib k p).receipt p ≡ (err e, r'))
              × (evaluate_with_routing lib route k r p ≡ (err (router_error e), after, r')))
            ⊎ ((d : ApprovalDecision) × (r' : R) × (route r (outcome lib k p).receipt p
                  ≡ (ok d, r'))
                × (evaluate_with_routing lib route k r p ≡ (ok (resolved d).0, (resolved d).1, r')))
      asked waits (err e, r') h = inl (e, r', h, evaluated-eq ∙ rw (waits, evaluated, h) refl)
      asked waits (ok d, r') h = inr (
        d,
        r',
        h,
        evaluated-eq
            ∙ rw
                (
                  waits,
                  evaluated,
                  h,
                  pending_resolves lib k after honest same_key p d (pending_only _ waits),
                )
                refl,
      )
