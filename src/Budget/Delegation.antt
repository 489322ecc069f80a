-- ===== src/Budget/Delegation.antt =====
-- Delegation moves authority from a lease to a new one and makes none
-- (crates/boardproof-budget/src/lease.rs).
use uniclaw.Prelude.{◌+◌, ◌≤◌, ◌≡◌, refl, ◌⊎◌, inl, inr, false, some, ok, err, arith, Result-cases}
use uniclaw.Budget.{Budget, BudgetError, LeaseId, CapabilityLease, zero_use, as_use, delegate}
use uniclaw.Budget.Accounting.{
  Resource, net_bytes, used, cap_of, left, IsSound, Fits, charged, charged-IsSound, left-charged,
}

-- The lease that a parent hands out.
abbrev pub child_of : CapabilityLease → LeaseId → Budget → CapabilityLease
child_of l id b = record {
  id = id;
  budget = b;
  consumed = zero_use;
  parent = some l.id;
  revoked = false;
}

module _ (l : CapabilityLease) (id : LeaseId) (b : Budget) where
  delegate-ok_fits :
      (c : CapabilityLease) → (delegate l id b).1 ≡ ok c → (r : Resource) → cap_of r b ≤ left r l
  unfolding delegate
  delegate-ok_fits c h net_bytes = ground arith
  delegate-ok_fits c h _ = ground arith

  delegate-ok_eq :
      (c : CapabilityLease)
      → (delegate l id b).1 ≡ ok c
      → delegate l id b ≡ (charged l (as_use b), ok (child_of l id b))
  unfolding delegate
  delegate-ok_eq c h = ground arith

  delegate-err_eq : (e : BudgetError) → (delegate l id b).1 ≡ err e → (delegate l id b).0 ≡ l
  unfolding delegate
  delegate-err_eq e h = ground arith

  used-as_use : (r : Resource) → used r (as_use b) ≡ cap_of r b
  unfolding as_use
  used-as_use net_bytes = refl
  used-as_use _ = refl

  delegated-Fits : (c : CapabilityLease) → (delegate l id b).1 ≡ ok c → Fits (as_use b) l
  delegated-Fits c h r = rw used-as_use (delegate-ok_fits c h r)

  child-IsSound :
      (c : CapabilityLease) → (delegate l id b).1 ≡ ok c → IsSound l → IsSound (child_of l id b)
  child-IsSound c h s = record {
    in_range = λ r. omega (arith, delegate-ok_fits c h r, s.in_range r);
    within = zero_within;
  }
    where
      zero_within : (r : Resource) → used r zero_use ≤ cap_of r b
      zero_within net_bytes = omega arith
      zero_within _ = omega arith

  left-child : (r : Resource) → left r (child_of l id b) ≡ cap_of r b
  left-child net_bytes = omega arith
  left-child _ = omega arith

-- A delegation that succeeds splits what is left of the parent between parent and child, for every
-- resource, into two sound leases; the child has the budget asked for and names the parent, whose
-- own budget is unchanged. One that fails leaves the parent as it was.
pub delegate_splits :
    (l : CapabilityLease) (id : LeaseId) (b : Budget)
    → IsSound l
    → ((p c : CapabilityLease) × (delegate l id b ≡ (p, ok c))
        × ((c.budget ≡ b) × (c.parent ≡ some l.id) × (p.budget ≡ l.budget))
        × IsSound p
        × IsSound c
        × ((r : Resource) → left r p + left r c ≡ left r l))
      ⊎ ((e : BudgetError) × (delegate l id b ≡ (l, err e)))
delegate_splits l id b s = elim (Result-cases (delegate l id b).1) [
  | inl (c, h) ↦
      let fits = delegated-Fits l id b c h in
      inl (
        charged l (as_use b),
        child_of l id b,
        delegate-ok_eq l id b c h,
        (refl, refl, refl),
        charged-IsSound l (as_use b) s fits,
        child-IsSound l id b c h s,
        λ r.
            omega (
              arith,
              left-charged r l (as_use b) s fits,
              left-child l id b r,
              used-as_use l id b r,
            ),
      )
  | inr (e, h) ↦ inr (e, ground (arith, h, delegate-err_eq l id b e h))
]
