-- ===== src/Budget/Fleet.antt =====
-- A root lease and all that is delegated from it, under any sequence of the calls of
-- crates/boardproof-budget/src/lease.rs.
use uniclaw.Prelude.{ℕ, zero, suc, ◌+◌, ◌≡◌, refl, inl, inr, List, [], ◌∷◌, Result, ok, err, arith}
use uniclaw.Budget.{
  Budget, ResourceUse, BudgetError, LeaseId, CapabilityLease, zero_use, try_charge, delegate,
  revoke,
}
use uniclaw.Budget.Accounting.{Resource, net_bytes, used, left, IsSound, try_charge-accounts}
use uniclaw.Budget.Delegation.{delegate_splits}

-- A call on one lease.
pub data Call : Type 0 where
  charges : ResourceUse → Call
  delegates : LeaseId → Budget → Call
  revokes : Call

-- The leases in the place of one after a call on it: its new state, and a child if one was made.
abbrev with_child :
    CapabilityLease × Result BudgetError CapabilityLease
    → List CapabilityLease
    → List CapabilityLease
with_child (l, ok c) rest = c ∷ l ∷ rest
with_child (l, err e) rest = l ∷ rest

call : CapabilityLease → Call → List CapabilityLease → List CapabilityLease
call l (charges a) rest = (try_charge l a).0 ∷ rest
call l (delegates id b) rest = with_child (delegate l id b) rest
call l revokes rest = revoke l ∷ rest

abbrev granted : Result BudgetError (Unit {0}) → ResourceUse → ResourceUse
granted (ok _) a = a
granted (err _) a = zero_use

-- What the call spends.
cost : CapabilityLease → Call → ResourceUse
cost l (charges a) = granted (try_charge l a).1 a
cost l (delegates id b) = zero_use
cost l revokes = zero_use

-- A call on the lease at an index; on none if there is no such lease.
pub call_at : ℕ → Call → List CapabilityLease → List CapabilityLease
unfolding call
call_at i c [] = []
call_at zero c (l ∷ ls) = call l c ls
call_at (suc i) c (l ∷ ls) = l ∷ call_at i c ls

pub cost_at : ℕ → Call → List CapabilityLease → ResourceUse
unfolding cost
cost_at i c [] = zero_use
cost_at zero c (l ∷ ls) = cost l c
cost_at (suc i) c (l ∷ ls) = cost_at i c ls

pub run : List (ℕ × Call) → List CapabilityLease → List CapabilityLease
run [] ls = ls
run ((i, c) ∷ cs) ls = run cs (call_at i c ls)

-- All that a sequence of calls spends of a resource.
pub spent : Resource → List (ℕ × Call) → List CapabilityLease → ℕ
spent r [] ls = 0
spent r ((i, c) ∷ cs) ls = used r (cost_at i c ls) + spent r cs (call_at i c ls)

abbrev pub total : Resource → List CapabilityLease → ℕ
total r [] = 0
total r (l ∷ ls) = left r l + total r ls

abbrev pub AllSound : List CapabilityLease → Type 0
AllSound [] = Unit
AllSound (l ∷ ls) = IsSound l × AllSound ls

used_zero : (r : Resource) → used r zero_use ≡ 0
used_zero net_bytes = refl
used_zero _ = refl

revoke-IsSound : (l : CapabilityLease) → IsSound l → IsSound (revoke l)
unfolding revoke
revoke-IsSound l s = record { in_range = s.in_range; within = s.within }

revoke-left : (r : Resource) (l : CapabilityLease) → left r (revoke l) ≡ left r l
unfolding revoke
revoke-left r l = refl

call-AllSound :
    (l : CapabilityLease) (c : Call) (ls : List CapabilityLease)
    → IsSound l
    → AllSound ls
    → AllSound (call l c ls)
unfolding call
call-AllSound l (charges a) ls s ss = ((try_charge-accounts l a s).0, ss)
call-AllSound l (delegates id b) ls s ss = elim (delegate_splits l id b s) [
  | inl (p, c, e, _, sp, sc, _) ↦ rw e (sc, (sp, ss))
  | inr (_, e) ↦ rw e (s, ss)
]
call-AllSound l revokes ls s ss = (revoke-IsSound l s, ss)

charge-total :
    (r : Resource) (l : CapabilityLease) (a : ResourceUse)
    → IsSound l
    → left r (try_charge l a).0 + used r (granted (try_charge l a).1 a) ≡ left r l
charge-total r l a s = elim (try_charge-accounts l a s).1 [
  | inl (e, t) ↦ rw (e, granted) (t r)
  | inr (_, e, same) ↦ rw (e, granted, same) (omega (arith, used_zero r))
]

call-total :
    (r : Resource) (l : CapabilityLease) (c : Call) (ls : List CapabilityLease)
    → IsSound l
    → total r (call l c ls) + used r (cost l c) ≡ left r l + total r ls
unfolding call cost
call-total r l (charges a) ls s = omega (arith, charge-total r l a s)
call-total r l (delegates id b) ls s = elim (delegate_splits l id b s) [
  | inl (p, c, e, _, _, _, t) ↦ rw e (omega (arith, t r, used_zero r))
  | inr (_, e) ↦ rw e (omega (arith, used_zero r))
]
call-total r l revokes ls s = omega (arith, revoke-left r l, used_zero r)

call_at-AllSound :
    (i : ℕ) (c : Call) (ls : List CapabilityLease) → AllSound ls → AllSound (call_at i c ls)
unfolding call_at
call_at-AllSound i c [] s = tt
call_at-AllSound zero c (l ∷ ls) s = call-AllSound l c ls s.0 s.1
call_at-AllSound (suc i) c (l ∷ ls) s = (s.0, call_at-AllSound i c ls s.1)

call_at-total :
    (r : Resource) (i : ℕ) (c : Call) (ls : List CapabilityLease)
    → AllSound ls
    → total r (call_at i c ls) + used r (cost_at i c ls) ≡ total r ls
unfolding call_at cost_at
call_at-total r i c [] s = omega (arith, used_zero r)
call_at-total r zero c (l ∷ ls) s = call-total r l c ls s.0
call_at-total r (suc i) c (l ∷ ls) s = omega (arith, call_at-total r i c ls s.1)

-- Whatever calls are made on sound leases and on those delegated from them, what all of them have
-- left of a resource and what has been spent of it add up to what there was at the start, and every
-- lease stays sound.
pub authority_conserved :
    (r : Resource) (cs : List (ℕ × Call)) (ls : List CapabilityLease)
    → AllSound ls
    → (total r (run cs ls) + spent r cs ls ≡ total r ls) × AllSound (run cs ls)
unfolding run spent
authority_conserved r [] ls s = (omega arith, s)
authority_conserved r ((i, c) ∷ cs) ls s =
    let later = authority_conserved r cs (call_at i c ls) (call_at-AllSound i c ls s) in
    (omega (arith, later.0, call_at-total r i c ls s), later.1)
