-- ===== src/Tests/Leases.antt =====
-- The theorems on leases (crates/boardproof-budget) at concrete leases and calls.
use uniclaw.Prelude.{ℕ, ◌≡◌, ◌+◌, ◌≤◌, ◌⊎◌, List, [], ◌∷◌, ok, err, arith}
use uniclaw.Budget.{Budget, BudgetError, LeaseId, zero_use, try_charge}
use uniclaw.Budget.Accounting.{
  Resource, net_bytes, used, left, cap_of, top, IsSound, try_charge-accounts,
}
use uniclaw.Budget.Fleet.{
  Call, charges, delegates, run, spent, total, AllSound, authority_conserved,
}
use uniclaw.Tests.{budget, lease, one_use}

lease_in_range : (r : Resource) → cap_of r budget ≤ top r
lease_in_range net_bytes = omega arith
lease_in_range _ = omega arith

lease_within : (r : Resource) → used r zero_use ≤ cap_of r budget
lease_within net_bytes = omega arith
lease_within _ = omega arith

lease-IsSound : IsSound lease
lease-IsSound = record { in_range = lease_in_range; within = lease_within }

abbrev half : Budget
half = record budget { net_bytes = 50; max_uses = 1 }

abbrev child : LeaseId
child = record { bytes = 2 ∷ [] }

abbrev calls : List (ℕ × Call)
calls = (0, charges one_use) ∷ (0, delegates child half) ∷ []

authority_conserved_example :
    (total net_bytes (run calls (lease ∷ [])) + spent net_bytes calls (lease ∷ [])
      ≡ total net_bytes (lease ∷ []))
    × AllSound (run calls (lease ∷ []))
authority_conserved_example = authority_conserved net_bytes calls (lease ∷ []) (lease-IsSound, tt)

try_charge-accounts_example :
    IsSound (try_charge lease one_use).0
    × ((((try_charge lease one_use).1 ≡ ok tt)
          × ((r : Resource) → left r (try_charge lease one_use).0 + used r one_use ≡ left r lease))
        ⊎ ((e : BudgetError) × ((try_charge lease one_use).1 ≡ err e)
            × ((try_charge lease one_use).0 ≡ lease)))
try_charge-accounts_example = try_charge-accounts lease one_use lease-IsSound
