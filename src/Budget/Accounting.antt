-- ===== src/Budget/Accounting.antt =====
-- What a charge does to a lease (crates/boardproof-budget/src/lease.rs).
use uniclaw.Prelude.{
  ℕ, ◌+◌, ◌-◌, ◌≤◌, ◌<◌, ◌≡◌, refl, ◌⊎◌, inl, inr, ◌↔◌, false, none, ok, err, arith, Bool-cases,
  Option-cases, ltb, ltb→lt,
}
use uniclaw.Budget.{
  Budget, ResourceUse, BudgetError, CapabilityLease, net_bytes_exhausted, file_writes_exhausted,
  llm_tokens_exhausted, wall_time_exhausted, uses_exhausted, revoked_lease, u32_max, u64_max,
  add_use, remaining, exhausted, try_charge,
}

-- The resources of a budget, so that a statement about all of them is written once.
pub data Resource : Type 0 where
  net_bytes file_writes llm_tokens wall_ms uses : Resource

abbrev pub used : Resource → ResourceUse → ℕ
used net_bytes u = u.net_bytes
used file_writes u = u.file_writes
used llm_tokens u = u.llm_tokens
used wall_ms u = u.wall_ms
used uses u = u.uses

abbrev pub cap_of : Resource → Budget → ℕ
cap_of net_bytes b = b.net_bytes
cap_of file_writes b = b.file_writes
cap_of llm_tokens b = b.llm_tokens
cap_of wall_ms b = b.wall_ms
cap_of uses b = b.max_uses

-- The largest value of the counter.
abbrev pub top : Resource → ℕ
top net_bytes = u64_max
top file_writes = u32_max
top llm_tokens = u32_max
top wall_ms = u64_max
top uses = u32_max

-- What a lease may still spend of a resource.
abbrev pub left : Resource → CapabilityLease → ℕ
left r l = cap_of r l.budget - used r l.consumed

-- A lease whose counters are in range and that has not spent more than it was given.
pub record IsSound (l : CapabilityLease) : Type 0 where
  pub in_range : (r : Resource) → cap_of r l.budget ≤ top r
  pub within : (r : Resource) → used r l.consumed ≤ cap_of r l.budget

abbrev pub Fits : ResourceUse → CapabilityLease → Type 0
Fits amount l = (r : Resource) → used r amount ≤ left r l

exhausted-none :
    (amount : ResourceUse) (l : CapabilityLease)
    → Fits amount l
    → exhausted amount (remaining l) ≡ none
unfolding exhausted remaining
exhausted-none amount l h =
    ground (arith, h net_bytes, h file_writes, h llm_tokens, h wall_ms, h uses)

Fits-of_none :
    (amount : ResourceUse) (l : CapabilityLease)
    → exhausted amount (remaining l) ≡ none
    → Fits amount l
unfolding exhausted remaining
Fits-of_none amount l h net_bytes = ground arith
Fits-of_none amount l h file_writes = ground arith
Fits-of_none amount l h llm_tokens = ground arith
Fits-of_none amount l h wall_ms = ground arith
Fits-of_none amount l h uses = ground arith

-- Where the lease is sound and the amount fits, the saturating sum is the sum.
pub used-add_use :
    (r : Resource) (l : CapabilityLease) (amount : ResourceUse)
    → IsSound l
    → Fits amount l
    → used r (add_use l.consumed amount) ≡ used r l.consumed + used r amount
unfolding add_use
used-add_use net_bytes l a s f =
    omega (arith, s.in_range net_bytes, s.within net_bytes, f net_bytes)
used-add_use file_writes l a s f =
    omega (arith, s.in_range file_writes, s.within file_writes, f file_writes)
used-add_use llm_tokens l a s f =
    omega (arith, s.in_range llm_tokens, s.within llm_tokens, f llm_tokens)
used-add_use wall_ms l a s f = omega (arith, s.in_range wall_ms, s.within wall_ms, f wall_ms)
used-add_use uses l a s f = omega (arith, s.in_range uses, s.within uses, f uses)

pub charged-IsSound :
    (l : CapabilityLease) (amount : ResourceUse)
    → IsSound l
    → Fits amount l
    → IsSound (record l { consumed = add_use l.consumed amount })
charged-IsSound l amount s f = record {
  in_range = s.in_range;
  within = λ r. omega (arith, used-add_use r l amount s f, s.within r, f r);
}

-- The charge is granted exactly to a lease that is not revoked and has room for every resource.
pub try_charge-ok_iff :
    (l : CapabilityLease) (amount : ResourceUse)
    → ((try_charge l amount).1 ≡ ok tt) ↔ ((l.revoked ≡ false) × Fits amount l)
unfolding try_charge
try_charge-ok_iff l amount = elim (Option-cases (exhausted amount (remaining l))) [
  | inl fits ↦ (λ h. (ground arith, Fits-of_none amount l fits), λ h. ground (arith, h.0))
  | inr (e, over) ↦ (λ h. absurd (ground arith), λ h. cc (exhausted-none amount l h.1))
]

-- The lease after a granted charge.
abbrev pub charged : CapabilityLease → ResourceUse → CapabilityLease
charged l amount = record l { consumed = add_use l.consumed amount }

-- A charge is granted to a lease with room, or refused with the lease as it was.
pub try_charge-cases :
    (l : CapabilityLease) (amount : ResourceUse)
    → ((l.revoked ≡ false) × Fits amount l × (try_charge l amount ≡ (charged l amount, ok tt)))
      ⊎ ((e : BudgetError) × (try_charge l amount ≡ (l, err e)))
unfolding try_charge
try_charge-cases l amount = elim (Bool-cases l.revoked) [
  | inl gone ↦ inr (revoked_lease, ground arith)
  | inr live ↦ elim (Option-cases (exhausted amount (remaining l))) [
    | inl fits ↦ inl (live, Fits-of_none amount l fits, ground arith)
    | inr (e, over) ↦ inr (e, ground arith)
  ]
]

pub left-charged :
    (r : Resource) (l : CapabilityLease) (amount : ResourceUse)
    → IsSound l
    → Fits amount l
    → left r (charged l amount) + used r amount ≡ left r l
left-charged r l amount s f = omega (arith, used-add_use r l amount s f, s.within r, f r)

-- A granted charge takes exactly the amount from what is left of each resource; a refused one
-- leaves the lease as it was. Either way a sound lease stays sound.
pub try_charge-accounts :
    (l : CapabilityLease) (amount : ResourceUse)
    → IsSound l
    → IsSound (try_charge l amount).0
      × ((((try_charge l amount).1 ≡ ok tt)
            × ((r : Resource) → left r (try_charge l amount).0 + used r amount ≡ left r l))
          ⊎ ((e : BudgetError) × ((try_charge l amount).1 ≡ err e) × ((try_charge l amount).0 ≡ l)))
try_charge-accounts l amount s = elim (try_charge-cases l amount) [
  | inl (live, f, e) ↦
      rw e (charged-IsSound l amount s f, inl (refl, λ r. left-charged r l amount s f))
  | inr (why, e) ↦ rw e (s, inr (why, refl, refl))
]

-- The error that names a resource.
abbrev pub error_of : Resource → BudgetError
error_of net_bytes = net_bytes_exhausted
error_of file_writes = file_writes_exhausted
error_of llm_tokens = llm_tokens_exhausted
error_of wall_ms = wall_time_exhausted
error_of uses = uses_exhausted

-- The order in which the resources are tested.
abbrev pub rank : Resource → ℕ
rank net_bytes = 0
rank file_writes = 1
rank llm_tokens = 2
rank wall_ms = 3
rank uses = 4

module _ (l : CapabilityLease) (amount : ResourceUse) where
  over_left : (r : Resource) → (try_charge l amount).1 ≡ err (error_of r) → left r l < used r amount
  unfolding try_charge
  over_left net_bytes h = ground arith
  over_left _ h = ground arith

  earlier_fits :
      (r q : Resource)
      → (try_charge l amount).1 ≡ err (error_of r)
      → rank q < rank r
      → used q amount ≤ left q l
  unfolding try_charge
  earlier_fits net_bytes net_bytes h lt = ground arith
  earlier_fits _ _ h lt = ground arith

-- A charge refused for a resource asks more of it than is left, and of each other resource it asks
-- no more than is left or that resource is tested later.
pub try_charge-err_first :
    (l : CapabilityLease) (amount : ResourceUse) (r : Resource)
    → (try_charge l amount).1 ≡ err (error_of r)
    → (left r l < used r amount) × ((q : Resource) → (rank r ≤ rank q) ⊎ (used q amount ≤ left q l))
try_charge-err_first l amount r h = (
  over_left l amount r h,
  λ q. elim (Bool-cases (ltb (rank q) (rank r))) [
    | inl before ↦ inr (earlier_fits l amount r q h (ltb→lt _ _ before))
    | inr later ↦ inl (ground arith)
  ],
)
