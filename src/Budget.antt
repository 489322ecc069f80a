-- ===== src/Budget.antt =====
-- crates/boardproof-budget/src/budget.rs, lease.rs and error.rs: numeric caps and capability leases.
-- The counters are u64 (bytes, milliseconds) and u32 (writes, tokens, uses).
pub mod Accounting
pub mod Delegation
pub mod Fleet
pub mod Names
use uniclaw.Prelude.{
  ℕ, ◌+◌, ◌-◌, ◌^◌, ◌≤◌, min, Bool, true, false, ◌&&◌, ◌||◌, List, Option, none, some, Result, ok,
  err, ltb, ◌==◌, if◌then◌else◌, Text, Text-discrete, text, ite,
}

abbrev pub u32_max : ℕ
u32_max = 2 ^ 32 - 1

abbrev pub u64_max : ℕ
u64_max = 2 ^ 64 - 1

-- `saturating_add` of an unsigned type whose largest value is `top`
abbrev pub saturating_add : ℕ → ℕ → ℕ → ℕ
saturating_add top a b = min (a + b) top

pub record Budget : Type 0 where
  pub net_bytes : ℕ
  pub file_writes : ℕ
  pub llm_tokens : ℕ
  pub wall_ms : ℕ
  pub max_uses : ℕ

pub record ResourceUse : Type 0 where
  pub net_bytes : ℕ
  pub file_writes : ℕ
  pub llm_tokens : ℕ
  pub wall_ms : ℕ
  pub uses : ℕ

-- `Budget::as_use`
unfoldable pub as_use : Budget → ResourceUse
as_use b = record {
  net_bytes = b.net_bytes;
  file_writes = b.file_writes;
  llm_tokens = b.llm_tokens;
  wall_ms = b.wall_ms;
  uses = b.max_uses;
}

-- `ResourceUse::ZERO`
abbrev pub zero_use : ResourceUse
zero_use = record { net_bytes = 0; file_writes = 0; llm_tokens = 0; wall_ms = 0; uses = 0 }

-- `ResourceUse::saturating_add`
unfoldable pub add_use : ResourceUse → ResourceUse → ResourceUse
add_use a b = record {
  net_bytes = saturating_add u64_max a.net_bytes b.net_bytes;
  file_writes = saturating_add u32_max a.file_writes b.file_writes;
  llm_tokens = saturating_add u32_max a.llm_tokens b.llm_tokens;
  wall_ms = saturating_add u64_max a.wall_ms b.wall_ms;
  uses = saturating_add u32_max a.uses b.uses;
}

-- `ResourceUse::is_zero`
unfoldable pub is_zero : ResourceUse → Bool
is_zero u =
    u.net_bytes == 0 && u.file_writes == 0 && u.llm_tokens == 0 && u.wall_ms == 0 && u.uses == 0

pub data BudgetError : Type 0 where
  net_bytes_exhausted file_writes_exhausted llm_tokens_exhausted : BudgetError
  wall_time_exhausted uses_exhausted delegation_exceeds_parent revoked_lease : BudgetError

-- `LeaseId`: sixteen bytes
pub record LeaseId : Type 0 where
  pub bytes : List ℕ

pub record CapabilityLease : Type 0 where
  pub id : LeaseId
  pub budget : Budget
  pub consumed : ResourceUse
  pub parent : Option LeaseId
  pub revoked : Bool

-- `CapabilityLease::new`
abbrev pub new : LeaseId → Budget → CapabilityLease
new id budget = record {
  id = id;
  budget = budget;
  consumed = zero_use;
  parent = none;
  revoked = false;
}

-- `saturating_sub` is the subtraction of ℕ.
unfoldable pub remaining : CapabilityLease → Budget
remaining l = record {
  net_bytes = l.budget.net_bytes - l.consumed.net_bytes;
  file_writes = l.budget.file_writes - l.consumed.file_writes;
  llm_tokens = l.budget.llm_tokens - l.consumed.llm_tokens;
  wall_ms = l.budget.wall_ms - l.consumed.wall_ms;
  max_uses = l.budget.max_uses - l.consumed.uses;
}

-- The first exhausted resource, in the order of the tests of `try_charge`.
unfoldable pub exhausted : ResourceUse → Budget → Option BudgetError
exhausted amount left =
    if ltb left.net_bytes amount.net_bytes
    then some net_bytes_exhausted
    else if ltb left.file_writes amount.file_writes
    then some file_writes_exhausted
    else if ltb left.llm_tokens amount.llm_tokens
    then some llm_tokens_exhausted
    else if ltb left.wall_ms amount.wall_ms
    then some wall_time_exhausted
    else if ltb left.max_uses amount.uses
    then some uses_exhausted
    else none

-- The lease comes back beside the result: `&mut self`.
unfoldable pub try_charge :
    CapabilityLease → ResourceUse → CapabilityLease × Result BudgetError (Unit {0})
unfolding exhausted remaining add_use
try_charge l amount =
    if l.revoked then (l, err revoked_lease) else elim (exhausted amount (remaining l)) [
      | some e ↦ (l, err e)
      | none ↦ (record l { consumed = add_use l.consumed amount }, ok tt)
    ]

unfoldable pub delegate :
    CapabilityLease → LeaseId → Budget → CapabilityLease × Result BudgetError CapabilityLease
unfolding as_use remaining add_use
delegate l child_id child_budget =
    let reservation = as_use child_budget in
    let left = remaining l in
    if l.revoked
    then (l, err revoked_lease)
    else if ltb left.net_bytes reservation.net_bytes
        || ltb left.file_writes reservation.file_writes
        || ltb left.llm_tokens reservation.llm_tokens
        || ltb left.wall_ms reservation.wall_ms
        || ltb left.max_uses reservation.uses
    then (l, err delegation_exceeds_parent)
    else (
      record l { consumed = add_use l.consumed reservation },
      ok (record {
        id = child_id;
        budget = child_budget;
        consumed = zero_use;
        parent = some l.id;
        revoked = false;
      }),
    )

unfoldable pub revoke : CapabilityLease → CapabilityLease
revoke l = record l { revoked = true }

-- `BudgetError::short_name`
unfoldable pub short_name : BudgetError → Text
short_name net_bytes_exhausted = text "net_bytes_exhausted"
short_name file_writes_exhausted = text "file_writes_exhausted"
short_name llm_tokens_exhausted = text "llm_tokens_exhausted"
short_name wall_time_exhausted = text "wall_time_exhausted"
short_name uses_exhausted = text "uses_exhausted"
short_name delegation_exceeds_parent = text "delegation_exceeds_parent"
short_name revoked_lease = text "lease_revoked"

-- `BudgetError::from_short_name`
unfoldable pub from_short_name : Text → Option BudgetError
unfolding Text-discrete
from_short_name s = ite (Text-discrete s (text "net_bytes_exhausted")) (some net_bytes_exhausted) (
    ite (Text-discrete s (text "file_writes_exhausted")) (some file_writes_exhausted) (
      ite (Text-discrete s (text "llm_tokens_exhausted")) (some llm_tokens_exhausted) (
        ite (Text-discrete s (text "wall_time_exhausted")) (some wall_time_exhausted) (
          ite (Text-discrete s (text "uses_exhausted")) (some uses_exhausted) (
            ite (Text-discrete s (text "delegation_exceeds_parent"))
              (some delegation_exceeds_parent)
              (ite (Text-discrete s (text "lease_revoked")) (some revoked_lease) none))))))

-- `Display for BudgetError`
unfoldable pub budget_message : BudgetError → Text
budget_message net_bytes_exhausted = text "net_bytes budget exhausted"
budget_message file_writes_exhausted = text "file_writes budget exhausted"
budget_message llm_tokens_exhausted = text "llm_tokens budget exhausted"
budget_message wall_time_exhausted = text "wall_ms budget exhausted"
budget_message uses_exhausted = text "max_uses budget exhausted"
budget_message delegation_exceeds_parent = text "delegated budget exceeds parent's remaining"
budget_message revoked_lease = text "capability lease has been revoked"
