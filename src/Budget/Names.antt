-- ===== src/Budget/Names.antt =====
-- The names of the budget errors (crates/boardproof-budget/src/error.rs).
use uniclaw.Prelude.{◌≡◌, refl, ap, ◌∙◌, ◌↔◌, some, arith, Text, Text-discrete}
use uniclaw.Budget.{BudgetError, net_bytes_exhausted, short_name, from_short_name}

parsed : (e : BudgetError) → from_short_name (short_name e) ≡ some e
unfolding from_short_name short_name Text-discrete
parsed net_bytes_exhausted = refl
parsed _ = refl

printed : (s : Text) (e : BudgetError) → from_short_name s ≡ some e → s ≡ short_name e
unfolding from_short_name short_name
printed s net_bytes_exhausted h = ground arith
printed s _ h = ground arith

-- A text parses to an error exactly if it is that error's name.
pub from_short_name-short_name :
    (s : Text) (e : BudgetError) → (from_short_name s ≡ some e) ↔ (s ≡ short_name e)
from_short_name-short_name s e = (printed s e, λ h. ap from_short_name h ∙ parsed e)
