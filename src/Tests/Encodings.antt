-- ===== src/Tests/Encodings.antt =====
-- The theorems on digests, signatures and rules (crates/boardproof-receipt,
-- crates/boardproof-constitution) at concrete values.
use uniclaw.Prelude.{◌≡◌, ◌↔◌, map, none, some}
use uniclaw.Receipt.{denied, pending}
use uniclaw.Constitution.{deny, require_approval, evaluate}
use uniclaw.Constitution.Precedence.{Fires, firing, reference, evaluate_lem}
use uniclaw.Tests.{rules, shell}

evaluate_lem_example :
    ((evaluate rules shell).matched_rules ≡ map reference (firing rules shell))
    × (((evaluate rules shell).override_decision ≡ some denied) ↔ Fires deny rules shell)
    × (((evaluate rules shell).override_decision ≡ some pending)
        ↔ (Fires require_approval rules shell × (¬ Fires deny rules shell)))
    × (((evaluate rules shell).override_decision ≡ none)
        ↔ ((¬ Fires require_approval rules shell) × (¬ Fires deny rules shell)))
evaluate_lem_example = evaluate_lem rules shell
