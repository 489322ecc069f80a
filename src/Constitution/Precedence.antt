-- ===== src/Constitution/Precedence.antt =====
-- What the rules of a constitution decide (crates/boardproof-constitution/src/evaluator.rs).
use mathlib.Core.Bool.{false≢true}
use mathlib.Core.List.{append_assoc, append-nil}
use uniclaw.Prelude.{
  Bool, true, false, ◌≡◌, refl, sym, ◌∙◌, ◌↔◌, ◌⊎◌, inl, inr, List, [], ◌∷◌, ◌++◌, map, Option,
  none, some, if◌then◌else◌, arith, Bool-cases,
}
use uniclaw.Receipt.{Action, Decision, denied, pending, RuleRef}
use uniclaw.Constitution.{
  RuleVerdict, deny, require_approval, Rule, Scan, matches, flag, scan_rule, scan, evaluate,
}

-- Some rule with the verdict matches the action.
abbrev pub Fires : RuleVerdict → List Rule → Action → Type 0
Fires v [] action = ⊥
Fires v (r ∷ rs) action =
    ((matches r.match_clause action ≡ true) × (r.verdict ≡ v)) ⊎ Fires v rs action

-- The rules that match, in their order.
unfoldable pub firing : List Rule → Action → List Rule
firing [] action = []
firing (r ∷ rs) action =
    let rest = firing rs action in if matches r.match_clause action then r ∷ rest else rest

abbrev pub reference : Rule → RuleRef
reference r = record { id = r.id; matched = true }

⊎_empty : {A : Type 0} → A ↔ (A ⊎ ⊥)
⊎_empty {A} = (λ a. inl a, back)
  where
    back : (A ⊎ ⊥) → A
    back (inl a) = a
    back (inr h) = absurd h

⊎_regroup : {A B C D F : Type 0} → A ↔ (B ⊎ F) → B ↔ (C ⊎ D) → A ↔ (C ⊎ (D ⊎ F))
⊎_regroup {A} {B} {C} {D} {F} p q = (λ a. forth (p.0 a), back)
  where
    inner : (C ⊎ D) → C ⊎ (D ⊎ F)
    inner (inl c) = inl c
    inner (inr d) = inr (inl d)

    forth : (B ⊎ F) → C ⊎ (D ⊎ F)
    forth (inl b) = inner (q.0 b)
    forth (inr f) = inr (inr f)

    back : (C ⊎ (D ⊎ F)) → A
    back (inl c) = p.1 (inl (q.1 (inl c)))
    back (inr (inl d)) = p.1 (inl (q.1 (inr d)))
    back (inr (inr f)) = p.1 (inr f)

-- The flag that a verdict sets.
abbrev asked : RuleVerdict → Scan → Bool
asked deny s = s.force_deny
asked require_approval s = s.needs_approval

module _ (a : Action) where
  scan_rule-asked :
      (v : RuleVerdict) (r : Rule) (s : Scan)
      → (asked v (scan_rule r a s) ≡ true)
        ↔ ((asked v s ≡ true) ⊎ ((matches r.match_clause a ≡ true) × (r.verdict ≡ v)))
  unfolding scan_rule
  scan_rule-asked deny r s = (λ h. ground arith, λ h. ground arith)
  scan_rule-asked _ r s = (λ h. ground arith, λ h. ground arith)

  scan-asked :
      (v : RuleVerdict) (rs : List Rule) (s : Scan)
      → (asked v (scan rs a s) ≡ true) ↔ ((asked v s ≡ true) ⊎ Fires v rs a)
  unfolding scan
  scan-asked v [] s = ⊎_empty
  scan-asked v (r ∷ rs) s = ⊎_regroup (scan-asked v rs (scan_rule r a s)) (scan_rule-asked v r s)

  scan_rule-matched :
      (r : Rule) (rs : List Rule) (s : Scan)
      → (scan_rule r a s).matched ++ map reference (firing rs a)
        ≡ s.matched ++ map reference (firing (r ∷ rs) a)
  unfolding scan_rule firing
  scan_rule-matched r rs s = elim (Bool-cases (matches r.match_clause a)) [
    | inl e ↦ rw e (flag_matched r.verdict)
    | inr e ↦ rw e
  ]
    where
      flag_matched :
          (v : RuleVerdict)
          → (flag (record s { matched = s.matched ++ reference r ∷ [] }) v).matched
              ++ map reference (firing rs a)
            ≡ s.matched ++ reference r ∷ map reference (firing rs a)
      flag_matched deny = append_assoc s.matched (reference r ∷ []) (map reference (firing rs a))
      flag_matched require_approval =
          append_assoc s.matched (reference r ∷ []) (map reference (firing rs a))

  scan-matched :
      (rs : List Rule) (s : Scan) → (scan rs a s).matched ≡ s.matched ++ map reference (firing rs a)
  unfolding scan firing
  scan-matched [] s = sym (append-nil s.matched)
  scan-matched (r ∷ rs) s = scan-matched rs (scan_rule r a s) ∙ scan_rule-matched r rs s

abbrev override : Bool → Bool → Option Decision
override d n = if d then some denied else if n then some pending else none

decide_lem :
    {D N : Type 0} (d n : Bool)
    → (d ≡ true) ↔ D
    → (n ≡ true) ↔ N
    → ((override d n ≡ some denied) ↔ D)
      × ((override d n ≡ some pending) ↔ (N × (¬ D)))
      × ((override d n ≡ none) ↔ ((¬ N) × (¬ D)))
decide_lem true n p q = (
  (λ h. p.0 refl, λ h. refl),
  (λ h. absurd (cc), λ h. absurd (h.1 (p.0 refl))),
  (λ h. absurd (cc), λ h. absurd (h.1 (p.0 refl))),
)
decide_lem false true p q = (
  (λ h. absurd (cc), λ h. absurd (false≢true (p.1 h))),
  (λ h. (q.0 refl, λ d. false≢true (p.1 d)), λ h. refl),
  (λ h. absurd (cc), λ h. absurd (h.0 (q.0 refl))),
)
decide_lem false false p q = (
  (λ h. absurd (cc), λ h. absurd (false≢true (p.1 h))),
  (λ h. absurd (cc), λ h. absurd (false≢true (q.1 h.0))),
  (λ h. (λ n. false≢true (q.1 n), λ d. false≢true (p.1 d)), λ h. refl),
)

drop_start : {A B : Type 0} → A ↔ ((false ≡ true) ⊎ B) → A ↔ B
drop_start {A} {B} p = (λ a. right (p.0 a), λ b. p.1 (inr b))
  where
    right : ((false ≡ true) ⊎ B) → B
    right (inl h) = absurd (false≢true h)
    right (inr b) = b

abbrev start : Scan
start = record { matched = []; force_deny = false; needs_approval = false }

module _ (rules : List Rule) (a : Action) where
  start-asked : (v : RuleVerdict) → (asked v (scan rules a start) ≡ true) ↔ Fires v rules a
  start-asked deny = drop_start (scan-asked a deny rules start)
  start-asked require_approval = drop_start (scan-asked a require_approval rules start)

  -- The verdict lists the rules that match, in document order. It is a denial exactly where some
  -- deny rule matches, and asks for approval exactly where an approval rule matches and no deny
  -- rule does; in every other case it leaves the decision alone.
  pub evaluate_lem :
      ((evaluate rules a).matched_rules ≡ map reference (firing rules a))
      × (((evaluate rules a).override_decision ≡ some denied) ↔ Fires deny rules a)
      × (((evaluate rules a).override_decision ≡ some pending)
          ↔ (Fires require_approval rules a × (¬ Fires deny rules a)))
      × (((evaluate rules a).override_decision ≡ none)
          ↔ ((¬ Fires require_approval rules a) × (¬ Fires deny rules a)))
  unfolding evaluate
  evaluate_lem =
      let s = scan rules a start in
      let decided =
        decide_lem s.force_deny s.needs_approval (start-asked deny)
          (start-asked require_approval) in
      (scan-matched a rules start, decided.0, decided.1, decided.2)
