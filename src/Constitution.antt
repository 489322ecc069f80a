-- ===== src/Constitution.antt =====
-- crates/boardproof-constitution/src/rule.rs, verdict.rs and evaluator.rs: rules that override the
-- decision of a proposal.
pub mod Precedence
use uniclaw.Prelude.{
  Bool, true, false, List, [], ◌∷◌, ◌++◌, Option, none, some, if◌then◌else◌, ite, Text,
  Text-discrete, contains,
}
use uniclaw.Receipt.{Action, Decision, denied, pending, RuleRef}

pub data RuleVerdict : Type 0 where
  deny require_approval : RuleVerdict

pub record MatchClause : Type 0 where
  pub kind : Option Text
  pub target_contains : Option Text

pub record Rule : Type 0 where
  pub id : Text
  pub description : Text
  pub verdict : RuleVerdict
  pub match_clause : MatchClause

pub record ConstitutionVerdict : Type 0 where
  pub matched_rules : List RuleRef
  pub override_decision : Option Decision

-- The trait `Constitution`.
abbrev pub Constitution : Type 0
Constitution = Action → ConstitutionVerdict

-- `ConstitutionVerdict::empty`
abbrev pub empty : ConstitutionVerdict
empty = record { matched_rules = []; override_decision = none }

-- `EmptyConstitution`
unfoldable pub empty_constitution : Constitution
empty_constitution action = empty

kind_matches : Option Text → Action → Bool
kind_matches none action = true
kind_matches (some kind) action = ite (Text-discrete action.kind kind) true false

target_matches : Option Text → Action → Bool
target_matches none action = true
target_matches (some needle) action = contains needle action.target

-- `MatchClause::matches`
unfoldable pub matches : MatchClause → Action → Bool
unfolding kind_matches target_matches
matches clause action =
    if kind_matches clause.kind action then target_matches clause.target_contains action else false

-- The local variables of the loop of `evaluate`.
pub record Scan : Type 0 where
  pub matched : List RuleRef
  pub force_deny : Bool
  pub needs_approval : Bool

abbrev pub flag : Scan → RuleVerdict → Scan
flag s deny = record s { force_deny = true }
flag s require_approval = record s { needs_approval = true }

-- The body of the loop: a rule that matches is recorded and sets its flag.
unfoldable pub scan_rule : Rule → Action → Scan → Scan
scan_rule r action s =
    if matches r.match_clause action
    then flag (record s { matched = s.matched ++ record { id = r.id; matched = true } ∷ [] })
        r.verdict
    else s

-- The loop, in document order.
unfoldable pub scan : List Rule → Action → Scan → Scan
unfolding scan_rule
scan [] action s = s
scan (r ∷ rs) action s = scan rs action (scan_rule r action s)

-- `InMemoryConstitution::evaluate`
unfoldable pub evaluate : List Rule → Constitution
evaluate rules action =
    let s =
      scan rules action (record { matched = []; force_deny = false; needs_approval = false }) in
    record {
      matched_rules = s.matched;
      override_decision =
          if s.force_deny then some denied else if s.needs_approval then some pending else none;
    }
