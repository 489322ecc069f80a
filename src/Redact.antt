-- ===== src/Redact.antt =====
-- crates/boardproof-redact/src: redactor.rs, stack.rs and pattern.rs, the redaction of a tool's
-- output and the report on it.
pub mod Stacking
use uniclaw.Prelude.{ℕ, ◌==◌, List, [], ◌∷◌, ◌++◌, min, if◌then◌else◌, Text, text, length}
use uniclaw.Receipt.{Digest, RedactionReport, RuleMatch}
use uniclaw.Receipt.Crypto.{Foreign}

pub record RedactionResult : Type 0 where
  pub redacted_bytes : List ℕ
  pub report : RedactionReport

-- The trait `Redactor`
pub record Redactor : Type 0 where
  pub id : Text
  pub redact : List ℕ → RedactionResult

pub record RedactorStack : Type 0 where
  pub id : Text
  pub redactors : List Redactor

-- The largest u32
abbrev u32_max : ℕ
u32_max = 4294967295

-- The library of regular expressions: the number of the matches in a text, and the text with each
-- of them replaced.
pub record Regexes : Type 1 where
  pub Regex : Type 0
  pub find_count : Regex → Text → ℕ
  pub replace_all : Regex → Text → Text → Text

pub record PatternRule (lib : Regexes) : Type 0 where
  pub id : Text
  pub regex : lib.Regex
  pub replacement : Text

pub record PatternRedactor (lib : Regexes) : Type 0 where
  pub id : Text
  pub rules : List (PatternRule lib)

abbrev line : Text → Text
line s = s ++ 10 ∷ []

-- The ids, a line each.
unfoldable pub id_lines : List Redactor → Text
id_lines [] = []
id_lines (r ∷ rs) = line r.id ++ id_lines rs

unfoldable pub rule_lines : {x : Regexes} → List (PatternRule x) → Text
rule_lines [] = []
rule_lines (r ∷ rs) = line r.id ++ rule_lines rs

-- `PatternRedactor::canonical_rule_bytes`
unfoldable pub canonical_rule_bytes : {x : Regexes} → PatternRedactor x → Text
canonical_rule_bytes p = line p.id ++ rule_lines p.rules

-- The loop of `RedactorStack::redact`.
unfoldable pub walk_stack : List Redactor → List ℕ → List RuleMatch → List ℕ × List RuleMatch
walk_stack [] current_bytes all_matches = (current_bytes, all_matches)
walk_stack (r ∷ rs) current_bytes all_matches =
    let res = r.redact current_bytes in
    walk_stack rs res.redacted_bytes (all_matches ++ res.report.matches)

abbrev pub hit : Text → Text → ℕ → RuleMatch
hit id rule_id count = record { rule_id = id ++ (text "::" ++ rule_id); count = count }

-- The loop of `PatternRedactor::redact`.
unfoldable pub apply_rules :
    {x : Regexes} → Text → List (PatternRule x) → Text → List RuleMatch → Text × List RuleMatch
apply_rules id [] current matches = (current, matches)
apply_rules {x} id (rule ∷ rules) current matches =
    let count = min (x.find_count rule.regex current) u32_max in
    if count == 0
    then apply_rules id rules current matches
    else apply_rules id rules (x.replace_all rule.regex current rule.replacement)
        (matches ++ hit id rule.id count ∷ [])

module _ (lib : Foreign) where
  -- `RedactorStack::stack_hash`
  unfoldable pub stack_hash : RedactorStack → Digest
  stack_hash stack = lib.blake3 (line stack.id ++ id_lines stack.redactors)

  abbrev reported : Digest → List ℕ × List RuleMatch → RedactionResult
  reported stack_hash (bytes, matches) = record {
    redacted_bytes = bytes;
    report = record {
      redacted_output_hash = lib.blake3 bytes;
      matches = matches;
      stack_hash = stack_hash;
    };
  }

  -- `RedactorStack::redact`
  unfoldable pub redact_stack : RedactorStack → List ℕ → RedactionResult
  redact_stack stack bytes = reported (stack_hash stack) (walk_stack stack.redactors bytes [])

  -- `PatternRedactor::redact`; `String::from_utf8_lossy` is a parameter.
  unfoldable pub redact_pattern :
      {x : Regexes} → (List ℕ → Text) → PatternRedactor x → List ℕ → RedactionResult
  redact_pattern from_utf8_lossy p bytes =
      reported (lib.blake3 (canonical_rule_bytes p))
        (apply_rules p.id p.rules (from_utf8_lossy bytes) [])

  -- The two as redactors.
  abbrev pub stack_redactor : RedactorStack → Redactor
  stack_redactor stack = record { id = stack.id; redact = redact_stack stack }

  abbrev pub pattern_redactor : {x : Regexes} → (List ℕ → Text) → PatternRedactor x → Redactor
  pattern_redactor from_utf8_lossy p = record {
    id = p.id;
    redact = redact_pattern from_utf8_lossy p;
  }
