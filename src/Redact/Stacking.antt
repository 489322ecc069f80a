-- ===== src/Redact/Stacking.antt =====
-- What a stack of redactors does, from what its redactors do (crates/boardproof-redact/src).
use uniclaw.Prelude.{
  ℕ, ◌≡◌, refl, sym, ap, ◌∙◌, List, [], ◌∷◌, ◌++◌, Bool-cases, inl, inr, Text, ◌==◌, min,
}
use uniclaw.Receipt.{RuleMatch}
use uniclaw.Receipt.Crypto.{Foreign}
use uniclaw.Redact.{
  Redactor, Regexes, PatternRule, PatternRedactor, walk_stack, apply_rules, redact_stack,
  redact_pattern, hit,
}

-- The contract of the trait: bytes in which nothing matches come back as they were.
abbrev pub LeavesUnmatched : (List ℕ → List ℕ × List RuleMatch) → Type 0
LeavesUnmatched f = (b : List ℕ) → (f b).1 ≡ [] → (f b).0 ≡ b

abbrev pub run : Redactor → List ℕ → List ℕ × List RuleMatch
run r b = ((r.redact b).redacted_bytes, (r.redact b).report.matches)

abbrev pub AllLeave : List Redactor → Type 0
AllLeave [] = Unit
AllLeave (r ∷ rs) = LeavesUnmatched (run r) × AllLeave rs

append_assoc : {A : Type 0} (a b c : List A) → (a ++ b) ++ c ≡ a ++ (b ++ c)
append_assoc [] b c = refl
append_assoc (x ∷ a) b c = ap (λ t. x ∷ t) (append_assoc a b c)

append_nil : {A : Type 0} (a : List A) → a ++ [] ≡ a
append_nil [] = refl
append_nil (x ∷ a) = ap (λ t. x ∷ t) (append_nil a)

-- What was matched before stays in front.
walk_stack-matches :
    (rs : List Redactor) (b : List ℕ) (m : List RuleMatch)
    → walk_stack rs b m ≡ ((walk_stack rs b []).0, m ++ (walk_stack rs b []).1)
unfolding walk_stack
walk_stack-matches [] b m = ap (λ t. (b, t)) (sym (append_nil m))
walk_stack-matches (r ∷ rs) b m =
    let res = r.redact b in
    let here = walk_stack-matches rs res.redacted_bytes (m ++ res.report.matches) in
    let first = walk_stack-matches rs res.redacted_bytes res.report.matches in
    rw (here, first, append_assoc) refl

walk_stack-append :
    (xs ys : List Redactor) (b : List ℕ)
    → walk_stack (xs ++ ys) b [] ≡ (
      (walk_stack ys (walk_stack xs b []).0 []).0,
      (walk_stack xs b []).1 ++ (walk_stack ys (walk_stack xs b []).0 []).1,
    )
unfolding walk_stack
walk_stack-append [] ys b = refl
walk_stack-append (x ∷ xs) ys b =
    let res = x.redact b in
    let m = res.report.matches in
    let c = res.redacted_bytes in
    rw
      (
        walk_stack-matches (xs ++ ys) c m,
        walk_stack-append xs ys c,
        walk_stack-matches xs c m,
        append_assoc,
      )
      refl

append_empty : {A : Type 0} (a b : List A) → a ++ b ≡ [] → (a ≡ []) × (b ≡ [])
append_empty [] b h = (refl, h)
append_empty (x ∷ a) b h = cc

walk_stack-leaves : (rs : List Redactor) → AllLeave rs → LeavesUnmatched (λ b. walk_stack rs b [])
unfolding walk_stack
walk_stack-leaves [] all b h = refl
walk_stack-leaves (r ∷ rs) all b h =
    let res = r.redact b in
    let later = walk_stack-matches rs res.redacted_bytes res.report.matches in
    let (none_here, none_later) =
      append_empty res.report.matches _ (sym (ap (λ t. t.1) later) ∙ h) in
    ap (λ t. t.0) later
    ∙ (walk_stack-leaves rs all.1 res.redacted_bytes none_later ∙ all.0 b none_here)

-- A match, once reported, stays so.
apply_rules-extends :
    {x : Regexes} (id : Text) (rules : List (PatternRule x)) (s : Text) (m : List RuleMatch)
    → (apply_rules id rules s m).1 ≡ []
    → (m ≡ []) × ((apply_rules id rules s m).0 ≡ s)
unfolding apply_rules
apply_rules-extends id [] s m h = (h, refl)
apply_rules-extends {x} id (r ∷ rules) s m h =
    elim (Bool-cases (min (x.find_count r.regex s) 4294967295 == 0)) [
      | inl e ↦ rw e (apply_rules-extends id rules s m (rw e at h))
      | inr n ↦
          let found = m ++ hit id r.id (min (x.find_count r.regex s) 4294967295) ∷ [] in
          let gone =
            apply_rules-extends id rules (x.replace_all r.regex s r.replacement) found
              (rw n at h) in
          absurd (cons_there (append_empty m _ gone.0).1)
    ]
  where
    cons_there : {x : RuleMatch} → ¬ ((x ∷ []) ≡ [])
    cons_there e = cc

module _ (lib : Foreign) where
  -- A stack in two parts is its first part followed by its second: the bytes are those that the
  -- second part makes of the first one's, with their hash, and the matches are those of the first
  -- part and then those of the second. The stack keeps the contract, that bytes come back as they
  -- were where nothing matches, if each of its redactors does.
  pub redact_stack-append :
      (id : Text) (xs ys : List Redactor) (b : List ℕ)
      → let whole = redact_stack lib (record { id = id; redactors = xs ++ ys }) b in
        let first = redact_stack lib (record { id = id; redactors = xs }) b in
        let second = redact_stack lib (record { id = id; redactors = ys }) first.redacted_bytes in
        (whole.redacted_bytes ≡ second.redacted_bytes)
        × (whole.report.redacted_output_hash ≡ lib.blake3 second.redacted_bytes)
        × (whole.report.matches ≡ first.report.matches ++ second.report.matches)
        × (AllLeave xs → AllLeave ys → whole.report.matches ≡ [] → whole.redacted_bytes ≡ b)
  unfolding redact_stack
  redact_stack-append id xs ys b =
      let parts = walk_stack-append xs ys b in
      (
        ap (λ t. t.0) parts,
        ap (λ t. lib.blake3 t.0) parts,
        ap (λ t. t.1) parts,
        λ l k h.
            let (none_first, none_second) = append_empty _ _ (sym (ap (λ t. t.1) parts) ∙ h) in
            ap (λ t. t.0) parts
            ∙ (walk_stack-leaves ys k _ none_second ∙ walk_stack-leaves xs l b none_first),
      )

  -- The redactor of patterns keeps the contract on bytes that the decoding leaves as they are.
  redact_pattern-leaves :
      {x : Regexes} (from_utf8_lossy : List ℕ → Text) (p : PatternRedactor x) (b : List ℕ)
      → from_utf8_lossy b ≡ b
      → (redact_pattern lib from_utf8_lossy p b).report.matches ≡ []
      → (redact_pattern lib from_utf8_lossy p b).redacted_bytes ≡ b
  unfolding redact_pattern
  redact_pattern-leaves from_utf8_lossy p b valid h =
      (apply_rules-extends p.id p.rules (from_utf8_lossy b) [] h).1 ∙ valid
