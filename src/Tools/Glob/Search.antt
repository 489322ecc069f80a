-- ===== src/Tools/Glob/Search.antt =====
-- What the loop of the glob matcher of crates/boardproof-tools/src/capability.rs finds.
use mathlib.Core.List.{append_assoc, append-nil}
use uniclaw.Prelude.{
  ℕ, zero, suc, ◌+◌, ◌-◌, ◌≤◌, ◌≡◌, refl, sym, ap, ◌∙◌, subst, ◌↔◌, inl, inr, true, false, List, [],
  ◌∷◌, ◌++◌, none, some, arith, length, length-append, Text, starts_with, Bool-cases, Option-cases,
}
use uniclaw.Tools.Glob.{drop, find, ends_with, is_empty, glob_parts}

pub starts_with_sound : (p s : Text) → starts_with p s ≡ true → (q : Text) × (s ≡ p ++ q)
unfolding starts_with
starts_with_sound [] s h = (s, refl)
starts_with_sound (c ∷ p) [] h = absurd (ground arith)
starts_with_sound (c ∷ p) (d ∷ s) h =
    let head : d ≡ c = ground arith in
    let tail : starts_with p s ≡ true = ground arith in
    let (q, e) = starts_with_sound p s tail in (q, rw (head, e) refl)

pub starts_with-append : (p q : Text) → starts_with p (p ++ q) ≡ true
unfolding starts_with
starts_with-append [] q = refl
starts_with-append (c ∷ p) q = ground (arith, starts_with-append p q)

pub drop-append : (p s : Text) → drop (length p) (p ++ s) ≡ s
drop-append [] s = refl
drop-append (c ∷ p) s = drop-append p s

drop_split : (k : ℕ) (s : Text) → (p : Text) × (s ≡ p ++ drop k s)
drop_split zero s = ([], refl)
drop_split (suc k) [] = ([], refl)
drop_split (suc k) (c ∷ s) = let (p, e) = drop_split k s in (c ∷ p, ap (λ t. c ∷ t) e)

-- Of two ways to split a text, the one that splits later has the shorter rest.
later_rest : (a b c d : Text) → a ++ b ≡ c ++ d → length a ≤ length c → (m : Text) × (b ≡ m ++ d)
later_rest [] b c d e h = (c, e)
later_rest (x ∷ a) b [] d e h = absurd (omega arith)
later_rest (x ∷ a) b (y ∷ c) d e h =
    let tails : a ++ b ≡ c ++ d = ground (arith, e) in later_rest a b c d tails (omega arith)

find_sound :
    (n s : Text) (i : ℕ) → find n s ≡ some i → (p q : Text) × (s ≡ p ++ (n ++ q)) × (length p ≡ i)
unfolding find
find_sound n [] i h =
    let here : starts_with n [] ≡ true = ground arith in
    let (q, e) = starts_with_sound n [] here in ([], q, e, ground arith)
find_sound n (c ∷ s) i h = elim (Bool-cases (starts_with n (c ∷ s))) [
  | inl here ↦ let (q, e) = starts_with_sound n (c ∷ s) here in ([], q, e, ground (arith, here))
  | inr away ↦ elim (Option-cases (find n s)) [
    | inl gone ↦ absurd (ground (arith, away, gone))
    | inr (j, found) ↦
        let (p, q, e, l) = find_sound n s j found in
        let next : i ≡ suc j = ground (arith, away, found) in
        (c ∷ p, q, ap (λ t. c ∷ t) e, omega (arith, l, next))
  ]
]

find-here : (n t : Text) → starts_with n t ≡ true → find n t ≡ some 0
unfolding find
find-here n [] h = ground (arith, h)
find-here n (c ∷ s) h = ground (arith, h)

-- Where there is an occurrence, it is found, or an earlier one is.
find_complete : (n p q : Text) → (i : ℕ) × (find n (p ++ (n ++ q)) ≡ some i) × (i ≤ length p)
unfolding find
find_complete n [] q = (0, find-here n (n ++ q) (starts_with-append n q), omega arith)
find_complete n (c ∷ p) q = elim (Bool-cases (starts_with n (c ∷ (p ++ (n ++ q))))) [
  | inl here ↦ (0, ground (arith, here), omega arith)
  | inr away ↦
      let (i, found, le) = find_complete n p q in
      (suc i, ground (arith, away, found), omega (arith, le))
]

ends_with_sound : (s part : Text) → ends_with s part ≡ true → (p : Text) × (s ≡ p ++ part)
unfolding ends_with
ends_with_sound s part h =
    let (p, e) = drop_split (length s - length part) s in
    let rest : drop (length s - length part) s ≡ part = ground arith in
    (p, e ∙ ap (λ t. p ++ t) rest)

ends_with-append : (p part : Text) → ends_with (p ++ part) part ≡ true
unfolding ends_with
ends_with-append p part =
    let size : length (p ++ part) - length part ≡ length p = omega (arith, length-append p part) in
    let rest : drop (length (p ++ part) - length part) (p ++ part) ≡ part =
      ap (λ k. drop k (p ++ part)) size ∙ drop-append p part in
    ground (arith, rest, length-append p part)

-- The parts occur in the text in this order, apart, the last of them at its end.
abbrev pub Occur : List Text → Text → Type 0
Occur [] s = ⊥
Occur (last ∷ []) s = (p : Text) × (s ≡ p ++ last)
Occur (part ∷ next ∷ more) s = (p q : Text) × (s ≡ p ++ (part ++ q)) × Occur (next ∷ more) q

pub Occur-prefix : (parts : List Text) (m s : Text) → Occur parts s → Occur parts (m ++ s)
Occur-prefix [] m s h = h
Occur-prefix (last ∷ []) m s (p, e) = (m ++ p, ap (λ t. m ++ t) e ∙ sym (append_assoc m p last))
Occur-prefix (part ∷ next ∷ more) m s (p, q, e, o) =
    (m ++ p, q, ap (λ t. m ++ t) e ∙ sym (append_assoc m p (part ++ q)), o)

pub is_empty-eq : (s : Text) → is_empty s ≡ true → s ≡ []
is_empty-eq [] h = refl
is_empty-eq (c ∷ s) h = absurd (ground arith)

last-Occur :
    (last pre rest : Text)
    → (glob_parts (last ∷ []) (pre ++ rest) (length pre) ≡ true) ↔ ((p : Text) × (rest ≡ p ++ last))
unfolding glob_parts
last-Occur last pre rest = (
  λ h. elim (Bool-cases (is_empty last)) [
    | inl e ↦ (rest, sym (ap (λ t. rest ++ t) (is_empty-eq last e) ∙ append-nil rest))
    | inr full ↦ ends_with_sound rest last (ground (arith, h, full, drop-append pre rest))
  ],
  λ h.
      let (p, e) = h in
      let ending : ends_with rest last ≡ true = rw e (ends_with-append p last) in
      let size : length rest ≡ length p + length last = ap length e ∙ length-append p last in
      ground (arith, ending, size, drop-append pre rest, length-append pre rest),
)

-- A step of the loop past a part that is found.
step-eq :
    (part next : Text) (more : List Text) (pre rest p q : Text) (i : ℕ)
    → find part rest ≡ some i
    → rest ≡ p ++ (part ++ q)
    → length p ≡ i
    → glob_parts (part ∷ next ∷ more) (pre ++ rest) (length pre)
      ≡ glob_parts (next ∷ more) ((pre ++ (p ++ part)) ++ q) (length (pre ++ (p ++ part)))
unfolding glob_parts
step-eq part next more pre rest p q i found e l =
    let text_eq : pre ++ rest ≡ (pre ++ (p ++ part)) ++ q =
      ap (λ t. pre ++ t) (e ∙ sym (append_assoc p part q)) ∙ sym (append_assoc pre (p ++ part) q) in
    let cursor_eq : length pre + i + length part ≡ length (pre ++ (p ++ part)) =
      omega (arith, l, length-append pre (p ++ part), length-append p part) in
    let moved : glob_parts (part ∷ next ∷ more) (pre ++ rest) (length pre)
        ≡ glob_parts (next ∷ more) (pre ++ rest) (length pre + i + length part) =
      ground (arith, found, drop-append pre rest, length-append pre rest) in
    moved
    ∙ (ap (λ t. glob_parts (next ∷ more) t (length pre + i + length part)) text_eq
        ∙ ap (λ n. glob_parts (next ∷ more) ((pre ++ (p ++ part)) ++ q) n) cursor_eq)

missing-eq :
    (part next : Text) (more : List Text) (pre rest : Text)
    → find part rest ≡ none
    → glob_parts (part ∷ next ∷ more) (pre ++ rest) (length pre) ≡ false
unfolding glob_parts
missing-eq part next more pre rest h = ground (arith, h, drop-append pre rest)

-- What the loop decides, where the cursor stands after the text before it.
pub parts-Occur :
    (part : Text) (parts : List Text) (pre rest : Text)
    → (glob_parts (part ∷ parts) (pre ++ rest) (length pre) ≡ true) ↔ Occur (part ∷ parts) rest
parts-Occur last [] pre rest = last-Occur last pre rest
parts-Occur part (next ∷ more) pre rest = elim (Option-cases (find part rest)) [
  | inl gone ↦ (
    λ h. absurd (ground (arith, missing-eq part next more pre rest gone, h)),
    λ h.
        let (p, q, e, _) = h in
        let (i, found, _) = find_complete part p q in
        absurd (ground (arith, gone, ap (find part) e, found)),
  )
  | inr (i, found) ↦
      let (p, q, e, l) = find_sound part rest i found in
      let step = step-eq part next more pre rest p q i found e l in
      let ih = parts-Occur next more (pre ++ (p ++ part)) q in
      (
        λ h. (p, q, e, ih.0 (sym step ∙ h)),
        λ h.
            let (p', q', e', o) = h in
            let (j, found', le) = find_complete part p' q' in
            let first : i ≡ j = ground (arith, found, ap (find part) e', found') in
            let splits : (p ++ part) ++ q ≡ (p' ++ part) ++ q' =
              append_assoc p part q ∙ (sym e ∙ (e' ∙ sym (append_assoc p' part q'))) in
            let (m, longer) =
              later_rest (p ++ part) q (p' ++ part) q' splits
                (omega (arith, l, le, first, length-append p part, length-append p' part)) in
            step
            ∙ ih.1 (subst (Occur (next ∷ more)) (sym longer) (Occur-prefix (next ∷ more) m q' o)),
      )
]
