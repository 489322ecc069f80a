-- ===== src/Tools/Glob/Wildcards.antt =====
-- What the glob matcher of crates/boardproof-tools/src/capability.rs decides.
use uniclaw.Prelude.{
  ℕ, ◌≡◌, ◌≢◌, refl, sym, ap, ◌∙◌, subst, ◌↔◌, ◌⊎◌, inl, inr, true, false, List, [], ◌∷◌, ◌++◌,
  arith, ◌==◌, length, Text, starts_with, Bool-cases,
}
use uniclaw.Tools.Glob.{star, drop, push_front, split_star, glob_parts, glob_first, glob_match}
use uniclaw.Tools.Glob.Search.{
  drop-append, Occur, parts-Occur, starts_with_sound, starts_with-append,
}

-- A star stands for any characters, every other character for itself.
pub data Globs : Text → Text → Type 0 where
  done : Globs [] []
  skip : {p s : Text} → Globs p s → Globs (star ∷ p) s
  take : {p s : Text} {c : ℕ} → Globs (star ∷ p) s → Globs (star ∷ p) (c ∷ s)
  same : {p s : Text} {c : ℕ} → c ≢ star → Globs p s → Globs (c ∷ p) (c ∷ s)

-- The first part starts the text and the others occur in the rest.
abbrev Fits : List Text → Text → Type 0
Fits [] s = ⊥
Fits (only ∷ []) s = s ≡ only
Fits (first ∷ next ∷ more) s = (q : Text) × (s ≡ first ++ q) × Occur (next ∷ more) q

Occur-Fits :
    (part : Text) (parts : List Text) (s : Text)
    → Occur (part ∷ parts) s ↔ ((m q : Text) × (s ≡ m ++ q) × Fits (part ∷ parts) q)
Occur-Fits part [] s = (
  λ h. let (p, e) = h in (p, part, e, refl),
  λ h. let (m, q, e, f) = h in (m, e ∙ ap (λ t. m ++ t) f),
)
Occur-Fits part (next ∷ more) s = (
  λ h. let (p, q, e, o) = h in (p, part ++ q, e, (q, refl, o)),
  λ h. let (m, t, e, (q, f, o)) = h in (m, q, e ∙ ap (λ t. m ++ t) f, o),
)

push_front-Fits :
    (c : ℕ) (part : Text) (parts : List Text) (s : Text)
    → Fits (push_front c (part ∷ parts)) s ↔ ((t : Text) × (s ≡ c ∷ t) × Fits (part ∷ parts) t)
push_front-Fits c part [] s =
    (λ h. (part, h, refl), λ h. let (t, e, f) = h in e ∙ ap (λ t. c ∷ t) f)
push_front-Fits c part (next ∷ more) s = (
  λ h. let (q, e, o) = h in (part ++ q, e, (q, refl, o)),
  λ h. let (t, e, (q, f, o)) = h in (q, e ∙ ap (λ t. c ∷ t) f, o),
)

split_star-cons : (p : Text) → (part : Text) × (parts : List Text) × (split_star p ≡ part ∷ parts)
unfolding split_star
split_star-cons [] = ([], [], refl)
split_star-cons (c ∷ cs) =
    let (part, parts, e) = split_star-cons cs in
    elim (Bool-cases (c == star)) [
      | inl h ↦ ([], split_star cs, ground (arith, h))
      | inr h ↦ (c ∷ part, parts, ground (arith, h, e))
    ]

skips : (p m s : Text) → Globs p s → Globs (star ∷ p) (m ++ s)
skips p [] s g = skip g
skips p (c ∷ m) s g = take (skips p m s g)

split_star-star : (p : Text) → split_star (star ∷ p) ≡ [] ∷ split_star p
unfolding split_star
split_star-star p = refl

split_star-other : (c : ℕ) (p : Text) → c ≢ star → split_star (c ∷ p) ≡ push_front c (split_star p)
unfolding split_star
split_star-other c p h = ground (arith, h)

-- The parts after a star.
starred-Fits :
    (p s : Text)
    → Fits (split_star (star ∷ p)) s ↔ ((m q : Text) × (s ≡ m ++ q) × Fits (split_star p) q)
starred-Fits p s =
    let (part, parts, e) = split_star-cons p in
    let whole : split_star (star ∷ p) ≡ [] ∷ part ∷ parts =
      split_star-star p ∙ ap (λ ps. [] ∷ ps) e in
    rw (whole, e)
      (
        λ h.
            let (q, eq, o) = h in
            let (m, t, f, fits) = (Occur-Fits part parts q).0 o in (m, t, eq ∙ f, fits),
        λ h. (s, refl, (Occur-Fits part parts s).1 h),
      )

other-Fits :
    (c : ℕ) (p s : Text)
    → c ≢ star
    → Fits (split_star (c ∷ p)) s ↔ ((t : Text) × (s ≡ c ∷ t) × Fits (split_star p) t)
other-Fits c p s h =
    let (part, parts, e) = split_star-cons p in
    let whole : split_star (c ∷ p) ≡ push_front c (part ∷ parts) =
      split_star-other c p h ∙ ap (push_front c) e in
    rw (whole, e) (push_front-Fits c part parts s)

Fits-Globs : (p s : Text) → Fits (split_star p) s → Globs p s
unfolding split_star
Fits-Globs [] s h = rw h done
Fits-Globs (c ∷ p) s h = elim (Bool-cases (c == star)) [
  | inl e ↦
      let is_star : c ≡ star = ground arith in
      let (m, q, f, fits) =
        (starred-Fits p s).0 (subst (λ d. Fits (split_star (d ∷ p)) s) is_star h) in
      rw (is_star, f) (skips p m q (Fits-Globs p q fits))
  | inr e ↦
      let no_star : c ≢ star = λ x. ground arith in
      let (t, f, fits) = (other-Fits c p s no_star).0 h in rw f (same no_star (Fits-Globs p t fits))
]

Globs-Fits : (p s : Text) → Globs p s → Fits (split_star p) s
unfolding split_star
Globs-Fits _ _ done = refl
Globs-Fits _ _ (skip {p} {s} g) = (starred-Fits p s).1 ([], s, refl, Globs-Fits p s g)
Globs-Fits _ _ (take {p} {s} {c} g) =
    let (m, q, e, f) = (starred-Fits p s).0 (Globs-Fits (star ∷ p) s g) in
    (starred-Fits p (c ∷ s)).1 (c ∷ m, q, ap (λ t. c ∷ t) e, f)
Globs-Fits _ _ (same {p} {s} {c} h g) = (other-Fits c p (c ∷ s) h).1 (s, refl, Globs-Fits p s g)

split_star-only : (p only : Text) → split_star p ≡ only ∷ [] → only ≡ p
unfolding split_star
split_star-only [] only h = ground (arith, h)
split_star-only (c ∷ p) only h =
    let (part, parts, e) = split_star-cons p in
    elim (Bool-cases (c == star)) [
      | inl x ↦ absurd (ground (arith, x, h, e))
      | inr x ↦
          let no_more : parts ≡ [] = ground (arith, x, h, e) in
          let head : only ≡ c ∷ part = ground (arith, x, h, e) in
          head ∙ ap (λ t. c ∷ t) (split_star-only p part (e ∙ ap (λ ps. part ∷ ps) no_more))
    ]

starts_with-cases : (p s : Text) → ((q : Text) × (s ≡ p ++ q)) ⊎ (starts_with p s ≡ false)
starts_with-cases p s = elim (Bool-cases (starts_with p s)) [
  | inl h ↦ inl (starts_with_sound p s h)
  | inr h ↦ inr h
]

first_part-Fits :
    (first next : Text) (more : List Text) (p s : Text)
    → (glob_first (first ∷ next ∷ more) p s ≡ true) ↔ Fits (first ∷ next ∷ more) s
unfolding glob_first
first_part-Fits [] next more p s = (
  λ h. (s, refl, (parts-Occur next more [] s).0 h),
  λ h. let (q, e, o) = h in (parts-Occur next more [] s).1 (subst (Occur (next ∷ more)) (sym e) o),
)
first_part-Fits (c ∷ first) next more p s = elim (starts_with-cases (c ∷ first) s) [
  | inl (q, e) ↦
      let starts : starts_with (c ∷ first) s ≡ true =
        ap (starts_with (c ∷ first)) e ∙ starts_with-append (c ∷ first) q in
      let moved : glob_parts (next ∷ more) s (length (c ∷ first))
          ≡ glob_parts (next ∷ more) ((c ∷ first) ++ q) (length (c ∷ first)) =
        ap (λ t. glob_parts (next ∷ more) t (length (c ∷ first))) e in
      let loop = parts-Occur next more (c ∷ first) q in
      (
        λ h. (q, e, loop.0 (sym moved ∙ ground (arith, starts, h))),
        λ h.
            let (q', e', o) = h in
            let rest : q' ≡ q =
              sym (drop-append (c ∷ first) q')
              ∙ (ap (drop (length (c ∷ first))) (sym e' ∙ e) ∙ drop-append (c ∷ first) q) in
            let found : glob_parts (next ∷ more) s (length (c ∷ first)) ≡ true =
              moved ∙ loop.1 (subst (Occur (next ∷ more)) rest o) in
            ground (arith, starts, found),
      )
  | inr away ↦ (
    λ h. absurd (ground (arith, away, h)),
    λ h.
        let (q, e, o) = h in
        absurd
          (ground (arith, away, ap (starts_with (c ∷ first)) e, starts_with-append (c ∷ first) q)),
  )
]

parts-Fits :
    (parts : List Text) (p s : Text)
    → split_star p ≡ parts
    → (glob_first parts p s ≡ true) ↔ Fits parts s
unfolding glob_first
parts-Fits [] p s h = let (part, parts, e) = split_star-cons p in absurd (ground (arith, h, e))
parts-Fits (only ∷ []) p s h =
    let whole : only ≡ p = split_star-only p only h in
    (λ t. ground (arith, whole), λ e. ground (arith, whole, e))
parts-Fits (first ∷ next ∷ more) p s h = first_part-Fits first next more p s

first-Fits : (p s : Text) → (glob_match p s ≡ true) ↔ Fits (split_star p) s
unfolding glob_match
first-Fits p s = parts-Fits (split_star p) p s refl

-- A pattern matches exactly the texts that it denotes: a star stands for any characters, every other
-- character for itself.
pub glob_match-Globs : (p s : Text) → (glob_match p s ≡ true) ↔ Globs p s
glob_match-Globs p s =
    (λ h. Fits-Globs p s ((first-Fits p s).0 h), λ g. (first-Fits p s).1 (Globs-Fits p s g))
