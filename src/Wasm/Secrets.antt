-- ===== src/Wasm/Secrets.antt =====
-- The names of secrets without duplicates (crates/boardproof-tools-wasm/src/host.rs, `secrets_used`).
use uniclaw.Prelude.{
  ◌≡◌, refl, sym, subst, arith, ◌↔◌, ◌⊎◌, inl, inr, true, Bool-cases, List, [], ◌∷◌, ◌++◌, Text,
  Text-discrete, if_pos, if_neg,
}
use uniclaw.Wasm.Host.{holds, deduplicate}

-- A name is one of a list's.
abbrev pub Among : Text → List Text → Type 0
Among x [] = ⊥
Among x (y ∷ ys) = (y ≡ x) ⊎ Among x ys

abbrev pub NoDuplicates : List Text → Type 0
NoDuplicates [] = Unit
NoDuplicates (x ∷ xs) = (¬ Among x xs) × NoDuplicates xs

pub Among-append : (x : Text) (ys zs : List Text) → Among x (ys ++ zs) ↔ (Among x ys ⊎ Among x zs)
Among-append x [] zs = (inr, λ s. elim s [ inl e ↦ absurd e | inr a ↦ a ])
Among-append x (y ∷ ys) zs =
    let (to, from) = Among-append x ys zs in
    (
      λ s. elim s [
        | inl e ↦ inl (inl e)
        | inr a ↦ elim (to a) [ inl b ↦ inl (inr b) | inr b ↦ inr b ]
      ],
      λ s. elim s [
        | inl (inl e) ↦ inl e
        | inl (inr a) ↦ inr (from (inl a))
        | inr a ↦ inr (from (inr a))
      ],
    )

holds_lem : (seen : List Text) (s : Text) → (holds seen s ≡ true) ↔ Among s seen
unfolding holds
holds_lem [] s = (λ h. absurd (ground arith), λ a. absurd a)
holds_lem (t ∷ ts) s = elim (Text-discrete t s) [
  | yes e ↦ (λ h. inl e, λ a. rw (if_pos (Text-discrete t s) e) refl)
  | no n ↦
      let (to, from) = holds_lem ts s in
      (
        λ h. inr (to (rw (if_neg (Text-discrete t s) n) at h)),
        λ a. rw (if_neg (Text-discrete t s) n) (elim a [ inl e ↦ absurd (n e) | inr b ↦ from b ]),
      )
]

NoDuplicates-snoc :
    (xs : List Text) (s : Text) → ¬ Among s xs → NoDuplicates xs → NoDuplicates (xs ++ s ∷ [])
NoDuplicates-snoc [] s n d = (λ a. a, tt)
NoDuplicates-snoc (x ∷ xs) s n d = (
  λ a. elim ((Among-append x xs (s ∷ [])).0 a) [
    | inl b ↦ d.0 b
    | inr (inl e) ↦ n (inl (sym e))
    | inr (inr b) ↦ b
  ],
  NoDuplicates-snoc xs s (λ a. n (inr a)) d.1,
)

pub deduplicate_lem :
    (seen ss : List Text)
    → NoDuplicates seen
    → NoDuplicates (deduplicate seen ss)
      × ((x : Text) → Among x (deduplicate seen ss) ↔ (Among x seen ⊎ Among x ss))
unfolding deduplicate
deduplicate_lem seen [] d = (d, λ x. (inl, λ s. elim s [ inl a ↦ a | inr b ↦ absurd b ]))
deduplicate_lem seen (s ∷ ss) d = elim (Bool-cases (holds seen s)) [
  | inl h ↦
      let (clean, same) = deduplicate_lem seen ss d in
      rw h (
        clean,
        λ x. (
          λ a. elim ((same x).0 a) [ inl b ↦ inl b | inr b ↦ inr (inr b) ],
          λ a. elim a [
            | inl b ↦ (same x).1 (inl b)
            | inr (inl e) ↦
                (same x).1 (inl (subst (λ (y : Text). Among y seen) e ((holds_lem seen s).0 h)))
            | inr (inr b) ↦ (same x).1 (inr b)
          ],
        ),
      )
  | inr h ↦
      let fresh : ¬ Among s seen = λ a. absurd (ground (arith, h, (holds_lem seen s).1 a)) in
      let (clean, same) = deduplicate_lem (seen ++ s ∷ []) ss (NoDuplicates-snoc seen s fresh d) in
      rw h (
        clean,
        λ x.
            let (to, from) = Among-append x seen (s ∷ []) in
            (
              λ a. elim ((same x).0 a) [
                | inl b ↦ elim (to b) [
                  | inl c ↦ inl c
                  | inr (inl e) ↦ inr (inl e)
                  | inr (inr c) ↦ absurd c
                ]
                | inr b ↦ inr (inr b)
              ],
              λ a. elim a [
                | inl b ↦ (same x).1 (inl (from (inl b)))
                | inr (inl e) ↦ (same x).1 (inl (from (inr (inl e))))
                | inr (inr b) ↦ (same x).1 (inr b)
              ],
            ),
      )
]
