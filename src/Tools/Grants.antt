-- ===== src/Tools/Grants.antt =====
-- Which requests a set of declared capabilities grants (crates/boardproof-tools/src/capability.rs).
use uniclaw.Prelude.{◌≡◌, ◌↔◌, ◌⊎◌, inl, inr, true, List, [], ◌∷◌, arith, Bool-cases}
use uniclaw.Tools.Capabilities.{Capability, discriminant, glob, matches_request, is_granted_by}
use uniclaw.Tools.Glob.Wildcards.{Globs, glob_match-Globs}

-- The capability is of the requested variant and its pattern matches the request.
abbrev pub Covers : Capability → Capability → Type 0
Covers d requested = (discriminant d ≡ discriminant requested) × Globs (glob d) (glob requested)

-- Some declared capability covers the request.
abbrev pub Grants : List Capability → Capability → Type 0
Grants [] requested = ⊥
Grants (d ∷ ds) requested = Covers d requested ⊎ Grants ds requested

matches_request_iff :
    (d requested : Capability) → (matches_request d requested ≡ true) ↔ Covers d requested
unfolding matches_request
matches_request_iff d requested = (
  λ h. (ground arith, (glob_match-Globs (glob d) (glob requested)).0 (ground arith)),
  λ c. ground (arith, c.0, (glob_match-Globs (glob d) (glob requested)).1 c.1),
)

-- A request is granted exactly if some declared capability is of its variant and has a pattern that
-- matches it, where a star stands for any characters and every other character for itself.
pub is_granted_by-Grants :
    (declared : List Capability) (requested : Capability)
    → (is_granted_by declared requested ≡ true) ↔ Grants declared requested
unfolding is_granted_by
is_granted_by-Grants [] requested = (λ h. absurd (ground arith), λ h. absurd h)
is_granted_by-Grants (d ∷ ds) requested = elim (Bool-cases (matches_request d requested)) [
  | inl h ↦ (λ g. inl ((matches_request_iff d requested).0 h), λ g. ground (arith, h))
  | inr h ↦ (
    λ g. inr ((is_granted_by-Grants ds requested).0 (ground (arith, h, g))),
    λ g. elim g [
      | inl c ↦ absurd (ground (arith, h, (matches_request_iff d requested).1 c))
      | inr r ↦ ground (arith, h, (is_granted_by-Grants ds requested).1 r)
    ],
  )
]
