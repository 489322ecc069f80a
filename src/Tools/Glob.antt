-- ===== src/Tools/Glob.antt =====
-- `glob_match` of crates/boardproof-tools/src/capability.rs.
pub mod Search
pub mod Wildcards
use uniclaw.Prelude.{
  ℕ, zero, suc, ◌+◌, ◌-◌, Bool, true, false, ◌&&◌, List, [], ◌∷◌, Option, none, some, ltb, leb,
  ◌==◌, if◌then◌else◌, ite, length, ◌≡◌, refl, Text, Text-discrete, text, starts_with,
}

-- The code of `*`.
abbrev pub star : ℕ
star = b'*'

abbrev pub drop : ℕ → Text → Text
drop zero s = s
drop (suc n) [] = []
drop (suc n) (c ∷ cs) = drop n cs

-- A character put before the first of the parts.
abbrev pub push_front : ℕ → List Text → List Text
push_front c [] = (c ∷ []) ∷ []
push_front c (p ∷ ps) = (c ∷ p) ∷ ps

-- `str::split('*')`: one part more than there are stars.
unfoldable pub split_star : Text → List Text
split_star [] = [] ∷ []
split_star (c ∷ cs) = let rest = split_star cs in if c == star then [] ∷ rest else push_front c rest

-- `str::find`: the index of the first occurrence.
unfoldable pub find : Text → Text → Option ℕ
unfolding starts_with
find needle [] = if starts_with needle [] then some 0 else none
find needle (c ∷ cs) = elim (starts_with needle (c ∷ cs)) [
  | true ↦ some 0
  | false ↦ elim (find needle cs) [ none ↦ none | some i ↦ some (suc i) ]
]

-- `str::ends_with`
unfoldable pub ends_with : Text → Text → Bool
unfolding Text-discrete
ends_with s part =
    if ltb (length s) (length part)
    then false
    else ite (Text-discrete (drop (length s - length part) s) part) true false

abbrev pub is_empty : Text → Bool
is_empty [] = true
is_empty (c ∷ cs) = false

-- The loop from the second part on, over the parts and the cursor.
unfoldable pub glob_parts : List Text → Text → ℕ → Bool
unfolding ends_with find
glob_parts [] candidate cursor = true
glob_parts (last ∷ []) candidate cursor =
    if is_empty last
    then true
    else if ltb (length candidate) cursor
    then false
    else leb (length last) (length (drop cursor candidate))
      && ends_with (drop cursor candidate) last
glob_parts (part ∷ next ∷ more) candidate cursor =
    if ltb (length candidate) cursor then false else elim (find part (drop cursor candidate)) [
      | none ↦ false
      | some index ↦ glob_parts (next ∷ more) candidate (cursor + index + length part)
    ]

-- The first part, anchored at the start; with no `*` the match is exact.
unfoldable pub glob_first : List Text → Text → Text → Bool
unfolding glob_parts Text-discrete starts_with
glob_first [] pattern candidate = true
glob_first (only ∷ []) pattern candidate = ite (Text-discrete pattern candidate) true false
glob_first (first ∷ rest) pattern candidate =
    if is_empty first
    then glob_parts rest candidate 0
    else if starts_with first candidate
    then glob_parts rest candidate (length first)
    else false

unfoldable pub glob_match : Text → Text → Bool
unfolding glob_first split_star
glob_match pattern candidate = glob_first (split_star pattern) pattern candidate

-- The cases of the source's tests.
glob_tests :
    (glob_match (text "api.*.com") (text "api.example.com") ≡ true)
    × (glob_match (text "*.example.com") (text "example.com") ≡ false)
    × (glob_match (text "*") (text "") ≡ true)
    × (glob_match (text "a*a") (text "a") ≡ false)
unfolding glob_match
glob_tests = (refl, refl, refl, refl)
