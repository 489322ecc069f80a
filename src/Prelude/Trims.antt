-- ===== src/Prelude/Trims.antt =====
-- `str::trim` and `to_ascii_lowercase` on the bytes of a text. The white space of Unicode is of one,
-- two or three bytes in UTF-8.
use Prim.Native.Nat.{ℕ, zero, suc, ◌+◌}
use mathlib.Core.Path.{◌≡◌, refl}
use mathlib.Core.Bool.{Bool, ◌&&◌, ◌||◌}
use mathlib.Core.List.{[], ◌∷◌, map, reverse}
use uniclaw.Prelude.Tests.{leb, ◌==◌, if◌then◌else◌}
use uniclaw.Prelude.Lists.{length, drop}
use uniclaw.Prelude.Texts.{Text, text}

abbrev one_byte : ℕ → Bool
one_byte a = leb 9 a && leb a 13 || a == 32

-- U+0085 and U+00A0
abbrev two_bytes : ℕ → ℕ → Bool
two_bytes a b = a == 0xC2 && (b == 0x85 || b == 0xA0)

-- U+1680, U+2000 to U+200A, U+2028, U+2029, U+202F, U+205F and U+3000
abbrev three_bytes : ℕ → ℕ → ℕ → Bool
three_bytes a b c =
    a == 0xE1 && b == 0x9A && c == 0x80
    || a == 0xE2 && b == 0x80 && (leb 0x80 c && leb c 0x8A || c == 0xA8 || c == 0xA9 || c == 0xAF)
    || a == 0xE2 && b == 0x81 && c == 0x9F
    || a == 0xE3 && b == 0x80 && c == 0x80

-- How many bytes the white space at the front has, if there is any.
abbrev front_white : Text → ℕ
front_white [] = 0
front_white (a ∷ []) = if one_byte a then 1 else 0
front_white (a ∷ b ∷ []) = if one_byte a then 1 else if two_bytes a b then 2 else 0
front_white (a ∷ b ∷ c ∷ s) =
    if one_byte a then 1 else if two_bytes a b then 2 else if three_bytes a b c then 3 else 0

-- The same at the end of a text that is given from its last byte.
abbrev back_white : Text → ℕ
back_white [] = 0
back_white (a ∷ []) = if one_byte a then 1 else 0
back_white (b ∷ a ∷ []) = if one_byte b then 1 else if two_bytes a b then 2 else 0
back_white (c ∷ b ∷ a ∷ s) =
    if one_byte c then 1 else if two_bytes b c then 2 else if three_bytes a b c then 3 else 0

-- White space is dropped until there is none; there is no more of it than bytes.
drop_white : (Text → ℕ) → ℕ → Text → Text
drop_white white zero s = s
drop_white white (suc fuel) s =
    let rest = drop_white white fuel (drop (white s) s) in if white s == 0 then s else rest

unfoldable pub trim_start : Text → Text
unfolding drop_white
trim_start s = drop_white front_white (length s) s

unfoldable pub trim_end : Text → Text
unfolding drop_white
trim_end s = reverse (drop_white back_white (length s) (reverse s))

unfoldable pub trim : Text → Text
unfolding trim_start trim_end
trim s = trim_end (trim_start s)

abbrev lowered : ℕ → ℕ
lowered c = if leb b'A' c && leb c b'Z' then c + 32 else c

unfoldable pub to_ascii_lowercase : Text → Text
to_ascii_lowercase s = map lowered s

trim_yes :
    to_ascii_lowercase (trim (0xC2 ∷ 0xA0 ∷ 32 ∷ b'Y' ∷ b'e' ∷ b'S' ∷ 13 ∷ 10 ∷ [])) ≡ text "yes"
unfolding trim to_ascii_lowercase
trim_yes = refl
