-- ===== src/Prelude/Bytes.antt =====
-- `^` and `|` on bytes, checked at every pair.
use Prim.Native.Nat.{ℕ, zero, suc, ◌+◌, ◌<◌, bit_xor, bit_or}
use mathlib.Core.Path.{◌≡◌, refl}
use mathlib.Core.Logic.{◌↔◌}
use mathlib.Core.Bool.{Bool, true, ◌&&◌}
use native.Mathlib.Omega.{arith}
use uniclaw.Prelude.Tests.{ltb, ◌==◌, ==_iff, if◌then◌else◌}

-- How many of the first numbers fail a test.
unfoldable pub failures : (ℕ → Bool) → ℕ → ℕ
failures test zero = 0
failures test (suc i) = let rest = failures test i in if test i then rest else rest + 1

pub passes : (test : ℕ → Bool) (i n : ℕ) → i < n → failures test n ≡ 0 → test i ≡ true
unfolding failures
passes test i zero below none = absurd (omega (arith, below))
passes test i (suc n) below none = ground (arith, passes test i n)

-- `^` is zero just for equal bytes, `|` just for two zeros, and both stay bytes.
abbrev fine : ℕ → ℕ → Bool
fine x y =
    (if x == y then bit_xor x y == 0 else ltb 0 (bit_xor x y))
    && (if x == 0 && y == 0 then bit_or x y == 0 else ltb 0 (bit_or x y))
    && ltb (bit_xor x y) 256
    && ltb (bit_or x y) 256

-- The failures over all pairs.
abbrev row : ℕ → Bool
row x = failures (fine x) 256 == 0

all_pairs : failures row 256 ≡ 0
unfolding failures
all_pairs = refl

fine_everywhere : (x y : ℕ) → x < 256 → y < 256 → fine x y ≡ true
fine_everywhere x y hx hy =
    passes (fine x) y 256 hy ((==_iff _ 0).0 (passes row x 256 hx all_pairs))

pub bit_xor-eq_zero :
    (x y : ℕ) → x < 256 → y < 256 → ((bit_xor x y ≡ 0) ↔ (x ≡ y)) × (bit_xor x y < 256)
bit_xor-eq_zero x y hx hy =
    let h = fine_everywhere x y hx hy in
    ((λ e. ground (arith, h), λ e. ground (arith, h)), ground (arith, h))

pub bit_or-eq_zero :
    (x y : ℕ) → x < 256 → y < 256 → ((bit_or x y ≡ 0) ↔ ((x ≡ 0) × (y ≡ 0))) × (bit_or x y < 256)
bit_or-eq_zero x y hx hy =
    let h = fine_everywhere x y hx hy in
    ((λ e. ground (arith, h), λ e. ground (arith, h)), ground (arith, h))
