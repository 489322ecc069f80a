-- ===== src/Receipt/Hex.antt =====
-- `Digest::to_hex` and `Digest::from_hex` of crates/boardproof-receipt/src/lib.rs.
use uniclaw.Prelude.{
  ℕ, ◌+◌, ◌-◌, ◌*◌, ◌/◌, ◌%◌, ◌≤◌, ◌<◌, ◌≡◌, refl, ◌&&◌, List, [], ◌∷◌, Result, ok, err,
  Result-cases, inl, inr, leb, ◌==◌, if◌then◌else◌, arith, length, Text,
}
use uniclaw.Receipt.{Digest}

-- `HexDecodeError`
pub data HexDecodeError : Type 0 where
  invalid_length : ℕ → ℕ → HexDecodeError
  invalid_character : HexDecodeError

infixl 5 ◌>>=◌
abbrev ◌>>=◌ {ℓ κ} :
    {A : Type ℓ} {B : Type κ}
    → Result HexDecodeError A
    → (A → Result HexDecodeError B)
    → Result HexDecodeError B
ok a >>= f = f a
err e >>= f = err e

-- A nibble is below 16; the source's last arm is unreachable.
unfoldable pub hex_nib : ℕ → ℕ
hex_nib n = if leb n 9 then b'0' + n else b'a' + n - 10

unfoldable pub hex_unnib : ℕ → Result HexDecodeError ℕ
hex_unnib c =
    if leb b'0' c && leb c b'9'
    then ok (c - b'0')
    else if leb b'a' c && leb c b'f'
    then ok (c - b'a' + 10)
    else if leb b'A' c && leb c b'F'
    then ok (c - b'A' + 10)
    else err invalid_character

-- Two digits for a byte: `b >> 4` and `b & 0xf`.
unfoldable pub to_hex_bytes : List ℕ → Text
unfolding hex_nib
to_hex_bytes [] = []
to_hex_bytes (b ∷ bs) = hex_nib (b / 16) ∷ hex_nib (b % 16) ∷ to_hex_bytes bs

unfoldable pub to_hex : Digest → Text
to_hex d = to_hex_bytes d.bytes

-- The loop of `from_hex` over the pairs of characters; `(hi << 4) | lo` is a sum, as `lo < 16`.
unfoldable pub from_hex_pairs : Text → Result HexDecodeError (List ℕ)
unfolding hex_unnib
from_hex_pairs (h ∷ l ∷ rest) = do
  hi ← hex_unnib h
  lo ← hex_unnib l
  bytes ← from_hex_pairs rest
  ok ((hi * 16 + lo) ∷ bytes)
from_hex_pairs _ = ok []

unfoldable pub from_hex : Text → Result HexDecodeError Digest
from_hex s =
    if length s == 64
    then (do bytes ← from_hex_pairs s; ok (record { bytes = bytes }))
    else err (invalid_length 64 (length s))

abbrev pub AllBytes : List ℕ → Type 0
AllBytes [] = Unit
AllBytes (b ∷ bs) = (b < 256) × AllBytes bs

-- A digest as the source's type has it: 32 bytes.
pub record IsDigest (d : Digest) : Type 0 where
  pub bytes_in_range : AllBytes d.bytes
  pub full : length d.bytes ≡ 32

hex_unnib-hex_nib : (n : ℕ) → n < 16 → hex_unnib (hex_nib n) ≡ ok n
unfolding hex_unnib hex_nib
hex_unnib-hex_nib n h = ground arith

length-to_hex_bytes : (bs : List ℕ) → length (to_hex_bytes bs) ≡ 2 * length bs
unfolding to_hex_bytes
length-to_hex_bytes [] = omega arith
length-to_hex_bytes (b ∷ bs) = omega (arith, length-to_hex_bytes bs)

from_hex_pairs-cons :
    (h l : ℕ) (rest : Text)
    → from_hex_pairs (h ∷ l ∷ rest) ≡ (do
      hi ← hex_unnib h
      lo ← hex_unnib l
      bytes ← from_hex_pairs rest
      ok ((hi * 16 + lo) ∷ bytes))
unfolding from_hex_pairs
from_hex_pairs-cons h l rest = refl

to_hex_bytes-cons :
    (b : ℕ) (bs : List ℕ)
    → to_hex_bytes (b ∷ bs) ≡ hex_nib (b / 16) ∷ hex_nib (b % 16) ∷ to_hex_bytes bs
unfolding to_hex_bytes
to_hex_bytes-cons b bs = refl

from_hex_pairs-to_hex_bytes : (bs : List ℕ) → AllBytes bs → from_hex_pairs (to_hex_bytes bs) ≡ ok bs
from_hex_pairs-to_hex_bytes [] h = unfold from_hex_pairs to_hex_bytes in refl
from_hex_pairs-to_hex_bytes (b ∷ bs) h =
    rw
      (
        to_hex_bytes-cons b bs,
        from_hex_pairs-cons,
        hex_unnib-hex_nib (b / 16) (omega arith),
        hex_unnib-hex_nib (b % 16) (omega arith),
        from_hex_pairs-to_hex_bytes bs h.1,
      )
      (ground arith)

-- Parsing the hexadecimal form of a digest gives the digest back.
pub from_hex-to_hex : (d : Digest) → IsDigest d → from_hex (to_hex d) ≡ ok d
unfolding from_hex to_hex
from_hex-to_hex d h =
    let full : length (to_hex_bytes d.bytes) ≡ 64 =
      omega (arith, h.full, length-to_hex_bytes d.bytes) in
    rw (full, from_hex_pairs-to_hex_bytes d.bytes h.bytes_in_range) refl

hex_unnib-lt : (c n : ℕ) → hex_unnib c ≡ ok n → n < 16
unfolding hex_unnib
hex_unnib-lt c n h = ground arith

abbrev Parsed : Text → Result HexDecodeError (List ℕ) → Type 0
Parsed s (ok bs) = AllBytes bs × (length s < 2 * length bs + 2) × (2 * length bs ≤ length s)
Parsed s (err e) = Unit

from_hex_pairs-Parsed : (s : Text) → Parsed s (from_hex_pairs s)
from_hex_pairs-Parsed [] = unfold from_hex_pairs in omega arith
from_hex_pairs-Parsed (c ∷ []) = unfold from_hex_pairs in omega arith
from_hex_pairs-Parsed (h ∷ l ∷ rest) = rw from_hex_pairs-cons (step (from_hex_pairs-Parsed rest))
  where
    step :
        Parsed rest (from_hex_pairs rest)
        → Parsed (h ∷ l ∷ rest) (do
          hi ← hex_unnib h
          lo ← hex_unnib l
          bytes ← from_hex_pairs rest
          ok ((hi * 16 + lo) ∷ bytes))
    step ih = elim (Result-cases (hex_unnib h)) [
      | inr (e, eh) ↦ rw eh tt
      | inl (hi, eh) ↦ elim (Result-cases (hex_unnib l)) [
        | inr (e, el) ↦ rw (eh, el) tt
        | inl (lo, el) ↦ elim (Result-cases (from_hex_pairs rest)) [
          | inr (e, er) ↦ rw (eh, el, er) tt
          | inl (bs, er) ↦
              let tail : Parsed rest (ok bs) = rw er at ih in
              rw (eh, el, er)
                (
                  (omega (arith, hex_unnib-lt h hi eh, hex_unnib-lt l lo el), tail.0),
                  omega (arith, tail.1),
                  omega (arith, tail.2),
                )
        ]
      ]
    ]

-- What is parsed is a digest: 32 bytes.
pub from_hex-IsDigest : (s : Text) (d : Digest) → from_hex s ≡ ok d → IsDigest d
unfolding from_hex
from_hex-IsDigest s d h = elim (Result-cases (from_hex_pairs s)) [
  | inr (e, er) ↦ absurd (ground arith)
  | inl (bs, er) ↦
      let parsed : Parsed s (ok bs) = rw er at (from_hex_pairs-Parsed s) in
      let same : d.bytes ≡ bs = ground (arith, er) in
      let long : length s ≡ 64 = ground (arith, er) in
      record { bytes_in_range = rw same parsed.0; full = rw same (omega arith) }
]
