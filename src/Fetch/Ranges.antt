-- ===== src/Fetch/Ranges.antt =====
-- The refused addresses are those of the ranges that crates/boardproof-tools-http/src/ssrf.rs lists.
use uniclaw.Prelude.{
  ℕ, ◌+◌, ◌*◌, ◌/◌, ◌%◌, ◌<◌, ◌≤◌, ◌≡◌, refl, ap, ◌∙◌, ◌⊎◌, ◌↔◌, Bool, true, false, ◌&&◌, leb, ◌==◌,
  ==_iff, bit_and, if◌then◌else◌, arith, failures, passes, Option, none, some, Text,
}
use uniclaw.Fetch.{
  Ipv4Addr, Ipv6Addr, IpAddr, v4, v6, is_disallowed_v4, is_disallowed_v6, is_disallowed_ip, of_ip,
}

pub record IsIpv4 (x : Ipv4Addr) : Type 0 where
  pub a_in : x.a < 256
  pub b_in : x.b < 256
  pub c_in : x.c < 256
  pub d_in : x.d < 256

-- The address as one number, and a block of addresses by its first one and the power of two that it
-- holds.
abbrev pub number4 : Ipv4Addr → ℕ
number4 x = ((x.a * 256 + x.b) * 256 + x.c) * 256 + x.d

abbrev pub Within : ℕ → ℕ → ℕ → Type 0
Within first size n = (first ≤ n) × (n < first + size)

abbrev pub quad : ℕ → ℕ → ℕ → ℕ → ℕ
quad a b c d = ((a * 256 + b) * 256 + c) * 256 + d

-- The table of ranges of the file's header.
abbrev pub Listed4 : ℕ → Type 0
Listed4 n =
    Within (quad 0 0 0 0) 16777216 n
    ⊎ Within (quad 10 0 0 0) 16777216 n
    ⊎ Within (quad 100 64 0 0) 4194304 n
    ⊎ Within (quad 127 0 0 0) 16777216 n
    ⊎ Within (quad 169 254 0 0) 65536 n
    ⊎ Within (quad 172 16 0 0) 1048576 n
    ⊎ Within (quad 192 0 0 0) 256 n
    ⊎ Within (quad 192 168 0 0) 65536 n
    ⊎ Within (quad 198 18 0 0) 131072 n
    ⊎ Within (quad 224 0 0 0) 268435456 n
    ⊎ Within (quad 240 0 0 0) 268435456 n
    ⊎ (n ≡ quad 255 255 255 255)

disallowed_v4-Listed4 :
    (x : Ipv4Addr) → IsIpv4 x → (is_disallowed_v4 x ≡ true) ↔ Listed4 (number4 x)
unfolding is_disallowed_v4
disallowed_v4-Listed4 x h = (λ e. ground (arith, h, e), λ e. ground (arith, h, e))

-- The three masks, at every segment.
abbrev same : Bool → Bool → Bool
same true b = b
same false b = if b then false else true

abbrev masks_fine : ℕ → Bool
masks_fine n =
    same (bit_and n 0xFF00 == 0xFF00) (leb 0xFF00 n)
    && same (bit_and n 0xFFC0 == 0xFE80) (leb 0xFE80 n && leb n 0xFEBF)
    && same (bit_and n 0xFE00 == 0xFC00) (leb 0xFC00 n && leb n 0xFDFF)

abbrev block_fine : ℕ → Bool
block_fine i = failures (λ j. masks_fine (i * 256 + j)) 256 == 0

all_segments : failures block_fine 256 ≡ 0
unfolding failures
all_segments = refl

masks : (n : ℕ) → n < 65536 → masks_fine n ≡ true
masks n h =
    ap masks_fine {x = n} {y = n / 256 * 256 + n % 256} (omega arith)
    ∙ passes (λ j. masks_fine (n / 256 * 256 + j)) (n % 256) 256 (omega arith)
        ((==_iff _ 0).0 (passes block_fine (n / 256) 256 (omega arith) all_segments))

-- The first six segments of an address in the block of the unspecified one and the loopback.
abbrev pub Low : Ipv6Addr → Type 0
Low x = (x.s0 ≡ 0) × (x.s1 ≡ 0) × (x.s2 ≡ 0) × (x.s3 ≡ 0) × (x.s4 ≡ 0)

abbrev pub Listed6 : Ipv6Addr → Type 0
Listed6 x =
    (Low x × (x.s5 ≡ 0) × (x.s6 ≡ 0) × (x.s7 < 2))
    ⊎ ((0xFC00 ≤ x.s0) × (x.s0 ≤ 0xFDFF))
    ⊎ ((0xFE80 ≤ x.s0) × (x.s0 ≤ 0xFEBF))
    ⊎ (0xFF00 ≤ x.s0)
    ⊎ ((x.s0 ≡ 0x2001) × (x.s1 ≡ 0x0DB8))
    ⊎ (Low x
        × (x.s5 ≡ 0xFFFF)
        × Listed4
            (number4 (record { a = x.s6 / 256; b = x.s6 % 256; c = x.s7 / 256; d = x.s7 % 256 })))

pub record IsIpv6 (x : Ipv6Addr) : Type 0 where
  pub s0_in : x.s0 < 65536
  pub s1_in : x.s1 < 65536
  pub s2_in : x.s2 < 65536
  pub s3_in : x.s3 < 65536
  pub s4_in : x.s4 < 65536
  pub s5_in : x.s5 < 65536
  pub s6_in : x.s6 < 65536
  pub s7_in : x.s7 < 65536

disallowed_v6-Listed6 : (x : Ipv6Addr) → IsIpv6 x → (is_disallowed_v6 x ≡ true) ↔ Listed6 x
unfolding is_disallowed_v6
disallowed_v6-Listed6 x h =
    let m = masks x.s0 h.s0_in in
    let embedded =
      disallowed_v4-Listed4
        (record { a = x.s6 / 256; b = x.s6 % 256; c = x.s7 / 256; d = x.s7 % 256 })
        (record {
          a_in = omega (arith, h.s6_in);
          b_in = omega arith;
          c_in = omega (arith, h.s7_in);
          d_in = omega arith;
        }) in
    (λ e. ground (arith, m, embedded, e), λ e. ground (arith, m, embedded, e))

-- What a host was parsed to: no address is a host name.
abbrev pub IsIp : Option IpAddr → Type 0
IsIp none = Unit
IsIp (some (v4 x)) = IsIpv4 x
IsIp (some (v6 x)) = IsIpv6 x

abbrev pub Listed : Option IpAddr → Type 0
Listed none = ⊥
Listed (some (v4 x)) = Listed4 (number4 x)
Listed (some (v6 x)) = Listed6 x

-- A host is refused exactly if it parses to an address of four bytes, or of eight segments of 16
-- bits, that lies in one of the ranges that the file's header lists; an address of version 4 that is
-- mapped to version 6 lies in the ranges that it lies in itself.
pub disallowed_ip-Listed :
    (parse : Text → Option IpAddr) (host : Text)
    → IsIp (parse host)
    → (is_disallowed_ip parse host ≡ true) ↔ Listed (parse host)
unfolding is_disallowed_ip
disallowed_ip-Listed parse host is = by_parsed (parse host) is
  where
    by_parsed : (o : Option IpAddr) → IsIp o → (of_ip o ≡ true) ↔ Listed o
    by_parsed none i = (λ e. absurd (ground (arith, e)), λ e. absurd e)
    by_parsed (some (v4 x)) i = disallowed_v4-Listed4 x i
    by_parsed (some (v6 x)) i = disallowed_v6-Listed6 x i
