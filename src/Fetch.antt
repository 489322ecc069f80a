-- ===== src/Fetch.antt =====
-- crates/boardproof-tools-http/src/ssrf.rs: the addresses that the HTTP tool refuses.
pub mod Ranges
pub mod Requests
pub mod Hosts
pub mod Calls
pub mod Guards
use uniclaw.Prelude.{
  ℕ, ◌*◌, ◌/◌, ◌%◌, Bool, true, false, not, ◌&&◌, ◌||◌, ltb, leb, ◌==◌, bit_and, List, Option, none,
  some, if◌then◌else◌, Text,
}

pub record Ipv4Addr : Type 0 where
  pub a : ℕ
  pub b : ℕ
  pub c : ℕ
  pub d : ℕ

-- Eight segments of 16 bits.
pub record Ipv6Addr : Type 0 where
  pub s0 : ℕ
  pub s1 : ℕ
  pub s2 : ℕ
  pub s3 : ℕ
  pub s4 : ℕ
  pub s5 : ℕ
  pub s6 : ℕ
  pub s7 : ℕ

pub data IpAddr : Type 0 where
  v4 : Ipv4Addr → IpAddr
  v6 : Ipv6Addr → IpAddr

abbrev is_loopback : Ipv4Addr → Bool
is_loopback x = x.a == 127

abbrev is_private : Ipv4Addr → Bool
is_private x = x.a == 10 || (x.a == 172 && (leb 16 x.b && leb x.b 31)) || (x.a == 192 && x.b == 168)

abbrev is_link_local : Ipv4Addr → Bool
is_link_local x = x.a == 169 && x.b == 254

abbrev is_multicast : Ipv4Addr → Bool
is_multicast x = leb 224 x.a && leb x.a 239

abbrev is_unspecified : Ipv4Addr → Bool
is_unspecified x = x.a == 0 && (x.b == 0 && (x.c == 0 && x.d == 0))

abbrev is_broadcast : Ipv4Addr → Bool
is_broadcast x = x.a == 255 && (x.b == 255 && (x.c == 255 && x.d == 255))

unfoldable pub is_disallowed_v4 : Ipv4Addr → Bool
is_disallowed_v4 addr =
    if is_loopback addr || is_private addr || is_link_local addr || is_multicast addr
    then true
    else if is_unspecified addr || is_broadcast addr
    then true
    else if addr.a == 0
    then true
    else if addr.a == 100 && (leb 64 addr.b && leb addr.b 127)
    then true
    else if addr.a == 192 && (addr.b == 0 && addr.c == 0)
    then true
    else if addr.a == 198 && (addr.b == 18 || addr.b == 19)
    then true
    else if leb 240 addr.a
    then true
    else false

abbrev zero_below : Ipv6Addr → Bool
zero_below x = x.s0 == 0 && (x.s1 == 0 && (x.s2 == 0 && (x.s3 == 0 && (x.s4 == 0))))

-- `to_ipv4_mapped`
abbrev to_ipv4_mapped : Ipv6Addr → Option Ipv4Addr
to_ipv4_mapped x =
    if zero_below x && x.s5 == 0xFFFF
    then some (record { a = x.s6 / 256; b = x.s6 % 256; c = x.s7 / 256; d = x.s7 % 256 })
    else none

abbrev mapped_disallowed : Option Ipv4Addr → Bool
mapped_disallowed none = false
mapped_disallowed (some x) = is_disallowed_v4 x

abbrev ends_in : ℕ → Ipv6Addr → Bool
ends_in n x = zero_below x && (x.s5 == 0 && (x.s6 == 0 && x.s7 == n))

unfoldable pub is_disallowed_v6 : Ipv6Addr → Bool
is_disallowed_v6 addr =
    if ends_in 1 addr || ends_in 0 addr || bit_and addr.s0 0xFF00 == 0xFF00
    then true
    else if bit_and addr.s0 0xFFC0 == 0xFE80
    then true
    else if bit_and addr.s0 0xFE00 == 0xFC00
    then true
    else if addr.s0 == 0x2001 && addr.s1 == 0x0DB8
    then true
    else mapped_disallowed (to_ipv4_mapped addr)

abbrev pub of_ip : Option IpAddr → Bool
of_ip none = false
of_ip (some (v4 x)) = is_disallowed_v4 x
of_ip (some (v6 x)) = is_disallowed_v6 x

-- `str::parse::<IpAddr>` is a parameter.
unfoldable pub is_disallowed_ip : (Text → Option IpAddr) → Text → Bool
is_disallowed_ip parse host = of_ip (parse host)
