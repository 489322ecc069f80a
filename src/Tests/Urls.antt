-- ===== src/Tests/Urls.antt =====
-- URLs that are their hosts, as an instance of the libraries that crates/boardproof-tools-http uses.
use uniclaw.Prelude.{
  ℕ, List, [], ◌∷◌, ltb, ◌==◌, ◌&&◌, if◌then◌else◌, ite, if_pos, if_neg, Bool-cases, ◌≡◌, refl, ap,
  subst, ◌⊎◌, inl, inr, Option, none, some, Text, Text-discrete, text, arith,
}
use uniclaw.Fetch.{Ipv4Addr, Ipv6Addr, IpAddr, v4, v6}
use uniclaw.Fetch.Hosts.{Host, domain, ipv4, ipv6}
use uniclaw.Fetch.Ranges.{IsIpv4, IsIp}

-- A spelling of the addresses of version 4: a mark and the four bytes.
abbrev pub spelled : Ipv4Addr → Text
spelled x = b'4' ∷ x.a ∷ x.b ∷ x.c ∷ x.d ∷ []

abbrev four_bytes : List ℕ → Option IpAddr
four_bytes (a ∷ b ∷ c ∷ d ∷ []) =
    if ltb a 256 && ltb b 256 && ltb c 256 && ltb d 256
    then some (v4 (record { a = a; b = b; c = c; d = d }))
    else none
four_bytes _ = none

abbrev pub read_ip : Text → Option IpAddr
read_ip [] = none
read_ip (x ∷ s) = if x == b'4' then four_bytes s else none

-- What four bytes are read as.
four_bytes-cases :
    (s : List ℕ)
    → (four_bytes s ≡ none)
      ⊎ ((x : Ipv4Addr) × (four_bytes s ≡ some (v4 x))
          × (s ≡ x.a ∷ x.b ∷ x.c ∷ x.d ∷ [])
          × IsIpv4 x)
four_bytes-cases [] = inl refl
four_bytes-cases (a ∷ []) = inl refl
four_bytes-cases (a ∷ b ∷ []) = inl refl
four_bytes-cases (a ∷ b ∷ c ∷ []) = inl refl
four_bytes-cases (a ∷ b ∷ c ∷ d ∷ []) =
    elim (Bool-cases (ltb a 256 && ltb b 256 && ltb c 256 && ltb d 256)) [
      | inr h ↦ inl (rw h refl)
      | inl h ↦ inr (
        record { a = a; b = b; c = c; d = d },
        rw h refl,
        refl,
        record {
          a_in = ground (arith, h);
          b_in = ground (arith, h);
          c_in = ground (arith, h);
          d_in = ground (arith, h);
        },
      )
    ]
four_bytes-cases (a ∷ b ∷ c ∷ d ∷ e ∷ s) = inl refl

read_ip-cases :
    (u : Text)
    → (read_ip u ≡ none) ⊎ ((x : Ipv4Addr) × (read_ip u ≡ some (v4 x)) × (u ≡ spelled x) × IsIpv4 x)
read_ip-cases [] = inl refl
read_ip-cases (m ∷ s) = elim (Bool-cases (m == b'4')) [
  | inr h ↦ inl (rw h refl)
  | inl h ↦ elim (four_bytes-cases s) [
    | inl e ↦ inl (rw (h, e) refl)
    | inr (x, e, f, i) ↦ inr (x, rw (h, e) refl, ground (arith, h, f), i)
  ]
]

pub read_spelled : (x : Ipv4Addr) → IsIpv4 x → read_ip (spelled x) ≡ some (v4 x)
read_spelled x h = ground arith

pub read_in_range : (s : Text) → IsIp (read_ip s)
read_in_range s = elim (read_ip-cases s) [ inl e ↦ rw e tt | inr (x, e, f, i) ↦ rw e i ]

abbrev loopback : Ipv6Addr
loopback = record { s0 = 0; s1 = 0; s2 = 0; s3 = 0; s4 = 0; s5 = 0; s6 = 0; s7 = 1 }

abbrev kind : Text → Option IpAddr → Host
kind u (some (v4 a)) = ipv4 a
kind u (some (v6 a)) = domain u
kind u none = domain u

-- A URL is a host: the loopback of version 6, an address of version 4, or a name.
abbrev pub host_in : Text → Host
host_in u = ite (Text-discrete u (text "[::1]")) (ipv6 loopback) (kind u (read_ip u))

host_in-cases :
    (u : Text)
    → ((u ≡ text "[::1]") × (host_in u ≡ ipv6 loopback))
      ⊎ ((x : Ipv4Addr) × (host_in u ≡ ipv4 x) × (u ≡ spelled x) × IsIpv4 x)
      ⊎ (host_in u ≡ domain u)
host_in-cases u = elim (Text-discrete u (text "[::1]")) [
  | yes e ↦ inl (e, rw (if_pos _ e) refl)
  | no n ↦ elim (read_ip-cases u) [
    | inl e ↦ inr (inr (rw (if_neg _ n, e) refl))
    | inr (x, e, f, i) ↦ inr (inl (x, rw (if_neg _ n, e) refl, f, i))
  ]
]

pub hosted :
    (u : Text) → ◌≡◌ {A = Option Host} (some (host_in u)) none → ◌≡◌ {A = Option Text} (some u) none
hosted u h = absurd (ground (arith, h))

some_inv : {A : Type 0} {x y : A} → some x ≡ some y → x ≡ y
some_inv h = cc

pub domain_is :
    (u d : Text) → some (host_in u) ≡ some (domain d) → ◌≡◌ {A = Option Text} (some u) (some d)
domain_is u d h =
    let k = some_inv h in
    elim (host_in-cases u) [ inl (_, e) ↦ cc | inr (inl (x, e, f, i)) ↦ cc | inr (inr e) ↦ cc ]

pub v4_is :
    (u : Text) (x : Ipv4Addr)
    → some (host_in u) ≡ some (ipv4 x)
    → (◌≡◌ {A = Option Text} (some u) (some (spelled x))) × IsIpv4 x
v4_is u x h =
    let k = some_inv h in
    elim (host_in-cases u) [
      | inl (_, e) ↦ cc
      | inr (inl (y, e, f, i)) ↦
          let same : y ≡ x = cc in
          subst (λ z. (◌≡◌ {A = Option Text} (some u) (some (spelled z))) × IsIpv4 z) same
            (ap some f, i)
      | inr (inr e) ↦ cc
    ]

pub v6_is :
    (u : Text) (x : Ipv6Addr)
    → some (host_in u) ≡ some (ipv6 x)
    → ◌≡◌ {A = Option Text} (some u) (some (text "[::1]"))
v6_is u x h =
    let k = some_inv h in
    elim (host_in-cases u) [
      | inl (f, e) ↦ ap some f
      | inr (inl (y, e, f, i)) ↦ cc
      | inr (inr e) ↦ cc
    ]
