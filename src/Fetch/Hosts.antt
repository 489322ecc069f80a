-- ===== src/Fetch/Hosts.antt =====
-- Which requests the HTTP tool may send (crates/boardproof-tools-http/src: lib.rs and ssrf.rs).
use uniclaw.Prelude.{
  ◌≡◌, refl, subst, ◌⊎◌, inl, inr, ◌↔◌, true, false, Bool-cases, [], ◌∷◌, ◌++◌, Option, none, some,
  ok, Text, text, arith, Option-cases,
}
use uniclaw.Tools.Capabilities.{Capability}
use uniclaw.Tools.Grants.{Grants}
use uniclaw.Secrets.{SecretValue}
use uniclaw.Fetch.{Ipv4Addr, Ipv6Addr, v4, is_disallowed_ip}
use uniclaw.Fetch.Ranges.{IsIpv4, IsIp, Listed, Listed4, number4, disallowed_ip-Listed}
use uniclaw.Fetch.Requests.{
  AuthSpec, bearer_header, HttpFetchInput, Request, Libraries, Broker, HttpFetchTool,
}

-- The authentication that goes out is the one asked for: none, or the value that the broker gives for
-- the secret's name.
abbrev pub Authorised : HttpFetchTool → Option AuthSpec → Request → Type 0
Authorised tool none r = (r.authorization ≡ none) × (r.secrets_used ≡ [])
Authorised tool (some (bearer_header name)) r =
    (b : Broker) × (v : SecretValue) × (tool.broker ≡ some b)
    × (b name ≡ ok v)
    × (r.authorization ≡ some (text "Bearer " ++ v.bytes))
    × (r.secrets_used ≡ name ∷ [])

-- `url::Host`: what the host of a URL is.
pub data Host : Type 0 where
  domain : Text → Host
  ipv4 : Ipv4Addr → Host
  ipv6 : Ipv6Addr → Host

-- What the libraries of URLs and addresses document: `Url::host_str` is the text of the host, with an
-- address of version 6 between brackets; `str::parse` reads the text of an address of version 4 as
-- that address, and no text that begins with a bracket as any; octets and segments are in their range.
pub record Hosts (net : Libraries) : Type 0 where
  pub host : net.Url → Option Host
  pub show_v4 : Ipv4Addr → Text
  pub show_v6 : Ipv6Addr → Text
  pub no_host : (u : net.Url) → host u ≡ none → net.host_str u ≡ none
  pub domain_shown : (u : net.Url) (d : Text) → host u ≡ some (domain d) → net.host_str u ≡ some d
  pub v4_shown :
      (u : net.Url) (a : Ipv4Addr)
      → host u ≡ some (ipv4 a)
      → (net.host_str u ≡ some (show_v4 a)) × IsIpv4 a
  pub v6_shown :
      (u : net.Url) (a : Ipv6Addr)
      → host u ≡ some (ipv6 a)
      → net.host_str u ≡ some (b'[' ∷ show_v6 a ++ text "]")
  pub v4_read : (a : Ipv4Addr) → IsIpv4 a → net.parse_ip (show_v4 a) ≡ some (v4 a)
  pub no_bracket : (s : Text) → net.parse_ip (b'[' ∷ s) ≡ none
  pub in_range : (s : Text) → IsIp (net.parse_ip s)

module _ (net : Libraries) (urls : Hosts net) where
  -- No address of a range that ssrf.rs lists, by version. Of version 6 nothing is asked.
  abbrev pub Outside : Host → Type 0
  Outside (domain d) = ¬ Listed (net.parse_ip d)
  Outside (ipv4 a) = ¬ Listed4 (number4 a)
  Outside (ipv6 a) = Unit

  -- The request that a tool may send for an input.
  pub record Allowed (tool : HttpFetchTool) (input : HttpFetchInput) (r : Request) : Type 0 where
    pub url : net.Url
    pub host : Host
    pub name : Text
    pub url_read : net.parse_url input.url ≡ ok url
    pub web : (net.scheme url ≡ text "http") ⊎ (net.scheme url ≡ text "https")
    pub host_read : urls.host url ≡ some host
    pub name_read : net.host_str url ≡ some name
    pub granted : Grants tool.manifest.declared_capabilities (Capability.net_connect name)
    pub outside : (tool.config.allow_private_ips ≡ true) ⊎ Outside host
    pub sent_url : r.url ≡ net.as_str url
    pub authorised : Authorised tool input.auth r

  Listed-refused :
      (name : Text) → (is_disallowed_ip net.parse_ip name ≡ false) ↔ (¬ Listed (net.parse_ip name))
  Listed-refused name =
      let (to, from) = disallowed_ip-Listed net.parse_ip name (urls.in_range name) in
      elim (Bool-cases (is_disallowed_ip net.parse_ip name)) [
        | inl h ↦ (λ e. absurd (ground (arith, h, e)), λ n. absurd (n (to h)))
        | inr h ↦ (λ e l. absurd (ground (arith, h, from l)), λ n. h)
      ]

  same_name : {u : net.Url} {x y : Text} → net.host_str u ≡ some x → net.host_str u ≡ some y → y ≡ x
  same_name h k = cc

  -- The test of the tool on the text of a host, by what the host is.
  pub refused-Outside :
      (u : net.Url) (host : Host) (name : Text)
      → urls.host u ≡ some host
      → net.host_str u ≡ some name
      → (is_disallowed_ip net.parse_ip name ≡ false) ↔ Outside host
  refused-Outside u (domain d) name h k =
      rw (same_name (urls.domain_shown u d h) k) (Listed-refused d)
  refused-Outside u (ipv4 a) name h k =
      let (shown, inside) = urls.v4_shown u a h in
      rw (same_name shown k) (
        subst (λ o. (is_disallowed_ip net.parse_ip (urls.show_v4 a) ≡ false) ↔ (¬ Listed o))
          (urls.v4_read a inside) (Listed-refused (urls.show_v4 a)))
  refused-Outside u (ipv6 a) name h k =
      let unread = urls.no_bracket (urls.show_v6 a ++ text "]") in
      rw (same_name (urls.v6_shown u a h) k)
        (λ _. tt, λ _. unfold is_disallowed_ip in rw unread refl)

  pub host_of_name :
      (u : net.Url) (name : Text)
      → net.host_str u ≡ some name
      → (host : Host) × (urls.host u ≡ some host)
  host_of_name u name k = elim (Option-cases (urls.host u)) [
    | inr found ↦ found
    | inl h ↦ absurd (ground (arith, k, urls.no_host u h))
  ]
