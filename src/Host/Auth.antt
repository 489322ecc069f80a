-- ===== src/Host/Auth.antt =====
-- The bearer token of crates/boardproof-host/src/api.rs.
use uniclaw.Prelude.{
  ℕ, ◌<◌, ◌≡◌, refl, sym, ap, ◌∙◌, ◌⊎◌, inl, inr, ◌↔◌, Bool, true, false, List, [], ◌∷◌, ◌++◌,
  Option, none, some, Result, ok, err, if◌then◌else◌, ◌==◌, ==_iff, bit_xor, bit_or,
  bit_xor-eq_zero, bit_or-eq_zero, arith, length, Text, text, decimal, strip_prefix, trim,
  Option-cases, Result-cases, Bool-cases,
}
use uniclaw.Receipt.{Digest}
use uniclaw.Receipt.Hex.{AllBytes, IsDigest, from_hex, from_hex-IsDigest}

pub record AuthConfig : Type 0 where
  pub bearer_token : Option (List ℕ)

pub data AuthConfigError : Type 0 where
  wrong_length : ℕ → AuthConfigError

-- Its `Display`
unfoldable pub auth_config_message : AuthConfigError → Text
auth_config_message (wrong_length got) =
    text "bearer token must be exactly 32 bytes (64 hex chars), got " ++ decimal got

-- `AuthConfig::with_token`
unfoldable pub with_token : List ℕ → Result AuthConfigError AuthConfig
with_token token =
    if length token == 32
    then ok (record { bearer_token = some token })
    else err (wrong_length (length token))

-- `AuthConfig::insecure`
abbrev pub insecure : AuthConfig
insecure = record { bearer_token = none }

abbrev is_some : Option (List ℕ) → Bool
is_some none = false
is_some (some token) = true

-- `AuthConfig::requires_auth`
unfoldable pub requires_auth : AuthConfig → Bool
requires_auth auth = is_some auth.bearer_token

-- The loop of `ct_eq`: every pair of bytes is looked at.
unfoldable pub differences : ℕ → List ℕ → List ℕ → ℕ
differences diff [] bs = diff
differences diff (a ∷ as') [] = diff
differences diff (a ∷ as') (b ∷ bs) = differences (bit_or diff (bit_xor a b)) as' bs

unfoldable pub ct_eq : List ℕ → List ℕ → Bool
ct_eq a b = if length a == length b then differences 0 a b == 0 else false

-- `strip_prefix("Bearer ").or_else(|| strip_prefix("bearer "))`
abbrev lower_scheme : Text → Option Text → Option Text
lower_scheme value (some rest) = some rest
lower_scheme value none = strip_prefix (text "bearer ") value

unfoldable pub bearer : Text → Option Text
bearer value = lower_scheme value (strip_prefix (text "Bearer ") value)

abbrev compared : Digest → List ℕ → Result Text (Unit {0})
compared provided expected =
    if ct_eq provided.bytes expected then ok tt else err (text "bearer token rejected")

abbrev provided_token : List ℕ → Text → Result Text (Unit {0})
provided_token expected token_str = elim (from_hex (trim token_str)) [
  | err e ↦ err (text "bearer token must be 64 hex characters")
  | ok provided ↦ compared provided expected
]

abbrev scheme : List ℕ → Option Text → Result Text (Unit {0})
scheme expected none = err (text "Authorization must be 'Bearer <hex-token>'")
scheme expected (some token_str) = provided_token expected token_str

abbrev ascii : List ℕ → Option Text → Result Text (Unit {0})
ascii expected none = err (text "Authorization header must be ASCII")
ascii expected (some value) = scheme expected (bearer value)

-- `HeaderValue::to_str` of the http library is a parameter.
module _ {Header : Type 0} (to_str : Header → Option Text) where
  abbrev from_header : List ℕ → Option Header → Result Text (Unit {0})
  from_header expected none = err (text "missing Authorization header")
  from_header expected (some header) = ascii expected (to_str header)

  abbrev against : Option (List ℕ) → Option Header → Result Text (Unit {0})
  against none header = ok tt
  against (some expected) header = from_header expected header

  -- `auth_middleware`, by the request's Authorization header: the request goes on, or it is refused
  -- with the detail.
  unfoldable pub auth_middleware : AuthConfig → Option Header → Result Text (Unit {0})
  auth_middleware auth header = against auth.bearer_token header

  -- `api_router` installs it only where a token is required.
  unfoldable pub admitted : AuthConfig → Option Header → Result Text (Unit {0})
  unfolding auth_middleware requires_auth
  admitted auth header = if requires_auth auth then auth_middleware auth header else ok tt

differences-eq_zero :
    (a b : List ℕ) (diff : ℕ)
    → AllBytes a
    → AllBytes b
    → diff < 256
    → length a ≡ length b
    → (differences diff a b ≡ 0) ↔ ((diff ≡ 0) × (a ≡ b))
unfolding differences
differences-eq_zero [] [] diff ha hb hd n = (λ h. (h, refl), λ h. h.0)
differences-eq_zero [] (y ∷ b) diff ha hb hd n = absurd (omega arith)
differences-eq_zero (x ∷ a) [] diff ha hb hd n = absurd (omega arith)
differences-eq_zero (x ∷ a) (y ∷ b) diff ha hb hd n =
    let (same, small) = bit_xor-eq_zero x y ha.0 hb.0 in
    let (both, byte) = bit_or-eq_zero diff (bit_xor x y) hd small in
    let ih = differences-eq_zero a b (bit_or diff (bit_xor x y)) ha.1 hb.1 byte (omega arith) in
    (
      λ h. ((both.0 (ih.0 h).0).0, ground (arith, same.0 (both.0 (ih.0 h).0).1, (ih.0 h).1)),
      λ h.
          let heads : x ≡ y = ground (arith, h.1) in
          let tails : a ≡ b = ground (arith, h.1) in ih.1 (both.1 (h.0, same.1 heads), tails),
    )

-- The comparison of constant time is equality.
ct_eq_iff : (a b : List ℕ) → AllBytes a → AllBytes b → (ct_eq a b ≡ true) ↔ (a ≡ b)
unfolding ct_eq
ct_eq_iff a b ha hb = elim (Bool-cases (length a == length b)) [
  | inr n ↦ (λ h. absurd (ground (arith, h, n)), λ h. absurd (ground (arith, n, ap length h)))
  | inl n ↦
      let long : length a ≡ length b = (==_iff _ _).0 n in
      let equal = differences-eq_zero a b 0 ha hb (omega arith) long in
      (
        λ h. (equal.0 ((==_iff _ 0).0 (rw n at h))).1,
        λ h. rw n ((==_iff _ 0).1 (equal.1 (refl, h))),
      )
]

strip_prefix-append : (p s : Text) → strip_prefix p (p ++ s) ≡ some s
unfolding strip_prefix
strip_prefix-append [] s = refl
strip_prefix-append (c ∷ p) s =
    let here : (c == c) ≡ true = (==_iff c c).1 refl in rw here (strip_prefix-append p s)

strip_prefix-some : (p v s : Text) → strip_prefix p v ≡ some s → v ≡ p ++ s
unfolding strip_prefix
strip_prefix-some [] v s h = ground (arith, h)
strip_prefix-some (c ∷ p) [] s h = absurd (ground (arith, h))
strip_prefix-some (c ∷ p) (d ∷ v) s h = elim (Bool-cases (c == d)) [
  | inr n ↦ absurd (ground (arith, h, n))
  | inl e ↦ let tail : v ≡ p ++ s = strip_prefix-some p v s (rw e at h) in ground (arith, e, tail)
]

-- A value with a scheme in one of the two spellings.
abbrev pub Bears : Text → Text → Type 0
Bears value token = (value ≡ text "Bearer " ++ token) ⊎ (value ≡ text "bearer " ++ token)

Bears-bearer : (value token : Text) → Bears value token → bearer value ≡ some token
unfolding bearer
Bears-bearer value token (inl e) = rw e (rw (strip_prefix-append (text "Bearer ") token) refl)
Bears-bearer value token (inr e) =
    let upper : strip_prefix (text "Bearer ") (text "bearer " ++ token) ≡ none =
      unfold strip_prefix in refl in
    rw e (rw (upper, strip_prefix-append (text "bearer ") token) refl)

bearer-Bears : (value token : Text) → bearer value ≡ some token → Bears value token
unfolding bearer
bearer-Bears value token h = elim (Option-cases (strip_prefix (text "Bearer ") value)) [
  | inr (s, e) ↦
      let same : s ≡ token = ground (arith, h, e) in
      inl (strip_prefix-some (text "Bearer ") value token (e ∙ ap some same))
  | inl e ↦ inr (strip_prefix-some (text "bearer ") value token (rw e at h))
]

module _ {Header : Type 0} (to_str : Header → Option Text) (token : List ℕ)
    (bytes : AllBytes token) where
  -- What a request must bring.
  abbrev pub Presents : Header → Type 0
  Presents h =
      (value : Text) × (s : Text) × (to_str h ≡ some value)
      × Bears value s
      × (from_hex (trim s) ≡ ok (record { bytes = token }))

  compared_iff : (d : Digest) → IsDigest d → (compared d token ≡ ok tt) ↔ (d.bytes ≡ token)
  compared_iff d is = elim (Bool-cases (ct_eq d.bytes token)) [
    | inl e ↦ (λ h. (ct_eq_iff d.bytes token is.bytes_in_range bytes).0 e, λ h. rw e refl)
    | inr n ↦ (
      λ h. absurd (ground (arith, h, n)),
      λ h. absurd (ground (arith, n, (ct_eq_iff d.bytes token is.bytes_in_range bytes).1 h)),
    )
  ]

  provided_iff :
      (s : Text)
      → (provided_token token s ≡ ok tt) ↔ (from_hex (trim s) ≡ ok (record { bytes = token }))
  provided_iff s = elim (Result-cases (from_hex (trim s))) [
    | inr (x, e) ↦ (λ h. absurd (ground (arith, h, e)), λ h. absurd (ground (arith, h, e)))
    | inl (d, e) ↦
        let same = compared_iff d (from_hex-IsDigest (trim s) d e) in
        (
          λ h.
              e
              ∙ ap ok (
                  ap (λ b. let x : Digest = record { bytes = b } in x)
                    (same.0 (rw (e, provided_token) at h))),
          λ h. rw (e, provided_token) (same.1 (ground (arith, e, h))),
        )
  ]

  header_iff : (h : Header) → (ascii token (to_str h) ≡ ok tt) ↔ Presents h
  header_iff h = elim (Option-cases (to_str h)) [
    | inl e ↦ (λ p. absurd (ground (arith, p, e)), λ p. absurd (ground (arith, e, p.2)))
    | inr (value, e) ↦ elim (Option-cases (bearer value)) [
      | inl n ↦ (
        λ p. absurd (ground (arith, p, e, n)),
        λ p.
            let (v, s, read, bears, _) = p in
            let same : v ≡ value = ground (arith, e, read) in
            absurd (ground (arith, n, Bears-bearer value s (rw same at bears))),
      )
      | inr (s, b) ↦ (
        λ p. (value, s, e, bearer-Bears value s b, (provided_iff s).0 (rw (e, b) at p)),
        λ p.
            let (v, t, read, bears, parsed) = p in
            let same : v ≡ value = ground (arith, e, read) in
            let one : t ≡ s = ground (arith, b, Bears-bearer value t (rw same at bears)) in
            rw (e, b) ((provided_iff s).1 (rw one at parsed)),
      )
    ]
  ]

  -- Where a token of 32 bytes is required, a request is let in exactly if it has an Authorization
  -- header that is text, begins with the scheme in one of the two spellings, and whose rest, trimmed,
  -- is the hexadecimal form of the token.
  pub admitted_iff :
      (auth : AuthConfig) (header : Option Header)
      → with_token token ≡ ok auth
      → (admitted to_str auth header ≡ ok tt) ↔ ((h : Header) × (header ≡ some h) × Presents h)
  unfolding admitted with_token
  admitted_iff auth header made = by_header header
    where
      set : auth.bearer_token ≡ some token
      set = ground (arith, made)

      by_header :
          (header : Option Header)
          → (admitted to_str auth header ≡ ok tt) ↔ ((h : Header) × (header ≡ some h) × Presents h)
      by_header none = (λ p. absurd (ground (arith, p, set)), λ p. absurd (ground (arith, p.1)))
      by_header (some h) = (
        λ p. (h, refl, (header_iff h).0 (rw set at p)),
        λ p.
            let (g, e, presents) = p in
            let same : h ≡ g = ground (arith, e) in
            rw set ((header_iff h).1 (rw (sym same) at presents)),
      )
