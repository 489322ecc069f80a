-- ===== src/Host/Lookup.antt =====
-- The read-only routes of crates/boardproof-host/src/lib.rs: a receipt by its content hash, and the
-- liveness probe. The two static pages are left out.

use uniclaw.Prelude.{
  ℕ, Bool, ◌≡◌, refl, true, false, [], ◌∷◌, ◌++◌, Option, none, some, ok, err, ite, if◌then◌else◌,
  Text, text, Text-discrete, trim, strip_prefix, length, suc, zero,
}
use uniclaw.Receipt.{Receipt}
use uniclaw.Receipt.Hex.{
  HexDecodeError, invalid_length, invalid_character, IsDigest, to_hex, from_hex, from_hex-to_hex,
}
use uniclaw.Receipt.Crypto.{Foreign, content_id}
use uniclaw.Store.{ReceiptLog, nth, get_by_id}
use uniclaw.Store.Lookup.{IsSound}
use uniclaw.Host.Requests.{receipt_response}
use uniclaw.Host.Resolutions.{refound}

abbrev pub immutable : Text
immutable = text "public, max-age=31536000, immutable"

-- The answers of `get_receipt`, with the headers and the fields of the body that it sets.
pub data Response : Type 0 where
  bad_request : (error detail : Text) → Response
  not_modified : (etag cache_control : Text) → Response
  not_found : (cache_control error hash : Text) → Response
  found : (etag cache_control : Text) → Receipt → Response

unfoldable pub hex_error_detail : HexDecodeError → Text
hex_error_detail (invalid_length expected got) = text "hash must be 64 hex characters"
hex_error_detail invalid_character = text "hash contained a non-hex character"

-- `trim_start_matches("W/")`: at most one round for each two bytes.
strip_all : ℕ → Text → Text
strip_all zero s = s
strip_all (suc fuel) s = elim (strip_prefix (text "W/") s) [
  | none ↦ s
  | some rest ↦ strip_all fuel rest
]

unfoldable pub trim_weak : Text → Text
unfolding strip_all
trim_weak s = strip_all (length s) s

abbrev pub quoted : Text → Text
quoted s = (34 ∷ s) ++ 34 ∷ []

abbrev answer_found : Text → Text → Option Receipt → Response
answer_found hash etag none = not_found (text "no-store") (text "receipt_not_found") hash
answer_found hash etag (some r) = found etag immutable r

-- `HeaderValue::to_str` of the http library is a parameter.
module _ {Header : Type 0} (to_str : Header → Option Text) where
  abbrev value_is : Text → Option Text → Bool
  value_is etag none = false
  value_is etag (some value) = ite (Text-discrete (trim_weak (trim value)) etag) true false

  -- By the request's If-None-Match header.
  unfoldable pub client_has_etag : Option Header → Text → Bool
  client_has_etag none etag = false
  client_has_etag (some h) etag = value_is etag (to_str h)

  unfoldable pub get_receipt : ReceiptLog → Text → Option Header → Response
  get_receipt log hash_hex if_none_match = elim (from_hex hash_hex) [
    | err e ↦ bad_request (text "invalid_hash") (hex_error_detail e)
    | ok digest ↦
        if client_has_etag if_none_match (quoted (to_hex digest))
        then not_modified (quoted (to_hex digest)) immutable
        else answer_found hash_hex (quoted (to_hex digest)) (get_by_id log digest)
  ]

  -- The count that `get_healthz` gives.
  unfoldable pub get_healthz : ReceiptLog → ℕ
  get_healthz log = length log.receipts

  module _ (lib : Foreign) where
    -- Every receipt of a sound log is fetched at the URL that the answer to its request names, where
    -- its content id is of 32 bytes; only a request that shows its tag is told instead that it has
    -- not changed.
    pub get_receipt-receipt_response :
        (log : ReceiptLog) (i : ℕ) (r : Receipt) (if_none_match : Option Header)
        → IsSound lib log
        → nth log.receipts i ≡ some r
        → IsDigest (content_id lib r)
        → (hash : Text) × ((receipt_response lib r).receipt_url ≡ text "/receipts/" ++ hash)
          × (get_receipt log hash if_none_match ≡ (
              if client_has_etag if_none_match (quoted hash)
              then not_modified (quoted hash) immutable
              else found (quoted hash) immutable r))
    unfolding receipt_response get_receipt
    get_receipt-receipt_response log i r if_none_match sound at is =
        let hash = to_hex (content_id lib r) in
        let parsed : from_hex hash ≡ ok (content_id lib r) =
          from_hex-to_hex (content_id lib r) is in
        let there : get_by_id log (content_id lib r) ≡ some r =
          refound lib log (content_id lib r) r i sound refl at in
        (hash, refl, rw (parsed, there, get_receipt) refl)
