-- ===== src/Host/Requests.antt =====
-- `POST /v1/proposals` of crates/boardproof-host/src/api.rs.
use uniclaw.Prelude.{
  ℕ, ◌<◌, ◌≡◌, refl, sym, ap, ◌∙◌, ◌⊎◌, inl, inr, [], ◌++◌, Option, some, Result, ok, err,
  Result-cases, arith, Text, text, decimal,
}
use uniclaw.Budget.{u64_max}
use uniclaw.Receipt.{Digest, Action, Decision, Receipt, ReceiptBody}
use uniclaw.Receipt
use uniclaw.Receipt.Hex.{
  HexDecodeError, invalid_length, invalid_character, to_hex, to_hex_bytes, from_hex,
}
use uniclaw.Receipt.Crypto.{Foreign, content_id}
use uniclaw.Kernel.{Kernel, KernelEvent, KernelError, evaluate_proposal, unbounded}
use uniclaw.Kernel.Machine.{handle}
use uniclaw.Store.{get_by_id}
use uniclaw.Store.Verifies.{append-cases}
use uniclaw.Host.{Server, ApiError, bad_request, map_kernel_error, drive, store, handle_event}
use uniclaw.Host.Serving.{InStep, CollidesAt, handle_event-cases, handle_event_lem}

pub record ActionWire : Type 0 where
  pub kind : Text
  pub target : Text
  pub input_hash : Text

pub record ProposeRequest : Type 0 where
  pub action : ActionWire

pub record ReceiptResponse : Type 0 where
  pub decision : Text
  pub content_id : Text
  pub receipt_url : Text
  pub issuer : Text
  pub sequence : ℕ
  pub schema_version : ℕ
  pub key_id : Option Text

-- The detail of a digest that does not parse.
abbrev hex_detail : Text → HexDecodeError → Text
hex_detail field (invalid_length expected got) =
    field ++ (text ": expected " ++ (decimal expected ++ (text " hex chars, got " ++ decimal got)))
hex_detail field invalid_character = field ++ text ": non-hex character"

unfoldable pub parse_digest : Text → Text → Result ApiError Digest
parse_digest s field = elim (from_hex s) [
  | ok d ↦ ok d
  | err e ↦ err (bad_request (hex_detail field e))
]

unfoldable pub parse_action : ActionWire → Result ApiError Action
parse_action wire = elim (parse_digest wire.input_hash (text "action.input_hash")) [
  | ok d ↦ ok (record { kind = wire.kind; target = wire.target; input_hash = d })
  | err e ↦ err e
]

unfoldable pub decision_str : Decision → Text
decision_str Receipt.allowed = text "allowed"
decision_str Receipt.denied = text "denied"
decision_str Receipt.approved = text "approved"
decision_str Receipt.pending = text "pending"

module _ (lib : Foreign) where
  unfoldable pub receipt_response : Receipt → ReceiptResponse
  receipt_response r = record {
    decision = decision_str r.body.decision;
    content_id = to_hex (content_id lib r);
    receipt_url = text "/receipts/" ++ to_hex (content_id lib r);
    issuer = to_hex_bytes r.issuer.bytes;
    sequence = r.body.merkle_leaf.sequence;
    schema_version = r.body.schema_version;
    key_id = r.body.key_id;
  }

  abbrev pub proposed : Action → KernelEvent
  proposed action = evaluate_proposal (unbounded action Receipt.allowed [] [])

  abbrev pub responded : Result ApiError Receipt × Server → Result ApiError ReceiptResponse × Server
  responded (ok r, s) = (ok (receipt_response r), s)
  responded (err e, s) = (err e, s)

  unfoldable pub post_proposal : Server → ProposeRequest → Result ApiError ReceiptResponse × Server
  post_proposal s req = elim (parse_action req.action) [
    | err e ↦ (err e, s)
    | ok action ↦ responded (handle_event lib s (proposed action))
  ]

  pub responded-eq :
      (p : Result ApiError Receipt × Server)
      → ((responded p).1 ≡ p.1)
        × ((r : Receipt) → p.0 ≡ ok r → (responded p).0 ≡ ok (receipt_response r))
  responded-eq (ok q, s) = (refl, λ r h. ground (arith, h))
  responded-eq (err e, s) = (refl, λ r h. absurd (ground (arith, h)))

  posted :
      (s : Server) (req : ProposeRequest) (a : Action)
      → parse_action req.action ≡ ok a
      → post_proposal s req ≡ responded (handle_event lib s (proposed a))
  unfolding post_proposal
  posted s req a h = rw (h, post_proposal) refl

  driven_ok :
      (s : Server) (a : Action) (x : KernelError)
      → drive lib s (proposed a) ≡ (err (map_kernel_error x), s)
      → ⊥
  unfolding drive handle
  driven_ok s a x h = ground arith

  pub store-kernel : (s : Server) (r : Receipt) → (store lib s r).1.kernel ≡ s.kernel
  unfolding store
  store-kernel s r = elim (append-cases lib s.log r) [
    | inl (_, e) ↦ rw (e, store) refl
    | inr (_, e) ↦ rw (e, store) refl
  ]

  accepted :
      (s : Server) (a : Action) (x : KernelError)
      → s.kernel.state.sequence < u64_max
      → handle_event lib s (proposed a) ≡ (err (map_kernel_error x), s)
      → ⊥
  accepted s a x room h = elim (handle_event-cases lib s (proposed a)) [
    | inr (y, d, _) ↦ driven_ok s a y d
    | inl (r, k', m, _, e) ↦
        let unmoved : k' ≡ s.kernel =
          sym (store-kernel (record s { kernel = k' }) r)
          ∙ ap (λ (p : Result ApiError Receipt × Server). p.1.kernel) (sym e ∙ h) in
        absurd (omega (arith, m.counted, room, ap (λ (k : Kernel). k.state.sequence) unmoved))
  ]

  -- A proposal whose hash parses is answered, by a server in step whose sequence number is below the
  -- largest u64, with the description of a receipt that the log then returns under its content id, and
  -- the server stays in step, unless the receipt that is minted shares its content id with one of
  -- the log that has another sequence number. One whose hash does not parse changes nothing.
  pub post_proposal_lem :
      (s : Server) (req : ProposeRequest)
      → InStep lib s
      → s.kernel.state.sequence < u64_max
      → ((a : Action) × (r : Receipt) × (parse_action req.action ≡ ok a)
          × ((post_proposal s req).0 ≡ ok (receipt_response r))
          × (get_by_id (post_proposal s req).1.log (content_id lib r) ≡ some r)
          × InStep lib (post_proposal s req).1)
        ⊎ ((e : ApiError) × (parse_action req.action ≡ err e) × (post_proposal s req ≡ (err e, s)))
        ⊎ ((a : Action) × (parse_action req.action ≡ ok a) × CollidesAt lib s (proposed a))
  unfolding post_proposal
  post_proposal_lem s req i room = elim (Result-cases (parse_action req.action)) [
    | inr (e, h) ↦ inr (inl (e, h, rw (h, post_proposal) refl))
    | inl (a, h) ↦ elim (handle_event_lem lib s (proposed a) i room) [
      | inl (r, answer, found, next, _) ↦
          let p = handle_event lib s (proposed a) in
          inl (
            rw (posted s req a h) (
              a,
              r,
              h,
              (responded-eq p).1 r answer,
              rw (responded-eq p).0 found,
              rw (responded-eq p).0 next,
            ))
      | inr (inl (x, same)) ↦ absurd (accepted s a x room same)
      | inr (inr c) ↦ inr (inr (a, h, c))
    ]
  ]
