-- ===== src/Tests/Resolutions.antt =====
-- The theorems on the answers to a pending receipt (crates/boardproof-host/src/api.rs) at concrete
-- requests.
use uniclaw.Prelude.{
  ◌+◌, ◌≡◌, refl, ◌⊎◌, inl, inr, ok, some, arith, text, Text-discrete, decimal, ℕ_discrete,
}
use uniclaw.Constitution.{evaluate, scan, matches}
use uniclaw.Receipt.{Receipt, Digest}
use uniclaw.Receipt
use uniclaw.Receipt.Hex.{to_hex, to_hex_bytes, from_hex, from_hex_pairs}
use uniclaw.Receipt.Crypto.{content_id, canonicalize_for_schema, verify}
use uniclaw.Receipt.Crypto
use uniclaw.Kernel.{KernelEvent, evaluate_proposal, mint, read_clock}
use uniclaw.Kernel.Proposals.{handle_proposal, judge}
use uniclaw.Kernel.Machine.{handle}
use uniclaw.Kernel.Machine.Authority.{outcome}
use uniclaw.Store.{get_by_id, position, append, check, push}
use uniclaw.Host.{Server, store, handle_event, drive, ed25519_signer}
use uniclaw.Host.Tracking.{Collides}
use uniclaw.Host.Serving.{InStep, CollidesAt, handle_event_lem}
use uniclaw.Host.Requests.{parse_digest, receipt_response}
use uniclaw.Host.Resolutions.{
  ResolveApprovalRequest, ResolveOutcome, resolving, post_resolve_approval,
  post_resolve_approval_lem, resolved_twice, taken,
}
use uniclaw.Tests.{lib, kernel, server, pay, propose, server-InStep}

abbrev payment_event : KernelEvent
payment_event = evaluate_proposal (propose pay Receipt.allowed)

-- The server after a payment that must wait.
abbrev waiting : Server
waiting = (handle_event lib server payment_event).1

abbrev waiting_receipt : Receipt
waiting_receipt = (outcome lib kernel (propose pay Receipt.allowed)).receipt

abbrev waiting_id : Digest
waiting_id = content_id lib waiting_receipt

abbrev refusal : ResolveApprovalRequest
refusal = record { principal = text "bob"; answer = ResolveOutcome.denied }

abbrev consent : ResolveApprovalRequest
consent = record { principal = text "bob"; answer = ResolveOutcome.approved }

event_driven : (drive lib server payment_event).0 ≡ ok waiting_receipt
unfolding drive handle
event_driven = refl

waiting_found : get_by_id waiting.log waiting_id ≡ some waiting_receipt
unfolding handle_event drive handle store append check handle_proposal mint read_clock
    ed25519_signer Crypto.sign Receipt.PublicKey-discrete Receipt.Digest-discrete verify position
    get_by_id push content_id canonicalize_for_schema decimal ℕ_discrete
waiting_found = refl

waiting_count : waiting.kernel.state.sequence ≡ 1
unfolding handle_event drive handle store append check handle_proposal mint read_clock
    ed25519_signer Crypto.sign Receipt.PublicKey-discrete Receipt.Digest-discrete verify position
waiting_count = refl

no_collision : ¬ CollidesAt lib server payment_event
unfolding Collides
no_collision (r, _, (i, p, at, _, _)) = absurd (ground (arith, at))

payment_handled : handle lib kernel payment_event ≡ (
  ok (handle_proposal lib kernel (propose pay Receipt.allowed)).0,
  (handle_proposal lib kernel (propose pay Receipt.allowed)).1,
)
unfolding handle
payment_handled = refl

waiting-InStep : InStep lib waiting
waiting-InStep = elim (handle_event_lem lib server payment_event server-InStep (omega arith)) [
  | inl (_, _, _, next, _) ↦ next
  | inr (inl (x, same)) ↦
      absurd (taken lib server payment_event x _ _ (omega arith) payment_handled same)
  | inr (inr c) ↦ absurd (no_collision c)
]

waiting-pending : waiting_receipt.body.decision ≡ Receipt.pending
unfolding handle_proposal mint read_clock ed25519_signer Crypto.sign judge evaluate scan matches
    Text-discrete
waiting-pending = refl

id_parses : parse_digest (to_hex waiting_id) (text "content_id") ≡ ok waiting_id
unfolding parse_digest from_hex to_hex to_hex_bytes content_id canonicalize_for_schema
    handle_proposal mint read_clock ed25519_signer Crypto.sign decimal from_hex_pairs
id_parses = refl

resolved_twice_example :
    ((r q : Receipt) × ((post_resolve_approval lib waiting (to_hex waiting_id) refusal).0
        ≡ ok (receipt_response lib r))
      × ((post_resolve_approval lib
            (post_resolve_approval lib waiting (to_hex waiting_id) refusal).1
            (to_hex waiting_id)
            consent).0
          ≡ ok (receipt_response lib q)))
    ⊎ CollidesAt lib waiting (resolving waiting_receipt refusal)
    ⊎ CollidesAt lib
        (post_resolve_approval lib waiting (to_hex waiting_id) refusal).1
        (resolving waiting_receipt consent)
resolved_twice_example =
    resolved_twice lib waiting (to_hex waiting_id) refusal consent waiting_id waiting_receipt
      waiting-InStep (omega (arith, waiting_count)) id_parses waiting_found waiting-pending

post_resolve_approval_lem_example :
    ((r : Receipt) × ((post_resolve_approval lib waiting (to_hex waiting_id) consent).0
        ≡ ok (receipt_response lib r))
      × (get_by_id
            (post_resolve_approval lib waiting (to_hex waiting_id) consent).1.log
            (content_id lib r)
          ≡ some r)
      × (get_by_id (post_resolve_approval lib waiting (to_hex waiting_id) consent).1.log waiting_id
          ≡ some waiting_receipt)
      × InStep lib (post_resolve_approval lib waiting (to_hex waiting_id) consent).1
      × ((post_resolve_approval lib waiting (to_hex waiting_id) consent).1.kernel.state.sequence
          ≡ waiting.kernel.state.sequence + 1))
    ⊎ CollidesAt lib waiting (resolving waiting_receipt consent)
post_resolve_approval_lem_example =
    post_resolve_approval_lem lib waiting (to_hex waiting_id) consent waiting_id waiting_receipt
      waiting-InStep (omega (arith, waiting_count)) id_parses waiting_found waiting-pending
