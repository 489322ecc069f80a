-- ===== src/Host/Resolutions.antt =====
-- `POST /v1/approvals/{content_id}/resolve` of crates/boardproof-host/src/api.rs.
use uniclaw.Prelude.{
  ℕ, zero, suc, ◌+◌, ◌<◌, ◌≡◌, refl, sym, ap, ◌∙◌, ◌⊎◌, inl, inr, List, [], ◌∷◌, ◌++◌, Option,
  Option-cases, none, some, Result, ok, err, arith, ite, if_pos, Text, text,
}
use uniclaw.Budget.{u64_max}
use uniclaw.Receipt.{Digest, Decision, Receipt, Decision-discrete}
use uniclaw.Receipt
use uniclaw.Receipt.Crypto.{Foreign, content_id, verify}
use uniclaw.Kernel.{
  Kernel, KernelEvent, KernelError, KernelOutcome, ApprovalDecision, approves, denies,
  resolve_approval, Approval, unbounded, zero_digest,
}
use uniclaw.Kernel.Machine.{handle}
use uniclaw.Kernel.Machine.Gates.{resolve_gated}
use uniclaw.Store.{ReceiptLog, nth, position, get_by_id, push}
use uniclaw.Store.Verifies.{IsChain, append-cases}
use uniclaw.Store.Lookup.{IsSound, nth-append_left}
use uniclaw.Host.{
  Server, ApiError, conflict, not_found, map_kernel_error, drive, store, handle_event,
}
use uniclaw.Host.Requests.{
  ReceiptResponse, receipt_response, responded, parse_digest, store-kernel, responded-eq,
}
use uniclaw.Host.Serving.{InStep, CollidesAt, handle_event-cases, handle_event_lem}

pub data ResolveOutcome : Type 0 where
  approved denied : ResolveOutcome

pub record ResolveApprovalRequest : Type 0 where
  pub principal : Text
  pub answer : ResolveOutcome

-- `From<ResolveOutcome> for ApprovalDecision`
abbrev pub from_outcome : ResolveOutcome → ApprovalDecision
from_outcome ResolveOutcome.approved = approves
from_outcome ResolveOutcome.denied = denies

-- The derived `Debug` of a decision.
abbrev pub debug_decision : Decision → Text
debug_decision Receipt.allowed = text "Allowed"
debug_decision Receipt.denied = text "Denied"
debug_decision Receipt.approved = text "Approved"
debug_decision Receipt.pending = text "Pending"

-- The event that a request makes of the pending receipt.
abbrev pub resolving : Receipt → ResolveApprovalRequest → KernelEvent
resolving pending req = resolve_approval (record {
  pending_receipt = pending;
  original_proposal =
      unbounded pending.body.action Receipt.pending pending.body.constitution_rules
        pending.body.provenance;
  response = from_outcome req.answer;
})

module _ (lib : Foreign) where
  -- What follows the lookup of the receipt.
  unfoldable pub resolve_found :
      Server
      → Text
      → ResolveApprovalRequest
      → Option Receipt
      → Result ApiError ReceiptResponse × Server
  resolve_found s id req none = (err (not_found (text "no receipt with content_id " ++ id)), s)
  resolve_found s id req (some pending) =
      ite (Decision-discrete pending.body.decision Receipt.pending)
        (responded lib (handle_event lib s (resolving pending req)))
        (
          err (
              conflict (
                text "receipt "
                ++ (id
                    ++ (text " is in state "
                        ++ (debug_decision pending.body.decision ++ text ", not Pending"))))),
          s,
        )

  unfoldable pub post_resolve_approval :
      Server → Text → ResolveApprovalRequest → Result ApiError ReceiptResponse × Server
  post_resolve_approval s id req = elim (parse_digest id (text "content_id")) [
    | err e ↦ (err e, s)
    | ok digest ↦ resolve_found s id req (get_by_id s.log digest)
  ]

  pub IsChain-verified :
      (i j : ℕ) (d : Digest) (rs : List Receipt) (p : Receipt)
      → IsChain lib i d rs
      → nth rs j ≡ some p
      → verify lib p ≡ ok tt
  IsChain-verified i j d [] p c h = absurd (ground arith)
  IsChain-verified i zero d (x ∷ rs) p c h = ap (verify lib) (ground arith) ∙ c.2
  IsChain-verified i (suc j) d (x ∷ rs) p c h =
      IsChain-verified (suc i) j x.body.merkle_leaf.leaf_hash rs p c.3 h

  -- Where the log has the receipt that it returns under an id.
  pub place :
      (log : ReceiptLog) (d : Digest) (p : Receipt)
      → get_by_id log d ≡ some p
      → (i : ℕ) × (position d log.by_id ≡ some i) × (nth log.receipts i ≡ some p)
  unfolding get_by_id
  place log d p h = elim (Option-cases (position d log.by_id)) [
    | inl e ↦ absurd (ground (arith, e))
    | inr (i, e) ↦ (i, e, rw e at h)
  ]

  -- An event that the kernel takes is not answered by its refusal.
  pub taken :
      (s : Server) (e : KernelEvent) (x : KernelError) (o : KernelOutcome) (k : Kernel)
      → s.kernel.state.sequence < u64_max
      → handle lib s.kernel e ≡ (ok o, k)
      → handle_event lib s e ≡ (err (map_kernel_error x), s)
      → ⊥
  unfolding drive
  taken s e x o k room h same = elim (handle_event-cases lib s e) [
    | inr (y, d, _) ↦ absurd (ground (arith, d, h))
    | inl (r, k', m, _, f) ↦
        let unmoved : k' ≡ s.kernel =
          sym (store-kernel lib (record s { kernel = k' }) r)
          ∙ ap (λ (p : Result ApiError Receipt × Server). p.1.kernel) (sym f ∙ same) in
        absurd (omega (arith, m.counted, room, ap (λ (k : Kernel). k.state.sequence) unmoved))
  ]

  store-keeps :
      (s : Server) (r p : Receipt) (i : ℕ)
      → nth s.log.receipts i ≡ some p
      → nth (store lib s r).1.log.receipts i ≡ some p
  unfolding store
  store-keeps s r p i h = elim (append-cases lib s.log r) [
    | inl (_, e) ↦ rw (e, store) (unfold push in nth-append_left s.log.receipts i r p h)
    | inr (_, e) ↦ rw (e, store) h
  ]

  pub event-keeps :
      (s : Server) (e : KernelEvent) (p : Receipt) (i : ℕ)
      → nth s.log.receipts i ≡ some p
      → nth (handle_event lib s e).1.log.receipts i ≡ some p
  event-keeps s e p i h = elim (handle_event-cases lib s e) [
    | inr (_, _, f) ↦ rw f h
    | inl (r, k', _, _, f) ↦ rw f (store-keeps (record s { kernel = k' }) r p i h)
  ]

  -- In a sound log the receipt of an id is found as long as it keeps its place.
  pub refound :
      (log : ReceiptLog) (d : Digest) (p : Receipt) (i : ℕ)
      → IsSound lib log
      → content_id lib p ≡ d
      → nth log.receipts i ≡ some p
      → get_by_id log d ≡ some p
  unfolding get_by_id
  refound log d p i sound same h =
      let found : position d log.by_id ≡ some i =
        ap (λ x. position x log.by_id) (sym same) ∙ sound.index.complete i p h in
      rw found h

  pub content_id_at :
      (log : ReceiptLog) (d : Digest) (p : Receipt) (i : ℕ)
      → IsSound lib log
      → position d log.by_id ≡ some i
      → nth log.receipts i ≡ some p
      → content_id lib p ≡ d
  content_id_at log d p i sound at here =
      let (q, there, same) = sound.index.sound d i at in
      let one : p ≡ q = ground (arith, here, there) in ap (content_id lib) one ∙ same

  -- The operator's answer to a pending receipt of the log.
  abbrev record_of : Receipt → ResolveApprovalRequest → Approval
  record_of p req = record {
    pending_receipt = p;
    original_proposal =
        unbounded p.body.action Receipt.pending p.body.constitution_rules p.body.provenance;
    response = from_outcome req.answer;
  }

  pending_handled :
      (s : Server) (p : Receipt) (req : ResolveApprovalRequest) (i : ℕ)
      → InStep lib s
      → nth s.log.receipts i ≡ some p
      → p.body.decision ≡ Receipt.pending
      → (o : KernelOutcome) × (k : Kernel) × (handle lib s.kernel (resolving p req) ≡ (ok o, k))
  pending_handled s p req i step h d = elim (resolve_gated lib s.kernel (record_of p req)) [
    | inl (_, e) ↦ (_, _, e)
    | inr (refused, _, _) ↦ absurd (
        refused (record {
          verified = IsChain-verified 0 i zero_digest s.log.receipts p step.sound.chain h;
          ours = step.sound.pinned i p h ∙ step.tracks.issuer;
          is_pending = d;
          same_action = refl;
        }))
  ]

  posted_resolution :
      (s : Server) (id : Text) (req : ResolveApprovalRequest) (d : Digest) (p : Receipt)
      → parse_digest id (text "content_id") ≡ ok d
      → get_by_id s.log d ≡ some p
      → p.body.decision ≡ Receipt.pending
      → post_resolve_approval s id req ≡ responded lib (handle_event lib s (resolving p req))
  unfolding post_resolve_approval resolve_found
  posted_resolution s id req d p parsed found pending =
      rw (parsed, found, post_resolve_approval)
        (unfold resolve_found in
          if_pos (Decision-discrete p.body.decision Receipt.pending) pending _ _)

  -- A request that names a pending receipt of the log is answered, by a server in step whose sequence
  -- number is below the largest u64, with the description of a receipt that the log then returns under its
  -- content id; the server stays in step, and the log still returns the pending receipt under the
  -- id that was given, unless the receipt that is minted shares its content id with one of the log
  -- that has another sequence number.
  pub post_resolve_approval_lem :
      (s : Server) (id : Text) (req : ResolveApprovalRequest) (d : Digest) (p : Receipt)
      → InStep lib s
      → s.kernel.state.sequence < u64_max
      → parse_digest id (text "content_id") ≡ ok d
      → get_by_id s.log d ≡ some p
      → p.body.decision ≡ Receipt.pending
      → ((r : Receipt) × ((post_resolve_approval s id req).0 ≡ ok (receipt_response lib r))
          × (get_by_id (post_resolve_approval s id req).1.log (content_id lib r) ≡ some r)
          × (get_by_id (post_resolve_approval s id req).1.log d ≡ some p)
          × InStep lib (post_resolve_approval s id req).1
          × ((post_resolve_approval s id req).1.kernel.state.sequence
              ≡ s.kernel.state.sequence + 1))
        ⊎ CollidesAt lib s (resolving p req)
  post_resolve_approval_lem s id req d p step room parsed found pending =
      let (i, at, here) = place s.log d p found in
      let (o, k, handled) = pending_handled s p req i step here pending in
      let answer = handle_event lib s (resolving p req) in
      let same_id : content_id lib p ≡ d = content_id_at s.log d p i step.sound at here in
      elim (handle_event_lem lib s (resolving p req) step room) [
        | inl (r, good, stored, next, n) ↦ inl (
            rw (posted_resolution s id req d p parsed found pending, (responded-eq lib answer).0)
              (
                r,
                (responded-eq lib answer).1 r good,
                stored,
                refound answer.1.log d p i next.sound same_id
                    (event-keeps s (resolving p req) p i here),
                next,
                n,
              ))
        | inr (inl (x, same)) ↦ absurd (taken s (resolving p req) x o k room handled same)
        | inr (inr c) ↦ inr c
      ]

  -- A pending receipt can be answered twice: on a server in step with two sequence numbers to spare in
  -- a u64, a second request for the same receipt, whatever the first and the second one's outcomes
  -- are, is answered with a receipt as the first one is, unless a receipt that is minted shares its
  -- content id with one of the log that has another sequence number.
  pub resolved_twice :
      (s : Server) (id : Text) (req again : ResolveApprovalRequest) (d : Digest) (p : Receipt)
      → InStep lib s
      → s.kernel.state.sequence + 1 < u64_max
      → parse_digest id (text "content_id") ≡ ok d
      → get_by_id s.log d ≡ some p
      → p.body.decision ≡ Receipt.pending
      → ((r q : Receipt) × ((post_resolve_approval s id req).0 ≡ ok (receipt_response lib r))
          × ((post_resolve_approval (post_resolve_approval s id req).1 id again).0
              ≡ ok (receipt_response lib q)))
        ⊎ CollidesAt lib s (resolving p req)
        ⊎ CollidesAt lib (post_resolve_approval s id req).1 (resolving p again)
  resolved_twice s id req again d p step room parsed found pending =
      elim (post_resolve_approval_lem s id req d p step (omega (arith, room)) parsed found
        pending) [
          | inr c ↦ inr (inl c)
          | inl (r, first, _, still, next, n) ↦
              elim (post_resolve_approval_lem (post_resolve_approval s id req).1 id again d p next
                (omega (arith, n, room)) parsed still pending) [
                  | inr c ↦ inr (inr c)
                  | inl (q, second, _, _, _, _) ↦ inl (r, q, first, second)
                ]
        ]
