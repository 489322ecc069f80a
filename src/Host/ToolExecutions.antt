-- ===== src/Host/ToolExecutions.antt =====
-- `POST /v1/tool-executions` of crates/boardproof-host/src/api.rs.
use uniclaw.Prelude.{
  ℕ, ◌<◌, ◌≡◌, refl, ◌∙◌, ◌⊎◌, inl, inr, arith, Result-cases, true, List, [], ◌∷◌, ◌++◌, map,
  Option, none, some, Result, ok, err, ite, if◌then◌else◌, Text, text, starts_with,
}
use uniclaw.Budget.{u64_max}
use uniclaw.Receipt.{Digest, Receipt, RedactionReport, RuleMatch, Decision-discrete}
use uniclaw.Receipt
use uniclaw.Receipt.Crypto.{Foreign, content_id}
use uniclaw.Kernel.{
  Kernel, KernelOutcome, ToolExecution, record_tool_execution, unbounded, zero_digest,
}
use uniclaw.Kernel.Machine.{handle}
use uniclaw.Kernel.Machine.Gates.{IsAnchored, execution_gated}
use uniclaw.Store.{get_by_id}
use uniclaw.Tools.{ToolError, failed, ToolOutput}
use uniclaw.Host.{Server, ApiError, bad_request, conflict, not_found, handle_event}
use uniclaw.Host.Requests.{ReceiptResponse, receipt_response, responded, parse_digest, responded-eq}
use uniclaw.Host.Resolutions.{
  debug_decision, IsChain-verified, place, taken, event-keeps, refound, content_id_at,
}
use uniclaw.Host.Serving.{InStep, CollidesAt, handle_event_lem}

pub record RuleMatchWire : Type 0 where
  pub rule_id : Text
  pub count : ℕ

pub record RedactionWire : Type 0 where
  pub redacted_output_hash : Text
  pub matches : List RuleMatchWire
  pub stack_hash : Text

pub record ToolExecutionRequest : Type 0 where
  pub allowed_receipt_id : Text
  pub output_hash : Option Text
  pub error : Option Text
  pub secrets_used : List Text
  pub redaction : Option RedactionWire

infixl 5 ◌>>=◌ ◌>>◌
abbrev ◌>>=◌ : {A B : Type 0} → Result ApiError A → (A → Result ApiError B) → Result ApiError B
ok a >>= f = f a
err e >>= f = err e

abbrev ◌>>◌ : {B : Type 0} → Result ApiError (Unit {0}) → Result ApiError B → Result ApiError B
m >> k = m >>= λ _. k

-- Exactly one of the two is set.
abbrev pub exactly_one : Option Text → Option Text → Result ApiError (Unit {0})
exactly_one (some h) (some m) =
    err (bad_request (text "exactly one of output_hash or error must be set, not both"))
exactly_one none none = err (bad_request (text "exactly one of output_hash or error must be set"))
exactly_one (some h) none = ok tt
exactly_one none (some m) = ok tt

abbrev or_empty : Option Text → Text
or_empty none = []
or_empty (some m) = m

-- What the tool did, by the caller's account.
unfoldable pub reported : ToolExecutionRequest → Result ApiError (Result ToolError ToolOutput)
reported req = elim req.output_hash [
  | some hash_hex ↦ do
    output_hash ← parse_digest hash_hex (text "output_hash")
    ok (
        ok (record {
          bytes = [];
          output_hash = output_hash;
          metadata = record { secrets_used = req.secrets_used };
        }))
  | none ↦ ok (err (failed (or_empty req.error)))
]

abbrev from_wire : RuleMatchWire → RuleMatch
from_wire m = record { rule_id = m.rule_id; count = m.count }

unfoldable pub redacted : Option RedactionWire → Result ApiError (Option RedactionReport)
redacted none = ok none
redacted (some r) = do
  redacted_output_hash ← parse_digest r.redacted_output_hash (text "redaction.redacted_output_hash")
  stack_hash ← parse_digest r.stack_hash (text "redaction.stack_hash")
  ok (
      some (record {
        redacted_output_hash = redacted_output_hash;
        matches = map from_wire r.matches;
        stack_hash = stack_hash;
      }))

-- The event's content: the receipt, the proposal rebuilt from it, and the two parts of the report.
unfoldable pub execution_of : ToolExecutionRequest → Receipt → Result ApiError ToolExecution
execution_of req allowed_receipt = do
  result ← reported req
  redaction ← redacted req.redaction
  ok (record {
    allowed_receipt = allowed_receipt;
    original_proposal =
        unbounded allowed_receipt.body.action Receipt.allowed
          allowed_receipt.body.constitution_rules allowed_receipt.body.provenance;
    result = result;
    redaction = redaction;
  })

-- `{:?}` of a text is a parameter: it escapes by tables of Unicode.
module _ (lib : Foreign) (debug_text : Text → Text) where
  -- The tests on the receipt that was found.
  unfoldable pub check_allowed : Text → Receipt → Result ApiError (Unit {0})
  check_allowed id r =
      ite (Decision-discrete r.body.decision Receipt.allowed)
        (if starts_with (text "tool.") r.body.action.kind
          then ok tt
          else err (
              conflict (
                text "receipt "
                ++ (id
                    ++ (text " action.kind "
                        ++ (debug_text r.body.action.kind
                            ++ (text " does not start with "
                                ++ (34 ∷ text "tool." ++ 34 ∷ []))))))))
        (err (
          conflict (
            text "receipt "
            ++ (id
                ++ (text " is in state "
                    ++ (debug_decision r.body.decision ++ text ", not Allowed"))))))

  abbrev found_or : Text → Option Receipt → Result ApiError Receipt
  found_or id none = err (not_found (text "no receipt with content_id " ++ id))
  found_or id (some r) = ok r

  -- Everything up to the event.
  unfoldable pub execution_request : Server → ToolExecutionRequest → Result ApiError ToolExecution
  execution_request s req = do
    allowed_id ← parse_digest req.allowed_receipt_id (text "allowed_receipt_id")
    exactly_one req.output_hash req.error
    allowed_receipt ← found_or req.allowed_receipt_id (get_by_id s.log allowed_id)
    check_allowed req.allowed_receipt_id allowed_receipt
    execution_of req allowed_receipt

  unfoldable pub post_tool_execution :
      Server → ToolExecutionRequest → Result ApiError ReceiptResponse × Server
  post_tool_execution s req = elim (execution_request s req) [
    | err e ↦ (err e, s)
    | ok execution ↦ responded lib (handle_event lib s (record_tool_execution execution))
  ]

  -- A chain of tests that ends well passed its first.
  bind_inv :
      {A B : Type 0} (m : Result ApiError A) (f : A → Result ApiError B) {b : B}
      → (m >>= f) ≡ ok b
      → (a : A) × (m ≡ ok a) × (f a ≡ ok b)
  bind_inv (ok a) f h = (a, refl, h)
  bind_inv (err e) f h = cc

  check_allowed-ok :
      (id : Text) (r : Receipt)
      → check_allowed id r ≡ ok tt
      → (r.body.decision ≡ Receipt.allowed) × (starts_with (text "tool.") r.body.action.kind ≡ true)
  unfolding check_allowed
  check_allowed-ok id r h = (ground (arith, h), ground (arith, h))

  execution_of-eq :
      (req : ToolExecutionRequest) (r : Receipt) (e : ToolExecution)
      → execution_of req r ≡ ok e
      → (e.allowed_receipt ≡ r) × (e.original_proposal.action ≡ r.body.action)
  unfolding execution_of
  execution_of-eq req r e h =
      let (result, _, h₁) = bind_inv (reported req) _ h in
      let (redaction, _, h₂) = bind_inv (redacted req.redaction) _ h₁ in
      (ground (arith, h₂), ground (arith, h₂))

  found_or-ok : (id : Text) (o : Option Receipt) (r : Receipt) → found_or id o ≡ ok r → o ≡ some r
  found_or-ok id none r h = absurd (ground (arith, h))
  found_or-ok id (some x) r h = ground (arith, h)

  -- What a request that passes the tests is about.
  record IsAbout (s : Server) (req : ToolExecutionRequest) (e : ToolExecution) : Type 0 where
    id : Digest
    parsed : parse_digest req.allowed_receipt_id (text "allowed_receipt_id") ≡ ok id
    found : get_by_id s.log id ≡ some e.allowed_receipt
    is_allowed : e.allowed_receipt.body.decision ≡ Receipt.allowed
    is_tool : starts_with (text "tool.") e.allowed_receipt.body.action.kind ≡ true
    same_action : e.original_proposal.action ≡ e.allowed_receipt.body.action

  request-IsAbout :
      (s : Server) (req : ToolExecutionRequest) (e : ToolExecution)
      → execution_request s req ≡ ok e
      → IsAbout s req e
  unfolding execution_request
  request-IsAbout s req e h =
      let (id, parsed, h₁) =
        bind_inv (parse_digest req.allowed_receipt_id (text "allowed_receipt_id")) _ h in
      let (_, _, h₂) = bind_inv (exactly_one req.output_hash req.error) _ h₁ in
      let (r, there, h₃) = bind_inv (found_or req.allowed_receipt_id (get_by_id s.log id)) _ h₂ in
      let (_, checked, h₄) = bind_inv (check_allowed req.allowed_receipt_id r) _ h₃ in
      let (same, action) = execution_of-eq req r e h₄ in
      let (is_allowed, is_tool) = check_allowed-ok req.allowed_receipt_id r checked in
      record {
        id = id;
        parsed = parsed;
        found = rw same (found_or-ok req.allowed_receipt_id (get_by_id s.log id) r there);
        is_allowed = rw same is_allowed;
        is_tool = rw same is_tool;
        same_action = rw same action;
      }

  recorded :
      (s : Server) (e : ToolExecution)
      → IsAnchored lib s.kernel e
      → (o : KernelOutcome) × (k : Kernel) × (handle lib s.kernel (record_tool_execution e)
          ≡ (ok o, k))
  recorded s e a = elim (execution_gated lib s.kernel e) [
    | inl (_, h) ↦ (_, _, h)
    | inr (refused, _, _) ↦ absurd (refused a)
  ]

  posted_execution :
      (s : Server) (req : ToolExecutionRequest) (e : ToolExecution)
      → execution_request s req ≡ ok e
      → post_tool_execution s req ≡ responded lib (handle_event lib s (record_tool_execution e))
  unfolding post_tool_execution
  posted_execution s req e h = rw (h, post_tool_execution) refl

  -- A report that passes the handler's tests is answered, by a server in step whose sequence number
  -- is below the largest u64, with the description of a receipt that the log then returns under its
  -- content id; the server stays in step, and the log still returns the allowed receipt under the id
  -- that was given, unless the receipt that is minted shares its content id with one of the log that
  -- has another sequence number. A report that does not pass is answered by an error and changes
  -- nothing.
  pub post_tool_execution_lem :
      (s : Server) (req : ToolExecutionRequest)
      → InStep lib s
      → s.kernel.state.sequence < u64_max
      → ((e : ToolExecution) × (d : Digest) × (r : Receipt) × (execution_request s req ≡ ok e)
          × (parse_digest req.allowed_receipt_id (text "allowed_receipt_id") ≡ ok d)
          × ((post_tool_execution s req).0 ≡ ok (receipt_response lib r))
          × (get_by_id (post_tool_execution s req).1.log (content_id lib r) ≡ some r)
          × (get_by_id (post_tool_execution s req).1.log d ≡ some e.allowed_receipt)
          × InStep lib (post_tool_execution s req).1)
        ⊎ ((x : ApiError) × (execution_request s req ≡ err x)
            × (post_tool_execution s req ≡ (err x, s)))
        ⊎ ((e : ToolExecution) × (execution_request s req ≡ ok e)
            × CollidesAt lib s (record_tool_execution e))
  post_tool_execution_lem s req step room = elim (Result-cases (execution_request s req)) [
    | inr (x, h) ↦ inr (inl (x, h, unfold post_tool_execution in rw (h, post_tool_execution) refl))
    | inl (e, h) ↦
        let about = request-IsAbout s req e h in
        let event = record_tool_execution e in
        let answer = handle_event lib s event in
        let (i, at, here) = place lib s.log about.id e.allowed_receipt about.found in
        let same_id : content_id lib e.allowed_receipt ≡ about.id =
          content_id_at lib s.log about.id e.allowed_receipt i step.sound at here in
        let (o, k, handled) = recorded s e (record {
          verified = IsChain-verified lib 0 i zero_digest s.log.receipts _ step.sound.chain here;
          ours = step.sound.pinned i e.allowed_receipt here ∙ step.tracks.issuer;
          is_allowed = about.is_allowed;
          is_tool = about.is_tool;
          same_action = about.same_action;
        }) in
        elim (handle_event_lem lib s event step room) [
          | inl (r, good, stored, next, _) ↦ inl (
              rw (posted_execution s req e h, (responded-eq lib answer).0)
                (
                  e,
                  about.id,
                  r,
                  h,
                  about.parsed,
                  (responded-eq lib answer).1 r good,
                  stored,
                  refound lib answer.1.log about.id e.allowed_receipt i next.sound same_id
                      (event-keeps lib s event e.allowed_receipt i here),
                  next,
                ))
          | inr (inl (x, same)) ↦ absurd (taken lib s event x o k room handled same)
          | inr (inr c) ↦ inr (inr (e, h, c))
        ]
  ]
