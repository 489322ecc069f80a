-- ===== src/Tests/Routes.antt =====
-- The theorems on the router (crates/boardproof-router) and on the routes of crates/boardproof-host
-- at concrete inputs.
use uniclaw.Prelude.{
  ℕ, ◌≡◌, ◌≢◌, refl, ◌⊎◌, ◌↔◌, [], ◌∷◌, ◌++◌, List, Option, none, some, Result, ok, err, arith,
  Text, text, if◌then◌else◌, decimal, inl, inr,
}
use uniclaw.Receipt.{Digest, Receipt}
use uniclaw.Receipt
use uniclaw.Receipt.Hex.{AllBytes, IsDigest, to_hex}
use uniclaw.Receipt.Crypto.{content_id, canonicalize_for_schema, verify}
use uniclaw.Receipt.Crypto
use uniclaw.Kernel.Proposals.{handle_proposal}
use uniclaw.Kernel.Machine.{handle}
use uniclaw.Host.Tracking.{Collides}
use uniclaw.Host.Resolutions.{taken}
use uniclaw.Host.Lookup.{
  get_receipt, client_has_etag, quoted, immutable, not_modified, found,
  get_receipt-receipt_response,
}
use uniclaw.Kernel.{
  KernelEvent, evaluate_proposal, mint, read_clock, ApprovalDecision, Proposal, pending_approval,
  record_tool_execution, ToolExecution,
}
use uniclaw.Kernel.Machine.Authority.{outcome}
use uniclaw.Store.{get_by_id, position, append, check, push, nth}
use uniclaw.Host.{Server, ApiError, handle_event, store, drive, ed25519_signer}
use uniclaw.Host.Serving.{InStep, CollidesAt, handle_event_lem}
use uniclaw.Host.Requests.{parse_digest, receipt_response}
use uniclaw.Host.ToolExecutions.{
  ToolExecutionRequest, execution_request, post_tool_execution, post_tool_execution_lem,
}
use uniclaw.Host.Auth.{AuthConfig, with_token, admitted, Presents, admitted_iff}
use uniclaw.Router.{RouterError, router_error, evaluate_with_routing}
use uniclaw.Router.Cli.{CliApprovalRouter, max_prompt_retries, route}
use uniclaw.Router.Asking.{Asked, route-Asked}
use uniclaw.Router.Routing.{after, resolved, routing-cases}
use uniclaw.Tests.{
  lib, kernel, server, pay, call_tool, propose, pad, signer-IsHonest, server-InStep,
}

-- An operator who says yes, at a terminal that takes everything.
abbrev terminal : CliApprovalRouter
terminal = record {
  line = λ n. ok (text "Yes" ++ 10 ∷ []);
  lines_read = 0;
  accepts = λ n. ok tt;
  writes = 0;
  output = [];
}

abbrev payment : Proposal
payment = propose pay Receipt.allowed

abbrev pending : Receipt
pending = (outcome lib kernel payment).receipt

abbrev quote_text : Text → Text
quote_text s = (34 ∷ s) ++ 34 ∷ []

abbrev Answer : Type 0
Answer = Result RouterError ApprovalDecision × CliApprovalRouter

abbrev at_terminal : CliApprovalRouter → Receipt → Proposal → Answer
at_terminal c r p = route lib quote_text c r p

route-Asked_example : Asked max_prompt_retries terminal (at_terminal terminal pending payment)
route-Asked_example = route-Asked lib quote_text terminal pending payment

routing-cases_example :
    ((outcome lib kernel payment).kind ≢ pending_approval
      × (evaluate_with_routing lib at_terminal kernel terminal payment ≡ (
        ok (outcome lib kernel payment),
        after lib at_terminal kernel terminal payment signer-IsHonest,
        terminal,
      )))
    ⊎ (((outcome lib kernel payment).kind ≡ pending_approval)
        × (((e : RouterError) × (c : CliApprovalRouter) × (at_terminal terminal pending payment
                ≡ (err e, c))
              × (evaluate_with_routing lib at_terminal kernel terminal payment ≡ (
                err (router_error e),
                after lib at_terminal kernel terminal payment signer-IsHonest,
                c,
              )))
            ⊎ ((d : ApprovalDecision) × (c : CliApprovalRouter) × (at_terminal terminal pending
                    payment
                  ≡ (ok d, c))
                × (evaluate_with_routing lib at_terminal kernel terminal payment ≡ (
                  ok (resolved lib at_terminal kernel terminal payment signer-IsHonest d).0,
                  (resolved lib at_terminal kernel terminal payment signer-IsHonest d).1,
                  c,
                )))))
routing-cases_example = routing-cases lib at_terminal kernel terminal payment signer-IsHonest

-- The server after a tool's action that was allowed.
abbrev tool_event : KernelEvent
tool_event = evaluate_proposal (propose call_tool Receipt.allowed)

abbrev called : Server
called = (handle_event lib server tool_event).1

abbrev call_receipt : Receipt
call_receipt = (outcome lib kernel (propose call_tool Receipt.allowed)).receipt

no_collision : ¬ CollidesAt lib server tool_event
unfolding Collides
no_collision (r, _, (i, p, at, _, _)) = absurd (ground (arith, at))

call_handled : handle lib kernel tool_event ≡ (
  ok (handle_proposal lib kernel (propose call_tool Receipt.allowed)).0,
  (handle_proposal lib kernel (propose call_tool Receipt.allowed)).1,
)
unfolding handle
call_handled = refl

called-InStep : InStep lib called
called-InStep = elim (handle_event_lem lib server tool_event server-InStep (omega arith)) [
  | inl (_, _, _, next, _) ↦ next
  | inr (inl (x, same)) ↦ absurd (taken lib server tool_event x _ _ (omega arith) call_handled same)
  | inr (inr c) ↦ absurd (no_collision c)
]

called_count : called.kernel.state.sequence ≡ 1
unfolding handle_event drive handle store append check handle_proposal mint read_clock
    ed25519_signer Crypto.sign Receipt.PublicKey-discrete Receipt.Digest-discrete verify position
called_count = refl

call_stored : nth called.log.receipts 0 ≡ some call_receipt
unfolding handle_event drive handle store append check handle_proposal mint read_clock
    ed25519_signer Crypto.sign Receipt.PublicKey-discrete Receipt.Digest-discrete verify position
    push
call_stored = refl

call_id : content_id lib call_receipt ≡ record { bytes = pad 32 (48 ∷ []) }
unfolding content_id canonicalize_for_schema handle_proposal mint read_clock ed25519_signer
    Crypto.sign decimal
call_id = refl

call_id-IsDigest : IsDigest (content_id lib call_receipt)
call_id-IsDigest = rw call_id (record { bytes_in_range = ground arith; full = refl })

-- The tool failed.
abbrev report : ToolExecutionRequest
report = record {
  allowed_receipt_id = to_hex (content_id lib call_receipt);
  output_hash = none;
  error = some (text "no route to host");
  secrets_used = [];
  redaction = none;
}

post_tool_execution_lem_example :
    ((e : ToolExecution) × (d : Digest) × (r : Receipt) × (execution_request lib quote_text called
          report
        ≡ ok e)
      × (parse_digest report.allowed_receipt_id (text "allowed_receipt_id") ≡ ok d)
      × ((post_tool_execution lib quote_text called report).0 ≡ ok (receipt_response lib r))
      × (get_by_id (post_tool_execution lib quote_text called report).1.log (content_id lib r)
          ≡ some r)
      × (get_by_id (post_tool_execution lib quote_text called report).1.log d
          ≡ some e.allowed_receipt)
      × InStep lib (post_tool_execution lib quote_text called report).1)
    ⊎ ((x : ApiError) × (execution_request lib quote_text called report ≡ err x)
        × (post_tool_execution lib quote_text called report ≡ (err x, called)))
    ⊎ ((e : ToolExecution) × (execution_request lib quote_text called report ≡ ok e)
        × CollidesAt lib called (record_tool_execution e))
post_tool_execution_lem_example =
    post_tool_execution_lem lib quote_text called report called-InStep (omega (arith, called_count))

abbrev token : List ℕ
token = pad 32 (7 ∷ [])

abbrev secured : AuthConfig
secured = record { bearer_token = some token }

abbrev header : Text
header = text "Bearer " ++ to_hex (record { bytes = token })

token-AllBytes : AllBytes token
token-AllBytes = ground arith

token_accepted : with_token token ≡ ok secured
unfolding with_token
token_accepted = refl

admitted_iff_example :
    (admitted some secured (some header) ≡ ok tt)
    ↔ ((h : Text) × (some header ≡ some h) × Presents some token token-AllBytes h)
admitted_iff_example = admitted_iff some token token-AllBytes secured (some header) token_accepted

-- The client shows the receipt's tag, marked as weak.
abbrev shown : Option Text
shown = some (text "W/" ++ quoted (to_hex (content_id lib call_receipt)))

get_receipt-receipt_response_example :
    (hash : Text) × ((receipt_response lib call_receipt).receipt_url ≡ text "/receipts/" ++ hash)
    × (get_receipt some called.log hash shown ≡ (
        if client_has_etag some shown (quoted hash)
        then not_modified (quoted hash) immutable
        else found (quoted hash) immutable call_receipt))
get_receipt-receipt_response_example =
    get_receipt-receipt_response some lib called.log 0 call_receipt shown called-InStep.sound
      call_stored call_id-IsDigest
