-- ===== src/Kernel/Executions.antt =====
-- `handle_record_tool_execution` of crates/boardproof-kernel/src/kernel.rs.
use uniclaw.Prelude.{
  List, [], ◌∷◌, ◌++◌, Option, none, some, Result, ok, err, is_ok, if◌then◌else◌, ite, ◌==◌, Text,
  text, decimal, starts_with, strip_prefix,
}
use uniclaw.Receipt.{
  Digest, Action, ProvenanceEdge, RuleMatch, RedactionReport, Receipt, PublicKey-discrete,
  Decision-discrete, Action-discrete,
}
use uniclaw.Receipt
use uniclaw.Receipt.Crypto.{Foreign, verify, content_id}
use uniclaw.Tools.{ToolOutput, ToolError, error_name, message}
use uniclaw.Kernel.{
  ToolExecution, KernelOutcome, OutcomeKind, tool_executed_allowed, tool_executed_failed,
  ToolExecutionRejection, allowed_signature_invalid, allowed_issuer_mismatch,
  not_an_allowed_receipt, not_a_tool_action, KernelError, record_tool_execution_rejected, Kernel,
  zero_digest, hex32, mint, read_clock,
}

-- `strip_prefix("tool.").unwrap_or(kind)`
unfoldable pub tool_name : Text → Text
unfolding strip_prefix
tool_name kind = elim (strip_prefix (text "tool.") kind) [ none ↦ kind | some rest ↦ rest ]

abbrev pub stack_hash_of : Option RedactionReport → Option Digest
stack_hash_of none = none
stack_hash_of (some r) = some r.stack_hash

-- The hash of the redacted output, if there is a redaction.
unfoldable pub final_output_hash : ToolOutput → Option RedactionReport → Digest
final_output_hash output none = output.output_hash
final_output_hash output (some r) = r.redacted_output_hash

unfoldable pub secret_edges : Text → List Text → List ProvenanceEdge
secret_edges from [] = []
secret_edges from (s ∷ ss) =
    record { from = from; to = text "secret:" ++ s; kind = text "secret_used" }
    ∷ secret_edges from ss

-- A rule that matched nothing has no edge.
unfoldable pub match_edges : Text → List RuleMatch → List ProvenanceEdge
match_edges from [] = []
match_edges from (m ∷ ms) =
    let rest = match_edges from ms in
    if m.count == 0
    then rest
    else record {
      from = from;
      to = text "redaction:" ++ (m.rule_id ++ (text ":count=" ++ decimal m.count));
      kind = text "redaction_applied";
    }
      ∷ rest

abbrev pub redaction_edges : Text → Option RedactionReport → List ProvenanceEdge
redaction_edges from none = []
redaction_edges from (some r) = match_edges from r.matches

-- The edges after the first one.
unfoldable pub result_edges :
    Text → Digest → Result ToolError ToolOutput → Option RedactionReport → List ProvenanceEdge
unfolding final_output_hash secret_edges match_edges
result_edges from input_hash (ok output) redaction =
    record { from = from; to = text "input:" ++ hex32 input_hash; kind = text "tool_input" }
      ∷ record {
        from = from;
        to = text "output:" ++ hex32 (final_output_hash output redaction);
        kind = text "tool_output";
      }
      ∷ secret_edges from output.metadata.secrets_used
    ++ redaction_edges from redaction
result_edges from input_hash (err e) redaction =
    record {
      from = from;
      to = text "error[" ++ (error_name e ++ (text "]: " ++ message e));
      kind = text "tool_execution_failure";
    }
    ∷ []

unfoldable pub execution_kind :
    Digest → Result ToolError ToolOutput → Option RedactionReport → OutcomeKind
execution_kind input_hash (ok output) redaction =
    tool_executed_allowed input_hash (final_output_hash output redaction)
execution_kind input_hash (err e) redaction = tool_executed_failed input_hash

unfoldable pub execution_target : Text → Result ToolError ToolOutput → Text
execution_target name (ok output) = text "tool=" ++ (name ++ text " status=ok")
execution_target name (err e) =
    text "tool=" ++ (name ++ (text " status=failed kind=" ++ error_name e))

module _ (lib : Foreign) where
  -- The authenticity gate, in the order of its tests.
  unfoldable pub execution_gate : Kernel → ToolExecution → Result ToolExecutionRejection (Unit {0})
  execution_gate k e =
      if is_ok (verify lib e.allowed_receipt)
      then ite (PublicKey-discrete e.allowed_receipt.issuer k.signer.public_key)
          (ite (Decision-discrete e.allowed_receipt.body.decision Receipt.allowed)
            (if starts_with (text "tool.") e.allowed_receipt.body.action.kind
              then ite (Action-discrete e.original_proposal.action e.allowed_receipt.body.action)
                  (ok tt) (err ToolExecutionRejection.action_mismatch)
              else err not_a_tool_action)
            (err not_an_allowed_receipt))
          (err allowed_issuer_mismatch)
      else err allowed_signature_invalid

  -- The edges of the execution receipt.
  unfoldable pub execution_edges : ToolExecution → List ProvenanceEdge
  unfolding tool_name
  execution_edges e =
      let action = e.allowed_receipt.body.action in
      let from = text "receipt:" ++ hex32 (content_id lib e.allowed_receipt) in
      record {
        from = from;
        to = text "tool:" ++ tool_name action.kind;
        kind = text "tool_execution";
      }
      ∷ result_edges from action.input_hash e.result e.redaction

  unfoldable pub execute_and_mint : Kernel → ToolExecution → KernelOutcome × Kernel
  execute_and_mint k e =
      let prior = e.allowed_receipt.body.action in
      let (issued_at, k₁) = read_clock k in
      let action : Action = record {
        kind = text "$kernel/tool/executed";
        target = execution_target (tool_name prior.kind) e.result;
        input_hash = zero_digest;
      } in
      let (receipt, k₂) =
        mint lib k₁ issued_at action Receipt.allowed [] (execution_edges e)
          (stack_hash_of e.redaction) in
      (
        record {
          receipt = receipt;
          lease_after = none;
          kind = execution_kind prior.input_hash e.result e.redaction;
        },
        k₂,
      )

  unfoldable pub handle_record_tool_execution :
      Kernel → ToolExecution → Result KernelError KernelOutcome × Kernel
  handle_record_tool_execution k e = elim (execution_gate k e) [
    | err r ↦ (err (record_tool_execution_rejected r), k)
    | ok _ ↦ let (outcome, k') = execute_and_mint k e in (ok outcome, k')
  ]
