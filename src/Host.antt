-- ===== src/Host.antt =====
-- crates/boardproof-host/src: the signer (signer.rs) and the server's kernel and log (api.rs).
pub mod Tracking
pub mod Responses
pub mod Serving
pub mod Race
pub mod Interleaving
pub mod Lifecycle
pub mod Requests
pub mod Resolutions
pub mod ToolExecutions
pub mod Auth
pub mod Calendar
pub mod Lookup
pub mod Startup
use uniclaw.Prelude.{
  ℕ, ◌+◌, zero, suc, List, [], ◌∷◌, ◌++◌, Option, none, some, Result, ok, err, Text, text, decimal,
}
use uniclaw.Budget.{saturating_add, u64_max}
use uniclaw.Constitution.{Constitution}
use uniclaw.Receipt.{Digest, PublicKey, Receipt}
use uniclaw.Receipt.Crypto
use uniclaw.Receipt.Crypto.{Foreign}
use uniclaw.Kernel.{
  ApprovalRejection, pending_signature_invalid, pending_issuer_mismatch, not_a_pending_receipt,
  ToolExecutionRejection, allowed_signature_invalid, allowed_issuer_mismatch,
  not_an_allowed_receipt, not_a_tool_action, resolve_approval_rejected,
  record_tool_execution_rejected, Kernel, KernelEvent, KernelError, KernelOutcome, Signer, Clock,
  resume, new_kernel,
}
use uniclaw.Kernel.Machine.{handle}
use uniclaw.Store.{
  ReceiptLog, AppendError, out_of_order, chain_broken, signature_invalid, issuer_mismatch,
  unsupported_version, duplicate_id, last, append,
}

-- `ApiError`
pub data ApiError : Type 0 where
  bad_request not_found conflict internal : Text → ApiError

-- The derived `Debug` of the rejections.
abbrev debug_approval : ApprovalRejection → Text
debug_approval pending_signature_invalid = text "PendingSignatureInvalid"
debug_approval pending_issuer_mismatch = text "PendingIssuerMismatch"
debug_approval not_a_pending_receipt = text "NotAPendingReceipt"
debug_approval ApprovalRejection.action_mismatch = text "ActionMismatch"

abbrev debug_execution : ToolExecutionRejection → Text
debug_execution allowed_signature_invalid = text "AllowedSignatureInvalid"
debug_execution allowed_issuer_mismatch = text "AllowedIssuerMismatch"
debug_execution not_an_allowed_receipt = text "NotAnAllowedReceipt"
debug_execution not_a_tool_action = text "NotAToolAction"
debug_execution ToolExecutionRejection.action_mismatch = text "ActionMismatch"

unfoldable pub map_kernel_error : KernelError → ApiError
map_kernel_error (resolve_approval_rejected r) =
    conflict (text "approval rejected: " ++ debug_approval r)
map_kernel_error (record_tool_execution_rejected r) =
    conflict (text "tool execution rejected: " ++ debug_execution r)

-- The derived `Debug` of a list of bytes, after its opening bracket.
abbrev debug_rest : List ℕ → Text
debug_rest [] = text "]"
debug_rest (b ∷ bs) = text ", " ++ (decimal b ++ debug_rest bs)

abbrev debug_bytes : List ℕ → Text
debug_bytes [] = text "[]"
debug_bytes (b ∷ bs) = text "[" ++ (decimal b ++ debug_rest bs)

abbrev debug_digest : Digest → Text
debug_digest d = text "Digest(" ++ (debug_bytes d.bytes ++ text ")")

abbrev debug_key : PublicKey → Text
debug_key k = text "PublicKey(" ++ (debug_bytes k.bytes ++ text ")")

-- The derived `Debug` of a variant with two fields.
abbrev debug_pair : Text → Text → Text → Text → Text → Text
debug_pair variant first a second b =
    variant
    ++ (text " { "
        ++ (first
            ++ (text ": " ++ (a ++ (text ", " ++ (second ++ (text ": " ++ (b ++ text " }"))))))))

unfoldable pub debug : AppendError → Text
debug (out_of_order e g) =
    debug_pair (text "OutOfOrder") (text "expected") (decimal e) (text "got") (decimal g)
debug (chain_broken e g) =
    debug_pair (text "ChainBroken") (text "expected") (debug_digest e) (text "got") (debug_digest g)
debug signature_invalid = text "SignatureInvalid"
debug (issuer_mismatch e g) =
    debug_pair (text "IssuerMismatch") (text "expected") (debug_key e) (text "got") (debug_key g)
debug (unsupported_version f e) =
    debug_pair (text "UnsupportedVersion") (text "found") (decimal f) (text "expected") (decimal e)
debug (duplicate_id d) = text "DuplicateId(" ++ (debug_digest d ++ text ")")

-- A receipt that the log refused.
unfoldable pub append_refused : AppendError → ApiError
append_refused e = internal (text "log append: " ++ debug e)

-- `ApiState`: the kernel and the log that the handlers share, each behind its own lock.
pub record Server : Type 0 where
  pub kernel : Kernel
  pub log : ReceiptLog

abbrev pub resume_after : Option Receipt → Signer → Clock → Constitution → Kernel
resume_after none signer clock constitution = new_kernel signer clock constitution
resume_after (some r) signer clock constitution =
    resume
      (record {
        sequence = saturating_add u64_max r.body.merkle_leaf.sequence 1;
        prev_hash = r.body.merkle_leaf.leaf_hash;
      })
      signer clock constitution

-- `build_kernel_from_log`
unfoldable pub build_kernel_from_log : ReceiptLog → Signer → Clock → Constitution → Kernel
build_kernel_from_log log = resume_after (last log.receipts)

module _ (lib : Foreign) where
  -- `Ed25519Signer`: a key with an optional key id.
  unfoldable pub ed25519_signer : lib.SigningKey → Option Text → Signer
  ed25519_signer key key_id = record {
    sign = λ body. Crypto.sign lib body key;
    public_key = lib.verifying_key key;
    key_id = key_id;
  }

  -- The first step of `handle_event`, under the kernel's lock: the kernel's answer.
  abbrev driven :
      Server → Result KernelError KernelOutcome × Kernel → Result ApiError Receipt × Server
  driven s (ok o, k) = (ok o.receipt, record s { kernel = k })
  driven s (err e, k) = (err (map_kernel_error e), record s { kernel = k })

  unfoldable pub drive : Server → KernelEvent → Result ApiError Receipt × Server
  drive s e = driven s (handle lib s.kernel e)

  -- Its second step, under the log's lock: the receipt is appended.
  abbrev stored :
      Server
      → Receipt
      → Result AppendError (Unit {0}) × ReceiptLog
      → Result ApiError Receipt × Server
  stored s r (ok _, log) = (ok r, record s { log = log })
  stored s r (err e, log) = (err (append_refused e), record s { log = log })

  unfoldable pub store : Server → Receipt → Result ApiError Receipt × Server
  store s r = stored s r (append lib s.log r)

  abbrev then_store : Result ApiError Receipt × Server → Result ApiError Receipt × Server
  then_store (ok r, s) = store s r
  then_store (err e, s) = (err e, s)

  -- `handle_event` with nothing between its steps.
  unfoldable pub handle_event : Server → KernelEvent → Result ApiError Receipt × Server
  handle_event s e = then_store (drive s e)

  -- Requests that are served one after another.
  unfoldable pub serve : Server → List KernelEvent → Server
  serve s [] = s
  serve s (e ∷ es) = serve (handle_event s e).1 es
