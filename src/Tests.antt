-- ===== src/Tests.antt =====
-- A small instance of the foreign code and of each component, on which the theorems are applied.
pub mod Requests
pub mod Grants
pub mod Proposals
pub mod Resolutions
pub mod Leases
pub mod Encodings
pub mod Codecs
pub mod Storage
pub mod Explanations
pub mod Routes
pub mod Dates
pub mod Urls
pub mod Tooling
pub mod Guests
use uniclaw.Prelude.{
  ℕ, zero, suc, decimal, ◌≡◌, refl, true, List, [], ◌∷◌, Option, none, some, ok, text, Text,
}
use uniclaw.Budget.{Budget, ResourceUse, LeaseId, CapabilityLease, new}
use uniclaw.Constitution.{Rule, deny, require_approval, evaluate}
use uniclaw.Receipt.{Action, Receipt, ReceiptBody, PublicKey}
use uniclaw.Receipt
use uniclaw.Receipt.Json.{number, unsigned}
use uniclaw.Receipt.Canonical.{to_vec, write_canonical, write_number}
use uniclaw.Receipt.Crypto.{Foreign, SignsSoundly}
use uniclaw.Kernel.{
  Kernel, KernelEvent, Clock, Signer, Proposal, unbounded, with_lease, zero_digest,
  evaluate_proposal, new_kernel,
}
use uniclaw.Store.{ReceiptLog, new_log, last_leaf}
use uniclaw.Store.Lookup.{IsSound, new_log-IsSound}
use uniclaw.Host.Serving.{InStep}
use uniclaw.Host.{Server, ed25519_signer}
use uniclaw.Host.Tracking.{IsHonest, ed25519_signer-IsHonest}

pub number-canonical : (n : ℕ) → to_vec (number (unsigned n)) ≡ some (decimal n)
unfolding to_vec write_canonical write_number
number-canonical n = refl

-- The first bytes, filled up with zeros.
abbrev pub pad : ℕ → List ℕ → List ℕ
pad zero b = []
pad (suc n) [] = 0 ∷ pad n []
pad (suc n) (c ∷ b) = c ∷ pad n b

-- The hash keeps its input's first bytes, and a body's bytes are its sequence number's.
abbrev pub bytes_of : ReceiptBody → List ℕ
bytes_of b = b.merkle_leaf.sequence ∷ []

abbrev pub lib : Foreign
lib = record {
  blake3 = λ b. record { bytes = pad 32 b };
  action_json = λ a. a.target;
  decision_json = λ d. [];
  body_json = bytes_of;
  body_value = λ b. number (unsigned b.merkle_leaf.sequence);
  body_canonical = λ b. (decimal b.merkle_leaf.sequence, number-canonical b.merkle_leaf.sequence);
  SigningKey = Unit;
  verifying_key = λ k. record { bytes = pad 32 (7 ∷ []) };
  key_parses = λ k. true;
  sign_bytes = λ k m. record { bytes = m };
  verify_bytes = λ k m s. true;
}

abbrev pub lib-SignsSoundly : SignsSoundly lib
lib-SignsSoundly = record { own_key_parses = λ k. refl; own_signature_verifies = λ k m. refl }

abbrev pub signer : Signer
signer = ed25519_signer lib tt none

abbrev pub clock : Clock
clock = record { now = λ n. text "2026-01-01T00:00:00Z" }

abbrev pub shell : Action
shell = record { kind = text "shell.exec"; target = text "rm -rf /"; input_hash = zero_digest }

abbrev pub fetch : Action
fetch = record { kind = text "http.fetch"; target = text "https://a"; input_hash = zero_digest }

abbrev pub call_tool : Action
call_tool = record { kind = text "tool.http"; target = text "https://a"; input_hash = zero_digest }

abbrev pub pay : Action
pay = record { kind = text "pay"; target = text "bob"; input_hash = zero_digest }

-- No shell, and no payment without the operator.
abbrev pub no_shell : Rule
no_shell = record {
  id = text "no_shell";
  description = [];
  verdict = deny;
  match_clause = record { kind = some (text "shell.exec"); target_contains = none };
}

abbrev pub ask_pay : Rule
ask_pay = record {
  id = text "ask_pay";
  description = [];
  verdict = require_approval;
  match_clause = record { kind = some (text "pay"); target_contains = none };
}

abbrev pub rules : List Rule
rules = no_shell ∷ ask_pay ∷ []

abbrev pub kernel : Kernel
kernel = new_kernel signer clock (evaluate rules)

abbrev pub log : ReceiptLog
log = new_log signer.public_key

abbrev pub server : Server
server = record { kernel = kernel; log = log }

-- Two uses, a hundred bytes.
abbrev pub budget : Budget
budget = record { net_bytes = 100; file_writes = 0; llm_tokens = 0; wall_ms = 0; max_uses = 2 }

abbrev pub lease : CapabilityLease
lease = new (record { bytes = 1 ∷ [] }) budget

abbrev pub one_use : ResourceUse
one_use = record { net_bytes = 40; file_writes = 0; llm_tokens = 0; wall_ms = 0; uses = 1 }

abbrev pub propose : Action → Receipt.Decision → Proposal
propose a d = with_lease a d [] [] lease one_use

abbrev pub event : KernelEvent
event = evaluate_proposal (propose fetch Receipt.allowed)

abbrev pub allowance : Proposal
allowance = propose fetch Receipt.allowed

pub signer-IsHonest : IsHonest lib signer
signer-IsHonest = ed25519_signer-IsHonest lib lib-SignsSoundly tt none

pub log-IsSound : IsSound lib log
log-IsSound = new_log-IsSound lib _

pub server-InStep : InStep lib server
unfolding last_leaf
server-InStep = record {
  honest = signer-IsHonest;
  sound = log-IsSound;
  tracks = record { issuer = refl; count = refl; end = refl };
}
