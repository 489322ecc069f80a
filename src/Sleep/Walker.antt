-- ===== src/Sleep/Walker.antt =====
-- crates/boardproof-sleep/src/lib.rs: `ReceiptLogWalker`, the walk over a log of receipts, and the
-- texts of the errors of crates/boardproof-store/src/log.rs that it reports.
use uniclaw.Kernel.{zero_digest}
use uniclaw.Store.Verifies.{IsChain, verify_chain-ok_iff}
use uniclaw.Prelude.{
  ℕ, ◌≡◌, refl, ◌++◌, ◌↔◌, inl, inr, Result-cases, arith, Result, ok, err, length, Text, text,
  decimal,
}
use uniclaw.Receipt.Crypto.{Foreign}
use uniclaw.Store.{
  ReceiptLog, VerifyChainError, sequence_gap_at, broken_at, signature_invalid_at, verify_chain,
}
use uniclaw.Sleep.{WalkReport, SleepError}

-- `Display` of `VerifyChainError`
unfoldable pub chain_error_message : VerifyChainError → Text
chain_error_message (sequence_gap_at expected got) =
    text "sequence gap at receipt " ++ (decimal got ++ (text ", expected " ++ decimal expected))
chain_error_message (broken_at sequence expected got) =
    text "chain broken at receipt " ++ decimal sequence
chain_error_message (signature_invalid_at sequence) =
    text "signature invalid at receipt " ++ decimal sequence

pub record ReceiptLogWalker : Type 0 where
  pub name : Text
  pub log : ReceiptLog

abbrev outcome : ℕ → Result VerifyChainError (Unit {0}) → Result SleepError WalkReport
outcome n (ok _) = ok (record { items_walked = n; bytes_walked = 0 })
outcome n (err e) = err (record { message = text "verify_chain failed: " ++ chain_error_message e })

unfoldable pub walk_log : Foreign → ReceiptLogWalker → Result SleepError WalkReport
walk_log lib w = outcome (length w.log.receipts) (verify_chain lib w.log)

-- The walk succeeds, and counts the receipts, exactly on a log whose receipts are a verified chain.
walk_log-ok_iff :
    (lib : Foreign) (w : ReceiptLogWalker)
    → (walk_log lib w ≡ ok (record { items_walked = length w.log.receipts; bytes_walked = 0 }))
      ↔ IsChain lib 0 zero_digest w.log.receipts
unfolding walk_log
walk_log-ok_iff lib w = elim (Result-cases (verify_chain lib w.log)) [
  | inl (_, e) ↦ (λ h. (verify_chain-ok_iff lib w.log).0 e, λ h. rw e refl)
  | inr (x, e) ↦ (
    λ h. absurd (ground (arith, h, e)),
    λ h. absurd (ground (arith, e, (verify_chain-ok_iff lib w.log).1 h)),
  )
]
