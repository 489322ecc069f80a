-- ===== src/Store/Messages.antt =====
-- The text of an `AppendError` of crates/boardproof-store/src/log.rs.
use uniclaw.Prelude.{◌++◌, Text, text, decimal}
use uniclaw.Store.{
  AppendError, out_of_order, chain_broken, signature_invalid, issuer_mismatch, unsupported_version,
  duplicate_id,
}

unfoldable pub append_error_message : AppendError → Text
append_error_message (out_of_order expected got) =
    text "receipt sequence "
    ++ (decimal got ++ (text " is out of order, expected " ++ decimal expected))
append_error_message (chain_broken expected got) = text "receipt prev_hash does not chain"
append_error_message signature_invalid = text "receipt signature did not verify"
append_error_message (issuer_mismatch expected got) =
    text "receipt issuer does not match log issuer"
append_error_message (unsupported_version found expected) =
    text "unsupported receipt version "
    ++ (decimal found ++ (text " (log accepts " ++ (decimal expected ++ text ")")))
append_error_message (duplicate_id id) = text "receipt with same content id already in log"
