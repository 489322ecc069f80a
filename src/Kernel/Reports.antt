-- ===== src/Kernel/Reports.antt =====
-- `handle_light_sleep` and `handle_deep_sleep` of crates/boardproof-kernel/src/kernel.rs.
use uniclaw.Prelude.{List, [], ◌∷◌, ◌++◌, none, Result, ok, err, Text, text, decimal}
use uniclaw.Receipt.{Action, ProvenanceEdge, Receipt}
use uniclaw.Receipt
use uniclaw.Receipt.Crypto.{Foreign}
use uniclaw.Kernel.{
  KernelOutcome, light_sleep_completed, deep_sleep_completed, Kernel, zero_digest, mint, read_clock,
}
use uniclaw.Sleep.{
  CleanupReport, WalkReport, SleepError, CleanerPass, WalkerPass, LightSleepReport, DeepSleepReport,
  cleaner_count, total_rows_affected, total_bytes_reclaimed, failed_cleaners, walker_count,
  total_items_walked, total_bytes_walked, failed_walkers,
}

unfoldable pub light_action : LightSleepReport → Action
light_action report = record {
  kind = text "$kernel/sleep/light";
  target =
      text "cleaners="
      ++ (decimal (cleaner_count report)
          ++ (text " rows="
              ++ (decimal (total_rows_affected report)
                  ++ (text " bytes="
                      ++ (decimal (total_bytes_reclaimed report)
                          ++ (text " failed=" ++ decimal (failed_cleaners report)))))));
  input_hash = zero_digest;
}

abbrev cleaner_outcome : Text → Result SleepError CleanupReport → ProvenanceEdge
cleaner_outcome name (ok r) = record {
  from = text "cleaner:" ++ name;
  to = text "rows=" ++ (decimal r.rows_affected ++ (text " bytes=" ++ decimal r.bytes_reclaimed));
  kind = text "light_sleep_pass";
}
cleaner_outcome name (err e) = record {
  from = text "cleaner:" ++ name;
  to = text "error: " ++ e.message;
  kind = text "light_sleep_failure";
}

-- One edge for each cleaner, in order.
unfoldable pub light_edges : List CleanerPass → List ProvenanceEdge
light_edges [] = []
light_edges (p ∷ ps) = cleaner_outcome p.name p.outcome ∷ light_edges ps

unfoldable pub deep_action : DeepSleepReport → Action
deep_action report = record {
  kind = text "$kernel/sleep/deep";
  target =
      text "walkers="
      ++ (decimal (walker_count report)
          ++ (text " items="
              ++ (decimal (total_items_walked report)
                  ++ (text " bytes="
                      ++ (decimal (total_bytes_walked report)
                          ++ (text " failed=" ++ decimal (failed_walkers report)))))));
  input_hash = zero_digest;
}

abbrev walker_outcome : Text → Result SleepError WalkReport → ProvenanceEdge
walker_outcome name (ok r) = record {
  from = text "walker:" ++ name;
  to = text "items=" ++ (decimal r.items_walked ++ (text " bytes=" ++ decimal r.bytes_walked));
  kind = text "deep_sleep_pass";
}
walker_outcome name (err e) = record {
  from = text "walker:" ++ name;
  to = text "error: " ++ e.message;
  kind = text "deep_sleep_failure";
}

-- One edge for each walker, in order.
unfoldable pub deep_edges : List WalkerPass → List ProvenanceEdge
deep_edges [] = []
deep_edges (p ∷ ps) = walker_outcome p.name p.outcome ∷ deep_edges ps

module _ (lib : Foreign) where
  unfoldable pub handle_light_sleep : Kernel → LightSleepReport → KernelOutcome × Kernel
  handle_light_sleep k report =
      let (issued_at, k₁) = read_clock k in
      let (receipt, k₂) =
        mint lib k₁ issued_at (light_action report) Receipt.allowed [] (light_edges report.passes)
          none in
      (
        record {
          receipt = receipt;
          lease_after = none;
          kind = light_sleep_completed (failed_cleaners report);
        },
        k₂,
      )

  unfoldable pub handle_deep_sleep : Kernel → DeepSleepReport → KernelOutcome × Kernel
  handle_deep_sleep k report =
      let (issued_at, k₁) = read_clock k in
      let (receipt, k₂) =
        mint lib k₁ issued_at (deep_action report) Receipt.allowed [] (deep_edges report.passes)
          none in
      (
        record {
          receipt = receipt;
          lease_after = none;
          kind = deep_sleep_completed (failed_walkers report);
        },
        k₂,
      )
