-- ===== src/Sleep.antt =====
-- crates/boardproof-sleep/src/lib.rs: the reports of the two maintenance passes.
pub mod Walker
use uniclaw.Prelude.{ℕ, suc, ◌+◌, ◌%◌, ◌^◌, List, [], ◌∷◌, Result, ok, err, length, Text}

pub record CleanupReport : Type 0 where
  pub rows_affected : ℕ
  pub bytes_reclaimed : ℕ

-- `CleanupError` and `WalkError`
pub record SleepError : Type 0 where
  pub message : Text

pub record CleanerPass : Type 0 where
  pub name : Text
  pub outcome : Result SleepError CleanupReport

pub record LightSleepReport : Type 0 where
  pub passes : List CleanerPass

pub record WalkReport : Type 0 where
  pub items_walked : ℕ
  pub bytes_walked : ℕ

pub record WalkerPass : Type 0 where
  pub name : Text
  pub outcome : Result SleepError WalkReport

pub record DeepSleepReport : Type 0 where
  pub passes : List WalkerPass

-- `Iterator::sum` of a u64 in a release build: it wraps.
abbrev pub sum_u64 : List ℕ → ℕ
sum_u64 [] = 0
sum_u64 (n ∷ ns) = (n + sum_u64 ns) % 2 ^ 64

-- The value of each pass that succeeded.
abbrev pub gains {ℓ} :
    {R : Type ℓ} {P : Type ℓ} → (P → Result SleepError R) → (R → ℕ) → List P → List ℕ
gains outcome f [] = []
gains outcome f (p ∷ ps) = elim (outcome p) [
  | ok r ↦ f r ∷ gains outcome f ps
  | err e ↦ gains outcome f ps
]

abbrev pub failures {ℓ} : {R : Type ℓ} {P : Type ℓ} → (P → Result SleepError R) → List P → ℕ
failures outcome [] = 0
failures outcome (p ∷ ps) = elim (outcome p) [
  | ok r ↦ failures outcome ps
  | err e ↦ suc (failures outcome ps)
]

unfoldable pub cleaner_count : LightSleepReport → ℕ
cleaner_count report = length report.passes

unfoldable pub total_rows_affected : LightSleepReport → ℕ
total_rows_affected report = sum_u64 (gains (λ p. p.outcome) (λ r. r.rows_affected) report.passes)

unfoldable pub total_bytes_reclaimed : LightSleepReport → ℕ
total_bytes_reclaimed report =
    sum_u64 (gains (λ p. p.outcome) (λ r. r.bytes_reclaimed) report.passes)

unfoldable pub failed_cleaners : LightSleepReport → ℕ
failed_cleaners report = failures (λ p. p.outcome) report.passes

unfoldable pub walker_count : DeepSleepReport → ℕ
walker_count report = length report.passes

unfoldable pub total_items_walked : DeepSleepReport → ℕ
total_items_walked report = sum_u64 (gains (λ p. p.outcome) (λ r. r.items_walked) report.passes)

unfoldable pub total_bytes_walked : DeepSleepReport → ℕ
total_bytes_walked report = sum_u64 (gains (λ p. p.outcome) (λ r. r.bytes_walked) report.passes)

unfoldable pub failed_walkers : DeepSleepReport → ℕ
failed_walkers report = failures (λ p. p.outcome) report.passes

-- The cleaners are values of any type with the methods of `Cleanable`.
module _ {S : Type 0} (name : S → Text) (clean : S → Result SleepError CleanupReport × S) where
  clean_all : List S → List CleanerPass × List S
  clean_all [] = ([], [])
  clean_all (c ∷ cs) =
      let (outcome, c') = clean c in
      let (passes, cs') = clean_all cs in
      (record { name = name c; outcome = outcome } ∷ passes, c' ∷ cs')

  unfoldable pub run_light_sleep : List S → LightSleepReport × List S
  unfolding clean_all
  run_light_sleep cleaners =
      let (passes, cleaners') = clean_all cleaners in (record { passes = passes }, cleaners')

module _ {W : Type 0} (name : W → Text) (walk : W → Result SleepError WalkReport) where
  walk_all : List W → List WalkerPass
  walk_all [] = []
  walk_all (w ∷ ws) = record { name = name w; outcome = walk w } ∷ walk_all ws

  unfoldable pub run_deep_sleep : List W → DeepSleepReport
  unfolding walk_all
  run_deep_sleep walkers = record { passes = walk_all walkers }
