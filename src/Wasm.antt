-- ===== src/Wasm.antt =====
-- crates/boardproof-tools-wasm/src: config.rs, error.rs, the limits of limits.rs, and of tool.rs what
-- a module must export and what becomes of the engine's errors.
pub mod Host
pub mod Guests
pub mod Tool
pub mod Logs
pub mod Secrets
pub mod Requests
pub mod Audit
pub mod Gates
pub mod Memory
use uniclaw.Prelude.{
  ℕ, ◌+◌, ◌*◌, ◌/◌, ◌≤◌, ◌<◌, ◌≡◌, refl, ◌↔◌, arith, Bool, true, false, ◌||◌, List, [], ◌∷◌, ◌++◌,
  Result, ok, err, leb, if◌then◌else◌, ite, Text, Text-discrete, text,
}
use native.Mathlib.Nat.{mul-le-mul, div-mul-le_self}
use uniclaw.Budget.{u64_max}
use uniclaw.Tools.{ToolError, failed, timeout}

-- The durations are in nanoseconds.
pub record WasmConfig : Type 0 where
  pub fuel : ℕ
  pub max_memory_bytes : ℕ
  pub timeout : ℕ
  pub epoch_tick : ℕ

-- `WasmConfig::default`
abbrev pub default_config : WasmConfig
default_config = record {
  fuel = 100000000;
  max_memory_bytes = 16 * 1024 * 1024;
  timeout = 5000000000;
  epoch_tick = 100000000;
}

abbrev at_least_one : ℕ → ℕ
at_least_one n = if leb 1 n then n else 1

unfoldable pub epoch_deadline : WasmConfig → ℕ
epoch_deadline c =
    let ticks = c.timeout / at_least_one c.epoch_tick in
    at_least_one (if leb ticks u64_max then ticks else u64_max)

pub data BuildError : Type 0 where
  invalid_wat invalid_wasm engine_setup : Text → BuildError
  missing_export : (name detail : Text) → BuildError

-- Its `Display`
unfoldable pub build_error_message : BuildError → Text
build_error_message (invalid_wat msg) = text "invalid WAT: " ++ msg
build_error_message (invalid_wasm msg) = text "invalid wasm module: " ++ msg
build_error_message (engine_setup msg) = text "wasmtime engine setup failed: " ++ msg
build_error_message (missing_export name detail) =
    text "module missing required export '" ++ (name ++ (text "': " ++ detail))

-- `memory_growing` and `table_growing`
unfoldable pub memory_growing : ℕ → ℕ → Bool
memory_growing max_memory_bytes desired = leb desired max_memory_bytes

unfoldable pub table_growing : ℕ → Bool
table_growing desired = true

-- Which of the three exports have been seen.
pub record Exported : Type 0 where
  pub have_memory : Bool
  pub have_alloc : Bool
  pub have_call : Bool

unfoldable pub note_export : Exported → Text → Exported
note_export seen name =
    ite (Text-discrete name (text "memory")) (record seen { have_memory = true })
      (ite (Text-discrete name (text "alloc")) (record seen { have_alloc = true })
        (ite (Text-discrete name (text "call")) (record seen { have_call = true }) seen))

unfoldable pub note_exports : Exported → List Text → Exported
note_exports seen [] = seen
note_exports seen (name ∷ names) = note_exports (note_export seen name) names

unfoldable pub check_required_core_exports : List Text → Result BuildError (Unit {0})
check_required_core_exports names =
    let seen =
      note_exports (record { have_memory = false; have_alloc = false; have_call = false }) names in
    if seen.have_memory
    then if seen.have_alloc
      then (if seen.have_call
          then ok tt
          else err (
              missing_export (text "call")
                (text "expected 'call(input_ptr: i32, input_len: i32) -> i64' export")))
      else err (missing_export (text "alloc") (text "expected 'alloc(size: i32) -> i32' export"))
    else err (
        missing_export (text "memory") (text "the guest must export its linear memory as 'memory'"))

-- An error of the engine: a trap, the third kind with its `Display`, or anything else.
pub data WasmError : Type 0 where
  out_of_fuel interrupt : WasmError
  other_trap other : Text → WasmError

unfoldable pub map_wasm_error : WasmError → ToolError
map_wasm_error out_of_fuel = failed (text "fuel exhausted")
map_wasm_error interrupt = timeout
map_wasm_error (other_trap trap) = failed (text "wasm trap: " ++ trap)
map_wasm_error (other msg) = failed (text "wasm: " ++ msg)

-- The deadline is at least one tick and fits in a u64, and it does not outlast the timeout unless it
-- is that one tick.
pub epoch_deadline_lem :
    (c : WasmConfig)
    → (1 ≤ epoch_deadline c)
      × (epoch_deadline c ≤ u64_max)
      × (1 < epoch_deadline c → epoch_deadline c * c.epoch_tick ≤ c.timeout)
unfolding epoch_deadline
epoch_deadline_lem c = (ground arith, ground arith, within)
  where
    within : 1 < epoch_deadline c → epoch_deadline c * c.epoch_tick ≤ c.timeout
    within more =
        let m = at_least_one c.epoch_tick in
        let few : epoch_deadline c ≤ c.timeout / m = ground (arith, more) in
        let long : c.epoch_tick ≤ m = ground arith in
        omega (arith, mul-le-mul few long, div-mul-le_self c.timeout m)
