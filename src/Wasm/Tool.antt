-- ===== src/Wasm/Tool.antt =====
-- crates/boardproof-tools-wasm/src/tool.rs: a tool whose body is a WebAssembly guest.
use uniclaw.Prelude.{
  ℕ, ◌+◌, ◌-◌, ◌/◌, ◌%◌, ◌^◌, ℤ, pos, negsuc, Bool, true, false, ltb, leb, List, [], ◌++◌, Option,
  none, some, Result, ok, err, map_err, if◌then◌else◌, length, take, drop, decimal, Text, text,
}
use uniclaw.Budget.{u64_max}
use uniclaw.Receipt.Crypto.{Foreign}
use uniclaw.Tools.{ApprovalPolicy, ToolManifest, ToolCall, ToolOutput, ToolError, failed}
use uniclaw.Fetch.Requests.{Libraries, Broker, HttpFetchTool, ◌>>=◌, fails}
use uniclaw.Wasm.{
  WasmConfig, epoch_deadline, BuildError, invalid_wat, invalid_wasm, engine_setup,
  check_required_core_exports, WasmError, map_wasm_error,
}
use uniclaw.Wasm.Host.{HostState, new_host, secrets_of, Codecs, StoreData}
use uniclaw.Wasm.Guests.{Answer, Guest, run}

-- What a store is given: fuel, the cap on its memory, and a deadline in ticks.
pub record Limits : Type 0 where
  pub fuel : ℕ
  pub max_memory_bytes : ℕ
  pub epoch_deadline : ℕ

-- The engine. A state of a core module is its store with the instance in it.
pub record Engine : Type 1 where
  pub Module : Type 0
  pub Component : Type 0
  pub State : Type 0
  pub setup : Result Text (Unit {0})
  pub parse_wat : Text → Result Text (List ℕ)
  pub module_of : List ℕ → Result Text Module
  pub component_of : List ℕ → Result Text Component
  pub exports : Module → List Text
  pub set_fuel : ℕ → Result Text (Unit {0})
  pub instantiate : Limits → Module → Result WasmError State
  pub has_memory : State → Bool
  pub alloc_typed : State → Result Text (Unit {0})
  pub call_typed : State → Result Text (Unit {0})
  pub alloc : ℤ → State → Result WasmError (ℤ × State)
  pub write : State → ℕ → List ℕ → Result Text State
  pub call_func : ℤ → ℤ → State → Result WasmError (ℤ × State)
  pub memory_data : State → List ℕ
  pub link_wasi : Result Text (Unit {0})
  pub link_host : Result Text (Unit {0})
  pub run_component : Limits → Component → List ℕ → Answer
  pub guest_of : Limits → Component → List ℕ → Guest

pub data WasmKind (e : Engine) : Type 0 where
  core : e.Module → WasmKind e
  component : e.Component → WasmKind e
  component_with_host : e.Component → HttpFetchTool → Broker → WasmKind e

-- Without the thread that moves the engine's epoch on.
pub record WasmTool (e : Engine) : Type 0 where
  pub manifest : ToolManifest
  pub config : WasmConfig
  pub kind : WasmKind e

abbrev and_then :
    {A B : Type 0} → Result BuildError A → (A → Result BuildError B) → Result BuildError B
and_then (ok a) f = f a
and_then (err x) f = err x

-- `as u64` of an i64
unfoldable pub as_u64 : ℤ → ℕ
as_u64 (pos n) = n % 2 ^ 64
as_u64 (negsuc n) = 2 ^ 64 - 1 - n % 2 ^ 64

module _ (e : Engine) where
  unfoldable pub build_engine : Result BuildError (Unit {0})
  build_engine = map_err engine_setup e.setup

  unfoldable pub from_module_bytes :
      List ℕ → ToolManifest → WasmConfig → Result BuildError (WasmTool e)
  from_module_bytes bytes manifest config = and_then build_engine (λ _.
      and_then (map_err invalid_wasm (e.module_of bytes)) (λ m.
        and_then (check_required_core_exports (e.exports m))
          (λ _. ok (record { manifest = manifest; config = config; kind = core m }))))

  unfoldable pub from_wat : Text → ToolManifest → WasmConfig → Result BuildError (WasmTool e)
  from_wat wat manifest config =
      and_then (map_err invalid_wat (e.parse_wat wat))
        (λ bytes. from_module_bytes bytes manifest config)

  unfoldable pub from_component_bytes :
      List ℕ → ToolManifest → WasmConfig → Result BuildError (WasmTool e)
  from_component_bytes bytes manifest config = and_then build_engine (λ _.
      and_then (map_err invalid_wasm (e.component_of bytes))
        (λ c. ok (record { manifest = manifest; config = config; kind = component c })))

  unfoldable pub from_component_bytes_with_host :
      List ℕ → ToolManifest → WasmConfig → HttpFetchTool → Broker → Result BuildError (WasmTool e)
  from_component_bytes_with_host bytes manifest config http broker = and_then build_engine (λ _.
      and_then (map_err invalid_wasm (e.component_of bytes)) (λ c. ok (record {
        manifest = manifest;
        config = config;
        kind = component_with_host c http broker;
      })))

  abbrev pub limits_of : WasmConfig → Limits
  limits_of c = record {
    fuel = c.fuel;
    max_memory_bytes = c.max_memory_bytes;
    epoch_deadline = epoch_deadline c;
  }

  -- `fresh_store_with`
  unfoldable pub fresh_store : WasmConfig → Result ToolError Limits
  fresh_store c = do _ ← fails (text "set_fuel: ") (e.set_fuel c.fuel); ok (limits_of c)

  abbrev pub ran : {A : Type 0} → Result WasmError A → Result ToolError A
  ran r = map_err map_wasm_error r

  abbrev pub require : Bool → Text → Result ToolError (Unit {0})
  require true msg = ok tt
  require false msg = err (failed msg)

  -- `i32::try_from` of a length
  unfoldable pub input_length : ℕ → Result ToolError ℤ
  input_length n =
      if leb n (2 ^ 31 - 1)
      then ok (pos n)
      else err
          (failed (text "input length " ++ (decimal n ++ text " exceeds i32::MAX (wasm32 limit)")))

  unfoldable pub input_offset : ℤ → Result ToolError ℕ
  input_offset (pos n) = ok n
  input_offset (negsuc n) = err (failed (text "guest 'alloc' returned a negative pointer"))

  -- The bytes of the guest's memory in a range.
  unfoldable pub memory_range : ℕ → ℕ → List ℕ → Result ToolError (List ℕ)
  memory_range out_ptr out_len mem_data =
      let out_end = out_ptr + out_len in
      if ltb u64_max out_end
      then err (
          failed (
            text "output range overflow: ptr="
            ++ (decimal out_ptr ++ (text " len=" ++ decimal out_len))))
      else (if leb out_end (length mem_data)
          then ok (take out_len (drop out_ptr mem_data))
          else err (
              failed (
                text "output range ["
                ++ (decimal out_ptr
                    ++ (text ".."
                        ++ (decimal out_end
                            ++ (text ") outside guest memory ("
                                ++ (decimal (length mem_data) ++ text " bytes)"))))))))

  -- The bytes that the result names in the guest's memory: its high half is where they start, its low
  -- half how many they are.
  unfoldable pub output_range : ℤ → List ℕ → Result ToolError (List ℕ)
  unfolding as_u64
  output_range packed mem_data =
      let packed_u = as_u64 packed in
      memory_range (packed_u / 2 ^ 32 % 2 ^ 32) (packed_u % 2 ^ 32) mem_data

  -- What a guest itself answers, or its own error message.
  abbrev pub guest_said : Result Text (List ℕ) → Result ToolError (List ℕ)
  guest_said r = fails (text "guest: ") r

  module _ (lib : Foreign) where
    abbrev pub output : List ℕ → List Text → ToolOutput
    output bytes secrets_used = record {
      bytes = bytes;
      output_hash = lib.blake3 bytes;
      metadata = record { secrets_used = secrets_used };
    }

    -- The steps of `call_core` up to the guest's answer: its result, and its state as it left it.
    unfoldable pub call_export : WasmConfig → e.Module → ToolCall → Result ToolError (ℤ × e.State)
    call_export config m c = do
      limits ← fresh_store config
      s ← ran (e.instantiate limits m)
      _ ← require (e.has_memory s) (text "module missing 'memory' export")
      _ ← fails (text "alloc export wrong shape (want i32 -> i32): ") (e.alloc_typed s)
      _ ← fails (text "call export wrong shape (want (i32, i32) -> i64): ") (e.call_typed s)
      input_len ← input_length (length c.input)
      allocated ← ran (e.alloc input_len s)
      offset ← input_offset allocated.0
      written ← fails (text "write input to guest memory: ") (e.write allocated.1 offset c.input)
      ran (e.call_func allocated.0 input_len written)

    unfoldable pub call_core : WasmConfig → e.Module → ToolCall → Result ToolError ToolOutput
    call_core config m c = do
      called ← call_export config m c
      bytes ← output_range called.0 (e.memory_data called.1)
      ok (output bytes [])

    unfoldable pub call_component :
        WasmConfig → e.Component → ToolCall → Result ToolError ToolOutput
    call_component config k c = do
      limits ← fresh_store config
      _ ← fails (text "add WASI to linker: ") e.link_wasi
      result ← ran (e.run_component limits k c.input)
      bytes ← guest_said result
      ok (output bytes [])

    module _ (net : Libraries) (codecs : Codecs) (clock : ℕ → Option ℕ) where
      -- `StoreData::with_host`
      abbrev pub with_host : WasmConfig → HttpFetchTool → Broker → StoreData
      with_host config http broker = record {
        max_memory_bytes = config.max_memory_bytes;
        host = some (new_host http broker);
      }

      abbrev pub harvested : Option HostState → List Text
      harvested none = []
      harvested (some h) = secrets_of h

      abbrev pub finished : Answer × StoreData → Result ToolError ToolOutput
      finished (a, d) = do
        result ← ran a
        bytes ← guest_said result
        ok (output bytes (harvested d.host))

      unfoldable pub call_component_with_host :
          WasmConfig → e.Component → HttpFetchTool → Broker → ToolCall → Result ToolError ToolOutput
      call_component_with_host config k http broker c = do
        limits ← fresh_store config
        _ ← fails (text "add WASI to linker: ") e.link_wasi
        _ ← fails (text "add host imports to linker: ") e.link_host
        finished (
            run lib net codecs clock (with_host config http broker) 0 (e.guest_of limits k c.input))

      -- `WasmTool::call`
      unfoldable pub call : WasmTool e → ToolCall → Result ToolError ToolOutput
      call tool c = elim tool.kind [
        | core m ↦ call_core tool.config m c
        | component k ↦ call_component tool.config k c
        | component_with_host k http broker ↦ call_component_with_host tool.config k http broker c
      ]

  unfoldable pub approval_policy : WasmTool e → ToolCall → ApprovalPolicy
  approval_policy tool c = tool.manifest.default_approval
