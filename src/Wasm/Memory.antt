-- ===== src/Wasm/Memory.antt =====
-- What a core module's result says of its memory (crates/boardproof-tools-wasm/src/tool.rs).
use uniclaw.Prelude.{
  ℕ, ◌+◌, ◌-◌, ◌*◌, ◌/◌, ◌%◌, ◌^◌, ◌≤◌, ◌<◌, ◌≡◌, refl, arith, ℤ, pos, negsuc, ltb, if◌then◌else◌,
  List, [], ok, err, length, take, drop, Result-cases, inl, inr,
}
use uniclaw.Receipt.Crypto.{Foreign}
use uniclaw.Tools.{ToolCall, ToolError}
use uniclaw.Wasm.{WasmConfig}
use uniclaw.Wasm.Tool.{Engine, as_u64, memory_range, output_range, output, call_export, call_core}

-- The i64 in which a guest packs a place and a length: what `(ptr as i64) << 32 | len as i64` is.
unfoldable pub packed : ℕ → ℕ → ℤ
packed ptr len =
    let n = ptr * 2 ^ 32 + len in if ltb n (2 ^ 63) then pos n else negsuc (2 ^ 64 - 1 - n)

as_u64-packed :
    (ptr len : ℕ) → ptr < 2 ^ 32 → len < 2 ^ 32 → as_u64 (packed ptr len) ≡ ptr * 2 ^ 32 + len
unfolding as_u64 packed
as_u64-packed ptr len p l = ground arith

module _ (e : Engine) where
  memory_range-cases :
      (ptr len : ℕ) (mem : List ℕ)
      → ptr < 2 ^ 32
      → len < 2 ^ 32
      → (ptr + len ≤ length mem → memory_range e ptr len mem ≡ ok (take len (drop ptr mem)))
        × (length mem < ptr + len → (x : ToolError) × (memory_range e ptr len mem ≡ err x))
  unfolding memory_range
  memory_range-cases ptr len mem p l = (
    λ fits. ground (arith, fits, p, l),
    λ beyond. elim (Result-cases (memory_range e ptr len mem)) [
      | inl (b, h) ↦ absurd (ground (arith, h, beyond, p, l))
      | inr x ↦ x
    ],
  )

  output_range-packed :
      (ptr len : ℕ) (mem : List ℕ)
      → ptr < 2 ^ 32
      → len < 2 ^ 32
      → output_range e (packed ptr len) mem ≡ memory_range e ptr len mem
  unfolding output_range
  output_range-packed ptr len mem p l =
      let whole = as_u64-packed ptr len p l in
      let high : as_u64 (packed ptr len) / 2 ^ 32 % 2 ^ 32 ≡ ptr = omega (arith, whole) in
      let low : as_u64 (packed ptr len) % 2 ^ 32 ≡ len = omega (arith, whole) in rw (high, low) refl

  -- A guest of a core module packs a place and a length, both below 2 ^ 32, into its result: the call
  -- of the tool gives exactly the bytes there in the guest's memory, their hash and no secret, and an
  -- error if they reach beyond that memory. No sign is extended where the place is 2 ^ 31 or more.
  pub call_core-packed :
      (lib : Foreign) (config : WasmConfig) (m : e.Module) (c : ToolCall) (ptr len : ℕ)
      (s : e.State)
      → ptr < 2 ^ 32
      → len < 2 ^ 32
      → call_export e lib config m c ≡ ok (packed ptr len, s)
      → (ptr + len ≤ length (e.memory_data s)
          → call_core e lib config m c
            ≡ ok (output e lib (take len (drop ptr (e.memory_data s))) []))
        × (length (e.memory_data s) < ptr + len
            → (x : ToolError) × (call_core e lib config m c ≡ err x))
  unfolding call_core
  call_core-packed lib config m c ptr len s p l h =
      let (inside, outside) = memory_range-cases ptr len (e.memory_data s) p l in
      (
        λ fits. rw (h, output_range-packed ptr len (e.memory_data s) p l, inside fits) refl,
        λ beyond.
            let (x, refused) = outside beyond in
            (x, rw (h, output_range-packed ptr len (e.memory_data s) p l, refused) refl),
      )
