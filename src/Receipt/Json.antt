-- ===== src/Receipt/Json.antt =====
-- JSON values as `serde_json::Value` has them: what the canonical encoder reads. A string is its
-- list of code points. A map keeps its fields in some order, with no key twice.
use uniclaw.Prelude.{ℕ, Bool, List}

-- `serde_json::Number`: an i64 below 0 is -(n + 1), a u64, or a float that the encoder refuses.
pub data Number : Type 0 where
  negative : ℕ → Number
  unsigned : ℕ → Number
  float : Number

mutual
  pub data Value : Type 0 where
    null : Value
    boolean : Bool → Value
    number : Number → Value
    string : List ℕ → Value
    array : Items → Value
    object : Fields → Value

  pub data Items : Type 0 where
    nil : Items
    cons : Value → Items → Items

  pub data Fields : Type 0 where
    end : Fields
    field : List ℕ → Value → Fields → Fields
