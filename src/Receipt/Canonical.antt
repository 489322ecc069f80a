-- ===== src/Receipt/Canonical.antt =====
-- crates/boardproof-receipt/src/canonical.rs: the JSON canonicalization scheme of RFC 8785.
use Prim.Native.Nat.{compare, Ordering}
use uniclaw.Prelude.{
  ℕ, ◌+◌, ◌-◌, ◌/◌, ◌%◌, ◌≡◌, refl, true, false, List, [], ◌∷◌, ◌++◌, Option, none, some, ltb, ◌==◌,
  if◌then◌else◌, text, decimal,
}
use uniclaw.Receipt.Json.{
  Number, negative, unsigned, float, Value, null, boolean, number, string, array, object, Items,
  nil, cons, Fields, end, field,
}

-- `char::encode_utf16` and `char::encode_utf8` of a code point.
unfoldable pub encode_utf16 : List ℕ → List ℕ
encode_utf16 [] = []
encode_utf16 (c ∷ cs) =
    let rest = encode_utf16 cs in
    if ltb c 0x10000
    then c ∷ rest
    else (0xd800 + (c - 0x10000) / 1024) ∷ (0xdc00 + (c - 0x10000) % 1024) ∷ rest

unfoldable pub encode_utf8 : ℕ → List ℕ
encode_utf8 c =
    if ltb c 0x80
    then c ∷ []
    else if ltb c 0x800
    then (0xc0 + c / 64) ∷ (0x80 + c % 64) ∷ []
    else if ltb c 0x10000
    then (0xe0 + c / 4096) ∷ (0x80 + c / 64 % 64) ∷ (0x80 + c % 64) ∷ []
    else (0xf0 + c / 262144) ∷ (0x80 + c / 4096 % 64) ∷ (0x80 + c / 64 % 64) ∷ (0x80 + c % 64) ∷ []

-- The loop of `compare_utf16` over the two iterators.
unfoldable pub compare_units : List ℕ → List ℕ → Ordering
compare_units [] [] = Ordering.eq
compare_units [] (y ∷ ys) = Ordering.lt
compare_units (x ∷ xs) [] = Ordering.gt
compare_units (x ∷ xs) (y ∷ ys) =
    let rest = compare_units xs ys in if x == y then rest else compare x y

unfoldable pub compare_utf16 : List ℕ → List ℕ → Ordering
compare_utf16 a b = compare_units (encode_utf16 a) (encode_utf16 b)

-- A float panics: `none`.
unfoldable pub write_number : Number → Option (List ℕ)
write_number (negative n) = some (text "-" ++ decimal (n + 1))
write_number (unsigned n) = some (decimal n)
write_number float = none

unfoldable pub hex_digit : ℕ → ℕ
hex_digit n = if ltb n 10 then b'0' + n else b'a' + n - 10

-- The match of `write_string`; a control character below 0x20 has four hexadecimal digits.
unfoldable pub write_char : ℕ → List ℕ
unfolding hex_digit encode_utf8
write_char c =
    if c == b'"'
    then text "\\\""
    else if c == 92
    then 92 ∷ 92 ∷ []
    else if c == 8
    then text "\\b"
    else if c == 12
    then text "\\f"
    else if c == 10
    then text "\\n"
    else if c == 13
    then text "\\r"
    else if c == 9
    then text "\\t"
    else if ltb c 32
    then text "\\u00" ++ hex_digit (c / 16) ∷ hex_digit (c % 16) ∷ []
    else encode_utf8 c

unfoldable pub write_chars : List ℕ → List ℕ
write_chars [] = []
write_chars (c ∷ cs) = write_char c ++ write_chars cs

unfoldable pub write_string : List ℕ → List ℕ
write_string s = b'"' ∷ write_chars s ++ b'"' ∷ []

-- A field of an object, its value already encoded.
pub record Entry : Type 0 where
  pub key : List ℕ
  pub encoded : List ℕ

-- `keys.sort_by`: a stable sort.
unfoldable pub insert_entry : Entry → List Entry → List Entry
insert_entry e [] = e ∷ []
insert_entry e (f ∷ fs) = elim (compare_utf16 e.key f.key) [
  | Ordering.gt ↦ f ∷ insert_entry e fs
  | _ ↦ e ∷ f ∷ fs
]

unfoldable pub sort_entries : List Entry → List Entry
sort_entries [] = []
sort_entries (e ∷ es) = insert_entry e (sort_entries es)

abbrev pub write_entry : Entry → List ℕ
write_entry e = write_string e.key ++ b':' ∷ e.encoded

-- A comma before each part but the first.
unfoldable pub join : List (List ℕ) → List ℕ
join [] = []
join (x ∷ []) = x
join (x ∷ y ∷ xs) = x ++ b',' ∷ join (y ∷ xs)

abbrev pub write_entries : List Entry → List (List ℕ)
write_entries [] = []
write_entries (e ∷ es) = write_entry e ∷ write_entries es

infixl 5 ◌>>=◌
abbrev pub ◌>>=◌ {ℓ κ} : {A : Type ℓ} {B : Type κ} → Option A → (A → Option B) → Option B
none >>= f = none
some a >>= f = f a

unfoldable mutual
  unfolding write_number write_string join sort_entries

  pub write_canonical : Value → Option (List ℕ)
  write_canonical null = some (text "null")
  write_canonical (boolean true) = some (text "true")
  write_canonical (boolean false) = some (text "false")
  write_canonical (number n) = write_number n
  write_canonical (string s) = some (write_string s)
  write_canonical (array xs) = do items ← write_items xs; some (b'[' ∷ join items ++ b']' ∷ [])
  write_canonical (object fs) = do
    entries ← write_fields fs
    some (b'{' ∷ join (write_entries (sort_entries entries)) ++ b'}' ∷ [])

  pub write_items : Items → Option (List (List ℕ))
  write_items nil = some []
  write_items (cons x xs) = do item ← write_canonical x; items ← write_items xs; some (item ∷ items)

  pub write_fields : Fields → Option (List Entry)
  write_fields end = some []
  write_fields (field k x fs) = do
    encoded ← write_canonical x
    entries ← write_fields fs
    some (record { key = k; encoded = encoded } ∷ entries)

-- `to_vec`, from the value that `serde_json::to_value` gives.
unfoldable pub to_vec : Value → Option (List ℕ)
to_vec v = write_canonical v

keys_sorted :
    to_vec
      (object (field (text "b") (number (unsigned 1)) (field (text "a") (number (negative 1)) end)))
    ≡ some (text "{\"a\":-2,\"b\":1}")
unfolding to_vec write_canonical insert_entry compare_utf16 compare_units encode_utf16 write_chars
    write_char decimal
keys_sorted = refl
