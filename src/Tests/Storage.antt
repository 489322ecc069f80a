-- ===== src/Tests/Storage.antt =====
-- The theorems on the SQLite log (crates/boardproof-store-sqlite) at a small engine: a table in memory.
use uniclaw.Prelude.{
  ℕ, ◌≤◌, ◌≡◌, refl, sym, subst, ◌⊎◌, inl, inr, Bool, true, false, List, [], ◌∷◌, Option, none,
  some, Result, ok, err, ite, arith, length, Text, Text-discrete, Bool-cases, is_ok,
}
use uniclaw.Receipt.{Receipt, Digest}
use uniclaw.Store.{ReceiptLog, last_leaf, push}
use uniclaw.Store.Verifies.{append-cases}
use uniclaw.Store
use uniclaw.Store.Lookup.{IsSound, append-IsSound}
use uniclaw.Sqlite.{
  Engine, Row, SqliteReceiptLog, constraint_unique, i64_max, append, last, get_by_sequence,
  get_by_id, verify_chain,
}
use uniclaw.Sqlite.Opening.{
  sqlite, prepare, check_or_set_meta_u32, pin_issuer, cached_leaf, open_inner,
}
use uniclaw.Sqlite.Appends.{Agrees, Fails, append_refines}
use uniclaw.Sqlite.Reads.{read_refines}
use uniclaw.Sqlite.Outcomes.{CanOpen, Refused}
use uniclaw.Sqlite.Reopens.{held, open_inner_lem}
use uniclaw.Sqlite.Storage.{Stores, Unused, insert_row, body_at, body_with, last_body, bodies}
use uniclaw.Sqlite.Refines.{Represents}
use uniclaw.Host.{ed25519_signer}
use uniclaw.Tests.Codecs
use uniclaw.Kernel.Machine.Authority.{outcome}
use uniclaw.Tests.{lib, log, kernel, allowance, signer, log-IsSound}

-- The rows and the keys.
record Tables : Type 0 where
  rows : List Row
  meta : Text → Option (List ℕ)

used : List ℕ → List Row → Bool
used id [] = false
used id (x ∷ rows) = ite (Text-discrete x.content_id id) true (used id rows)

used-Unused : (id : List ℕ) (rows : List Row) → used id rows ≡ false → Unused id rows
unfolding used
used-Unused id [] h = tt
used-Unused id (x ∷ rows) h = elim (Text-discrete x.content_id id) [
  | yes e ↦ absurd (ground (arith, h, e))
  | no n ↦ (n, used-Unused id rows (ground (arith, h)))
]

Unused-used : (id : List ℕ) (rows : List Row) → used id rows ≡ true → ¬ Unused id rows
unfolding used
Unused-used id [] h u = absurd (ground (arith, h))
Unused-used id (x ∷ rows) h u = Unused-used id rows (ground (arith, h, u.0)) u.1

abbrev all_right : Result ℕ (Unit {0})
all_right = ok tt

abbrev inserting : Bool → Row → Tables → Result ℕ (Unit {0}) × Tables
inserting true row t = (err constraint_unique, t)
inserting false row t = (ok tt, record t { rows = insert_row row t.rows })

abbrev ended : Option (List ℕ) → Result ℕ (List ℕ)
ended none = err 0
ended (some json) = ok json

abbrev parsed : Option (Receipt × List ℕ) → Result ℕ Receipt
parsed none = err 0
parsed (some (r, rest)) = ok r

abbrev set_meta : Text → List ℕ → Tables → Tables
set_meta key value t = record t {
  meta = λ other. ite (Text-discrete key other) (some value) (t.meta other);
}

abbrev engine : Engine
engine = record {
  Connection = Tables;
  SqlError = ℕ;
  DecodeError = ℕ;
  extended_code = λ e. some e;
  invalid_column = λ name. 0;
  pragma_update = λ key value t. (all_right, t);
  create_tables = λ t. (all_right, t);
  select_meta = λ key t. ok (t.meta key);
  insert_meta = λ key value t. (all_right, set_meta key value t);
  insert_receipt = λ row t. inserting (used row.content_id t.rows) row t;
  select_count = λ t. ok (length t.rows);
  select_last = λ t. ended (last_body t.rows);
  select_by_sequence = λ n t. ok (body_at n t.rows);
  select_by_id = λ id t. ok (body_with id t.rows);
  select_all = λ t. ok (bodies t.rows);
  connect = λ path. err 0;
  exists = λ path. false;
  select_meta_table = λ t. ok (some true);
  sql_message = λ e. [];
  decode_message = λ e. [];
  to_json = λ r. Codecs.receipt.write r [];
  from_json = λ s. parsed (Codecs.receipt.read s);
}

abbrev engine-Stores : Stores engine
engine-Stores = record {
  rows = λ t. t.rows;
  meta = λ t. t.meta;
  tables = λ t. Unit;
  pragma_keeps = λ key value t. (refl, refl);
  create_keeps = λ t. (refl, refl);
  create_makes = λ t h. tt;
  meta_reads = λ key t there. refl;
  meta_stays = λ key value t there. (tt, refl);
  meta_enters = λ key value t h other. refl;
  meta_refused = λ key value t e h. absurd (never_refused e h);
  row_stays = λ row t there. tt;
  row_enters = entered;
  row_refused = refused;
  unique_means = λ row t e h code. clashing row t e h;
  counts = λ t there. refl;
  ends = λ t json there h. rw h refl;
  finds_sequence = λ n t there. refl;
  finds_id = λ id t there. refl;
  lists = λ t there. refl;
  json_reads = λ r. rw (Codecs.receipt.read-write r []) refl;
}
  where
    never_refused : (e : ℕ) → ¬ (all_right ≡ err e)
    never_refused e h = absurd (ground (arith, h))

    entered :
        (row : Row) (t : Tables)
        → (inserting (used row.content_id t.rows) row t).0 ≡ ok tt
        → Unused row.content_id t.rows
          × ((inserting (used row.content_id t.rows) row t).1.rows ≡ insert_row row t.rows)
    entered row t h = elim (Bool-cases (used row.content_id t.rows)) [
      | inl u ↦ absurd (ground (arith, h, u))
      | inr u ↦ (used-Unused row.content_id t.rows u, rw u refl)
    ]

    refused :
        (row : Row) (t : Tables) (e : ℕ)
        → (inserting (used row.content_id t.rows) row t).0 ≡ err e
        → (inserting (used row.content_id t.rows) row t).1.rows ≡ t.rows
    refused row t e h = elim (Bool-cases (used row.content_id t.rows)) [
      | inl u ↦ rw u refl
      | inr u ↦ absurd (ground (arith, h, u))
    ]

    clashing :
        (row : Row) (t : Tables) (e : ℕ)
        → (inserting (used row.content_id t.rows) row t).0 ≡ err e
        → ¬ Unused row.content_id t.rows
    clashing row t e h = elim (Bool-cases (used row.content_id t.rows)) [
      | inl u ↦ Unused-used row.content_id t.rows u
      | inr u ↦ absurd (ground (arith, h, u))
    ]

abbrev fresh : Tables
fresh = record { rows = []; meta = λ key. none }

abbrev empty_log : SqliteReceiptLog engine
empty_log = record {
  conn = fresh;
  issuer = signer.public_key;
  cached_len = 0;
  cached_last_leaf_hash = none;
}

empty_log-Represents : Represents engine engine-Stores lib empty_log log
unfolding last_leaf
empty_log-Represents = record {
  there = tt;
  same_issuer = refl;
  same_rows = refl;
  counted = refl;
  ended = refl;
}

abbrev minted : Receipt
minted = (outcome lib kernel allowance).receipt

append_refines_example :
    Agrees engine engine-Stores lib empty_log log minted empty_log-Represents log-IsSound
      (omega arith)
    ⊎ Fails engine engine-Stores lib empty_log log minted empty_log-Represents log-IsSound
        (omega arith)
append_refines_example =
    append_refines engine engine-Stores lib empty_log log minted empty_log-Represents log-IsSound
      (omega arith)

abbrev one_row : SqliteReceiptLog engine
one_row = (append engine lib empty_log minted).1

abbrev one_receipt : ReceiptLog
one_receipt = (Store.append lib log minted).1

one_row-Represents : Represents engine engine-Stores lib one_row one_receipt
unfolding used
one_row-Represents = elim append_refines_example [
  | inl a ↦ a.1
  | inr f ↦ absurd (ground (arith, f.1))
]

one_receipt-IsSound : IsSound lib one_receipt
one_receipt-IsSound = (append-IsSound lib log minted log-IsSound).0

one_receipt_fits : length one_receipt.receipts ≤ i64_max
unfolding push
one_receipt_fits = elim (append-cases lib log minted) [
  | inl (_, e) ↦ at_most (sym e) (omega arith)
  | inr (_, e) ↦ at_most (sym e) (omega arith)
]
  where
    at_most :
        {x y : Result Store.AppendError (Unit {0}) × ReceiptLog}
        → x ≡ y
        → length x.1.receipts ≤ i64_max
        → length y.1.receipts ≤ i64_max
    at_most e h =
        subst
          (λ (x : Result Store.AppendError (Unit {0}) × ReceiptLog). length x.1.receipts ≤ i64_max)
          e h

read_refines_example :
    (last engine one_row ≡ Store.last one_receipt.receipts)
    × ((n : ℕ) → get_by_sequence engine one_row n ≡ Store.get_by_sequence one_receipt n)
    × ((id : Digest) → get_by_id engine one_row id ≡ Store.get_by_id one_receipt id)
    × (verify_chain engine lib one_row ≡ Store.verify_chain lib one_receipt)
read_refines_example =
    read_refines engine engine-Stores lib one_row one_receipt one_row-Represents one_receipt-IsSound
      one_receipt_fits

open_inner_lem_example :
    ((s : SqliteReceiptLog engine) × ((open_inner engine log.issuer fresh).0 ≡ ok s)
      × Represents engine engine-Stores lib s log)
    ⊎ ((e : ℕ) × ((open_inner engine log.issuer fresh).0 ≡ err (sqlite e))
        × Refused engine engine-Stores log.issuer (held engine engine-Stores lib log) e
        × ((open_inner engine log.issuer fresh).1.rows ≡ fresh.rows)
        × CanOpen engine engine-Stores (open_inner engine log.issuer fresh).1 log.issuer)
unfolding ed25519_signer
open_inner_lem_example =
    open_inner_lem engine engine-Stores lib fresh log
      (record { schema = inl refl; format = inl refl; pinned = inl refl; full_key = refl }) refl

-- A file that takes every statement is opened.
fresh_opened : is_ok (open_inner engine log.issuer fresh).0 ≡ true
unfolding open_inner prepare check_or_set_meta_u32 pin_issuer cached_leaf Text-discrete
fresh_opened = refl
