-- ===== src/Tests/SchemaVersions.antt =====
-- The history of schema versions of a store of two rows.
use aux_ducklake.Base.{
  ◌<◌, ◌^◌, ltb, true, ◌∙◌, ap, sym, refl, All, ℕ, ◌≡◌, none, List, [], ◌∷◌, length, arith,
}
use aux_ducklake.Bytes.{ltb_bytes}
use aux_ducklake.Bytes.Order.{ltb_bytes-append_left}
use aux_ducklake.Bytes.Prefix.{strip_prefix-append}
use aux_ducklake.Bytes.BigEndian.{length-to_be_bytes}
use aux_ducklake.Ids.{IsOrder, lt_order, CatalogOrderId}
use aux_ducklake.Ids.CatalogOrder.{uuid_v7-IsOrder, lt_order-uuid_v7, uuid_v7}
use aux_ducklake.Keys.Metadata.{schema_version_history_prefix, schema_version_history_key}
use aux_ducklake.SchemaVersion.History.{IsHistoryRow}
use aux_ducklake.SchemaVersion.Agreement.{Ascending}
use aux_ducklake.BTreeMap.{bytes_ord}
use aux_ducklake.Error.{collect_map}
use aux_ducklake.Keys.{u64}
use aux_ducklake.Kv.{Items}
use aux_ducklake.Kv.Fake.{FakeOrderedCatalogKv, ordered_kv}
use aux_ducklake.Kv.FakeReads.{ordered_kv-Reads}
use aux_ducklake.SchemaVersion.Batch.{load_schema_versions_at}
use aux_ducklake.SchemaVersion.Equivalence.{loaded, load_schema_versions_at_lem}

-- Version 1 at the order 5 and version 2 at the order 9.
abbrev items : Items
items =
    (schema_version_history_key 1 (uuid_v7 5), u64 1)
    ∷ (schema_version_history_key 1 (uuid_v7 9), u64 2)
    ∷ []

abbrev store : FakeOrderedCatalogKv
store = record { items = items; fence_versions = []; next_order = 0 }

abbrev orders : List CatalogOrderId
orders = uuid_v7 4 ∷ uuid_v7 6 ∷ uuid_v7 9 ∷ []

uuid_ascending :
    (a b : ℕ) → a < 2 ^ 128 → b < 2 ^ 128 → ltb a b ≡ true → lt_order (uuid_v7 a) (uuid_v7 b) ≡ true
uuid_ascending a b ha hb h = lt_order-uuid_v7 a b ha hb ∙ h

ascending_keys :
    ltb_bytes (schema_version_history_key 1 (uuid_v7 5)) (schema_version_history_key 1 (uuid_v7 9))
    ≡ true
unfolding schema_version_history_key lt_order
ascending_keys =
    ltb_bytes-append_left (schema_version_history_prefix 1) (uuid_v7 5).bytes (uuid_v7 9).bytes
    ∙ uuid_ascending 5 9 (omega arith) (omega arith) refl

row-IsHistoryRow :
    (o : CatalogOrderId) (v : ℕ)
    → IsOrder o
    → IsHistoryRow 1 (schema_version_history_key 1 o, u64 v)
unfolding schema_version_history_key
row-IsHistoryRow o v h tail e =
    let same : o.bytes ≡ tail =
      cc (e, strip_prefix-append (schema_version_history_prefix 1) o.bytes) in
    (ap length (sym same) ∙ h.sized, length-to_be_bytes 8 v)

rows-IsHistoryRow : All (IsHistoryRow 1) items
rows-IsHistoryRow = (
  row-IsHistoryRow (uuid_v7 5) 1 (uuid_v7-IsOrder 5 (omega arith)),
  (row-IsHistoryRow (uuid_v7 9) 2 (uuid_v7-IsOrder 9 (omega arith)), tt),
)

orders-IsOrder : All IsOrder orders
orders-IsOrder = (
  uuid_v7-IsOrder 4 (omega arith),
  (uuid_v7-IsOrder 6 (omega arith), (uuid_v7-IsOrder 9 (omega arith), tt)),
)

orders-Ascending : Ascending orders
orders-Ascending =
    let first = uuid_ascending 4 6 (omega arith) (omega arith) refl in
    let second = uuid_ascending 4 9 (omega arith) (omega arith) refl in
    let third = uuid_ascending 6 9 (omega arith) (omega arith) refl in
    ((first, (second, tt)), ((third, tt), (tt, tt)))

load_schema_versions_at_lem_example :
    load_schema_versions_at none (ordered_kv store) 1 orders
    ≡ collect_map (loaded (ordered_kv store) 1) orders
load_schema_versions_at_lem_example =
    load_schema_versions_at_lem (ordered_kv store) items
      (ordered_kv-Reads store ((ascending_keys, tt), (tt, tt))) 1 rows-IsHistoryRow orders
      (omega arith) orders-IsOrder orders-Ascending
