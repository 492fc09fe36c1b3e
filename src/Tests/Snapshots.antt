-- ===== src/Tests/Snapshots.antt =====
-- Snapshots that are committed and read back, and that are looked up by timestamps.
use aux_ducklake.Base.{◌≤◌, length, ℕ, ◌∷◌, ◌≡◌, refl, true, none, some, [], arith}
use aux_ducklake.Kv.{usize_max}
use aux_ducklake.Keys.Snapshot.{
  snapshot_key, sortable_i64, snapshot_timestamp_key, snapshot_timestamp_prefix, snapshot_prefix,
}
use aux_ducklake.Keys.Metadata.{raw_snapshot_row_key, latest_snapshot_row_key}
use aux_ducklake.BTreeMap.{insert, get, IsSorted, bytes_ord, retain}
use aux_ducklake.Ids.{lt_order, CatalogId}
use aux_ducklake.Ids.CatalogOrder.{from_bytes, uuid_v7, uuid_v7-IsOrder}
use aux_ducklake.Kv.Commit.{commit-IsSorted}
use aux_ducklake.Snapshots.{
  list_snapshots, sort_by_order, insert_by_order, expire_snapshots, decode_latest_snapshot_value,
  latest_snapshot_value, stage_snapshot, fetch_latest_snapshot, snapshot_by_raw_sequence,
  list_snapshots_older_than, snapshot_by_timestamp, lower, upper,
}
use aux_ducklake.Snapshots.Timestamps.{
  list_snapshots_lem, timestamp_row, as_listed, HoldsSnapshots, by_timestamp,
}
use aux_ducklake.Snapshots.Expiry.{timestamp_key, AreOlder, expire_snapshots_rows}
use aux_ducklake.Snapshots.ExpiryResult.{expire_snapshots_lem}
use aux_ducklake.Keys.Family.{code}
use aux_ducklake.Base.Int.{pos, i64_bits, flip_top_bit}
use aux_ducklake.Bytes.{ltb_bytes, to_be_bytes}
use aux_ducklake.Bytes.Slices.{is_utf8, continues_utf8}
use aux_ducklake.Error.{ok}
use aux_ducklake.Keys.{family_prefix, prefix_end, raise_last, catalog_prefix}
use aux_ducklake.Kv.Batch.{KvBatch, put}
use aux_ducklake.Kv.Fake.{
  FakeOrderedCatalogKv, commit, ordered_kv, empty, failed_check, write_fences, insert_all,
  remove_all,
}
use aux_ducklake.Kv.FakeReads.{ordered_kv-Reads}
use aux_ducklake.Kv.Ranges.{within}
use aux_ducklake.Rows.Snapshot.{SnapshotRow}
use aux_ducklake.Rows.SnapshotRoundTrip.{IsSnapshotRow}
use aux_ducklake.Snapshots.Values.{
  decode_latest_snapshot_value-latest_snapshot_value, committed_snapshot,
}

abbrev catalog : CatalogId
catalog = 5

abbrev sample : ℕ → ℕ → SnapshotRow
sample time order = record {
  order = uuid_v7 order;
  sequence = order;
  created_at_micros = pos time;
  created_by = [];
  commit_message = none;
  commit_extra_info = none;
}

empty_is_text : is_utf8 [] ≡ true
unfolding is_utf8 continues_utf8
empty_is_text = refl

abbrev first_row : SnapshotRow
first_row = sample 1000 1

abbrev second_row : SnapshotRow
second_row = sample 2000 2

first_row-IsSnapshotRow : IsSnapshotRow first_row
first_row-IsSnapshotRow = record {
  order_valid = uuid_v7-IsOrder 1 (omega arith);
  sequence_bound = omega arith;
  created_at_bound = omega arith;
  created_by_valid = record { bound = omega arith; utf8 = empty_is_text };
  commit_message_valid = record { bound = omega arith; utf8 = empty_is_text };
  commit_extra_info_valid = record { bound = omega arith; utf8 = empty_is_text };
}

second_row-IsSnapshotRow : IsSnapshotRow second_row
second_row-IsSnapshotRow = record {
  order_valid = uuid_v7-IsOrder 2 (omega arith);
  sequence_bound = omega arith;
  created_at_bound = omega arith;
  created_by_valid = record { bound = omega arith; utf8 = empty_is_text };
  commit_message_valid = record { bound = omega arith; utf8 = empty_is_text };
  commit_extra_info_valid = record { bound = omega arith; utf8 = empty_is_text };
}

decode_latest_snapshot_value-latest_snapshot_value_example :
    decode_latest_snapshot_value (latest_snapshot_value first_row) ≡ ok first_row
decode_latest_snapshot_value-latest_snapshot_value_example =
    decode_latest_snapshot_value-latest_snapshot_value first_row first_row-IsSnapshotRow

-- The store after the commit of one snapshot.
abbrev batch : KvBatch
batch = record { checks = []; deletes = []; writes = []; fence_writes = [] }

abbrev committed : FakeOrderedCatalogKv
committed = record empty { items = insert_all (stage_snapshot batch catalog first_row).writes [] }

first_commit : commit empty (stage_snapshot batch catalog first_row) ≡ ok committed
unfolding commit stage_snapshot put failed_check remove_all write_fences
first_commit = refl

committed_snapshot_example :
    (fetch_latest_snapshot (ordered_kv committed) catalog ≡ ok (some first_row))
    × (snapshot_by_raw_sequence (ordered_kv committed) catalog 1 ≡ ok (some first_row))
committed_snapshot_example =
    committed_snapshot empty committed catalog batch first_row first_row-IsSnapshotRow first_commit

-- A store with the rows of two snapshots before a row of another family.
abbrev store : FakeOrderedCatalogKv
store = record empty {
  items =
      timestamp_row catalog first_row
      ∷ timestamp_row catalog second_row
      ∷ (snapshot_prefix catalog, [])
      ∷ [];
}

store-IsSorted : IsSorted store.items
unfolding snapshot_timestamp_key snapshot_prefix family_prefix catalog_prefix ltb_bytes sortable_i64
    i64_bits to_be_bytes flip_top_bit code
store-IsSorted = ((refl, (refl, tt)), ((refl, tt), (tt, tt)))

store_holds : HoldsSnapshots catalog store.items (first_row ∷ second_row ∷ [])
unfolding within retain snapshot_timestamp_prefix snapshot_timestamp_key snapshot_prefix
    family_prefix catalog_prefix prefix_end raise_last ltb_bytes sortable_i64 i64_bits to_be_bytes
    flip_top_bit code
store_holds = refl

by_timestamp_example :
    (list_snapshots_older_than (ordered_kv store) catalog (pos 2000)
      ≡ ok (as_listed first_row ∷ []))
    × (snapshot_by_timestamp (ordered_kv store) catalog (pos 2000) lower
        ≡ ok (some (as_listed second_row)))
    × (snapshot_by_timestamp (ordered_kv store) catalog (pos 2000) upper
        ≡ ok (some (as_listed second_row)))
by_timestamp_example =
    by_timestamp (ordered_kv store) store.items catalog (first_row ∷ second_row ∷ []) (pos 2000)
      (ordered_kv-Reads store store-IsSorted) (omega arith) store_holds
      (first_row-IsSnapshotRow, (second_row-IsSnapshotRow, tt))

-- The store after the commit of both snapshots.
abbrev both : KvBatch
both = stage_snapshot (stage_snapshot batch catalog first_row) catalog second_row

abbrev committed_both : FakeOrderedCatalogKv
committed_both = record empty { items = insert_all both.writes [] }

second_commit : commit empty both ≡ ok committed_both
unfolding commit stage_snapshot put failed_check remove_all write_fences
second_commit = refl

both_latest : fetch_latest_snapshot (ordered_kv committed_both) catalog ≡ ok (some second_row)
both_latest =
    (committed_snapshot empty committed_both catalog (stage_snapshot batch catalog first_row)
      second_row second_row-IsSnapshotRow second_commit).0

both-IsSorted : IsSorted committed_both.items
both-IsSorted = commit-IsSorted empty committed_both both second_commit tt

both_held : HoldsSnapshots catalog committed_both.items (first_row ∷ second_row ∷ [])
unfolding within retain snapshot_timestamp_prefix snapshot_timestamp_key snapshot_prefix
    family_prefix catalog_prefix prefix_end raise_last ltb_bytes sortable_i64 i64_bits to_be_bytes
    flip_top_bit code stage_snapshot put insert_all insert snapshot_key latest_snapshot_row_key
    raw_snapshot_row_key uuid_v7
both_held = refl

both_small : length committed_both.items ≤ usize_max
unfolding insert_all stage_snapshot put insert snapshot_timestamp_key family_prefix catalog_prefix
    to_be_bytes snapshot_key code latest_snapshot_row_key raw_snapshot_row_key sortable_i64
    flip_top_bit i64_bits ltb_bytes uuid_v7
both_small = omega arith

both_listed :
    list_snapshots (ordered_kv committed_both) catalog
    ≡ ok (as_listed first_row ∷ as_listed second_row ∷ [])
unfolding sort_by_order insert_by_order lt_order ltb_bytes from_bytes uuid_v7 to_be_bytes
both_listed =
    list_snapshots_lem (ordered_kv committed_both) committed_both.items catalog
      (first_row ∷ second_row ∷ []) (ordered_kv-Reads committed_both both-IsSorted) both_small
      both_held (first_row-IsSnapshotRow, (second_row-IsSnapshotRow, tt))

expire_snapshots_lem_example :
    expire_snapshots committed_both catalog (1 ∷ [])
    ≡ ok (
      record committed_both {
        items = remove_all (timestamp_key catalog (as_listed first_row) ∷ []) committed_both.items;
      },
      as_listed first_row ∷ [],
    )
expire_snapshots_lem_example =
    expire_snapshots_lem committed_both catalog (1 ∷ []) second_row
      (as_listed first_row ∷ as_listed second_row ∷ []) both_latest both_listed

expire_snapshots_rows_example :
    AreOlder second_row (as_listed first_row ∷ [])
    × (get
          (latest_snapshot_row_key catalog)
          (remove_all (timestamp_key catalog (as_listed first_row) ∷ []) committed_both.items)
        ≡ get (latest_snapshot_row_key catalog) committed_both.items)
unfolding get ltb_bytes latest_snapshot_row_key family_prefix catalog_prefix to_be_bytes
    snapshot_timestamp_key code
expire_snapshots_rows_example =
    expire_snapshots_rows committed_both
      (record committed_both {
        items = remove_all (timestamp_key catalog (as_listed first_row) ∷ []) committed_both.items;
      })
      catalog (1 ∷ []) (as_listed first_row ∷ []) second_row (latest_snapshot_row_key catalog)
      expire_snapshots_lem_example both_latest
