-- ===== src/Tests/Encodings.antt =====
-- Rows that are encoded and decoded again.
use aux_ducklake.Base.{◌∷◌, ◌≡◌, refl, true, none, some, [], arith}
use aux_ducklake.Rows.Total.{Returns, Returns-decode_snapshot}
use aux_ducklake.Conflict.{decode_snapshot_data_file_change_key}
use aux_ducklake.Conflict.Table.{decode_data_file_change_key}
use aux_ducklake.Conflict.Total.{Returns-decoders}
use aux_ducklake.Base.Int.{pos}
use aux_ducklake.Bytes.Slices.{is_utf8, continues_utf8, continuation}
use aux_ducklake.Error.{ok}
use aux_ducklake.Ids.{CatalogOrderId, CatalogOrderKind, IsOrder}
use aux_ducklake.Ids.CatalogOrder.{uuid_v7, uuid_v7-IsOrder, from_bytes}
use aux_ducklake.Keys.{codes}
use aux_ducklake.Rows.{encode_stored_order, decode_stored_order}
use aux_ducklake.Rows.StoredOrder.{decode_stored_order-encode_stored_order}
use aux_ducklake.Rows.DataFile.{DataFileRow, encode_data_file, decode_data_file}
use aux_ducklake.Rows.DataFileFields.{IsDataFileRow}
use aux_ducklake.Rows.DataFileRoundTrip.{decode_data_file-encode_data_file}
use aux_ducklake.Rows.Snapshot.{SnapshotRow, encode_snapshot, decode_snapshot}
use aux_ducklake.Rows.SnapshotRoundTrip.{IsSnapshotRow, decode_snapshot-encode_snapshot}
use aux_ducklake.Conflict.Attempt.{CommitAttemptRow, encode_commit_attempt, decode_commit_attempt}
use aux_ducklake.Conflict.Idempotency.{decode_commit_attempt-encode_commit_attempt}

abbrev order : CatalogOrderId
order = uuid_v7 7

order-IsOrder : IsOrder order
order-IsOrder = uuid_v7-IsOrder 7 (omega arith)

decode_stored_order-encode_stored_order_example :
    decode_stored_order (encode_stored_order order) ≡ ok order
decode_stored_order-encode_stored_order_example =
    decode_stored_order-encode_stored_order order order-IsOrder

abbrev attempt : CommitAttemptRow
attempt = record { attempt_id = 42; commit_order = order }

decode_commit_attempt-encode_commit_attempt_example :
    decode_commit_attempt (encode_commit_attempt attempt) ≡ ok attempt
decode_commit_attempt-encode_commit_attempt_example =
    decode_commit_attempt-encode_commit_attempt attempt (omega arith) order-IsOrder

abbrev file : DataFileRow
file = record {
  data_file_id = 1;
  table_id = 2;
  path = codes "a.parquet";
  record_count = 10;
  file_size_bytes = 400;
  footer_size = some 16;
  encryption_key = codes "key";
  row_id_start = 100;
  row_id_start_known = true;
  mapping_id = none;
  max_partial_order = none;
  validity = record { begin_order = order; end_order = some (uuid_v7 9) };
}

path_is_text : is_utf8 (codes "a.parquet") ≡ true
unfolding is_utf8 continues_utf8 continuation
path_is_text = refl

key_is_text : is_utf8 (codes "key") ≡ true
unfolding is_utf8 continues_utf8 continuation
key_is_text = refl

file-IsDataFileRow : IsDataFileRow file
file-IsDataFileRow = record {
  data_file_id_bound = omega arith;
  table_id_bound = omega arith;
  record_count_bound = omega arith;
  file_size_bound = omega arith;
  row_id_bound = omega arith;
  mapping_bound = tt;
  footer_bound = omega arith;
  begin_order_valid = order-IsOrder;
  end_order_valid = uuid_v7-IsOrder 9 (omega arith);
  max_partial_valid = tt;
  key_bound = omega arith;
  key_is_text = key_is_text;
  path_is_text = path_is_text;
}

decode_data_file-encode_data_file_example : decode_data_file (encode_data_file file) ≡ ok file
decode_data_file-encode_data_file_example =
    decode_data_file-encode_data_file file file-IsDataFileRow

abbrev snapshot : SnapshotRow
snapshot = record {
  order = order;
  sequence = 3;
  created_at_micros = pos 1000;
  created_by = codes "key";
  commit_message = none;
  commit_extra_info = some (codes "a.parquet");
}

empty_is_text : is_utf8 [] ≡ true
unfolding is_utf8 continues_utf8
empty_is_text = refl

snapshot-IsSnapshotRow : IsSnapshotRow snapshot
snapshot-IsSnapshotRow = record {
  order_valid = order-IsOrder;
  sequence_bound = omega arith;
  created_at_bound = omega arith;
  created_by_valid = record { bound = omega arith; utf8 = key_is_text };
  commit_message_valid = record { bound = omega arith; utf8 = empty_is_text };
  commit_extra_info_valid = record { bound = omega arith; utf8 = path_is_text };
}

decode_snapshot-encode_snapshot_example :
    decode_snapshot (encode_snapshot snapshot)
    ≡ ok (record snapshot { order = from_bytes CatalogOrderKind.uuid_v7 order.bytes })
decode_snapshot-encode_snapshot_example =
    decode_snapshot-encode_snapshot snapshot snapshot-IsSnapshotRow

-- A row of the current version that is cut off.
Returns-decode_snapshot_example : Returns (decode_snapshot (3 ∷ 0 ∷ []))
Returns-decode_snapshot_example = Returns-decode_snapshot (3 ∷ 0 ∷ [])

Returns-decoders_example :
    Returns (decode_commit_attempt (2 ∷ 1 ∷ []))
    × Returns (decode_snapshot_data_file_change_key (1 ∷ []) (1 ∷ 2 ∷ []) CatalogOrderKind.uuid_v7)
    × Returns (decode_data_file_change_key 4 (1 ∷ []) (1 ∷ 2 ∷ []) CatalogOrderKind.uuid_v7)
Returns-decoders_example =
    Returns-decoders (2 ∷ 1 ∷ []) (1 ∷ []) (1 ∷ 2 ∷ []) 4 CatalogOrderKind.uuid_v7
