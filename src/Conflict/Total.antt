-- ===== src/Conflict/Total.antt =====
-- Decoding of commit attempts and of the keys of changes on inputs of every form.
use aux_ducklake.Base.{ℕ, ◌≡◌, ◌&&◌, ◌==◌, Option, none, some, length, first?, arith}
use aux_ducklake.Bytes.{Bytes, strip_prefix}
use aux_ducklake.Error.{CatalogError, ok_or}
use aux_ducklake.FileListing.ChangeKind.{from_code}
use aux_ducklake.Ids.{CatalogOrderKind, TableId}
use aux_ducklake.Rows.Total.{
  Returns, Returns-ensure, Returns-if, Returns->>=, Returns-slice, Returns-byte_at,
  Returns-read_uint, Returns-decode_stored_order,
}
use aux_ducklake.Conflict.{decode_snapshot_data_file_change_key}
use aux_ducklake.Conflict.Attempt.{decode_commit_attempt}
use aux_ducklake.Conflict.Table.{decode_data_file_change_key}

Returns-ok_or {ℓ} : {A : Type ℓ} (o : Option A) (e : CatalogError) → Returns (ok_or o e)
Returns-ok_or none e = tt
Returns-ok_or (some a) e = tt

Returns-from_code : (c : ℕ) → Returns (from_code c)
unfolding from_code
Returns-from_code c =
    Returns-if (c == b'a') _ _ (λ _. tt) (λ _. Returns-if (c == b'r') _ _ (λ _. tt) (λ _. tt))

Returns-decode_commit_attempt : (bytes : Bytes) → Returns (decode_commit_attempt bytes)
unfolding decode_commit_attempt
Returns-decode_commit_attempt bytes = Returns->>= _ _ (Returns-ok_or (first? bytes) _) (λ version e.
    Returns-ensure (version == 2) _ _ (λ _. Returns-ensure (length bytes == 34) _ _ (λ l.
      let sized : length bytes ≡ 34 = ground arith in
      Returns->>= _ _ (Returns-read_uint bytes 1 17 (omega arith) (omega arith)) (λ id f.
        Returns->>= _ _ (Returns-slice bytes 17 (length bytes) (omega arith) (omega arith))
          (λ order g. Returns->>= _ _ (Returns-decode_stored_order order) (λ o i. tt))))))

Returns-decode_snapshot_key :
    (prefix key : Bytes) (kind : CatalogOrderKind)
    → Returns (decode_snapshot_data_file_change_key prefix key kind)
unfolding decode_snapshot_data_file_change_key
Returns-decode_snapshot_key prefix key kind =
    Returns->>= _ _ (Returns-ok_or (strip_prefix prefix key) _) (λ tail e.
      Returns-ensure (length tail == 36) _ _ (λ l.
        let sized : length tail ≡ 36 = ground arith in
        Returns->>= _ _ (Returns-byte_at tail 16 (omega arith)) (λ first f.
          Returns->>= _ _ (Returns-byte_at tail 25 (omega arith)) (λ second g.
            Returns->>= _ _ (Returns-byte_at tail 27 (omega arith)) (λ third h.
              Returns-ensure (first == b'/' && second == b'/' && third == b'/') _ _ (λ _.
                Returns->>= _ _ (Returns-slice tail 0 16 (omega arith) (omega arith)) (λ order i.
                  Returns->>= _ _ (Returns-read_uint tail 17 25 (omega arith) (omega arith))
                    (λ table j. Returns->>= _ _ (Returns-byte_at tail 26 (omega arith)) (λ code k.
                      Returns->>= _ _ (Returns-from_code code) (λ c m.
                        Returns->>= _ _
                          (Returns-read_uint tail 28 (length tail) (omega arith) (omega arith))
                          (λ file n. tt)))))))))))

Returns-decode_table_key :
    (table_id : TableId) (prefix key : Bytes) (kind : CatalogOrderKind)
    → Returns (decode_data_file_change_key table_id prefix key kind)
unfolding decode_data_file_change_key
Returns-decode_table_key table_id prefix key kind =
    Returns->>= _ _ (Returns-ok_or (strip_prefix prefix key) _) (λ tail e.
      Returns-ensure (length tail == 27) _ _ (λ l.
        let sized : length tail ≡ 27 = ground arith in
        Returns->>= _ _ (Returns-byte_at tail 16 (omega arith)) (λ first f.
          Returns->>= _ _ (Returns-byte_at tail 18 (omega arith)) (λ second g.
            Returns-ensure (first == b'/' && second == b'/') _ _ (λ _.
              Returns->>= _ _ (Returns-slice tail 0 16 (omega arith) (omega arith)) (λ order i.
                Returns->>= _ _ (Returns-byte_at tail 17 (omega arith)) (λ code k.
                  Returns->>= _ _ (Returns-from_code code) (λ c m.
                    Returns->>= _ _
                      (Returns-read_uint tail 19 (length tail) (omega arith) (omega arith))
                      (λ file n. tt)))))))))

-- The decoders of commit-attempt rows and of the keys of both change feeds return a value or an
-- error on every input.
pub Returns-decoders :
    (bytes prefix key : Bytes) (table_id : TableId) (kind : CatalogOrderKind)
    → Returns (decode_commit_attempt bytes)
      × Returns (decode_snapshot_data_file_change_key prefix key kind)
      × Returns (decode_data_file_change_key table_id prefix key kind)
Returns-decoders bytes prefix key table_id kind = (
  Returns-decode_commit_attempt bytes,
  Returns-decode_snapshot_key prefix key kind,
  Returns-decode_table_key table_id prefix key kind,
)
