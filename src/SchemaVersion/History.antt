-- ===== src/SchemaVersion/History.antt =====
-- Rows of the history of schema versions, and where they lie between the ends of scans.
use aux_ducklake.Base.{
  drop-append, append_assoc, ℕ, ◌≡◌, refl, sym, ap, ◌∙◌, true, false, some, [], ◌∷◌, ◌++◌,
  append-nil, length, arith, Bool-cases, inl, inr, drop,
}
use aux_ducklake.Bytes.{Bytes, ltb_bytes, leb_bytes, strip_prefix, from_be_bytes}
use aux_ducklake.Bytes.Ranges.{ltb_bytes-append_self, prefix_of_between, below_scan_end}
use aux_ducklake.Bytes.Order.{
  ltb-leb_bytes_trans, ltb_bytes-append_by_order, ltb_bytes-append_left, ltb_bytes_irrefl,
}
use aux_ducklake.Bytes.Prefix.{strip_prefix→eq}
use aux_ducklake.Ids.{CatalogId, CatalogOrderKind, CatalogOrderId, IsOrder, order_len, le_order}
use aux_ducklake.Ids.CatalogOrder.{from_bytes}
use aux_ducklake.Error.{ok}
use aux_ducklake.Keys.{in_range}
use aux_ducklake.Keys.Metadata.{
  schema_version_history_key, schema_version_history_prefix, schema_version_history_scan_end,
}
use aux_ducklake.Kv.{RangeItem, item}
use aux_ducklake.SchemaVersion.{decode_schema_version, decode_schema_history_row}

-- A row under the prefix of the history is a version at an order.
abbrev pub IsHistoryRow : CatalogId → Bytes × Bytes → Type 0
IsHistoryRow catalog e =
    (tail : Bytes)
    → strip_prefix (schema_version_history_prefix catalog) e.0 ≡ some tail
    → (length tail ≡ order_len) × (length e.1 ≡ 8)

scan_end_lem :
    (catalog : CatalogId) (o : CatalogOrderId)
    → schema_version_history_scan_end catalog o
      ≡ schema_version_history_prefix catalog ++ (o.bytes ++ (0xff ∷ []))
unfolding schema_version_history_scan_end schema_version_history_key
scan_end_lem catalog o = simp append_assoc

-- What a well-formed row of the history decodes to.
abbrev pub decoded : CatalogId → CatalogOrderKind → RangeItem → CatalogOrderId × ℕ
decoded catalog kind row = (
  from_bytes kind (drop (length (schema_version_history_prefix catalog)) row.key),
  from_be_bytes row.value,
)

-- The order in the key of a row decides on which side of a scan's end the row lies.
below_end :
    (catalog : CatalogId) (t : Bytes) (b : CatalogOrderId)
    → length t ≡ order_len
    → IsOrder b
    → ltb_bytes
        (schema_version_history_prefix catalog ++ t)
        (schema_version_history_scan_end catalog b)
      ≡ leb_bytes t b.bytes
below_end catalog t b sized hb =
    let p = schema_version_history_prefix catalog in
    rw (scan_end_lem catalog b) (
      rw (append-nil t) at
        (below_scan_end p t b.bytes [] (sized ∙ sym hb.sized) (unfold ltb_bytes in refl)))

pub prefix_below :
    (catalog : CatalogId) (o : CatalogOrderId)
    → ltb_bytes (schema_version_history_scan_end catalog o) (schema_version_history_prefix catalog)
      ≡ false
prefix_below catalog o = rw (scan_end_lem catalog o) (ltb_bytes-append_self _ _)

not_below_prefix :
    (catalog : CatalogId) (a : CatalogOrderId) (k : Bytes)
    → ltb_bytes k (schema_version_history_scan_end catalog a) ≡ false
    → ltb_bytes k (schema_version_history_prefix catalog) ≡ false
not_below_prefix catalog a k h =
    elim (Bool-cases (ltb_bytes k (schema_version_history_prefix catalog))) [
      | inl below ↦ cc (h, ltb-leb_bytes_trans k _ _ below (prefix_below catalog a))
      | inr n ↦ n
    ]

-- What is known of a row behind the order `a` and up to the order `b`.
pub record IsBetween (catalog : CatalogId) (kind : CatalogOrderKind) (a b : CatalogOrderId)
    (e : Bytes × Bytes) : Type 0 where
  pub decodes :
      decode_schema_history_row (schema_version_history_prefix catalog) kind (item e)
      ≡ ok (decoded catalog kind (item e))
  pub value_decodes : decode_schema_version e.1 ≡ ok (from_be_bytes e.1)
  pub behind : le_order (decoded catalog kind (item e)).0 a ≡ false
  pub up_to_end : le_order (decoded catalog kind (item e)).0 b ≡ true

pub IsBetween-row :
    (catalog : CatalogId) (kind : CatalogOrderKind) (a b : CatalogOrderId) (e : Bytes × Bytes)
    → IsOrder a
    → IsOrder b
    → IsHistoryRow catalog e
    → in_range
        (schema_version_history_scan_end catalog a)
        (schema_version_history_scan_end catalog b)
        e.0
      ≡ true
    → IsBetween catalog kind a b e
unfolding decode_schema_history_row decode_schema_version le_order from_bytes
IsBetween-row catalog kind a b e ha hb wf inside =
    let p = schema_version_history_prefix catalog in
    let z : Bytes = b.bytes ++ (0xff ∷ []) in
    let from_a : ltb_bytes e.0 (schema_version_history_scan_end catalog a) ≡ false = ground arith in
    let to_b : ltb_bytes e.0 (schema_version_history_scan_end catalog b) ≡ true = ground arith in
    let (t, stripped) =
      prefix_of_between p z e.0 (not_below_prefix catalog a e.0 from_a)
        (rw (scan_end_lem catalog b) at to_b) in
    let (sized, value_sized) = wf t stripped in
    let split = strip_prefix→eq p e.0 t stripped in
    let tail : drop (length p) e.0 ≡ t = rw split (drop-append (length p) p t refl) in
    record {
      decodes = rw (stripped, sized, value_sized, tail);
      value_decodes = rw value_sized;
      behind = rw tail (
          sym (below_end catalog t a sized ha)
          ∙ ap (λ (k : Bytes). ltb_bytes k (schema_version_history_scan_end catalog a)) (sym split)
          ∙ from_a);
      up_to_end = rw tail (
          sym (below_end catalog t b sized hb)
          ∙ ap (λ (k : Bytes). ltb_bytes k (schema_version_history_scan_end catalog b)) (sym split)
          ∙ to_b);
    }

pub scan_end_mono :
    (catalog : CatalogId) (a b : CatalogOrderId)
    → IsOrder a
    → IsOrder b
    → le_order a b ≡ true
    → ltb_bytes
        (schema_version_history_scan_end catalog b)
        (schema_version_history_scan_end catalog a)
      ≡ false
unfolding le_order
scan_end_mono catalog a b ha hb h =
    let z : Bytes = 0xff ∷ [] in
    rw
      (
        scan_end_lem catalog a,
        scan_end_lem catalog b,
        ltb_bytes-append_left (schema_version_history_prefix catalog),
      )
      (rw (ltb_bytes-append_by_order b.bytes a.bytes z z (hb.sized ∙ sym ha.sized))
        (ground (arith, ltb_bytes_irrefl z)))

-- The value of a row up to an order is read.
pub up_to_row :
    (catalog : CatalogId) (o : CatalogOrderId) (e : Bytes × Bytes)
    → IsHistoryRow catalog e
    → in_range
        (schema_version_history_prefix catalog)
        (schema_version_history_scan_end catalog o)
        e.0
      ≡ true
    → decode_schema_version e.1 ≡ ok (from_be_bytes e.1)
unfolding decode_schema_version
up_to_row catalog o e wf inside =
    let p = schema_version_history_prefix catalog in
    let z : Bytes = o.bytes ++ (0xff ∷ []) in
    let to_o : ltb_bytes e.0 (schema_version_history_scan_end catalog o) ≡ true = ground arith in
    let (t, stripped) =
      prefix_of_between p z e.0 (ground arith) (rw (scan_end_lem catalog o) at to_o) in
    rw (wf t stripped).1
