-- ===== src/Objects/Total.antt =====
-- The decoders of tables, views and macros on inputs of every form.
use aux_ducklake.Base.{
  ℕ, ◌+◌, ◌≤◌, ◌≡◌, Bool-cases, inl, inr, leb, ltb, length, take, drop, arith, ◌-◌, ◌&&◌, true,
  refl,
}
use aux_ducklake.Bytes.{Bytes, from_be_bytes}
use aux_ducklake.Bytes.Slices.{slice}
use aux_ducklake.Error.{ok}
use aux_ducklake.Ids.{u64_max, saturating_add}
use aux_ducklake.Objects.Cursor.{
  Allocator, Elements, vec_of_columns, vec_of_inlined_tables, vec_of_partition_fields,
  vec_of_sort_fields, vec_of_aliases, vec_of_implementations, vec_of_parameters, Decoder, ◌>>=◌,
  decode_string, decode_u32, take_bytes, with_capacity, repeat,
}
use aux_ducklake.Objects.Cursor.Total.{
  Refused, Stays, IsTotal, IsTotal->>=, IsTotal-pure, IsTotal-if, IsTotal-decode_u64,
  IsTotal-decode_string, IsTotal-decode_bool, IsTotal-decode_optional_string, IsTotal-repeat,
}
use aux_ducklake.Objects.Header.{ObjectHeader}
use aux_ducklake.Objects.Table.{
  decode_list, decode_column, decode_inlined_table, decode_partition_field, decode_partition,
  decode_sort_field, decode_sort, decode_table_parts,
}
use aux_ducklake.Objects.View.{decode_view_parts}
use aux_ducklake.Objects.Macro.{decode_parameter, decode_implementation, decode_macro_parts}

slice-ok :
    (bytes : Bytes) (start end : ℕ)
    → start ≤ end
    → end ≤ length bytes
    → slice bytes start end ≡ ok (take (end - start) (drop start bytes))
unfolding slice
slice-ok bytes start end h k =
    let fits : (leb start end && leb end (length bytes)) ≡ true = ground arith in rw fits refl

-- A list is allocated for the number that was read before it.
counted-Stays :
    {A : Type 0} (allocates : Allocator) (elements : Elements) (decoder : Decoder A)
    → IsTotal allocates decoder
    → (bytes count : Bytes) (start end : ℕ) → length bytes ≤ u64_max
    → end ≤ length bytes
    → end ≤ start + 4
    → slice bytes start end ≡ ok count
    → Stays (Refused allocates bytes) (length bytes) (
        (with_capacity allocates elements (from_be_bytes count) >>= λ room.
        repeat (from_be_bytes count) decoder)
          bytes end)
unfolding with_capacity
counted-Stays allocates elements decoder h bytes count start end l k four read =
    elim (Bool-cases (allocates elements (from_be_bytes count))) [
      | inl room ↦ rw room ((IsTotal-repeat (from_be_bytes count) decoder h).stays bytes end l k)
      | inr full ↦ rw full (elements, start, end, count, four, read, full)
    ]

IsTotal-list :
    {A : Type 0} (allocates : Allocator) (elements : Elements) (decoder : Decoder A)
    → IsTotal allocates decoder
    → IsTotal allocates (decode_list allocates elements decoder)
unfolding decode_u32 take_bytes
IsTotal-list allocates elements decoder h = record {
  stays = λ bytes offset l k. elim (Bool-cases (ltb (length bytes) (saturating_add offset 4))) [
    | inl short ↦ rw short tt
    | inr long ↦
        let end = saturating_add offset 4 in
        let fits : end ≤ length bytes = ground arith in
        let count = take (end - offset) (drop offset bytes) in
        let read : slice bytes offset end ≡ ok count =
          slice-ok bytes offset end (omega arith) fits in
        rw (long, read)
          (counted-Stays allocates elements decoder h bytes count offset end l fits (omega arith)
            read)
  ];
}

IsTotal-column : {allocates : Allocator} → IsTotal allocates decode_column
unfolding decode_column
IsTotal-column = IsTotal->>= _ IsTotal-decode_u64 (λ column_id.
    IsTotal->>= _ IsTotal-decode_bool (λ nulls_allowed.
      IsTotal->>= _ IsTotal-decode_bool (λ has_parent.
        IsTotal->>= _ IsTotal-decode_u64 (λ parent_value.
          IsTotal->>= _ IsTotal-decode_string (λ name.
            IsTotal->>= _ IsTotal-decode_string (λ column_type.
              IsTotal->>= _ IsTotal-decode_optional_string (λ comment.
                IsTotal->>= _ IsTotal-decode_optional_string (λ initial_default.
                  IsTotal->>= _ IsTotal-decode_optional_string (λ default_value.
                    IsTotal->>= _ IsTotal-decode_string (λ default_value_type.
                      IsTotal->>= _ IsTotal-decode_bool (λ created. IsTotal-pure _)))))))))))

IsTotal-inlined_table : {allocates : Allocator} → IsTotal allocates decode_inlined_table
unfolding decode_inlined_table
IsTotal-inlined_table =
    IsTotal->>= _ IsTotal-decode_string
      (λ name. IsTotal->>= _ IsTotal-decode_u64 (λ version. IsTotal-pure _))

IsTotal-partition_field : {allocates : Allocator} → IsTotal allocates decode_partition_field
unfolding decode_partition_field
IsTotal-partition_field = IsTotal->>= _ IsTotal-decode_u64 (λ index.
    IsTotal->>= _ IsTotal-decode_u64
      (λ column_id. IsTotal->>= _ IsTotal-decode_string (λ transform. IsTotal-pure _)))

IsTotal-partition : (allocates : Allocator) → IsTotal allocates (decode_partition allocates)
unfolding decode_partition
IsTotal-partition allocates = IsTotal->>= _ IsTotal-decode_bool (λ present.
    IsTotal-if present
      (IsTotal->>= _ IsTotal-decode_u64 (λ id.
        IsTotal->>= _
          (IsTotal-list allocates vec_of_partition_fields decode_partition_field
            IsTotal-partition_field)
          (λ fields. IsTotal-pure _)))
      (IsTotal-pure _))

IsTotal-sort_field : {allocates : Allocator} → IsTotal allocates decode_sort_field
unfolding decode_sort_field
IsTotal-sort_field = IsTotal->>= _ IsTotal-decode_u64 (λ index.
    IsTotal->>= _ IsTotal-decode_string (λ expression.
      IsTotal->>= _ IsTotal-decode_string (λ dialect.
        IsTotal->>= _ IsTotal-decode_string
          (λ direction. IsTotal->>= _ IsTotal-decode_string (λ null_order. IsTotal-pure _)))))

IsTotal-sort : (allocates : Allocator) → IsTotal allocates (decode_sort allocates)
unfolding decode_sort
IsTotal-sort allocates = IsTotal->>= _ IsTotal-decode_bool (λ present.
    IsTotal-if present
      (IsTotal->>= _ IsTotal-decode_u64 (λ id.
        IsTotal->>= _
          (IsTotal-list allocates vec_of_sort_fields decode_sort_field IsTotal-sort_field)
          (λ fields. IsTotal-pure _)))
      (IsTotal-pure _))

pub IsTotal-table_parts :
    (allocates : Allocator) (header : ObjectHeader)
    → IsTotal allocates (decode_table_parts allocates header)
unfolding decode_table_parts
IsTotal-table_parts allocates header = IsTotal->>= _ IsTotal-decode_string (λ uuid.
    IsTotal->>= _ IsTotal-decode_string (λ name. IsTotal->>= _ IsTotal-decode_string (λ path.
      IsTotal->>= _ IsTotal-decode_optional_string (λ comment.
        IsTotal->>= _ (IsTotal-list allocates vec_of_columns decode_column IsTotal-column)
          (λ columns.
            IsTotal->>= _
              (IsTotal-list allocates vec_of_inlined_tables decode_inlined_table
                IsTotal-inlined_table)
              (λ inlined.
                IsTotal->>= _ (IsTotal-partition allocates) (λ partition.
                  IsTotal->>= _ (IsTotal-sort allocates) (λ sort. IsTotal-pure _))))))))

pub IsTotal-view_parts :
    (allocates : Allocator) (header : ObjectHeader)
    → IsTotal allocates (decode_view_parts allocates header)
unfolding decode_view_parts
IsTotal-view_parts allocates header = IsTotal->>= _ IsTotal-decode_string (λ uuid.
    IsTotal->>= _ IsTotal-decode_string (λ name. IsTotal->>= _ IsTotal-decode_string (λ dialect.
      IsTotal->>= _ IsTotal-decode_string (λ sql.
        IsTotal->>= _ IsTotal-decode_optional_string (λ comment.
          IsTotal->>= _ (IsTotal-list allocates vec_of_aliases decode_string IsTotal-decode_string)
            (λ aliases. IsTotal-pure _))))))

IsTotal-parameter : {allocates : Allocator} → IsTotal allocates decode_parameter
unfolding decode_parameter
IsTotal-parameter = IsTotal->>= _ IsTotal-decode_string (λ name.
    IsTotal->>= _ IsTotal-decode_string (λ type.
      IsTotal->>= _ IsTotal-decode_string
        (λ value. IsTotal->>= _ IsTotal-decode_string (λ value_type. IsTotal-pure _))))

IsTotal-implementation :
    (allocates : Allocator) → IsTotal allocates (decode_implementation allocates)
unfolding decode_implementation
IsTotal-implementation allocates = IsTotal->>= _ IsTotal-decode_string (λ dialect.
    IsTotal->>= _ IsTotal-decode_string (λ sql. IsTotal->>= _ IsTotal-decode_string (λ macro_type.
      IsTotal->>= _ (IsTotal-list allocates vec_of_parameters decode_parameter IsTotal-parameter)
        (λ parameters. IsTotal-pure _))))

pub IsTotal-macro_parts :
    (allocates : Allocator) (header : ObjectHeader)
    → IsTotal allocates (decode_macro_parts allocates header)
unfolding decode_macro_parts
IsTotal-macro_parts allocates header = IsTotal->>= _ IsTotal-decode_string (λ name.
    IsTotal->>= _
      (IsTotal-list allocates vec_of_implementations (decode_implementation allocates)
        (IsTotal-implementation allocates))
      (λ implementations. IsTotal-pure _))
