-- ===== src/Lib.antt =====
-- The metadata catalog of crates/ducklake-catalog, the Rust library that keeps DuckLake metadata in
-- an ordered key-value store.
--
-- Every row of a catalog stands under a key whose bytes sort the way the catalog is scanned:
-- catalog, family, identifiers and, where history is kept, the order of the commit. Readers scan
-- ranges of keys up to the order of their snapshot; writers stage a batch of writes and deletes
-- with checks of conflict fences, and the store applies it at once or refuses it. Commit attempts,
-- change feeds, watermarks and the history of schema versions are built on these two.
--
-- Which file models which part (paths below crates/ducklake-catalog/src):
--   Base, Base/Lists, Base/Tests, Base/Int  lists, Boolean tests, i64 as two's complement
--   Bytes, Bytes/*      byte slices: order, prefixes, big-endian integers, slicing, UTF-8
--   Ids, Ids/CatalogOrder           ids.rs: identifiers and CatalogOrderId
--   Error                           error.rs: CatalogError, and CatalogResult as ok, err or panic
--   FileListing, FileListing/*      file_listing.rs, inline_change_feed.rs: kinds of changes
--   Keys, Keys/Family               keys.rs: prefixes, prefix_end, KeyFamily
--   Keys/Object, Change, Metadata, Inline, DataFile, Stats, Cleanup, Snapshot
--                                   keys.rs, object_keys.rs, change_keys.rs, snapshot_keys.rs
--   Keys/Scans, Timestamps, Disjoint, PrefixEnd     what the bytes of the keys guarantee
--   BTreeMap, BTreeMap/*            the standard map, as a list in the order of its keys
--   Kv, Kv/Batch, Kv/Fake           kv.rs: OrderedCatalogKv, KvBatch, FakeOrderedCatalogKv
--   Kv/Commit, Fences, Ranges, FakeReads            what a commit and a scan do
--   Kv/Pages, Pages/*               kv.rs: scan_range_pages, and what it visits
--   Kv/ReadSet, ReadSet/Joins       kv.rs: the default methods of the trait, and index joins
--   SchemaVersion, SchemaVersion/*  schema_version_state.rs: the history of schema versions
--   Rows, Rows/Snapshot, Rows/DataFile              rows.rs: validity windows, stored orders,
--                                   SnapshotRow and DataFileRow with their binary format
--   Rows/StoredOrder, SnapshotRoundTrip, DataFileFields, DataFileRoundTrip, Total   what is read back
--   Conflict, Conflict/Attempt, Conflict/Table      conflict.rs, data_file_changes.rs
--   Conflict/Idempotency, Total     the life of a commit attempt, and the decoders
--   Conflict/Window, Listing        the changes of other commits since a base
--   Conflict/Watermarks, Monotone   conflict_watermarks.rs
--   LruCache, LruCache/Linked, Evict, Invariant, Operations, Recency      lru_cache.rs
--   LruCache/Bounded                bounded_cache.rs
--   Objects, Objects/Cursor, Header reading and writing at an offset, and the front of the rows
--   Objects/Table, View, Macro      table_rows.rs with table_partition_rows.rs and
--                                   table_sort_rows.rs, view_rows.rs, macro_rows.rs
--   Objects/Cursor/ReadsBack, Cursor/Total, Framed, TableRoundTrip, ViewRoundTrip, Total, Returns
--                                   what is read back, and decoding of arbitrary bytes
--   Snapshots                       store.rs: the rows of snapshots, and their expiry
--   Snapshots/Values, Timestamps    a committed snapshot, and lookups by timestamps
--   Snapshots/Expiry, ExpiryResult  what an expiry removes and returns
--   DataFiles, DataFiles/RowIds     data_file_store.rs: the row ids of appended files
--   Tests, Tests/*                  concrete stores, keys and rows
--
-- How the code is read. A newtype over an unsigned integer is a natural number; where the width
-- matters its bound is a hypothesis (IsU64, IsOrder, IsI64), and saturating and wrapping additions
-- are written out. A String is its UTF-8 bytes. Bytes are natural numbers, below 256 where it
-- matters. A call that panics returns `panic`, so slices and indices out of range show, and so does
-- an allocation that the Allocator refuses, a parameter of the decoders of tables, views and
-- macros. Error messages are reduced to their fixed text. A store is OrderedCatalogKv, a record of
-- the reads of the trait, and `Reads` states what a client relies on.
-- The read set of a request is an argument; Snapshots reads past its caches. The loop of
-- scan_range_pages runs on fuel, of which one more than the rows of the store is enough, since a
-- page that is not empty leaves fewer rows. Every other loop recurses on the list that it walks,
-- the eviction loop of the cache on its recency map, and the loop of a decoder on the count that it
-- read.
--
-- Not modelled: the FoundationDB backend (fdb*.rs, runtime_foundationdb*.rs), whose behaviour is
-- that of the foundationdb crate; the FFI and the payloads of the runtime protocol (runtime_*.rs);
-- schema rows and the stores of tables, schemas, views and macros; the staging and expiry of data
-- files and delete files; inline data, file statistics, partitions, compaction, maintenance and
-- cleanup; metrics and traces; the simulation crates, the benchmarks, the scripts and the patches
-- to DuckLake.
pub mod Base
pub mod Bytes
pub mod Ids
pub mod FileListing
pub mod Error
pub mod Keys
pub mod BTreeMap
pub mod Kv
pub mod SchemaVersion
pub mod Rows
pub mod Conflict
pub mod LruCache
pub mod Objects
pub mod DataFiles
pub mod Snapshots
pub mod Tests
