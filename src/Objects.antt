-- ===== src/Objects.antt =====
-- The rows of the catalog's objects: tables, views and macros.
pub mod Cursor
pub mod Header
pub mod Framed
pub mod Table
pub mod TableRoundTrip
pub mod Total
pub mod Returns
pub mod View
pub mod ViewRoundTrip
pub mod Macro
