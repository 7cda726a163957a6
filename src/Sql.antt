-- ===== src/Sql.antt =====
-- The statements of the SQL tables, over a table as the list of its rows in insertion order. A
-- `where` clause is a test of a row.
pub mod Tables
pub mod Keyed
unfoldable pub use Tables.*
