-- ===== src/Table.antt =====
-- A database table as the list of its rows in insertion order, and what `session.get`,
-- `session.add`, a write to a row's columns and an ordered query (backend/db.py) do with it.
-- `delete ... where` and `select ... where` are `delete_where` and `select` of Base.
pub mod Rows
mod Laws
mod Order
unfoldable pub use Rows.*
pub use Laws.*
pub use Order.*
