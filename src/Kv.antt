-- ===== src/Kv.antt =====
-- The key-value tables: libraries/eosiolib/contracts/eosio/kv_base.hpp and kv.hpp.
pub mod Keys
pub mod Hex
pub mod Host
pub mod Cursors
pub mod Table
pub mod Listing
pub mod Iterator
pub mod ListHost
pub mod ListCursors
mod ListFirst
pub mod ListLaws
pub mod Iteration
pub mod Range
