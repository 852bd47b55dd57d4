-- ===== src/Abi.antt =====
-- Merging ABI files: tools/include/eosio/abimerge.hpp.
pub mod Json
pub mod Same
pub mod Merge
