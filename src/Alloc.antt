-- ===== src/Alloc.antt =====
-- The contract allocator: libraries/eosiolib/simple_malloc.cpp with the two classes that it uses,
-- malloc/eosio/small_memory_alloc.hpp and malloc/eosio/big_memory_alloc.hpp.
-- Pointers and `size_t` are 32-bit words, `nullptr` is 0, and the memory is a word for each address.
pub mod Store
pub mod Small
pub mod Big
pub mod Dsmalloc
pub mod Libc
pub mod Owners
pub mod Frame
pub mod Invariant
pub mod Reuse
pub mod Allocate
pub mod Release
pub mod Start
pub mod Limits
pub mod Exhausted
mod Tests
