-- ===== src/Lib.antt =====
-- A model of the core of taurus-cdt, the toolkit for contracts in C++: the allocator that every contract
-- runs on, the older memory manager, the key-value table and map, the rope, the tools for RSA keys, the powers of
-- the asset code, the merge of ABI files and the dispatcher that is generated for a contract.
--
-- Prelude (Prelude/*.antt) has Boolean tests, lists by native numbers, results and 32-bit words.
--
-- Alloc models libraries/eosiolib/simple_malloc.cpp and the two headers of
-- libraries/eosiolib/malloc/eosio. Memory is a function from addresses to words (Alloc/Store.antt).
-- Alloc/Small.antt is small_mem_alloc, Alloc/Big.antt is big_mem_alloc, Alloc/Dsmalloc.antt the struct
-- dsmalloc with its operator(), Alloc/Libc.antt its free and malloc, calloc, realloc, free and
-- posix_memalign. A size, an address or a capacity is a word of 32 bits, and each sum wraps around as
-- it does on wasm32. Whether the host grows the memory is a parameter. What a state owes to the blocks
-- in use and to those given back is the record Inv of Alloc/Owners.antt: an address is owned at most
-- once. The other files of Alloc follow one operation each. Memory is read and written by words; memset and memmove
-- of a size that ends inside a word leave the other bytes of that word.
--
-- Kv models contracts/eosio/kv_base.hpp and contracts/eosio/kv.hpp of libraries/eosiolib: keys
-- (Kv/Keys.antt), their hex form (Kv/Hex.antt), and table_base::put, table_base::erase and
-- kv_index::get (Kv/Table.antt). The host's database is the interface of Kv/Host.antt, with a map as
-- one implementation. The codec of rows and key prefixes belongs to another library: the record Schema
-- has it as fields and the record Lawful what the code relies on; a field says whether the rows are values of
-- std::variant, which are stored without the leading index. The iterators and the class index are in
-- Kv/Iterator.antt, over the host's iterators: the interface of Kv/Cursors.antt, which Kv/ListCursors.antt has
-- for a database that is a list of changes; Kv/Listing.antt says what a list of the keys of a range is. The loop of
-- range has a fuel of a round more than the range has keys. Not modelled is the destruction of host
-- iterators.
--
-- Crypto models libraries/eosiolib/core/eosio/crypto_utils.hpp: Crypto/Base64.antt is base64_decode,
-- Crypto/Pem.antt the functions on texts, Crypto/Rsa.antt rsa_key_parser and parse_rsa_pubkey. Where C++
-- has no behaviour the model returns none.
--
-- Powers models libraries/eosiolib/core/eosio/powers.hpp. The templates recurse on a fuel of 255, which
-- is as far as the 8 bits of an exponent reach.
--
-- Abi models tools/include/eosio/abimerge.hpp. Values of the library jsoncons are a parameter
-- (Abi/Json.antt), and so is the double of a version with its comparisons; Abi/Same.antt has the tests of sameness, Abi/Merge.antt the merge.
--
-- Heap models libraries/eosiolib/malloc.cpp, which the build leaves out: the classes memory and buffer_ptr
-- (Heap.antt), and memory_manager with sbrk and the functions of C (Heap/Manager.antt). The loop that merges
-- free buffers runs on a fuel of the size that is needed, since a round adds at least a marker of 4 bytes;
-- the loop of malloc_from_freed on the size of the heap, for the same reason. The two loops of malloc over the
-- heaps have their rounds as an argument.
--
-- Stream models libraries/eosiolib/core/eosio/datastream.hpp: the stream over a buffer (Stream.antt), with
-- pointers and size_t as words of 32 bits, and the counter of bytes (Stream/Size.antt). A value is
-- the calls of put and write by which it is serialised; the operators that make these calls work by
-- templates and are not modelled.
--
-- Extension models libraries/eosiolib/core/eosio/binary_extension.hpp: the flag and the storage of a value
-- (Extension.antt), with the assignments on objects by address, so that two may be one.
--
-- MultiIndex models contracts/eosio/multi_index.hpp and contracts/eosio/singleton.hpp of
-- libraries/eosiolib. MultiIndex.antt has the cache of rows with find, get, emplace, modify and erase,
-- MultiIndex/Iterator.antt the iterators by primary key and available_primary_key,
-- MultiIndex/Secondary.antt the struct index, and MultiIndex/Singleton.antt the class singleton, a
-- client of the table. A cached row is an Item; a reference to one is the address of its table with its
-- handle. The host's database is the interface DbHost of MultiIndex/Host.antt, with its documented laws
-- there and in MultiIndex/Order.antt, and MultiIndex/MapHost.antt is a host that has them. The codec of
-- rows is a parameter. The abstract table gives each primary key its object or none: content in
-- MultiIndex/Consistency.antt, with the record Consistent for what the cache and the host owe to each
-- other. Who pays for a row and the reverse iterators are left out.
--
-- Rope models libraries/eosiolib/core/eosio/rope.hpp: the tree of pieces, the walk of c_str with its way up
-- as a list of frames, the recursion of at, and append (Rope.antt). The walk has as many rounds as
-- the tree needs at most, one down to each node and two back to it (Rope/Walk.antt). An appended rope shares its nodes, which no later call changes, so a pointer is its node.
--
-- Map models libraries/eosiolib/contracts/eosio/map.hpp with the key prefix of core/eosio/key_utils.hpp:
-- the operations by key (Map.antt) and the iterators with the searches (Map/Iterator.antt), over the host of
-- Kv/Host.antt and the cursors of Kv/Cursors.antt, with the laws for a list of changes in
-- Kv/ListLaws.antt. The loop of ranged_slice has a fuel of a round more than the slice has keys. Payers, the static
-- buffer and moves of iterators are left out.
--
-- Dispatch models generate_eosio_dispatch of tools/src/eosio-codegen.cpp with the order of notifications in
-- tools/include/eosio/cdt_abi.hpp: the text of apply that it writes, as the tree of its statements, and
-- what C does with it (Dispatch.antt). A std::set is the list of its elements in order. Where
-- the first notification has an empty name the text is no C++ program, which the model of apply does not cover.
--
-- Not modelled are the wrappers of host calls, the tester, and the other tools, which work on the data
-- structures of compilers that are not part of the repository.
pub mod Prelude
pub mod Alloc
pub mod Kv
pub mod Abi
pub mod Powers
pub mod Stream
pub mod Rope
pub mod Map
pub mod Dispatch
pub mod Crypto
pub mod Extension
pub mod Heap
pub mod MultiIndex
