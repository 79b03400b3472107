-- ===== src/Lib.antt =====
-- A hash table with chained buckets, a skip list and memory pools, and the theorems that make them
-- correct.
--
-- The repository holds five C libraries: a hash table (table-4.3.0), memory pools (mpool-2.1.0),
-- skip lists (skiplist), command-line arguments (argv-2.7.0) and sockets (conn-1.1.0). Modelled here
-- are the hash table, table-4.3.0/table.c with table.h and table_loc.h, the skip list,
-- skiplist/skip.c with skip.h and skip_loc.h, and the memory pools, mpool-2.1.0/mpool.c with mpool.h
-- and mpool_loc.h. They do not call each other; the models of the skip list and the pools take byte
-- strings, sizes and runs from that of the table.
--
-- The hash table has these parts:
--
-- - Table.Hash: the macro HASH_MIX (`hash_mix`) and `hash`, over 32-bit words.
-- - Table.Memory: the memory functions. Those of libc and those that a user gives to
--   table_alloc_in_pool are a parameter, a state machine that answers each call as it likes; a run
--   passes the state on or has undefined behaviour (`fault`), such as an access outside an array.
-- - Table.State: the structures, error codes, flags and constants.
-- - Table.Entry: keys and arguments, the layout of an entry, the search in a bucket (`find`) and the
--   writes to it (`unlink`, `assign`).
-- - Table.Create: table_alloc, table_alloc_in_pool, table_set_data_alignment, table_clear, table_free
--   and table_info. Table.Insert: table_insert_kd. Table.Retrieve: table_retrieve and table_attr.
--   Table.Delete: table_delete and table_delete_first. Table.Adjust: table_adjust, which insertion and
--   deletion call at their end. Each handler is a function of the table with the source's order of
--   checks and calls; `guarded` holds the checks of the table pointer that all of them share.
-- - Table.Linear: first_entry, next_entry and this_entry, and the functions that walk a table with a
--   counter in it or one of the caller's; Table.Linear.Gather is the loop of table_order over them.
-- - Table.Buckets and Table.Valid: the specification. A table stands for a map from keys to data
--   (`view`); `IsValid` is its invariant; `Returns` says that a run ends with no fault.
-- - Table.Tests: concrete tables, the theorems at them, and runs.
--
-- A linked list of entries is a list, since every entry is on one chain only. An entry keeps its
-- address, key bytes and data bytes (`none` for a byte that nothing has written); where its block
-- is too small for them, the insertion is a fault. Sizes and counters of type unsigned int wrap
-- around at 2 ^ 32. Result pointers that are NULL are not told from others where the code only
-- skips a store. The sizes of structures are those of a machine with 64-bit pointers. Loops are
-- recursions on the lists and counters that they run over, so there is no fuel, but for the search
-- for a power of two in table_set_data_alignment, whose 7 rounds are as many as its loop can make.
--
-- The skip list has these parts:
--
-- - Skip.State: the structures, the codes, and the store that the nodes stand in. Skip.Search:
--   find_node and the default comparison. Skip.Height: random_level and good_height.
-- - Skip.Retrieve: skip_retrieve, skip_first, skip_next, skip_this and skip_info. Skip.Insert:
--   skip_insert. Skip.Delete: skip_delete and skip_delete_first. Skip.Create: skip_alloc, skip_clear
--   and skip_free.
-- - Skip.Items and Skip.Valid: the specification. A skip list stands for its entries in the order of
--   the bottom row, each with its height: these fix every forward pointer (`Linked`). `IsValid` is
--   the invariant, `lookup` the map. Skip.Order is what a comparison has to be. Skip.Links says what
--   changes of forward pointers make of the rows.
-- - Skip.Tests: a concrete list, the theorems at it, and runs.
--
-- The nodes of a skip list are in one store, a function from addresses, since every level leads to
-- the same nodes: an access to no node, and a pointer that is read or written outside the array of a
-- node, is a fault. What malloc, realloc and random answer is an argument of the operations. Keys
-- are read where the caller gives them. The loop of find_node has fuel for one step right for each
-- entry and one down for each level, which is enough on a valid list. A comparison that the user
-- gives is a parameter; the invariant asks it to be an order. The search and the linear access are
-- those of a list in memory.
--
-- The memory pools have these parts:
--
-- - Mpool.Bytes: the memory of the process, a function from addresses to bytes, with numbers and
--   pointers in it, the low byte first. Mpool.State: the pool, the codes and the constants.
-- - Mpool.Bits: startup, size_to_bits, size_to_free_bits and bits_to_size. Mpool.Pages: the macros of
--   pages and block headers, alloc_pages, free_pages, check_magic and write_magic. What the system
--   does is a parameter, the record `System`.
-- - Mpool.Free: free_pointer and split_block. Mpool.Space: get_space, alloc_mem and free_mem.
-- - Mpool.Calls: mpool_alloc, mpool_calloc, mpool_free, mpool_resize, mpool_stats, mpool_set_log_func
--   and mpool_set_max_pages. Mpool.Open: mpool_open, mpool_close and mpool_clear.
-- - Mpool.Valid: the invariant. Each byte has an owner: the pool's structure, the entry of a free
--   list, an allocation, the call that has it in hand, or none. Lists and allocations are apart because their owners differ.
-- - Mpool.Tests: a concrete pool, the theorems at it, and runs.
--
-- The fields of a pool are a record apart from the bytes, although they stand in the pages that
-- mpool_open gets; the bytes from the pool's address on have an owner of their own in the
-- invariant, so that no free block, no allocation and no write of the user to an allocation is
-- where the structure is. Addresses and sizes are 64-bit numbers, sizes of pages and their numbers
-- 32-bit ones. The loops of mpool_close and mpool_clear over the blocks have the number of pages as
-- fuel, since each block has a page, and running out of it is a fault; the rounding of get_space
-- has 7 rounds, as many as it can make.
--
-- Not modelled: reading, writing and mapping files, the printed line of table_adjust, table_order and
-- its sort, skip_normalize, error strings, the other two libraries, and the test programs. A table or
-- list that is mapped from a file only answers with its error code where the code refuses it.
pub mod Prelude
pub mod Table
pub mod Skip
pub mod Mpool
