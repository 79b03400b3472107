-- ===== src/Mpool/Tests/Runs.antt =====
-- Runs of the exported functions.
use source.Mpool.Bits.{size_to_bits, bit_size, size_to_free_bits}
use source.Mpool.Bytes.{store}
use source.Mpool.Calls.{mpool_alloc, mpool_free}
use source.Mpool.Open.{mpool_open, page_size_of}
use source.Mpool.Pages.{
  got, alloc_pages, size_of_pages, pages_in_size, max_block_user_memory, check_magic, write_magic,
  write_block,
}
use source.Mpool.State.{no_error, pnt_over, Store, is_set}
use source.Mpool.Free.{free_pointer, real_size_of}
use source.Mpool.Space.{alloc_mem, free_mem}
use source.Mpool.Tests.Data.{bump}
use source.Prelude.{◌≡◌, refl, Option}

abbrev opened : Option Store
opened = (mpool_open bump 0 4096 0 (λ x. 0) 4096).0.1

-- The first allocation is at the start of the pages that are got for it.
first_alloc : (mpool_alloc bump opened 100 8192).0.0 ≡ got 8224
unfolding mpool_alloc mpool_open page_size_of is_set alloc_pages alloc_mem size_to_bits bit_size
    size_of_pages pages_in_size max_block_user_memory free_pointer
first_alloc = refl

-- It is freed with its size.
abbrev first : Option Store
first = (mpool_alloc bump opened 100 8192).0.1

free_first : (mpool_free bump first 8224 100 0).0.0 ≡ no_error
unfolding mpool_alloc mpool_open page_size_of is_set alloc_pages alloc_mem size_to_bits bit_size
    size_of_pages pages_in_size max_block_user_memory free_pointer mpool_free size_to_free_bits
    real_size_of free_mem check_magic write_magic
free_first = refl

-- A wrong size misses the fence.
free_wrong_size : (mpool_free bump first 8224 90 0).0.0 ≡ pnt_over
unfolding mpool_alloc mpool_open page_size_of is_set alloc_pages alloc_mem size_to_bits bit_size
    size_of_pages pages_in_size max_block_user_memory free_pointer mpool_free size_to_free_bits
    real_size_of free_mem check_magic write_magic store write_block
free_wrong_size = refl

bits_of_1000 : size_to_bits 1000 ≡ 10
unfolding size_to_bits bit_size
bits_of_1000 = refl
