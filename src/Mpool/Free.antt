-- ===== src/Mpool/Free.antt =====
-- `free_pointer` and `split_block` of mpool-2.1.0/mpool.c: memory that goes to the free lists.
pub mod Real
pub mod Pushed
pub mod Listed
pub mod Outcome
use source.Mpool.Bits.{started, size_to_free_bits}
use source.Mpool.Bytes.{Bytes, put, load, store}
use source.Mpool.Pages.{
  pages_in_size, size_of_pages, size_of_pages_long, max_block_user_memory, first_addr_in_block,
  bounds_at, next_at, memory_in_block, is_block, write_block,
}
use source.Mpool.State.{Error, no_error, pool_over, is_free, Pool, Store, block_size}
use source.Prelude.Words.{u32, sub64}
use source.Prelude.{ℕ, ◌+◌, ltb, ◌==◌, if◌then◌else◌}

-- `mp_free[bit_n] = addr`
abbrev pub set_head : Pool → ℕ → ℕ → Pool
set_head mp bit_n addr = record mp { free = put mp.free bit_n addr }

-- The block is put at the front of its list: with no room for a pointer only on an empty list, with
-- room for one with the next pointer, and else with its size too.
unfoldable pub push_free : Store → ℕ → ℕ → ℕ → Store
push_free s addr real_size bit_n =
    let next = s.pool.free bit_n in
    if ltb bit_n started.min_bit_free_next
    then (if next == 0 then record s { pool = set_head s.pool bit_n addr } else s)
    else if ltb bit_n started.min_bit_free_size
    then record s { pool = set_head s.pool bit_n addr; mem = store s.mem addr 8 next }
    else record s {
      pool = set_head s.pool bit_n addr;
      mem = store (store s.mem addr 8 next) (addr + 8) 8 real_size;
    }

-- More than a page holds is freed to the end of its pages.
unfoldable pub real_size_of : ℕ → ℕ → ℕ
real_size_of page_size size =
    if ltb (max_block_user_memory page_size) size
    then sub64 (size_of_pages_long page_size (pages_in_size page_size size)) block_size
    else size

unfoldable pub free_sized : Store → ℕ → ℕ → Error × Store
unfolding push_free
free_sized s addr real_size =
    let bit_n = size_to_free_bits real_size in
    if s.pool.free bit_n == addr then (is_free, s) else (no_error, push_free s addr real_size bit_n)

unfoldable pub free_pointer : Store → ℕ → ℕ → Error × Store
unfolding free_sized
free_pointer s addr size =
    if size == 0 then (no_error, s) else free_sized s addr (real_size_of s.pool.page_size size)

-- The header of the new block, and the old one's pointers to it.
unfoldable pub split_headers : Bytes → ℕ → ℕ → Bytes
split_headers m block_p new_block_p =
    store
      (store (write_block m new_block_p (bounds_at m block_p) (next_at m block_p)) (block_p + 8) 8
        new_block_p)
      (block_p + 16) 8 new_block_p

-- The rest of the first page is freed if the first block is one page.
unfoldable pub free_rest : Store → ℕ → ℕ → ℕ → ℕ → Error × Store
unfolding free_pointer
free_rest s free_addr size block_p page_n =
    if page_n == 1
    then free_pointer s (free_addr + size) (sub64 (bounds_at s.mem block_p) (free_addr + size))
    else (no_error, s)

-- `split_block` behind the check of the header: an error of the first `free_pointer` ends it.
unfoldable pub split_at : Store → ℕ → ℕ → ℕ → ℕ → Error × Store
unfolding free_rest free_pointer
split_at s free_addr size block_p page_n =
    let new_block_p = block_p + size_of_pages s.pool.page_size page_n in
    let r =
      free_rest (record s { mem = split_headers s.mem block_p new_block_p }) free_addr size block_p
        page_n in
    let last =
      free_pointer r.1 (first_addr_in_block new_block_p) (memory_in_block r.1.mem new_block_p) in
    elim r.0 [ no_error ↦ last | e ↦ (e, r.1) ]

unfoldable pub split_block : Store → ℕ → ℕ → Error × Store
unfolding split_at
split_block s free_addr size =
    let block_p = sub64 free_addr block_size in
    if is_block s.mem block_p
    then split_at s free_addr size block_p (u32 (pages_in_size s.pool.page_size size))
    else (pool_over, s)
