-- ===== src/Mpool/Open.antt =====
-- `mpool_open`, `mpool_close` and `mpool_clear` of mpool-2.1.0/mpool.c.
pub mod Placed
pub mod Opens
use source.Mpool.Bytes.{Bytes, store}
use source.Mpool.Calls.{check_pool, func_close, func_clear, log_of, log_call}
use source.Mpool.Free.{free_pointer}
use source.Mpool.Pages.{
  System, Got, got, error, pages_in_size, size_of_pages, size_of_pages_long, first_addr_in_block,
  bounds_at, next_at, memory_in_block, is_block, write_block, alloc_pages, free_pages,
}
use source.Mpool.State.{
  Error, no_error, arg_null, arg_invalid, pool_over, page_size_error, open_zero, mpool_magic,
  default_page_mult, block_size, pool_size, flag_heavy_packing, flag_use_sbrk, Pool, Store, is_set,
}
use source.Prelude.Words.{u32, sub64}
use source.Prelude.{
  ℕ, zero, suc, ◌+◌, ◌*◌, ◌%◌, Bool, false, Option, none, some, ◌==◌, if◌then◌else◌,
}
use source.Table.Memory.{Run, done, fault, and_then}

-- The temporary structure, with a page size and a descriptor.
abbrev pub zeroed : ℕ → ℕ → Option ℕ → ℕ → Pool
zeroed flags page_size fd addr = record {
  magic = mpool_magic;
  flags = flags;
  alloc_c = 0;
  user_alloc = 0;
  max_alloc = 0;
  page_c = 0;
  max_pages = 0;
  page_size = page_size;
  fd = fd;
  top = 0;
  log_func = false;
  addr = addr;
  min_p = 0;
  bounds_p = 0;
  first_p = 0;
  last_p = 0;
  free = λ bit_n. 0;
  magic2 = mpool_magic;
}

-- The checks of the page size: the size, or an error.
unfoldable pub page_size_of : ℕ → ℕ → Got
page_size_of getpagesize page_size =
    if page_size == 0
    then (let size = u32 (getpagesize * default_page_mult) in
        if size % 1024 == 0 then got size else error page_size_error)
    else if page_size % getpagesize == 0
    then got page_size
    else error arg_invalid

-- What `mpool_open` returns: a code, and the pool with the memory.
abbrev pub Opened : Type 0
Opened = Error × Option Store

module _ {W : Type 0} (sys : System W) where
  -- `if (mp.mp_fd >= 0) close (mp.mp_fd)`
  unfoldable pub close_fd : Option ℕ → W → W
  close_fd none w = w
  close_fd (some fd) w = sys.close fd w

  -- With heavy packing the structure stands behind a block header, and the rest of the pages is freed.
  unfoldable pub open_packed : Pool → Bytes → ℕ → ℕ → W → Opened × W
  unfolding close_fd
  open_packed mp m block_p page_n w =
      let bounds = block_p + size_of_pages mp.page_size page_n in
      let self = first_addr_in_block block_p in
      let s : Store = record { self = self; pool = mp; mem = write_block m block_p bounds 0 } in
      let r = free_pointer s (self + pool_size) (sub64 bounds (self + pool_size)) in
      elim r.0 [
        | no_error ↦
            let mp' = record r.1.pool { min_p = block_p; bounds_p = bounds } in
            ((no_error, some (record r.1 { pool = mp' })), w)
        | e ↦
            let w = close_fd mp.fd w in
            let sbrk_b = is_set mp.flags flag_use_sbrk in
            ((e, none), free_pages sys block_p (size_of_pages mp.page_size page_n) sbrk_b w)
      ]

  unfoldable pub open_plain : Pool → Bytes → ℕ → ℕ → W → Opened × W
  open_plain mp m self page_n w =
      let mp' = record mp { min_p = self; bounds_p = self + size_of_pages mp.page_size page_n } in
      ((no_error, some (record { self = self; pool = mp'; mem = m })), w)

  -- The pages of the structure.
  unfoldable pub open_pages : Pool → Bytes → W → Opened × W
  unfolding open_packed open_plain
  open_pages mp m w =
      let page_n = u32 (pages_in_size mp.page_size pool_size) in
      let r = alloc_pages sys mp page_n w in
      elim r.0.0 [
        | error e ↦ ((e, none), close_fd mp.fd r.1)
        | got mem ↦
            if is_set mp.flags flag_heavy_packing
            then open_packed r.0.1 m mem page_n r.1
            else open_plain r.0.1 m mem page_n r.1
      ]

  unfoldable pub open_sized : ℕ → ℕ → ℕ → Bytes → W → Opened × W
  unfolding open_pages
  open_sized flags page_size start_addr m w =
      if is_set flags flag_use_sbrk
      then open_pages (zeroed flags page_size none 0) m w
      else (let r = sys.open_zero w in
          elim r.0 [
            | none ↦ ((open_zero, none), r.1)
            | some fd ↦ open_pages (zeroed flags page_size (some fd) start_addr) m r.1
          ])

  unfoldable pub mpool_open : ℕ → ℕ → ℕ → Bytes → W → Opened × W
  unfolding open_sized
  mpool_open flags page_size start_addr m w = elim (page_size_of sys.getpagesize page_size) [
    | error e ↦ ((e, none), w)
    | got size ↦ open_sized flags size start_addr m w
  ]

  -- The loop over the blocks, with fuel; running out of it is a fault.
  unfoldable pub close_blocks : ℕ → Bytes → ℕ → Bool → W → Run ((Error × Bytes) × W)
  close_blocks zero m block_p sbrk_b w = if block_p == 0 then done ((no_error, m), w) else fault
  close_blocks (suc fuel) m block_p sbrk_b w =
      let m' = store (store m block_p 4 0) (block_p + 24) 4 0 in
      let rest =
        close_blocks fuel m' (next_at m' block_p) sbrk_b
          (free_pages sys block_p (sub64 (bounds_at m' block_p) block_p) sbrk_b w) in
      if block_p == 0
      then done ((no_error, m), w)
      else if is_block m block_p
      then rest
      else done ((pool_over, m), w)

  -- The pages of the structure are unmapped last.
  unfoldable pub unmap_pool : Store → W → W
  unmap_pool s w =
      let mp = s.pool in
      let size = size_of_pages_long mp.page_size (pages_in_size mp.page_size pool_size) in
      if is_set mp.flags flag_use_sbrk
      then w
      else if is_set mp.flags flag_heavy_packing
      then sys.munmap (sub64 s.self block_size) size w
      else sys.munmap s.self size w

  -- Each block has a page, so that the number of pages is enough fuel.
  unfoldable pub mpool_close : Option Store → W → Run ((Error × Option Store) × W)
  unfolding check_pool close_blocks unmap_pool close_fd
  mpool_close none w = done ((arg_null, none), w)
  mpool_close (some s) w = elim (check_pool s.pool) [
    | no_error ↦
        and_then
          (close_blocks s.pool.page_c s.mem s.pool.first_p (is_set s.pool.flags flag_use_sbrk)
            (log_call sys s.pool.log_func (log_of func_close 0 0 0 0 0) w))
          (λ r. done ((r.0.0, none), unmap_pool s (close_fd s.pool.fd r.1)))
    | e ↦ done ((e, some s), w)
  ]

-- The loop of `mpool_clear`, with the code of the last `free_pointer` that failed.
unfoldable pub clear_blocks : ℕ → Store → ℕ → Error → Run (Error × Store)
clear_blocks zero s block_p final = if block_p == 0 then done (final, s) else fault
clear_blocks (suc fuel) s block_p final =
    let r = free_pointer s (first_addr_in_block block_p) (memory_in_block s.mem block_p) in
    let rest =
      clear_blocks fuel r.1 (next_at r.1.mem block_p) (elim r.0 [ no_error ↦ final | e ↦ e ]) in
    if block_p == 0
    then done (final, s)
    else if is_block s.mem block_p
    then rest
    else done (pool_over, s)

abbrev pub no_lists : Pool → Pool
no_lists mp = record mp { free = λ bit_n. 0 }

module _ {W : Type 0} (sys : System W) where
  unfoldable pub mpool_clear : Option Store → W → Run ((Error × Option Store) × W)
  unfolding check_pool clear_blocks
  mpool_clear none w = done ((arg_null, none), w)
  mpool_clear (some s) w = elim (check_pool s.pool) [
    | no_error ↦
        and_then
          (clear_blocks s.pool.page_c (record s { pool = no_lists s.pool }) s.pool.first_p no_error)
          (λ r.
            done ((r.0, some r.1), log_call sys s.pool.log_func (log_of func_clear 0 0 0 0 0) w))
    | e ↦ done ((e, some s), w)
  ]
