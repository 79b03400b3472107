-- ===== src/Mpool/Calls.antt =====
-- The exported functions that allocate, free and resize, of mpool-2.1.0/mpool.c. A pool pointer is
-- `none` for `NULL`.
pub mod Frees
pub mod Allocs
pub mod Resizes
pub mod Callocs
use source.Mpool.Bytes.{clear_bytes, copy_bytes}
use source.Mpool.Pages.{System, LogCall, Got, got, error, max_block_user_memory, is_block}
use source.Mpool.Space.{alloc_mem, free_mem, enough, is_place, check_fence}
use source.Mpool.State.{
  Error, no_error, arg_null, arg_invalid, pnt, pool_over, alloc_error, mpool_magic,
  flag_heavy_packing, Pool, Store, is_set,
}
use source.Prelude.Words.{u32, u64}
use source.Prelude.{ℕ, ◌+◌, ◌*◌, Bool, Option, none, some, ltb, ◌==◌, ◌||◌, if◌then◌else◌}

-- The checks of the magic numbers.
unfoldable pub check_pool : Pool → Error
check_pool mp =
    if mp.magic == mpool_magic
    then (if mp.magic2 == mpool_magic then no_error else pool_over)
    else pnt

-- The functions of the log.
abbrev pub func_close : ℕ
func_close = 1

abbrev pub func_clear : ℕ
func_clear = 2

abbrev pub func_alloc : ℕ
func_alloc = 3

abbrev pub func_calloc : ℕ
func_calloc = 4

abbrev pub func_free : ℕ
func_free = 5

abbrev pub func_resize : ℕ
func_resize = 6

abbrev pub log_of : ℕ → ℕ → ℕ → ℕ → ℕ → ℕ → LogCall
log_of func byte_size ele_n new_addr old_addr old_byte_size = record {
  func = func;
  byte_size = byte_size;
  ele_n = ele_n;
  new_addr = new_addr;
  old_addr = old_addr;
  old_byte_size = old_byte_size;
}

-- The pointer that a call returns.
abbrev pub addr_of : Got → ℕ
addr_of (got addr) = addr
addr_of (error e) = 0

-- What an allocation of libc answers.
abbrev pub libc_got : ℕ → Got
libc_got addr = if addr == 0 then error alloc_error else got addr

-- The memory that `mpool_calloc` got is cleared.
unfoldable pub clear_got : Got → ℕ → Store → Store
clear_got (got addr) size s = record s { mem = clear_bytes s.mem addr size }
clear_got (error e) size s = s

-- The check of an address that is to be resized: its block header, then its fence.
unfoldable pub check_old : Store → ℕ → ℕ → Error
check_old s addr size = if is_place s addr size then check_fence s addr (enough size) else pool_over

-- The old memory goes; if that fails, the new one does.
unfoldable pub free_old : Store → ℕ → ℕ → ℕ → ℕ → Got × Store
free_old s old_addr old_size new_addr new_size =
    let r = free_mem s old_addr old_size in
    elim r.0 [ no_error ↦ (got new_addr, r.1) | e ↦ (error e, (free_mem r.1 new_addr new_size).1) ]

-- The bytes that fit are copied.
unfoldable pub move_bytes : Store → ℕ → ℕ → ℕ → ℕ → Got × Store
unfolding free_old
move_bytes s old_addr old_size new_addr new_size =
    let copy_size = if ltb old_size new_size then old_size else new_size in
    free_old (record s { mem = copy_bytes s.mem new_addr old_addr copy_size }) old_addr old_size
      new_addr new_size

module _ {W : Type 0} (sys : System W) where
  -- The log function is called if there is one.
  abbrev pub log_call : Bool → LogCall → W → W
  log_call set call w = if set then sys.log call w else w

  unfoldable pub mpool_alloc : Option Store → ℕ → W → (Got × Option Store) × W
  unfolding check_pool
  mpool_alloc none byte_size w = let r = sys.malloc byte_size w in ((libc_got r.0, none), r.1)
  mpool_alloc (some s) byte_size w = elim (check_pool s.pool) [
    | no_error ↦
        if byte_size == 0
        then ((error arg_invalid, some s), w)
        else (let r = alloc_mem sys s byte_size w in
            (
              (r.0.0, some r.0.1),
              log_call r.0.1.pool.log_func (log_of func_alloc byte_size 0 (addr_of r.0.0) 0 0) r.1,
            ))
    | e ↦ ((error e, some s), w)
  ]

  unfoldable pub mpool_calloc : Option Store → ℕ → ℕ → W → (Got × Option Store) × W
  unfolding check_pool clear_got
  mpool_calloc none ele_n ele_size w =
      let r = sys.calloc ele_n ele_size w in ((libc_got r.0, none), r.1)
  mpool_calloc (some s) ele_n ele_size w = elim (check_pool s.pool) [
    | no_error ↦
        if (ele_n == 0) || (ele_size == 0)
        then ((error arg_invalid, some s), w)
        else (let byte_size = u64 (ele_n * ele_size) in
            let r = alloc_mem sys s byte_size w in
            let s' = clear_got r.0.0 byte_size r.0.1 in
            (
              (r.0.0, some s'),
              log_call s'.pool.log_func (log_of func_calloc ele_size ele_n (addr_of r.0.0) 0 0) r.1,
            ))
    | e ↦ ((error e, some s), w)
  ]

  unfoldable pub mpool_free : Option Store → ℕ → ℕ → W → (Error × Option Store) × W
  unfolding check_pool
  mpool_free none addr size w = ((no_error, none), sys.free addr w)
  mpool_free (some s) addr size w = elim (check_pool s.pool) [
    | no_error ↦
        let w = log_call s.pool.log_func (log_of func_free size 0 0 addr 0) w in
        if addr == 0
        then ((arg_null, some s), w)
        else if size == 0
        then ((arg_invalid, some s), w)
        else (let r = free_mem s addr size in ((r.0, some r.1), w))
    | e ↦ ((e, some s), w)
  ]

  -- `mpool_resize` behind its checks.
  unfoldable pub resize_mem : Store → ℕ → ℕ → ℕ → W → (Got × Option Store) × W
  unfolding move_bytes
  resize_mem s old_addr old_size new_size w =
      let r = alloc_mem sys s new_size w in
      elim r.0.0 [
        | error e ↦ ((error e, some r.0.1), r.1)
        | got new_addr ↦
            let m = move_bytes r.0.1 old_addr old_size new_addr new_size in
            elim m.0 [
              | error e ↦ ((error e, some m.1), r.1)
              | got addr ↦ (
                (got addr, some m.1),
                log_call m.1.pool.log_func (log_of func_resize new_size 0 addr old_addr old_size)
                    r.1,
              )
            ]
      ]

  unfoldable pub mpool_resize : Option Store → ℕ → ℕ → ℕ → W → (Got × Option Store) × W
  unfolding check_pool check_old resize_mem
  mpool_resize none old_addr old_size new_size w =
      let r = sys.realloc old_addr new_size w in ((libc_got r.0, none), r.1)
  mpool_resize (some s) old_addr old_size new_size w = elim (check_pool s.pool) [
    | no_error ↦
        if old_addr == 0
        then ((error arg_null, some s), w)
        else if old_size == 0
        then ((error arg_invalid, some s), w)
        else elim (check_old s old_addr old_size) [
          | no_error ↦ resize_mem s old_addr old_size new_size w
          | e ↦ ((error e, some s), w)
        ]
    | e ↦ ((error e, some s), w)
  ]

-- `mpool_stats`: the numbers that it stores.
pub record Stats : Type 0 where
  pub page_size : ℕ
  pub num_alloced : ℕ
  pub user_alloced : ℕ
  pub max_alloced : ℕ
  pub tot_alloced : ℕ

unfoldable pub mpool_stats : Option Store → Error × Option Stats
unfolding check_pool
mpool_stats none = (arg_null, none)
mpool_stats (some s) = elim (check_pool s.pool) [
  | no_error ↦ (
    no_error,
    some (record {
      page_size = s.pool.page_size;
      num_alloced = s.pool.alloc_c;
      user_alloced = s.pool.user_alloc;
      max_alloced = s.pool.max_alloc;
      tot_alloced = u32 (s.pool.page_c * s.pool.page_size);
    }),
  )
  | e ↦ (e, none)
]

unfoldable pub mpool_set_log_func : Option Store → Bool → Error × Option Store
unfolding check_pool
mpool_set_log_func none log_func = (arg_null, none)
mpool_set_log_func (some s) log_func = elim (check_pool s.pool) [
  | no_error ↦ (no_error, some (record s { pool = record s.pool { log_func = log_func } }))
  | e ↦ (e, some s)
]

-- Without heavy packing the pages of the pool's own structure are not counted.
unfoldable pub mpool_set_max_pages : Option Store → ℕ → Error × Option Store
unfolding check_pool
mpool_set_max_pages none max_pages = (arg_null, none)
mpool_set_max_pages (some s) max_pages = elim (check_pool s.pool) [
  | no_error ↦
      let n = if is_set s.pool.flags flag_heavy_packing then max_pages else u32 (max_pages + 1) in
      (no_error, some (record s { pool = record s.pool { max_pages = n } }))
  | e ↦ (e, some s)
]
