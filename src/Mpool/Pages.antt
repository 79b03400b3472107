-- ===== src/Mpool/Pages.antt =====
-- Pages and block headers: the macros of mpool_loc.h, `alloc_pages`, `check_magic` and `write_magic` of
-- mpool-2.1.0/mpool.c.
pub mod Laws
pub mod Headers
pub mod Granted
use source.Mpool.Bytes.{Bytes, put, load, store}
use source.Mpool.State.{
  Error, no_error, no_mem, mmap_error, sbrk_contig, no_pages, pnt_over, Pool, Store, block_size,
  block_magic, fence_magic0, fence_magic1, flag_use_sbrk, is_set,
}
use source.Prelude.Words.{u32, u64, sub64}
use source.Prelude.{
  ℕ, ◌+◌, ◌-◌, ◌*◌, ◌/◌, ◌%◌, ◌^◌, Bool, Option, none, some, ltb, leb, ◌==◌, ◌&&◌, if◌then◌else◌,
}

-- `PAGES_IN_SIZE`, in `unsigned long`.
unfoldable pub pages_in_size : ℕ → ℕ → ℕ
pages_in_size page_size size = u64 (size + block_size + page_size - 1) / page_size

-- `SIZE_OF_PAGES`, for a number of pages that is an `int` or `unsigned int`, or an `unsigned long`.
unfoldable pub size_of_pages : ℕ → ℕ → ℕ
size_of_pages page_size page_n = u32 (page_n * page_size)

unfoldable pub size_of_pages_long : ℕ → ℕ → ℕ
size_of_pages_long page_size page_n = u64 (page_n * page_size)

unfoldable pub max_block_user_memory : ℕ → ℕ
max_block_user_memory page_size = sub64 page_size block_size

abbrev pub first_addr_in_block : ℕ → ℕ
first_addr_in_block block_p = block_p + block_size

-- The fields of a block header at its offsets.
abbrev pub bounds_at : Bytes → ℕ → ℕ
bounds_at m block_p = load m (block_p + 8) 8

abbrev pub next_at : Bytes → ℕ → ℕ
next_at m block_p = load m (block_p + 16) 8

unfoldable pub memory_in_block : Bytes → ℕ → ℕ
memory_in_block m block_p = sub64 (bounds_at m block_p) (block_p + block_size)

-- The test of the magic numbers of a header.
unfoldable pub is_block : Bytes → ℕ → Bool
is_block m block_p = (load m block_p 4 == block_magic) && (load m (block_p + 24) 4 == block_magic)

-- The four assignments to a header.
unfoldable pub write_block : Bytes → ℕ → ℕ → ℕ → Bytes
write_block m block_p bounds next =
    store
      (store (store (store m block_p 4 block_magic) (block_p + 8) 8 bounds) (block_p + 16) 8 next)
      (block_p + 24) 4 block_magic

unfoldable pub write_magic : Bytes → ℕ → Bytes
write_magic m addr = put (put m addr fence_magic0) (addr + 1) fence_magic1

unfoldable pub check_magic : Bytes → ℕ → ℕ → Error
check_magic m addr size =
    if (m (addr + size) == fence_magic0) && (m (addr + size + 1) == fence_magic1)
    then no_error
    else pnt_over

-- What `mmap` gives; a failure says whether `errno` is `ENOMEM`.
pub data Mapped : Type 0 where
  mapped : ℕ → Mapped
  failed : Bool → Mapped

-- The arguments of the log function behind the pool.
pub record LogCall : Type 0 where
  pub func : ℕ
  pub byte_size : ℕ
  pub ele_n : ℕ
  pub new_addr : ℕ
  pub old_addr : ℕ
  pub old_byte_size : ℕ

-- What the pool asks of the system: `getpagesize`, `open` of /dev/zero, `close`, `sbrk` (`none` for -1),
-- `mmap` with its address, length, descriptor and offset,
-- `munmap`, the log function of the pool, and the four functions of libc that stand in where there is no
-- pool.
pub record System (W : Type 0) : Type 0 where
  pub getpagesize : ℕ
  pub open_zero : W → Option ℕ × W
  pub close : ℕ → W → W
  pub sbrk : ℕ → W → Option ℕ × W
  pub mmap : ℕ → ℕ → Option ℕ → ℕ → W → Mapped × W
  pub munmap : ℕ → ℕ → W → W
  pub log : LogCall → W → W
  pub malloc : ℕ → W → ℕ × W
  pub calloc : ℕ → ℕ → W → ℕ × W
  pub realloc : ℕ → ℕ → W → ℕ × W
  pub free : ℕ → W → W

-- An address, or `NULL` with a code.
pub data Got : Type 0 where
  got : ℕ → Got
  error : Error → Got

module _ {W : Type 0} (sys : System W) where
  -- The rest of a page that `sbrk` did not start at is asked for too.
  unfoldable pub fill_page : Pool → ℕ → ℕ → W → Got × W
  fill_page mp size mem w =
      let fill = mem % mp.page_size in
      if fill == 0
      then (got mem, w)
      else (let (more, w) = sys.sbrk (mp.page_size - fill) w in
          elim more [
            | none ↦ (error no_mem, w)
            | some fill_mem ↦
                if fill_mem == mem + size
                then (got (mem + (mp.page_size - fill)), w)
                else (error sbrk_contig, w)
          ])

  unfoldable pub sbrk_pages : Pool → ℕ → W → Got × W
  unfolding fill_page
  sbrk_pages mp size w =
      let (mem, w) = sys.sbrk size w in
      elim mem [ none ↦ (error no_mem, w) | some mem ↦ fill_page mp size mem w ]

  -- `mp_top` and `mp_addr` go on where pages have been mapped.
  abbrev pub past_pages : Pool → ℕ → Pool
  past_pages mp size = record mp {
    top = mp.top + size;
    addr = if mp.addr == 0 then 0 else mp.addr + size;
  }

  -- The pages, or the error.
  abbrev pub count_pages : Pool → ℕ → Got → Pool
  count_pages mp page_n (got mem) = record mp { page_c = u32 (mp.page_c + page_n) }
  count_pages mp page_n (error e) = mp

  abbrev pub map_result : Pool → ℕ → ℕ → Mapped → Got × Pool
  map_result mp page_n size (mapped mem) =
      (got mem, count_pages (past_pages mp size) page_n (got mem))
  map_result mp page_n size (failed enomem) = (error (if enomem then no_mem else mmap_error), mp)

  unfoldable pub alloc_pages : Pool → ℕ → W → (Got × Pool) × W
  unfolding sbrk_pages
  alloc_pages mp page_n w =
      if ltb 0 mp.max_pages && leb mp.max_pages mp.page_c
      then ((error no_pages, mp), w)
      else (let size = size_of_pages mp.page_size page_n in
          if is_set mp.flags flag_use_sbrk
          then (let (r, w) = sbrk_pages mp size w in ((r, count_pages mp page_n r), w))
          else (let (r, w) = sys.mmap mp.addr size mp.fd mp.top w in
              (map_result mp page_n size r, w)))

  -- `free_pages`
  unfoldable pub free_pages : ℕ → ℕ → Bool → W → W
  free_pages pages size sbrk_b w = if sbrk_b then w else sys.munmap pages size w
