-- ===== src/Mpool/State.antt =====
-- The pool, its flags, codes and constants: mpool-2.1.0/mpool.h and mpool_loc.h, on a machine with
-- 64-bit pointers. A pointer is a number, and `NULL` is 0.
use source.Mpool.Bytes.{Bytes}
use source.Prelude.{ℕ, ◌/◌, ◌%◌, ◌^◌, Bool, Option, ◌==◌}

-- The codes that the modelled functions return.
pub data Error : Type 0 where
  no_error arg_null arg_invalid pnt pool_over page_size_error open_zero no_mem : Error
  mmap_error is_free sbrk_contig no_pages alloc_error pnt_over : Error

abbrev pub mpool_magic : ℕ
mpool_magic = 0xABACABA

abbrev pub block_magic : ℕ
block_magic = 0xB1B1007

abbrev pub fence_magic0 : ℕ
fence_magic0 = 0xFA

abbrev pub fence_magic1 : ℕ
fence_magic1 = 0xD3

abbrev pub fence_size : ℕ
fence_size = 2

abbrev pub max_bits : ℕ
max_bits = 30

abbrev pub default_page_mult : ℕ
default_page_mult = 16

-- `sizeof (mpool_block_t)`, `sizeof (mpool_free_t)`, which is `MIN_ALLOCATION`, and
-- `sizeof (mpool_t)`.
abbrev pub block_size : ℕ
block_size = 32

abbrev pub min_allocation : ℕ
min_allocation = 16

abbrev pub pool_size : ℕ
pool_size = 360

-- The flags, as the numbers of their bits; `BIT_IS_SET`.
abbrev pub flag_no_free : ℕ
flag_no_free = 1

abbrev pub flag_heavy_packing : ℕ
flag_heavy_packing = 2

abbrev pub flag_use_sbrk : ℕ
flag_use_sbrk = 3

unfoldable pub is_set : ℕ → ℕ → Bool
is_set flags bit = flags / 2 ^ bit % 2 == 1

-- `mpool_t`. `mp_fd` is `none` for -1, `mp_log_func` is only known to be set or not. `mp_free` gives
-- the head of the list for each number of bits.
pub record Pool : Type 0 where
  pub magic : ℕ
  pub flags : ℕ
  pub alloc_c : ℕ
  pub user_alloc : ℕ
  pub max_alloc : ℕ
  pub page_c : ℕ
  pub max_pages : ℕ
  pub page_size : ℕ
  pub fd : Option ℕ
  pub top : ℕ
  pub log_func : Bool
  pub addr : ℕ
  pub min_p : ℕ
  pub bounds_p : ℕ
  pub first_p : ℕ
  pub last_p : ℕ
  pub free : ℕ → ℕ
  pub magic2 : ℕ

-- A pool, the address of its structure, and the memory. The structure is kept apart from the bytes.
pub record Store : Type 0 where
  pub self : ℕ
  pub pool : Pool
  pub mem : Bytes
