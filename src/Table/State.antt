-- ===== src/Table/State.antt =====
-- The structures of table-4.3.0/table_loc.h and table.h. A linked list of entries is a list; an
-- entry keeps the address of its block, its key bytes and its data bytes, whose lengths are the
-- fields `te_key_size` and `te_data_size`.
use source.Prelude.Words.{u32}
use source.Prelude.{ℕ, ◌*◌, ◌/◌, Bool, not, Option, none, some, List, ltb, ◌==◌, if◌then◌else◌}
use source.Table.Memory.{Hooks, M, pure, ◌>>=◌}
use Prim.Native.Nat.{bit_and}

pub data Error : Type 0 where
  no_error pnt arg_null size_error overwrite not_found alloc_error linear_error : Error
  open_error seek_error read_error write_error mmap_none mmap_error mmap_op : Error
  empty not_empty alignment compare_error free_error : Error

-- `none` is a byte that nothing has written yet.
abbrev pub Cell : Type 0
Cell = Option ℕ

pub record Entry : Type 0 where
  pub addr : ℕ
  pub key : List ℕ
  pub bytes : List Cell

abbrev pub Chain : Type 0
Chain = List Entry

pub record Linear : Type 0 where
  pub magic : ℕ
  pub bucket_c : ℕ
  pub entry_c : ℕ

pub record Table : Type 0 where
  pub magic : ℕ
  pub flags : ℕ
  pub bucket_n : ℕ
  pub entry_n : ℕ
  pub data_align : ℕ
  pub buckets_addr : ℕ
  pub buckets : List Chain
  pub linear : Linear
  pub mmapped : Bool
  pub file_size : ℕ
  pub hooks : Hooks

-- What a function stores through its result pointers: addresses (`none` for `NULL`), and the bytes
-- there, whose numbers are the sizes. A function with no key pointers leaves the first two empty.
pub record Found : Type 0 where
  pub key_p : Option ℕ
  pub key : List ℕ
  pub data_p : Option ℕ
  pub bytes : List Cell

abbrev pub table_magic : ℕ
table_magic = 0xBADF00D

abbrev pub linear_magic : ℕ
linear_magic = 0xAD00D00

abbrev pub default_size : ℕ
default_size = 1024

abbrev pub max_alignment : ℕ
max_alignment = 128

-- sizes on a machine with 64-bit pointers
abbrev pub pointer_size : ℕ
pointer_size = 8

abbrev pub shell_size : ℕ
shell_size = 16

abbrev pub table_size : ℕ
table_size = 96

abbrev pub flag_auto_adjust : ℕ
flag_auto_adjust = 1

abbrev pub flag_adjust_down : ℕ
flag_adjust_down = 2

abbrev pub has_flag : Table → ℕ → Bool
has_flag t flag = not (bit_and t.flags flag == 0)

abbrev pub should_grow : Table → Bool
should_grow t = ltb (u32 (t.bucket_n * 2)) t.entry_n

abbrev pub should_shrink : Table → Bool
should_shrink t = ltb t.entry_n (t.bucket_n / 2)

-- What an exported function returns, with what it stores through its result pointers.
pub record Reply : Type 0 where
  pub code : Error
  pub found : Option Found

abbrev pub status : Error → Reply
status code = record { code = code; found = none }

abbrev pub reply : Found → Reply
reply f = record { code = no_error; found = some f }

-- The prologue of the exported functions: `table_p == NULL`, then the magic number.
unfoldable pub guarded :
    {W : Type 0} → Option Table → (Table → M W (Reply × Table)) → M W (Reply × Option Table)
guarded none body = pure (status arg_null, none)
guarded (some t) body =
    if t.magic == table_magic
    then body t >>= (λ (r, t'). pure (r, some t'))
    else pure (status pnt, some t)
