-- ===== src/Table/Entry.antt =====
-- Keys, one entry and one chain of table-4.3.0/table.c.
pub mod Keys
pub mod Chains
pub mod Layout
use Prim.Native.Nat.{bit_and, compare, Ordering}
use source.Prelude.Words.{u32}
use source.Prelude.{
  ℕ, zero, suc, ◌+◌, ◌-◌, ◌%◌, ◌^◌, Bool, true, false, ◌&&◌, Option, none, some, List, [], ◌∷◌,
  ◌++◌, length, take, replicate, map, leb, ltb, ◌==◌, if◌then◌else◌,
}
use source.Table.Hash.{hash}
use source.Table.Memory.{Run, done, fault}
use source.Table.State.{Cell, Entry, Found, Chain, Table, shell_size}

-- A buffer argument: `NULL`, or the bytes that can be read from the pointer on.
pub data Buffer : Type 0 where
  null : Buffer
  bytes : List ℕ → Buffer

-- An `int` size argument: a negative one asks for the length of the string and its end.
pub data Size : Type 0 where
  negative : Size
  counted : ℕ → Size

-- `strlen (buf) + sizeof (char)` bytes: up to the first 0, which is counted.
unfoldable pub c_string : List ℕ → Run (List ℕ)
c_string [] = fault
c_string (zero ∷ bs) = done (zero ∷ [])
c_string (suc b ∷ bs) = elim (c_string bs) [ fault ↦ fault | done s ↦ done (suc b ∷ s) ]

-- The bytes that a pointer and a size stand for. The length of a string is cut to 32 bits.
unfoldable pub sized : List ℕ → Size → Run (List ℕ)
unfolding c_string
sized b negative = elim (c_string b) [ fault ↦ fault | done s ↦ done (take (u32 (length s)) s) ]
sized b (counted n) = if leb n (length b) then done (take n b) else fault

-- `memcmp` over `n` bytes.
unfoldable pub memcmp : ℕ → List ℕ → List ℕ → Ordering
memcmp zero a b = Ordering.eq
memcmp (suc n) (x ∷ a) (y ∷ b) =
    let rest = memcmp n a b in
    elim (compare x y) [
      | Ordering.lt ↦ Ordering.lt
      | Ordering.eq ↦ rest
      | Ordering.gt ↦ Ordering.gt
    ]
memcmp (suc n) a b = Ordering.eq

-- `te_key_size == ksize && memcmp (…, ksize) == 0`
unfoldable pub same_key : List ℕ → List ℕ → Bool
unfolding memcmp
same_key a key =
    (length a == length key) && elim (memcmp (length key) a key) [ Ordering.eq ↦ true | _ ↦ false ]

unfoldable pub entry_size : Table → ℕ → ℕ → ℕ
entry_size t key_size data_size =
    let size = u32 (shell_size + key_size) in
    if t.data_align == 0
    then u32 (size + data_size)
    else let left = bit_and size (t.data_align - 1) in
      let padded = if ltb 0 left then u32 (size + (t.data_align - left)) else size in
      u32 (padded + data_size)

-- The `int` that `entry_size` returns, where it is passed on as an `unsigned long`.
unfoldable pub freed_size : Table → ℕ → ℕ → ℕ
unfolding entry_size
freed_size t key_size data_size =
    let size = entry_size t key_size data_size in
    if ltb size (2 ^ 31) then size else size + 2 ^ 64 - 2 ^ 32

-- Where the data of an entry start, from its address on.
unfoldable pub data_offset : Table → ℕ → ℕ
data_offset t key_size =
    if t.data_align == 0
    then shell_size + key_size
    else let pad = bit_and (u32 (shell_size + key_size)) (t.data_align - 1) in
      shell_size + key_size + (if ltb 0 pad then t.data_align - pad else 0)

-- The key and the data are within a block of so many bytes. Their place in one that is too small is a
-- fault, also where the caller gives no data to copy there.
unfoldable pub in_block : Table → ℕ → ℕ → ℕ → Bool
unfolding data_offset
in_block t key_size data_size size = leb (data_offset t key_size + data_size) size

-- `ENTRY_DATA_BUF`, or `entry_data_buf` if the data are aligned: where the data start.
unfoldable pub data_buf : Table → Entry → ℕ
data_buf t e =
    let buf_p = e.addr + shell_size + length e.key in
    if t.data_align == 0
    then buf_p
    else let pad = bit_and (u32 (shell_size + length e.key)) (t.data_align - 1) in
      buf_p + (if ltb 0 pad then t.data_align - pad else 0)

unfoldable pub found_at : Table → Entry → Found
unfolding data_buf
found_at t e = record {
  key_p = some (e.addr + shell_size);
  key = e.key;
  data_p = if length e.bytes == 0 then none else some (data_buf t e);
  bytes = e.bytes;
}

-- The loop over one bucket that looks for a key.
unfoldable pub find : List ℕ → Chain → Option Entry
find key [] = none
find key (e ∷ c) = if same_key e.key key then some e else find key c

-- `last_p->te_next_p = entry_p->te_next_p`, or the bucket itself, for the entry that `find` finds.
unfoldable pub unlink : List ℕ → Chain → Chain
unlink key [] = []
unlink key (e ∷ c) = if same_key e.key key then c else e ∷ unlink key c

-- A write into the data of the entry that `find` finds.
unfoldable pub assign : List ℕ → List Cell → Chain → Chain
assign key bs [] = []
assign key bs (e ∷ c) =
    if same_key e.key key then record e { bytes = bs } ∷ c else e ∷ assign key bs c

-- `bucket = hash (key, ksize, 0) % bucket_n`, an `int`; a negative one indexes no bucket.
unfoldable pub bucket_of : List ℕ → ℕ → Run ℕ
bucket_of key zero = fault
bucket_of key (suc n) =
    let bucket = hash key 0 % suc n in if ltb bucket (2 ^ 31) then done bucket else fault

unfoldable pub slot : List Chain → ℕ → Run Chain
slot [] i = fault
slot (c ∷ bs) zero = done c
slot (c ∷ bs) (suc i) = slot bs i

-- The copy that `memcpy` makes into room for `size` bytes, which hold `old`.
abbrev pub fill : Option (List ℕ) → List Cell → List Cell
fill none old = old
fill (some src) old = map some src

-- A block moved to a new size keeps the bytes that fit.
abbrev pub resized : ℕ → List Cell → List Cell
resized size old = take size old ++ replicate (size - length old) none
