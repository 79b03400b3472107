-- ===== src/Mpool/Space.antt =====
-- `get_space`, `alloc_mem` and `free_mem` of mpool-2.1.0/mpool.c.
pub mod Popped
pub mod Found
pub mod Headers
pub mod Released
pub mod Front
pub mod Fresh
pub mod Split
pub mod Parted
pub mod Taken
pub mod Lists
pub mod Gets
pub mod Handed
pub mod Allocated
use source.Mpool.Bits.{started, size_to_bits, bits_to_size}
use source.Mpool.Bytes.{Bytes, load}
use source.Mpool.Free.{set_head, free_pointer, split_block}
use source.Mpool.Pages.{
  System, Got, got, error, pages_in_size, size_of_pages, max_block_user_memory, first_addr_in_block,
  is_block, write_block, write_magic, check_magic, alloc_pages,
}
use source.Mpool.State.{
  Error, no_error, pool_over, Pool, Store, block_size, min_allocation, fence_size, max_bits,
  flag_no_free, is_set,
}
use source.Prelude.Words.{u32, u64, sub64}
use source.Prelude.{
  ℕ, zero, suc, ◌+◌, ◌-◌, ◌%◌, Bool, ltb, leb, ◌==◌, ◌&&◌, ◌||◌, not, if◌then◌else◌,
}

-- `while ((size & (sizeof (void *) - 1)) > 0) size++`, which makes at most 7 rounds.
unfoldable pub round_up : ℕ → ℕ → ℕ
round_up zero size = size
round_up (suc rounds) size =
    let rest = round_up rounds (u64 (size + 1)) in if size % 8 == 0 then size else rest

-- The first list from a number of bits on that is not empty, or `MAX_BITS + 1`.
unfoldable pub first_list : (ℕ → ℕ) → ℕ → ℕ → ℕ
first_list free zero bit_c = bit_c
first_list free (suc rounds) bit_c =
    let rest = first_list free rounds (bit_c + 1) in if free bit_c == 0 then rest else bit_c

unfoldable pub find_list : (ℕ → ℕ) → ℕ → ℕ
unfolding first_list
find_list free bit_c = first_list free (max_bits + 1 - bit_c) bit_c

-- The address that has been found, and the number of bytes that are left behind the size asked for.
pub record Space : Type 0 where
  pub code : Error
  pub free_addr : ℕ
  pub left : ℕ
  pub after : Store

abbrev pub space : ℕ → ℕ → Store → Space
space free_addr left s = record { code = no_error; free_addr = free_addr; left = left; after = s }

-- The header of a new block, which goes to the front of the queue.
unfoldable pub init_block : Store → ℕ → ℕ → Store
init_block s block_p page_n =
    let mp = s.pool in
    record s {
      pool = record mp {
        first_p = block_p;
        last_p = if mp.last_p == 0 then block_p else mp.last_p;
      };
      mem = write_block s.mem block_p (block_p + size_of_pages mp.page_size page_n) mp.first_p;
    }

unfoldable pub new_block : Store → ℕ → ℕ → ℕ → Space
unfolding init_block
new_block s block_p page_n size =
    let s' = init_block s block_p page_n in
    let free_addr = first_addr_in_block block_p in
    space free_addr
      (u32 (sub64 (block_p + size_of_pages s.pool.page_size page_n) (free_addr + size))) s'

-- A free block of more pages than are asked for is split, and nothing is left.
unfoldable pub split_space : Store → ℕ → ℕ → Space
split_space s free_addr size =
    let r = split_block s free_addr size in
    elim r.0 [
      | no_error ↦ space free_addr 0 r.1
      | e ↦ record { code = e; free_addr = free_addr; left = 0; after = r.1 }
    ]

-- The front of the list `bit_c`. The second test of the source repeats the first.
unfoldable pub take_free : Store → ℕ → ℕ → Space
unfolding split_space
take_free s bit_c size =
    let free_addr = s.pool.free bit_c in
    if ltb bit_c started.min_bit_free_next
    then space free_addr (u32 (sub64 (bits_to_size bit_c) size))
        (record s { pool = set_head s.pool bit_c 0 })
    else (let next = load s.mem free_addr 8 in
        let mf_size = load s.mem (free_addr + 8) 8 in
        let s' : Store = record s { pool = set_head s.pool bit_c next } in
        if ltb (pages_in_size s.pool.page_size size) (pages_in_size s.pool.page_size mf_size)
        then split_space s' free_addr size
        else space free_addr (u32 (sub64 mf_size size)) s')

-- `mp_bounds_p` and `mp_min_p` take in the address.
unfoldable pub update_bounds : Pool → ℕ → Pool
update_bounds mp free_addr =
    if ltb mp.bounds_p free_addr
    then record mp { bounds_p = free_addr }
    else if ltb free_addr mp.min_p
    then record mp { min_p = free_addr }
    else mp

unfoldable pub bound : Store → ℕ → Got × Store
unfolding update_bounds
bound s free_addr = (got free_addr, record s { pool = update_bounds s.pool free_addr })

-- What is left in a single page is freed.
unfoldable pub free_left : Space → ℕ → Got × Store
unfolding bound
free_left r size =
    if ltb 0 r.left && leb size (max_block_user_memory r.after.pool.page_size)
    then (let f = free_pointer r.after (r.free_addr + size) r.left in
        elim f.0 [ no_error ↦ bound f.1 r.free_addr | e ↦ (error e, f.1) ])
    else bound r.after r.free_addr

-- The end of `get_space`; an error of `split_block` ends it before.
unfoldable pub use_space : Space → ℕ → Got × Store
unfolding free_left
use_space r size = elim r.code [ no_error ↦ free_left r size | e ↦ (error e, r.after) ]

-- Sizes below `MIN_ALLOCATION` are that.
abbrev pub enough : ℕ → ℕ
enough size = if ltb size min_allocation then min_allocation else size

abbrev pub fence_of : Pool → ℕ
fence_of mp = if is_set mp.flags flag_no_free then 0 else fence_size

-- The counters of an allocation.
unfoldable pub count_alloc : Pool → ℕ → Pool
count_alloc mp size =
    let used = u64 (mp.user_alloc + size) in
    record mp {
      alloc_c = u64 (mp.alloc_c + 1);
      user_alloc = used;
      max_alloc = if ltb mp.max_alloc used then used else mp.max_alloc;
    }

unfoldable pub fence_alloc : Store → ℕ → ℕ → Store
unfolding count_alloc
fence_alloc s addr size = record s {
  pool = count_alloc s.pool size;
  mem = if is_set s.pool.flags flag_no_free then s.mem else write_magic s.mem (addr + size);
}

module _ {W : Type 0} (sys : System W) where
  unfoldable pub get_pages : Store → ℕ → W → (Got × Store) × W
  unfolding use_space new_block
  get_pages s size w =
      let page_n = u32 (pages_in_size s.pool.page_size size) in
      let r = alloc_pages sys s.pool page_n w in
      elim r.0.0 [
        | error e ↦ ((error e, record s { pool = r.0.1 }), r.1)
        | got block_p ↦
            (use_space (new_block (record s { pool = r.0.1 }) block_p page_n size) size, r.1)
      ]

  unfoldable pub get_space : Store → ℕ → W → (Got × Store) × W
  unfolding get_pages round_up find_list take_free
  get_space s byte_size w =
      let size = round_up 7 byte_size in
      let bit_c = find_list s.pool.free (size_to_bits size) in
      if ltb max_bits bit_c
      then get_pages s size w
      else (use_space (take_free s bit_c size) size, w)

  unfoldable pub alloc_mem : Store → ℕ → W → (Got × Store) × W
  unfolding get_space fence_alloc
  alloc_mem s byte_size w =
      let size = enough byte_size in
      let r = get_space s (u64 (size + fence_of s.pool)) w in
      elim r.0.0 [
        | error e ↦ ((error e, r.0.1), r.1)
        | got addr ↦ ((got addr, fence_alloc r.0.1 addr size), r.1)
      ]

-- A size that does not fit in a page has its block header in front.
unfoldable pub is_place : Store → ℕ → ℕ → Bool
is_place s addr size =
    not (ltb (max_block_user_memory s.pool.page_size) size)
    || is_block s.mem (sub64 addr block_size)

-- The fence, if there is one.
unfoldable pub check_fence : Store → ℕ → ℕ → Error
check_fence s addr size =
    if is_set s.pool.flags flag_no_free then no_error else check_magic s.mem addr size

abbrev pub count_free : Pool → ℕ → Pool
count_free mp size = record mp {
  user_alloc = sub64 mp.user_alloc size;
  alloc_c = sub64 mp.alloc_c 1;
}

unfoldable pub free_fenced : Store → ℕ → ℕ → Error × Store
free_fenced s addr old_size =
    let r = free_pointer s addr (u64 (old_size + fence_of s.pool)) in
    elim r.0 [
      | no_error ↦ (no_error, record r.1 { pool = count_free r.1.pool old_size })
      | e ↦ (e, r.1)
    ]

unfoldable pub free_mem : Store → ℕ → ℕ → Error × Store
unfolding is_place check_fence free_fenced
free_mem s addr size =
    if is_place s addr size
    then elim (check_fence s addr (enough size)) [
      | no_error ↦ free_fenced s addr (enough size)
      | e ↦ (e, s)
    ]
    else (pool_over, s)
