-- ===== src/Mpool/Valid.antt =====
-- The invariant of a pool: which part of the memory each byte belongs to.
pub mod Kept
pub mod Hand
pub mod Pools
pub mod Lives
pub mod Writes
use source.Mpool.Bits.Laws.{IsFreeBits}
use source.Mpool.Bytes.{Bytes, put, load}
use source.Mpool.Free.{real_size_of}
use source.Mpool.Pages.Laws.{IsPageSize, IsPages, IsSmall}
use source.Mpool.Pages.{is_block, bounds_at, check_magic}
use source.Mpool.Space.{fence_of}
use source.Mpool.State.{
  no_error, Pool, Store, mpool_magic, pool_size, max_bits, flag_no_free, is_set,
}
use source.Prelude.{
  ℕ, zero, suc, ◌+◌, ◌*◌, ◌^◌, ◌≤◌, ◌<◌, ◌≡◌, ◌≢◌, ◌⊎◌, true, List, [], ◌∷◌, length, leb, ltb, ◌&&◌,
  if◌then◌else◌,
}

-- What a byte belongs to: nothing that the pool knows of, the pool's own structure, memory of the pool that it never looks at
-- again, memory that a call has in hand, the entry of a free list with this many entries behind it,
-- or the allocation at an address.
pub data Owner : Type 0 where
  nobody structure lost taken : Owner
  free_in : ℕ → ℕ → Owner
  live_at : ℕ → Owner

abbrev pub Owners : Type 0
Owners = ℕ → Owner

-- The bytes from `a` on, `n` of them, get an owner.
unfoldable pub give : Owners → ℕ → ℕ → Owner → Owners
give own a n o x = if leb a x && ltb x (a + n) then o else own x

abbrev pub Owns : Owners → Owner → ℕ → ℕ → Type 0
Owns own o a n = (x : ℕ) → a ≤ x → x < a + n → own x ≡ o

-- A block of memory at `a`, in a page with others, or on pages of its own behind their header.
pub data Placed (own : Owners) (m : Bytes) (p : ℕ) (o : Owner) (a size : ℕ) : Type 0 where
  small : size + 32 ≤ p → Owns own o a size → Placed own m p o a size
  big :
      (block_p k : ℕ)
      → p < size + 32
      → a ≡ block_p + 32
      → size + 32 ≡ k * p
      → Owns own o block_p (size + 32)
      → is_block m block_p ≡ true
      → bounds_at m block_p ≡ block_p + k * p
      → Placed own m p o a size

-- An entry of a free list.
pub record Span : Type 0 where
  pub addr : ℕ
  pub size : ℕ

abbrev pub head_of : List Span → ℕ
head_of [] = 0
head_of (x ∷ xs) = x.addr

pub record IsFree (own : Owners) (m : Bytes) (p b : ℕ) (x : Span) (xs : List Span) : Type 0 where
  pub somewhere : 0 < x.addr
  pub ends : x.addr + x.size < 2 ^ 64
  pub room : 2 ^ b ≤ x.size
  pub small : IsSmall x.size
  pub placed : Placed own m p (free_in b (length xs)) x.addr x.size
  pub next : load m x.addr 8 ≡ head_of xs
  pub size : load m (x.addr + 8) 8 ≡ x.size

abbrev pub Chain : Owners → Bytes → ℕ → ℕ → List Span → Type 0
Chain own m p b [] = Unit
Chain own m p b (x ∷ xs) = IsFree own m p b x xs × Chain own m p b xs

-- The allocation at `a`, of `n` bytes for the user.
pub record IsLive (own : Owners) (m : Bytes) (p fence a n : ℕ) : Type 0 where
  pub somewhere : 0 < a
  pub ends : a + real_size_of p (n + fence) < 2 ^ 64
  pub least : 16 ≤ n
  pub small : IsSmall (n + fence)
  pub fits : IsSmall (real_size_of p (n + fence))
  pub placed : Placed own m p (live_at a) a (real_size_of p (n + fence))
  pub fenced : fence ≡ 0 ⊎ ((fence ≡ 2) × (check_magic m a n ≡ no_error))

-- The lists from 16 bytes on, and the allocations: `live a` is the size of the one at `a`, or 0. An
-- entry of a shorter list is lost.
pub record IsValid (s : Store) (own : Owners) (live : ℕ → ℕ) : Type 0 where
  pub magic : s.pool.magic ≡ mpool_magic
  pub magic2 : s.pool.magic2 ≡ mpool_magic
  pub page : IsPageSize s.pool.page_size
  pub pool_bytes : Owns own structure s.self pool_size
  pub spans : ℕ → List Span
  pub heads : (b : ℕ) → 4 ≤ b → b ≤ max_bits → s.pool.free b ≡ head_of (spans b)
  pub chains : (b : ℕ) → 4 ≤ b → b ≤ max_bits → Chain own s.mem s.pool.page_size b (spans b)
  pub short : (b : ℕ) → b < 4 → s.pool.free b ≡ 0 ⊎ (own (s.pool.free b) ≡ lost)
  pub lives : (a : ℕ) → 0 < live a → IsLive own s.mem s.pool.page_size (fence_of s.pool) a (live a)
