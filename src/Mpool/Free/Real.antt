-- ===== src/Mpool/Free/Real.antt =====
-- The size that `free_pointer` gives to a block.
use source.Mpool.Free.{real_size_of}
use source.Mpool.Pages.Laws.{
  IsPageSize, IsPages, IsSmall, pages_in_size-IsPages, max_block_user_memory-eq,
  size_of_pages_long-eq,
}
use source.Mpool.Pages.{max_block_user_memory, pages_in_size}
use source.Prelude.{ℕ, ◌+◌, ◌*◌, ◌≤◌, ◌<◌, ◌≡◌, true, false, ltb, Bool-cases, inl, inr, arith}

pub real_size-small : (p size : ℕ) → IsPageSize p → size + 32 ≤ p → real_size_of p size ≡ size
unfolding real_size_of
real_size-small p size page le =
    let fits : ltb (max_block_user_memory p) size ≡ false =
      ground (arith, max_block_user_memory-eq p page) in
    rw fits

-- Blocks of pages reach to the end of them.
pub record RealSize (p size : ℕ) : Type 0 where
  pub pages : ℕ
  pub are : IsPages p size pages
  pub total : real_size_of p size + 32 ≡ pages * p

pub RealSize-big : (p size : ℕ) → IsPageSize p → IsSmall size → p < size + 32 → RealSize p size
unfolding real_size_of
RealSize-big p size page small lt =
    let over : ltb (max_block_user_memory p) size ≡ true =
      ground (arith, max_block_user_memory-eq p page, page.least) in
    let are = pages_in_size-IsPages p size page (omega arith) in
    let k = pages_in_size p size in
    let bytes = size_of_pages_long-eq p size k page small are in
    record {
      pages = k;
      are = are;
      total = rw over (omega (arith, bytes, are.enough, are.least, page.most));
    }

pub real_size-le : (p size : ℕ) → IsPageSize p → IsSmall size → size ≤ real_size_of p size
real_size-le p size page small = elim (Bool-cases (ltb p (size + 32))) [
  | inl over ↦
      let r = RealSize-big p size page small (ground arith) in omega (arith, r.total, r.are.enough)
  | inr fits ↦
      let le : size + 32 ≤ p = ground arith in omega (arith, real_size-small p size page le)
]
