-- ===== src/Mpool/Pages/Laws.antt =====
-- The arithmetic of pages.
use source.Mpool.Pages.{pages_in_size, size_of_pages, size_of_pages_long, max_block_user_memory}
use source.Prelude.{ℕ, ◌+◌, ◌-◌, ◌*◌, ◌/◌, ◌%◌, ◌^◌, ◌≤◌, ◌<◌, ◌≡◌, ◌∙◌, ap, arith}

-- What the library supposes of a page size.
pub record IsPageSize (p : ℕ) : Type 0 where
  pub least : 64 ≤ p
  pub most : p ≤ 2 ^ 30
  pub aligned : p % 8 ≡ 0

-- The number of pages that bytes and a block header need.
pub record IsPages (p size k : ℕ) : Type 0 where
  pub enough : size + 32 ≤ k * p
  pub least : k * p < size + 32 + p

-- For a page size from 64 to 2 ^ 30 that is a multiple of 8, and a size below 2 ^ 63, the macro
-- PAGES_IN_SIZE gives the smallest number of pages that hold the size and a block header.
pub pages_in_size-IsPages :
    (p size : ℕ) → IsPageSize p → size < 2 ^ 63 → IsPages p size (pages_in_size p size)
unfolding pages_in_size
pages_in_size-IsPages p size page lt =
    let whole : (size + 32 + p - 1) % 2 ^ 64 ≡ size + 32 + p - 1 =
      omega (arith, page.least, page.most) in
    let k = (size + 32 + p - 1) / p in
    rw whole (record { enough = grind (arith, page.least); least = grind (arith, page.least) })

pub pages_unique : (p size k l : ℕ) → IsPages p size k → IsPages p size l → k ≡ l
pages_unique p size k l a b = grind (arith, a.enough, a.least, b.enough, b.least)

-- A size of whole pages less the header.
pub pages-exact : (p size k l : ℕ) → IsPages p size k → size + 32 ≡ l * p → k ≡ l
pages-exact p size k l a e = grind (arith, a.enough, a.least, e)

eights-mul : (k q : ℕ) → k * (8 * q) ≡ 8 * (k * q)
eights-mul k q = grind arith

pub IsPages-round :
    (p size up k : ℕ)
    → IsPageSize p
    → size ≤ up
    → up < size + 8
    → up % 8 ≡ 0
    → IsPages p size k
    → IsPages p up k
IsPages-round p size up k page le lt even a =
    let q = p / 8 in
    let eights : p ≡ 8 * q = omega (arith, page.aligned) in
    let whole : k * p ≡ 8 * (k * q) = ap (λ z. k * z) eights ∙ eights-mul k q in
    record { enough = omega (arith, a.enough, whole); least = omega (arith, a.least) }

-- Sizes for which no sum overflows.
abbrev pub IsSmall : ℕ → Type 0
IsSmall size = size + 64 < 2 ^ 31 + 2 ^ 30

pub max_block_user_memory-eq : (p : ℕ) → IsPageSize p → max_block_user_memory p ≡ p - 32
unfolding max_block_user_memory
max_block_user_memory-eq p page = omega (arith, page.least, page.most)

-- The pages of a size, in both of the code's ways to compute their bytes.
pub size_of_pages-eq :
    (p size k : ℕ) → IsPageSize p → IsSmall size → IsPages p size k → size_of_pages p k ≡ k * p
unfolding size_of_pages
size_of_pages-eq p size k page small a =
    let fits : k * p < 2 ^ 32 = omega (arith, a.least, page.most) in omega (arith, fits)

pub size_of_pages_long-eq :
    (p size k : ℕ) → IsPageSize p → IsSmall size → IsPages p size k → size_of_pages_long p k ≡ k * p
unfolding size_of_pages_long
size_of_pages_long-eq p size k page small a =
    let fits : k * p < 2 ^ 32 = omega (arith, a.least, page.most) in omega (arith, fits)

pub pages-lt : (p size k : ℕ) → IsPageSize p → IsSmall size → IsPages p size k → k < 2 ^ 32
pages-lt p size k page small a =
    let fits : k * p < 2 ^ 32 = omega (arith, a.least, page.most) in
    let more : k ≤ k * p = grind (arith, page.least) in omega (arith, fits, more)

-- One page or more.
pub pages-one : (p size k : ℕ) → IsPageSize p → IsPages p size k → size + 32 ≤ p → k ≡ 1
pages-one p size k page a le =
    pages_unique p size k 1 a (record { enough = omega arith; least = omega (arith, page.least) })

pub pages-more : (p size k : ℕ) → IsPageSize p → IsPages p size k → p < size + 32 → 2 ≤ k
pages-more p size k page a lt = grind (arith, a.enough, a.least)
