-- ===== src/Mpool/Tests/Examples.antt =====
-- The theorems at concrete pools.
use mathlib.Core.Path.{subst}
use source.Mpool.Bits.Laws.{IsBits, size_to_bits-IsBits, IsFreeBits, size_to_free_bits-IsFreeBits}
use source.Mpool.Bits.{size_to_bits, size_to_free_bits, bit_size}
use source.Mpool.Calls.Allocs.{PoolAllocates, mpool_alloc-PoolAllocates, mpool_free-mpool_alloc}
use source.Mpool.Bytes.{put}
use source.Mpool.Open.Opens.{mpool_open-Opens}
use source.Mpool.Open.Placed.{Opens}
use source.Mpool.Open.{page_size_of, mpool_open}
use source.Mpool.Pages.Granted.{IsFresh}
use source.Mpool.Valid.{Owners, nobody, give}
use source.Mpool.Calls.Frees.{Frees, mpool_free-Frees}
use source.Mpool.Calls.Resizes.{Resizes, mpool_resize-Resizes}
use source.Mpool.Calls.Callocs.{PoolClears, mpool_calloc-PoolClears}
use source.Mpool.Calls.{mpool_alloc, mpool_calloc, mpool_free, mpool_resize}
use source.Mpool.Free.Outcome.{free_pointer-Freed}
use source.Mpool.Free.Pushed.{Freed}
use source.Mpool.Free.Real.{real_size-small}
use source.Mpool.Free.{free_pointer}
use source.Mpool.Pages.Laws.{IsPageSize, IsPages, pages_in_size-IsPages}
use source.Mpool.Pages.{got, pages_in_size, alloc_pages, size_of_pages, max_block_user_memory}
use source.Mpool.Space.Found.{Found, single, Uses, use_space-Uses}
use source.Mpool.Space.{Space, space, use_space, alloc_mem}
use source.Mpool.State.{Store, is_set}
use source.Mpool.Tests.Data.{
  bump, bump-IsFresh, OwnsNoneFrom, one_block, one_live, one_owners, in_hand_Placed,
  one_block-IsValid,
}
use source.Prelude.{ℕ, ◌≡◌, ◌≤◌, refl, some, arith}

mpool_free-Frees_example :
    Frees bump one_block one_owners one_live 8192 10 0 (mpool_free bump (some one_block) 8192 10 0)
mpool_free-Frees_example =
    mpool_free-Frees bump one_block one_owners one_live one_block-IsValid 8192 10 0 (omega arith)
      refl

free_pointer-Freed_example :
    Freed one_block one_owners one_live 12288 64 (free_pointer one_block 12288 64)
free_pointer-Freed_example =
    free_pointer-Freed one_block one_owners one_live one_block-IsValid 12288 64 (omega arith)
      in_hand_Placed (omega arith) (omega arith) (omega arith) 64 (omega arith)
      (real_size-small 4096 64 one_block-IsValid.page (omega arith))

-- 64 bytes are in hand for a size of 24.
abbrev found_64 : Space
found_64 = space 12288 40 one_block

found_64_Found : Found one_block one_owners one_live 24 found_64
found_64_Found = record {
  owners = one_owners;
  total = 64;
  code = refl;
  page_size = refl;
  flags = refl;
  holds = one_block-IsValid;
  somewhere = omega arith;
  ends = omega arith;
  fits = omega arith;
  placed = in_hand_Placed;
  shape = single (omega arith) (omega arith) (omega arith) (omega arith);
  kept = λ a x e. (refl, refl);
}

use_space-Uses_example : Uses one_block one_owners one_live 24 found_64 (use_space found_64 24)
use_space-Uses_example =
    use_space-Uses one_block one_owners one_live 24 found_64 found_64_Found (omega arith)

size_to_bits-IsBits_example : IsBits 1000 (size_to_bits 1000)
size_to_bits-IsBits_example = size_to_bits-IsBits 1000

size_to_free_bits-IsFreeBits_example : IsFreeBits 1000 (size_to_free_bits 1000)
size_to_free_bits-IsFreeBits_example = size_to_free_bits-IsFreeBits 1000 (omega arith)

pages_in_size-IsPages_example : IsPages 4096 5000 (pages_in_size 4096 5000)
pages_in_size-IsPages_example = pages_in_size-IsPages 4096 5000 one_block-IsValid.page (omega arith)

owns_none_from : OwnsNoneFrom one_owners 65536
unfolding give
owns_none_from x le = ground arith

IsFresh-after : IsFresh bump one_owners 65536
IsFresh-after = bump-IsFresh one_owners 65536 owns_none_from

mpool_alloc-PoolAllocates_example :
    PoolAllocates bump one_block one_owners one_live 10 65536
      (mpool_alloc bump (some one_block) 10 65536)
mpool_alloc-PoolAllocates_example =
    mpool_alloc-PoolAllocates bump one_block one_owners one_live one_block-IsValid 10 65536
      IsFresh-after (omega arith) (omega arith)

mpool_calloc-PoolClears_example :
    PoolClears bump one_block one_owners one_live 3 7 (mpool_calloc bump (some one_block) 3 7 65536)
mpool_calloc-PoolClears_example =
    mpool_calloc-PoolClears bump one_block one_owners one_live one_block-IsValid 3 7 65536
      IsFresh-after (omega arith) (omega arith)

mpool_resize-Resizes_example :
    Resizes one_block one_owners one_live 8192 10 100
      (mpool_resize bump (some one_block) 8192 10 100 65536).0
mpool_resize-Resizes_example =
    mpool_resize-Resizes one_block one_owners one_live one_block-IsValid 8192 10 100 (omega arith)
      refl bump 65536 IsFresh-after (omega arith)

-- The pool after 10 bytes have been allocated.
abbrev with_ten : Store
with_ten = (alloc_mem bump one_block 10 65536).0.1

ten_at : (mpool_alloc bump (some one_block) 10 65536).0 ≡ (got 65568, some with_ten)
unfolding mpool_alloc alloc_mem size_to_bits is_set bit_size alloc_pages size_of_pages pages_in_size
    max_block_user_memory free_pointer
ten_at = refl

mpool_free-mpool_alloc_example :
    (one_live 65568 ≡ 0)
    × ((own' : Owners) × Frees bump with_ten own'
          (put one_live 65568 16)
          65568
          10
          0
          (mpool_free bump (some with_ten) 65568 10 0))
mpool_free-mpool_alloc_example =
    mpool_free-mpool_alloc bump one_block with_ten one_owners one_live one_block-IsValid 10 65568
      65536 0 IsFresh-after (omega arith) (omega arith) ten_at

open_sizes : (p : ℕ) → page_size_of 4096 4096 ≡ got p → IsPageSize p × (512 ≤ p)
unfolding page_size_of
open_sizes p e =
    let got_page : got 4096 ≡ got p = e in
    let at : 4096 ≡ p = cc in
    subst (λ q. IsPageSize q × (512 ≤ q)) at (one_block-IsValid.page, omega arith)

mpool_open-Opens_example : Opens 0 (mpool_open bump 0 4096 0 (λ x. 0) 4096).0
mpool_open-Opens_example =
    mpool_open-Opens bump 0 4096 0 (λ x. 0) 4096 open_sizes
      (λ w. bump-IsFresh (λ x. nobody) w (λ x le. refl))
