-- ===== src/Mpool/Space/Parted.antt =====
-- `split_block`: the new block is freed too, and `get_space` has the first pages.
use mathlib.Core.Path.{subst}
use native.Mathlib.Decide.{dec_lt}
use source.Mpool.Free.Outcome.{free_pointer-Freed}
use source.Mpool.Free.Pushed.{with_free, Freed}
use source.Mpool.Free.Real.{real_size-small, RealSize-big}
use source.Mpool.Free.{free_pointer, free_rest, real_size_of, split_headers, split_at, split_block}
use source.Mpool.Pages.Laws.{
  IsSmall, pages-exact, pages-lt, pages_unique, pages_in_size-IsPages, size_of_pages-eq,
}
use source.Mpool.Pages.{is_block, bounds_at, memory_in_block, pages_in_size, size_of_pages}
use source.Mpool.Space.Found.{Shape, single, paged, Found}
use source.Mpool.Space.Split.{
  IsSplit, Rested, new_p, kept_to, headed, headed-kept, headed-old, headed-old_bounds, headed-new,
  headed-new_bounds, free_rest-Rested,
}
use source.Mpool.Space.{Space, space, split_space}
use source.Mpool.State.{Error, no_error, pool_over, Store}
use source.Mpool.Valid.Hand.{Same-kept}
use source.Mpool.Valid.Kept.{IsSame, KeptFor, lower, is_block-same, bounds-same}
use source.Mpool.Valid.{Owners, taken, live_at, Placed, small, big, IsValid}
use source.Prelude.Words.{u32, sub64}
use source.Prelude.{
  ℕ, ◌+◌, ◌-◌, ◌*◌, ◌^◌, ◌≤◌, ◌<◌, ◌≡◌, inl, inr, refl, sym, ap, ◌∙◌, true, ◌==◌, if◌then◌else◌,
  Bool-cases, arith,
}

times-add : (l d p : ℕ) → (l + d) * p ≡ l * p + d * p
times-add l d p = grind arith

module _ (s : Store) (own : Owners) (live : ℕ → ℕ) (valid : IsValid s own live)
    (block_p k l size : ℕ) (it : IsSplit s own block_p k l size) where
  abbrev p : ℕ
  p = s.pool.page_size

  abbrev new : ℕ
  new = new_p s own live valid block_p k l size it

  abbrev n : ℕ
  n = (k - l) * p - 32

  pages : l * p + (k - l) * p ≡ k * p
  pages =
      let sum : l + (k - l) ≡ k = omega (arith, it.less) in
      sym (times-add l (k - l) p) ∙ ap (λ z. z * p) sum

  one_more : p ≤ (k - l) * p
  one_more = grind (arith, it.less)

  rest :
      Rested
        (headed s own live valid block_p k l size it)
        own
        live
        (kept_to s own live valid block_p k l size it)
        new
        (free_rest (headed s own live valid block_p k l size it) (block_p + 32) size block_p l)
  rest = free_rest-Rested s own live valid block_p k l size it

  abbrev rested : Store
  rested = with_free (headed s own live valid block_p k l size it) rest.free rest.mem

  new_bounds : bounds_at rested.mem new ≡ block_p + k * p
  new_bounds =
      bounds-same (headed s own live valid block_p k l size it).mem rested.mem new
        (λ x le lt. (rest.same x (inr le)).1)
      ∙ headed-new_bounds s own live valid block_p k l size it

  new_block : is_block rested.mem new ≡ true
  new_block =
      is_block-same (headed s own live valid block_p k l size it).mem rested.mem new
        (λ x le lt. (rest.same x (inr le)).1)
      ∙ headed-new s own live valid block_p k l size it

  new_owns : (x : ℕ) → new ≤ x → x < block_p + k * p → rest.owners x ≡ taken
  new_owns x le lt = (rest.same x (inr le)).0 ∙ it.owns x (omega arith) lt

  -- The new block.
  new-Placed : Placed rest.owners rested.mem p taken (new + 32) n
  new-Placed = elim (dec_lt p (n + 32)) [
    | yes lt ↦
        big new (k - l) lt refl (omega (arith, one_more, valid.page.least))
          (λ x le x_lt. new_owns x le (omega (arith, pages, one_more, valid.page.least))) new_block
          (new_bounds ∙ omega (arith, pages))
    | no le ↦
        small (omega arith) (λ x le' x_lt.
          new_owns x (omega arith) (omega (arith, pages, one_more, valid.page.least)))
  ]

  n-IsSmall : IsSmall n
  n-IsSmall = omega (arith, pages, it.fits, it.are.enough)

  new-real : real_size_of p n ≡ n
  new-real = elim (dec_lt p (n + 32)) [
    | yes lt ↦
        let r = RealSize-big p n valid.page n-IsSmall lt in
        let same =
          pages-exact p n r.pages (k - l) r.are (omega (arith, one_more, valid.page.least)) in
        let bytes : r.pages * p ≡ (k - l) * p = ap (λ z. z * p) same in
        omega (arith, r.total, bytes)
    | no le ↦ real_size-small p n valid.page (omega arith)
  ]

  new-Freed : Freed rested rest.owners live (new + 32) n (free_pointer rested (new + 32) n)
  new-Freed =
      free_pointer-Freed rested rest.owners live rest.holds (new + 32) n (omega arith) new-Placed
        (omega (arith, one_more, valid.page.least))
        (omega (arith, pages, it.ends, one_more, valid.page.least)) n-IsSmall n
        (omega (arith, one_more, valid.page.least)) new-real

  new-memory : memory_in_block rested.mem new ≡ n
  unfolding memory_in_block
  new-memory = omega (arith, new_bounds, pages, it.ends, one_more, valid.page.least)

  bytes : size_of_pages p l ≡ l * p
  bytes =
      size_of_pages-eq p size l valid.page (omega (arith, it.are.enough, pages, one_more, it.fits))
        it.are

  abbrev parted : Store
  parted = with_free rested new-Freed.free new-Freed.mem

  -- `split_at` behind its first call, with the bytes of the pages.
  abbrev then_free : ℕ → Error × Store → Error × Store
  then_free z r = elim r.0 as (λ _. Error × Store) [
    | no_error ↦ free_pointer r.1 (block_p + z + 32) (memory_in_block r.1.mem (block_p + z))
    | e ↦ (e, r.1)
  ]

  abbrev first_call : ℕ → Error × Store
  first_call z =
      free_rest (record s { mem = split_headers s.mem block_p (block_p + z) }) (block_p + 32) size
        block_p l

  split_at-run : split_at s (block_p + 32) size block_p l ≡ (no_error, parted)
  unfolding split_at
  split_at-run =
      ap (λ z. then_free z (first_call z)) bytes
      ∙ ap (then_free (l * p)) rest.runs
      ∙ ap (free_pointer rested (new + 32)) new-memory
      ∙ new-Freed.runs

  split_block-run : split_block s (block_p + 32) size ≡ (no_error, parted)
  unfolding split_block
  split_block-run =
      let header : sub64 (block_p + 32) 32 ≡ block_p =
        omega (arith, it.ends, pages, one_more, valid.page.least) in
      let small_size : IsSmall size = omega (arith, it.are.enough, pages, one_more, it.fits) in
      let count : pages_in_size p size ≡ l =
        pages_unique p size (pages_in_size p size) l
          (pages_in_size-IsPages p size valid.page (omega (arith, small_size))) it.are in
      let few : l < 2 ^ 32 = pages-lt p size l valid.page small_size it.are in
      ap
        (λ z.
          if is_block s.mem z
          then split_at s (block_p + 32) size z (u32 (pages_in_size p size))
          else (pool_over, s))
        header
      ∙ ap
          (λ c.
            if c
            then split_at s (block_p + 32) size block_p (u32 (pages_in_size p size))
            else (pool_over, s))
          it.block
      ∙ ap (split_at s (block_p + 32) size block_p) (omega (arith, count, few))
      ∙ split_at-run

  -- What stays is the same from the headers on.
  stays :
      (x : ℕ)
      → x < kept_to s own live valid block_p k l size it
      → IsSame own
          (headed s own live valid block_p k l size it).mem
          new-Freed.owners
          new-Freed.mem
          x
  stays x lt =
      let below : x < lower p (new + 32) n = ground (arith, it.are.enough) in
      let first = rest.same x (inl lt) in
      let second = new-Freed.same x (inl below) in (second.0 ∙ first.0, second.1 ∙ first.1)

  live-kept : (a : ℕ) → KeptFor own s.mem new-Freed.owners new-Freed.mem (live_at a)
  live-kept a x e =
      let first = headed-kept s own live valid block_p k l size it (live_at a) (λ z. cc) x e in
      let second = rest.kept (live_at a) (λ z. cc) x e in
      let third = Same-kept new-Placed new-Freed.same (live_at a) (λ z. cc) x (second.0 ∙ e) in
      (third.0 ∙ second.0, third.1 ∙ second.1 ∙ first.1)

  found_with :
      (total : ℕ)
      → block_p + 32 + total < 2 ^ 64
      → IsSmall total
      → Placed new-Freed.owners new-Freed.mem p taken (block_p + 32) total
      → Shape p size total 0
      → Found s own live size (space (block_p + 32) 0 parted)
  found_with total ends fits placed shape = record {
    owners = new-Freed.owners;
    total = total;
    code = refl;
    page_size = refl;
    flags = refl;
    holds = new-Freed.holds;
    somewhere = omega arith;
    ends = ends;
    fits = fits;
    placed = placed;
    shape = shape;
    kept = live-kept;
  }

  parted-Found : Found s own live size (space (block_p + 32) 0 parted)
  parted-Found = elim (Bool-cases (l == 1)) [
    | inl one ↦
        let is_one : l ≡ 1 = ground arith in
        let page : l * p ≡ p = ap (λ z. z * p) is_one ∙ omega arith in
        let in_page : size + 32 ≤ p = omega (arith, page, it.are.enough) in
        let upper : kept_to s own live valid block_p k l size it ≡ block_p + 32 + size =
          ground (arith, one) in
        found_with size (omega (arith, it.ends, pages, one_more, it.are.enough))
          (omega (arith, in_page, valid.page.most))
          (small in_page (λ x le lt.
            (stays x (omega (arith, upper))).0
            ∙ it.owns x (omega arith) (omega (arith, pages, one_more, it.are.enough))))
          (single in_page in_page (omega arith) (omega arith))
    | inr more ↦
        let upper : kept_to s own live valid block_p k l size it ≡ new = ground (arith, more) in
        let two : 2 ≤ l = grind (arith, more, it.are.enough) in
        let double : p + p ≤ l * p = grind (arith, two) in
        let header : (x : ℕ)
            → block_p ≤ x
            → x < block_p + 32
            → new-Freed.mem x ≡ (headed s own live valid block_p k l size it).mem x =
          λ x le lt. (stays x (omega (arith, upper, it.are.enough))).1 in
        found_with (l * p - 32) (omega (arith, it.ends, pages, one_more, it.are.enough))
          (omega (arith, it.fits, pages, one_more))
          (big block_p l (omega (arith, double, valid.page.least)) refl
            (omega (arith, it.are.enough))
            (λ x le lt.
              (stays x (omega (arith, upper, it.are.enough))).0
              ∙ it.owns x le (omega (arith, pages, one_more, it.are.enough)))
            (is_block-same (headed s own live valid block_p k l size it).mem new-Freed.mem block_p
                header
              ∙ headed-old s own live valid block_p k l size it)
            (bounds-same (headed s own live valid block_p k l size it).mem new-Freed.mem block_p
                header
              ∙ headed-old_bounds s own live valid block_p k l size it))
          (paged l (omega (arith, double, it.are.least)) it.are (omega (arith, it.are.enough)))
  ]

  pub split_space-Found : Found s own live size (split_space s (block_p + 32) size)
  unfolding split_space
  split_space-Found =
      subst
        (λ r. Found s own live size (elim r.0 as (λ _. Space) [
          | no_error ↦ space (block_p + 32) 0 r.1
          | e ↦ record { code = e; free_addr = block_p + 32; left = 0; after = r.1 }
        ]))
        (sym split_block-run) parted-Found
