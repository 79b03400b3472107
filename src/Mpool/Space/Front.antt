-- ===== src/Mpool/Space/Front.antt =====
-- `get_space` takes the front of a free list that has the pages that it needs.
use mathlib.Core.Path.{subst}
use source.Mpool.Bits.Laws.{min_bits_next}
use source.Mpool.Pages.Laws.{IsPages, pages_in_size-IsPages, pages-exact, pages-more}
use source.Mpool.Pages.{pages_in_size}
use source.Mpool.Space.Found.{Shape, single, paged, Found}
use source.Mpool.Space.Popped.{pop-kept, pop-Placed, pop-IsValid}
use source.Mpool.Space.{take_free}
use source.Mpool.State.{Store, max_bits}
use source.Mpool.Valid.Hand.{hand}
use source.Mpool.Valid.{
  Owners, taken, free_in, live_at, Placed, small, big, Span, head_of, IsFree, Chain, IsValid,
}
use source.Prelude.{ℕ, ◌-◌, ◌≤◌, ◌<◌, ◌≡◌, refl, ap, ◌∙◌, false, ltb, List, ◌∷◌, length, arith}
use source.Prelude.Words.{u32, sub64}

module _ (s : Store) (own : Owners) (live : ℕ → ℕ) (valid : IsValid s own live) (b : ℕ)
    (long : 4 ≤ b) (top : b ≤ max_bits) (x : Span) (xs : List Span) (front : valid.spans b ≡ x ∷ xs)
    (size : ℕ) (fits : size ≤ x.size) (some_bytes : 0 < size) where
  abbrev p : ℕ
  p = s.pool.page_size

  abbrev pub at_front : IsFree own s.mem p b x xs
  at_front = (subst (λ ys. Chain own s.mem p b ys) front (valid.chains b long top)).0

  pub head-front : s.pool.free b ≡ x.addr
  head-front = valid.heads b long top ∙ ap head_of front

  -- All of its pages are needed.
  front-Shape :
      ltb (pages_in_size p size) (pages_in_size p x.size) ≡ false
      → Placed own s.mem p (free_in b (length xs)) x.addr x.size
      → Shape p size x.size (x.size - size)
  front-Shape all (small le owns) = single (omega (arith, fits)) le fits refl
  front-Shape all (big block_p k lt at whole owns block bounds) =
      let are = pages_in_size-IsPages p size valid.page (omega (arith, fits, at_front.small)) in
      let total = pages_in_size-IsPages p x.size valid.page (omega (arith, at_front.small)) in
      let k_pages = pages-exact p x.size (pages_in_size p x.size) k total whole in
      let enough : k ≤ pages_in_size p size = ground (arith, all, k_pages) in
      let most : IsPages p size k = record {
        enough = omega (arith, whole, fits);
        least = grind (arith, are.least, enough);
      } in
      let more = pages-more p x.size k valid.page (subst (IsPages p x.size) k_pages total) lt in
      paged k (grind (arith, most.least, more, whole)) most whole

  pub take_free-Found :
      ltb (pages_in_size p size) (pages_in_size p x.size) ≡ false
      → Found s own live size (take_free s b size)
  unfolding take_free
  take_free-Found all =
      let not_tiny : ltb b 3 ≡ false = ground arith in
      let rest : u32 (sub64 x.size size) ≡ x.size - size = omega (arith, fits, at_front.small) in
      rw (min_bits_next, not_tiny, head-front, at_front.size, all, rest)
        (record {
          owners = hand own p x.addr x.size taken;
          total = x.size;
          code = refl;
          page_size = refl;
          flags = refl;
          holds = pop-IsValid s own live valid b long top x xs front;
          somewhere = at_front.somewhere;
          ends = at_front.ends;
          fits = at_front.small;
          placed = pop-Placed s own live valid b long top x xs front;
          shape = front-Shape all at_front.placed;
          kept = λ a. pop-kept s own live valid b long top x xs front (live_at a) (λ z. cc);
        })
