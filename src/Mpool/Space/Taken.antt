-- ===== src/Mpool/Space/Taken.antt =====
-- `get_space` takes the front of a free list, and splits it if it has more pages than are needed.
use mathlib.Core.Path.{subst}
use source.Mpool.Bits.Laws.{min_bits_next}
use source.Mpool.Bytes.{put, load}
use source.Mpool.Free.Pushed.{with_free}
use source.Mpool.Pages.Laws.{IsPages, pages_in_size-IsPages, pages-exact, pages-one}
use source.Mpool.Pages.{pages_in_size, is_block, bounds_at}
use source.Mpool.Space.Found.{LiveKept-trans, Found}
use source.Mpool.Space.Front.{at_front, head-front, take_free-Found}
use source.Mpool.Space.Parted.{split_space-Found}
use source.Mpool.Space.Popped.{pop-kept, pop-IsValid}
use source.Mpool.Space.Split.{IsSplit}
use source.Mpool.Space.{split_space, take_free}
use source.Mpool.State.{Store, max_bits}
use source.Mpool.Valid.Hand.{hand, hand-inside}
use source.Mpool.Valid.Kept.{lower}
use source.Mpool.Valid.{Owners, taken, free_in, live_at, Placed, small, big, Span, IsFree, IsValid}
use source.Prelude.{
  ℕ, ◌+◌, ◌*◌, ◌≤◌, ◌<◌, ◌≡◌, inl, inr, refl, sym, ap, ◌∙◌, true, false, ltb, Bool-cases, List, ◌∷◌,
  length, arith,
}

module _ (s : Store) (own : Owners) (live : ℕ → ℕ) (valid : IsValid s own live) (b : ℕ)
    (long : 4 ≤ b) (top : b ≤ max_bits) (x : Span) (xs : List Span) (front : valid.spans b ≡ x ∷ xs)
    (size : ℕ) (fits : size ≤ x.size) (some_bytes : 0 < size) where
  abbrev p : ℕ
  p = s.pool.page_size

  abbrev own' : Owners
  own' = hand own p x.addr x.size taken

  abbrev popped : Store
  popped = with_free s (put s.pool.free b (load s.mem x.addr 8)) s.mem

  abbrev it : IsFree own s.mem p b x xs
  it = at_front s own live valid b long top x xs front size fits some_bytes

  abbrev l : ℕ
  l = pages_in_size p size

  abbrev popped-IsValid : IsValid popped own' live
  popped-IsValid = pop-IsValid s own live valid b long top x xs front

  are : IsPages p size l
  are = pages_in_size-IsPages p size valid.page (omega (arith, fits, it.small))

  total : IsPages p x.size (pages_in_size p x.size)
  total = pages_in_size-IsPages p x.size valid.page (omega (arith, it.small))

  -- There are more pages only in a block of pages.
  at_block :
      (block_p k : ℕ)
      → ltb l (pages_in_size p x.size) ≡ true
      → p < x.size + 32
      → x.addr ≡ block_p + 32
      → x.size + 32 ≡ k * p
      → is_block s.mem block_p ≡ true
      → bounds_at s.mem block_p ≡ block_p + k * p
      → Found s own live size (take_free s b size)
  unfolding take_free
  at_block block_p k more lt at whole block bounds =
      let count = pages-exact p x.size (pages_in_size p x.size) k total whole in
      let headed : lower p x.addr x.size ≡ block_p = ground (arith, at) in
      let split : IsSplit popped own' block_p k l size = record {
        are = are;
        less = ground (arith, more, count);
        some_bytes = some_bytes;
        owns = λ y le y_lt.
            hand-inside own p x.addr x.size taken y (omega (arith, headed))
              (omega (arith, at, whole));
        block = block;
        bounds = bounds;
        ends = omega (arith, it.ends, at, whole);
        fits = omega (arith, it.small, whole);
      } in
      let f = split_space-Found popped own' live popped-IsValid block_p k l size split in
      let not_tiny : ltb b 3 ≡ false = ground arith in
      let head : s.pool.free b ≡ x.addr =
        head-front s own live valid b long top x xs front size fits some_bytes in
      let run : take_free s b size ≡ split_space popped x.addr size =
        rw (take_free, min_bits_next, not_tiny, head, it.size, more) refl in
      subst (Found s own live size) (sym (run ∙ ap (λ a. split_space popped a size) at)) (record {
        owners = f.owners;
        total = f.total;
        code = f.code;
        page_size = f.page_size;
        flags = f.flags;
        holds = f.holds;
        somewhere = f.somewhere;
        ends = f.ends;
        fits = f.fits;
        placed = f.placed;
        shape = f.shape;
        kept =
            LiveKept-trans own own' f.owners s.mem s.mem _
              (λ a. pop-kept s own live valid b long top x xs front (live_at a) (λ z. cc)) f.kept;
      })

  -- The front of a list whose entries are large enough.
  pub taken-Found : Found s own live size (take_free s b size)
  taken-Found = elim (Bool-cases (ltb l (pages_in_size p x.size))) [
    | inr all ↦ take_free-Found s own live valid b long top x xs front size fits some_bytes all
    | inl more ↦ by_place more it.placed
  ]
    where
      by_place :
          ltb l (pages_in_size p x.size) ≡ true
          → Placed own s.mem p (free_in b (length xs)) x.addr x.size
          → Found s own live size (take_free s b size)
      by_place more (small le owns) =
          let one = pages-one p x.size (pages_in_size p x.size) valid.page total le in
          let first = pages-one p size l valid.page are (omega (arith, fits)) in
          absurd (ground (arith, more, one, first))
      by_place more (big block_p k lt at whole owns block bounds) =
          at_block block_p k more lt at whole block bounds
