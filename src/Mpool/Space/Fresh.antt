-- ===== src/Mpool/Space/Fresh.antt =====
-- `get_space` with new pages, which nobody owns.
use source.Mpool.Bytes.{Bytes}
use source.Mpool.Pages.Granted.{IsRoom}
use source.Mpool.Pages.Headers.{write_block-other, write_block-is_block, write_block-bounds_at}
use source.Mpool.Pages.Laws.{IsPages, IsSmall, size_of_pages-eq, pages-more, pages-one}
use source.Mpool.Pages.{size_of_pages, write_block}
use source.Mpool.Space.Found.{Shape, single, paged, Found}
use source.Mpool.Space.{init_block, new_block}
use source.Mpool.State.{Store}
use source.Mpool.Valid.Kept.{KeptFor}
use source.Mpool.Valid.Pools.{IsValid-pool, IsValid-kept}
use source.Mpool.Valid.{
  Owner, Owners, nobody, taken, live_at, give, Owns, Placed, small, big, IsValid,
}
use source.Prelude.Words.{u32, sub64}
use source.Prelude.{ℕ, ◌+◌, ◌-◌, ◌*◌, ◌≡◌, ◌≢◌, inl, inr, refl, sym, ap, ◌∙◌, arith}
use native.Mathlib.Decide.{dec_lt}

module _ (s : Store) (own : Owners) (live : ℕ → ℕ) (valid : IsValid s own live) (block_p k size : ℕ)
    (are : IsPages s.pool.page_size size k) (fits : IsSmall (size + s.pool.page_size))
    (room : IsRoom own block_p (k * s.pool.page_size)) where
  abbrev p : ℕ
  p = s.pool.page_size

  bytes : size_of_pages p k ≡ k * p
  bytes = size_of_pages-eq p size k valid.page (omega (arith, fits)) are

  abbrev total : ℕ
  total = k * p - 32

  abbrev own' : Owners
  own' = give own block_p (k * p) taken

  abbrev m' : Bytes
  m' = write_block s.mem block_p (block_p + size_of_pages p k) s.pool.first_p

  new-kept : (o : Owner) → o ≢ nobody → KeptFor own s.mem own' m' o
  unfolding give
  new-kept o ne x e = elim (dec_lt x block_p) [
    | yes lt ↦ (ground arith, write_block-other s.mem block_p _ _ x (inl lt))
    | no ge ↦ elim (dec_lt x (block_p + k * p)) [
      | yes lt ↦ absurd (ne (sym e ∙ room.owns x (omega arith) lt))
      | no over ↦
          (ground arith, write_block-other s.mem block_p _ _ x (inr (omega (arith, are.enough))))
    ]
  ]

  new-Owns : Owns own' taken block_p (k * p)
  unfolding give
  new-Owns x le lt = ground arith

  new-Placed : Placed own' m' p taken (block_p + 32) total
  new-Placed = elim (dec_lt p (size + 32)) [
    | yes lt ↦
        let more = pages-more p size k valid.page are lt in
        big block_p k (grind (arith, more, valid.page.least)) refl (omega (arith, are.enough))
          (λ x le x_lt. new-Owns x le (omega (arith, are.enough)))
          (write_block-is_block s.mem block_p _ _)
          (write_block-bounds_at s.mem block_p _ _ (omega (arith, bytes, room.ends))
            ∙ ap (λ z. block_p + z) bytes)
    | no le ↦
        let one = pages-one p size k valid.page are (omega arith) in
        let page : k * p ≡ p = grind (arith, one) in
        small (omega (arith, page, valid.page.least))
          (λ x x_le x_lt. new-Owns x (omega arith) (omega (arith, page, valid.page.least)))
  ]

  new-Shape : Shape p size total (total - size)
  new-Shape = elim (dec_lt p (size + 32)) [
    | yes lt ↦ paged k lt are (omega (arith, are.enough))
    | no le ↦
        let one = pages-one p size k valid.page are (omega arith) in
        let page : k * p ≡ p = grind (arith, one) in
        single (omega arith) (omega (arith, page, valid.page.least)) (omega (arith, are.enough))
          refl
  ]

  pub new_block-Found : Found s own live size (new_block s block_p k size)
  unfolding new_block init_block
  new_block-Found =
      let left_e : u32 (sub64 (block_p + size_of_pages p k) (block_p + 32 + size)) ≡ total - size =
        omega (arith, bytes, room.ends, are.enough, are.least, fits) in
      let s' = init_block s block_p k in
      rw (new_block, left_e)
        (record {
          owners = own';
          total = total;
          code = refl;
          page_size = refl;
          flags = refl;
          holds =
              IsValid-pool (record s { mem = m' }) own' live s'.pool
                (record {
                  magic = refl;
                  magic2 = refl;
                  page_size = refl;
                  flags = refl;
                  free = refl;
                })
                (IsValid-kept s own own' live m' (λ o ne ne'. new-kept o ne') valid);
          somewhere = omega arith;
          ends = omega (arith, room.ends, are.enough);
          fits = omega (arith, are.least, fits);
          placed = new-Placed;
          shape = new-Shape;
          kept = λ a. new-kept (live_at a) (λ z. cc);
        })
