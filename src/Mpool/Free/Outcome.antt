-- ===== src/Mpool/Free/Outcome.antt =====
-- `free_pointer` on a valid pool: each of its branches.
use mathlib.Core.Path.{subst}
use native.Mathlib.Decide.{dec_lt}
use source.Mpool.Bits.Laws.{IsFreeBits, size_to_free_bits-IsFreeBits, min_bits_next, min_bits_size}
use source.Mpool.Bits.{size_to_free_bits}
use source.Mpool.Bytes.{Bytes, put, store, store-other}
use source.Mpool.Free.Listed.{first-IsListed, lost-IsListed, pointer-IsListed, entry-IsListed}
use source.Mpool.Free.Pushed.{
  head-lt, IsListed, with_free, Freed, short-IsValid, long-IsValid, long-same,
}
use source.Mpool.Free.{push_free, real_size_of, free_sized, free_pointer}
use source.Mpool.Pages.Laws.{IsSmall}
use source.Mpool.State.{no_error, Store}
use source.Mpool.Valid.Hand.{hand-owner, hand, hand-other}
use source.Mpool.Valid.Kept.{room-16, pow_mono, lower, Placed-Owns}
use source.Mpool.Valid.{
  live_at, Owners, lost, taken, free_in, Placed, Span, head_of, Chain, IsValid,
}
use source.Prelude.{
  ℕ, ◌+◌, ◌^◌, ◌≤◌, ◌<◌, ◌≡◌, ◌≢◌, ◌⊎◌, inl, inr, refl, sym, ap, ◌∙◌, true, false, ltb, ◌==◌,
  Bool-cases, List, [], ◌∷◌, length, arith,
}

module _ (s : Store) (own : Owners) (live : ℕ → ℕ) (valid : IsValid s own live) (a size : ℕ)
    (somewhere : 0 < a) (placed : Placed own s.mem s.pool.page_size taken a size)
    (some_bytes : 0 < size) (ends : a + size < 2 ^ 64) (fits : IsSmall size) where
  abbrev p : ℕ
  p = s.pool.page_size

  abbrev b : ℕ
  b = size_to_free_bits size

  bits : IsFreeBits size b
  bits = size_to_free_bits-IsFreeBits size some_bytes

  own-a : own a ≡ taken
  own-a = Placed-Owns placed a (omega arith) (omega arith)

  -- The block is at the front of no list.
  head-apart : (xs : List Span) → Chain own s.mem p b xs → head_of xs ≢ a
  head-apart [] c e = omega arith
  head-apart (x ∷ xs) c e =
      let there : own x.addr ≡ free_in b (length xs) =
        Placed-Owns c.0.placed x.addr (omega arith)
          (omega (arith, c.0.room, pow_mono 0 b (omega arith))) in
      let same : own x.addr ≡ own a = ap own e in
      let clash : free_in b (length xs) ≡ taken = sym there ∙ same ∙ own-a in cc

  front-apart : (s.pool.free b == a) ≡ false
  front-apart = elim (dec_lt b 4) [
    | yes lt ↦ elim (valid.short b lt) [
      | inl none_in ↦ ground (arith, none_in)
      | inr gone ↦
          let ne : s.pool.free b ≢ a =
            λ e. let clash : lost ≡ taken = sym gone ∙ ap own e ∙ own-a in cc in
          ground arith
    ]
    | no ge ↦
        let ne = head-apart (valid.spans b) (valid.chains b (omega arith) bits.top) in
        let head = valid.heads b (omega arith) bits.top in ground arith
  ]

  -- One of less than 16 bytes.
  short-Freed : b < 4 → Freed s own live a size (no_error, push_free s a size b)
  unfolding push_free
  short-Freed lt =
      let most = bits.most (omega arith) in
      let few : size < 16 = omega (arith, most, pow_mono (b + 1) 4 (omega arith)) in
      let plain : lower p a size ≡ a = ground (arith, valid.page.least) in
      let short : (m' : Bytes)
          → ((x : ℕ) → (x < a) ⊎ (a + size ≤ x) → m' x ≡ s.mem x)
          → IsListed s.pool.free a size (put s.pool.free b a) m'
          → Freed s own live a size (no_error, with_free s (put s.pool.free b a) m') =
        λ m' out listed. record {
          owners = hand own p a size lost;
          free = put s.pool.free b a;
          mem = m';
          runs = refl;
          holds = short-IsValid s own live valid a size somewhere placed b m' lt out few some_bytes;
          same = λ x o. (
            hand-other own p a size lost x o,
            out x (subst (λ l. (x < l) ⊎ (a + size ≤ x)) plain o),
          );
          listed = listed;
          no_live = λ x c e. hand-owner own p a size lost (live_at c) x (λ z. cc) e;
        } in
      rw (min_bits_next, min_bits_size)
        (elim (Bool-cases (ltb b 3)) [
          | inl tiny ↦
              let less : size < 8 = omega (arith, most, pow_mono (b + 1) 3 (ground arith)) in
              rw tiny (elim (Bool-cases (s.pool.free b == 0)) [
                | inl first ↦
                    rw first (
                      short s.mem (λ x o. refl)
                        (first-IsListed s.pool.free a size s.mem less first))
                | inr other ↦ rw other (record {
                  owners = own;
                  free = s.pool.free;
                  mem = s.mem;
                  runs = refl;
                  holds = valid;
                  same = λ x o. (refl, refl);
                  listed = lost-IsListed s.pool.free a size s.mem less other;
                  no_live = λ x c e. e;
                })
              ])
          | inr three ↦
              let at_most : ltb b 4 ≡ true = ground arith in
              let wide : 8 ≤ size = omega (arith, bits.room, pow_mono 3 b (ground arith)) in
              rw (three, at_most)
                (short (store s.mem a 8 (s.pool.free b))
                  (λ x o. elim o [
                    | inl lt ↦ store-other s.mem a 8 (s.pool.free b) x (inl lt)
                    | inr le ↦ store-other s.mem a 8 (s.pool.free b) x (inr (omega arith))
                  ])
                  (pointer-IsListed s.pool.free a size s.mem wide few))
        ])

  long-Freed : 4 ≤ b → Freed s own live a size (no_error, push_free s a size b)
  unfolding push_free
  long-Freed ge =
      let not_tiny : ltb b 3 ≡ false = ground arith in
      let not_short : ltb b 4 ≡ false = ground arith in
      rw (min_bits_next, min_bits_size, not_tiny, not_short)
        (record {
          owners = hand own p a size (free_in b (length (valid.spans b)));
          free = put s.pool.free b a;
          mem = store (store s.mem a 8 (s.pool.free b)) (a + 8) 8 size;
          runs = refl;
          holds =
              long-IsValid s own live valid a size somewhere placed b ge bits.top bits.room ends
                fits;
          same =
              long-same s own live valid a size somewhere placed b ge bits.top bits.room ends fits;
          listed =
              entry-IsListed s.pool.free a size s.mem (room-16 b size ge bits.room)
                (omega (arith, fits))
                (omega (
                  arith,
                  valid.heads b ge bits.top,
                  head-lt own s.mem p b (valid.spans b) (valid.chains b ge bits.top),
                ));
          no_live = λ x c e.
              hand-owner own p a size (free_in b (length (valid.spans b))) (live_at c) x (λ z. cc)
                e;
        })

  free_sized-Freed : Freed s own live a size (free_sized s a size)
  unfolding free_sized
  free_sized-Freed =
      rw front-apart
        (elim (dec_lt b 4) [ yes lt ↦ short-Freed lt | no ge ↦ long-Freed (omega arith) ])

  -- On a valid pool, free_pointer of a block that the call has in hand, with a size whose real size
  -- is that of the block, returns no error, and the pool after it is valid. From 8 bytes on the block is
  -- in front of the free list for its size, and from 16 on it holds the pointer to the old front and its
  -- size; less than 8 bytes are a list of their own if that list is empty, and else they are lost. The
  -- other lists are the same, outside of the block nothing has changed, and no byte has gone to an
  -- allocation.
  pub free_pointer-Freed :
      (n : ℕ) → 0 < n → real_size_of p n ≡ size → Freed s own live a size (free_pointer s a n)
  unfolding free_pointer
  free_pointer-Freed n lt e =
      let not_none : (n == 0) ≡ false = ground arith in rw (not_none, e) free_sized-Freed
