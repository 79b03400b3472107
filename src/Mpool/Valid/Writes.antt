-- ===== src/Mpool/Valid/Writes.antt =====
-- The user writes to an allocation.
use mathlib.Core.Path.{subst}
use native.Mathlib.Decide.{dec_lt}
use source.Mpool.Bytes.{Bytes}
use source.Mpool.Free.Real.{real_size-le}
use source.Mpool.Free.{real_size_of}
use source.Mpool.Space.{fence_of}
use source.Mpool.State.{Store}
use source.Mpool.Valid.Kept.{
  KeptFor, is_block-same, bounds-same, fence-kept, Placed-Owns, IsLive-kept, Chain-kept,
}
use source.Mpool.Valid.{Owner, Owners, free_in, live_at, Placed, small, big, IsLive, IsValid}
use source.Prelude.{
  ℕ, ◌+◌, ◌≤◌, ◌<◌, ◌≡◌, ◌≢◌, ◌⊎◌, inl, inr, refl, sym, ◌∙◌, true, false, ◌==◌, Bool-cases, arith,
}

module _ (s : Store) (own : Owners) (live : ℕ → ℕ) (valid : IsValid s own live) (a : ℕ)
    (some_live : 0 < live a) (m' : Bytes)
    (out : (x : ℕ) → (x < a) ⊎ (a + live a ≤ x) → m' x ≡ s.mem x) where
  abbrev p : ℕ
  p = s.pool.page_size

  at_a : IsLive own s.mem p (fence_of s.pool) a (live a)
  at_a = valid.lives a some_live

  wide : live a + fence_of s.pool ≤ real_size_of p (live a + fence_of s.pool)
  wide = real_size-le p (live a + fence_of s.pool) valid.page at_a.small

  other-kept : (o : Owner) → o ≢ live_at a → KeptFor own s.mem own m' o
  other-kept o ne x e = elim (dec_lt x a) [
    | yes lt ↦ (refl, out x (inl lt))
    | no ge ↦ elim (dec_lt x (a + live a)) [
      | yes lt ↦ absurd (ne (sym e ∙ Placed-Owns at_a.placed x (omega arith) (omega (arith, wide))))
      | no over ↦ (refl, out x (inr (omega arith)))
    ]
  ]

  written-Placed :
      Placed own s.mem p (live_at a) a (real_size_of p (live a + fence_of s.pool))
      → Placed own m' p (live_at a) a (real_size_of p (live a + fence_of s.pool))
  written-Placed (small le owns) = small le owns
  written-Placed (big block_p k lt at whole owns block bounds) =
      let header : (x : ℕ) → block_p ≤ x → x < block_p + 32 → m' x ≡ s.mem x =
        λ x le x_lt. out x (inl (omega arith)) in
      big block_p k lt at whole owns (is_block-same s.mem m' block_p header ∙ block)
        (bounds-same s.mem m' block_p header ∙ bounds)

  written-IsLive : IsLive own m' p (fence_of s.pool) a (live a)
  written-IsLive = record {
    somewhere = at_a.somewhere;
    ends = at_a.ends;
    least = at_a.least;
    small = at_a.small;
    fits = at_a.fits;
    placed = written-Placed at_a.placed;
    fenced = elim at_a.fenced [
      | inl e ↦ inl e
      | inr e ↦ inr (
        e.0,
        fence-kept s.mem m' a (live a) (out (a + live a) (inr (omega arith)))
              (out (a + live a + 1) (inr (omega arith)))
            ∙ e.1,
      )
    ];
  }

  written-lives : (c : ℕ) → 0 < live c → IsLive own m' p (fence_of s.pool) c (live c)
  written-lives c lt = elim (Bool-cases (c == a)) [
    | inl here ↦
        let at : a ≡ c = ground arith in
        subst (λ d. IsLive own m' p (fence_of s.pool) d (live d)) at written-IsLive
    | inr other ↦
        IsLive-kept valid.page
          (other-kept (live_at c) (λ e.
            let same : c ≡ a = cc in
            let clash : true ≡ false = sym (ground (arith, same)) ∙ other in cc))
          (valid.lives c lt)
  ]

  -- Whatever the user writes to the bytes of an allocation, and nowhere else, the pool stays valid, and
  -- the bytes of all other allocations stay the same.
  pub written-IsValid :
      IsValid (record s { mem = m' }) own live
      × ((c : ℕ) → c ≢ a → KeptFor own s.mem own m' (live_at c))
  written-IsValid = (
    record {
      magic = valid.magic;
      magic2 = valid.magic2;
      page = valid.page;
      pool_bytes = valid.pool_bytes;
      spans = valid.spans;
      heads = valid.heads;
      chains = λ b le top.
          Chain-kept p b (valid.spans b) le (λ j lt. other-kept (free_in b j) (λ z. cc))
            (valid.chains b le top);
      short = valid.short;
      lives = written-lives;
    },
    (λ c ne. other-kept (live_at c) (λ e. let same : c ≡ a = cc in ne same)),
  )
