-- ===== src/Mpool/Space/Handed.antt =====
-- A block in hand becomes an allocation: its fence is written.
use mathlib.Core.Path.{subst}
use source.Mpool.Bytes.{Bytes, put}
use source.Mpool.Free.Real.{real_size-small, RealSize-big, real_size-le}
use source.Mpool.Free.{real_size_of}
use source.Mpool.Pages.Laws.{IsSmall, IsPages-round, pages_unique}
use source.Mpool.Pages.{write_magic, check_magic}
use source.Mpool.Space.Found.{Shape, single, paged}
use source.Mpool.Space.Lists.{IsRounded}
use source.Mpool.Space.{fence_of}
use source.Mpool.State.{no_error, Store, is_set, flag_no_free}
use source.Mpool.Valid.Hand.{hand, hand-other, hand-inside, SameOutside, Same-kept, Placed-hand}
use source.Mpool.Valid.Kept.{KeptFor, lower, Placed-Owns}
use source.Mpool.Valid.Pools.{IsValid-kept}
use source.Mpool.Valid.{Owner, Owners, lost, taken, live_at, Placed, small, IsLive, IsValid}
use source.Prelude.{
  ℕ, ◌+◌, ◌*◌, ◌^◌, ◌≤◌, ◌<◌, ◌≡◌, ◌≢◌, ◌⊎◌, inl, inr, refl, sym, ap, ◌∙◌, true, false, ◌==◌,
  if◌then◌else◌, Bool-cases, arith,
}

pub write_magic-other : (m : Bytes) (a x : ℕ) → (x < a) ⊎ (a + 2 ≤ x) → write_magic m a x ≡ m x
unfolding write_magic
write_magic-other m a x (inl lt) = ground arith
write_magic-other m a x (inr le) = ground arith

pub check_magic-write_magic :
    (m : Bytes) (a n : ℕ) → check_magic (write_magic m (a + n)) a n ≡ no_error
unfolding check_magic write_magic
check_magic-write_magic m a n =
    let first : (a + n == a + n + 1) ≡ false = ground arith in
    let here : (a + n == a + n) ≡ true = ground arith in
    let next : (a + n + 1 == a + n + 1) ≡ true = ground arith in rw (first, here, next) refl

-- The block at `a` of `total` bytes, for `n` bytes of the user.
pub record IsHeld (s : Store) (own : Owners) (live : ℕ → ℕ) (a total n up : ℕ) : Type 0 where
  pub valid : IsValid s own live
  pub somewhere : 0 < a
  pub ends : a + total < 2 ^ 64
  pub placed : Placed own s.mem s.pool.page_size taken a total
  pub least : 16 ≤ n
  pub rounded : IsRounded (n + fence_of s.pool) up
  pub shape : Shape s.pool.page_size up total 0
  pub fits : IsSmall (up + s.pool.page_size)

module _ (s : Store) (own : Owners) (live : ℕ → ℕ) (a total n up : ℕ)
    (it : IsHeld s own live a total n up) where
  abbrev p : ℕ
  p = s.pool.page_size

  abbrev fence : ℕ
  fence = fence_of s.pool

  abbrev real : ℕ
  real = real_size_of p (n + fence)

  abbrev gone : Owners
  gone = hand own p a total lost

  abbrev pub owned : Owners
  owned = hand gone p a real (live_at a)

  abbrev pub fenced_mem : Bytes
  fenced_mem = if is_set s.pool.flags flag_no_free then s.mem else write_magic s.mem (a + n)

  -- Of the block, the bytes that `free_pointer` counts.
  record Cut : Type 0 where
    le : real ≤ total
    enough : n + fence ≤ real
    under : lower p a total ≤ lower p a real
    small : IsSmall real
    placed : Placed gone s.mem p lost a real

  cut : Cut
  cut = by_shape it.shape
    where
      by_shape : Shape p up total 0 → Cut
      by_shape (single one one_total le none_left) =
          let e = real_size-small p (n + fence) it.valid.page (omega (arith, it.rounded.least)) in
          let plain : lower p a total ≡ a = ground arith in
          let plain' : lower p a real ≡ a = ground (arith, e, it.rounded.least) in
          record {
            le = omega (arith, e, it.rounded.least);
            enough = omega (arith, e);
            under = omega (arith, plain, plain');
            small = omega (arith, e, it.rounded.least, it.fits);
            placed = small (omega (arith, e, it.rounded.least)) (λ x x_le x_lt.
                hand-inside own p a total lost x (omega (arith, plain))
                  (omega (arith, e, it.rounded.least)));
          }
      by_shape (paged k lt are whole) =
          let page = it.valid.page in
          let eights = page.aligned in
          let over : p < n + fence + 32 =
            omega (arith, it.rounded.most, it.rounded.eights, eights, page.least) in
          let r = RealSize-big p (n + fence) page (omega (arith, it.fits, it.rounded.least)) over in
          let k_e : r.pages ≡ k =
            pages_unique p up r.pages k
              (IsPages-round p (n + fence) up r.pages page it.rounded.least it.rounded.most
                it.rounded.eights r.are)
              are in
          let bytes : r.pages * p ≡ k * p = ap (λ z. z * p) k_e in
          let e : real ≡ total = omega (arith, r.total, bytes, whole) in
          record {
            le = omega (arith, e);
            enough = omega (arith, e, whole, are.enough, it.rounded.least);
            under = subst (λ z. lower p a total ≤ lower p a z) (sym e) (omega arith);
            small = omega (arith, e, whole, are.least, it.fits);
            placed =
                subst (Placed gone s.mem p lost a) (sym e)
                  (Placed-hand lost (λ x o. refl) it.placed);
          }

  mem-other : (x : ℕ) → (x < a + n) ⊎ (a + n + fence ≤ x) → fenced_mem x ≡ s.mem x
  mem-other x o = elim (Bool-cases (is_set s.pool.flags flag_no_free)) [
    | inl none_needed ↦ rw none_needed refl
    | inr needed ↦
        let two : fence ≡ 2 = ground (arith, needed) in
        rw needed (
          write_magic-other s.mem (a + n) x
            (elim o [ inl lt ↦ inl lt | inr le ↦ inr (omega (arith, two)) ]))
  ]

  owned-same : SameOutside own s.mem owned fenced_mem p a total
  owned-same x o = (
    hand-other gone p a real (live_at a) x (elim o [
      | inl lt ↦ inl (omega (arith, cut.under))
      | inr le ↦ inr (omega (arith, cut.le))
    ])
        ∙ hand-other own p a total lost x o,
    mem-other x (elim o [
      | inl lt ↦ let low : lower p a total ≤ a = ground arith in inl (omega (arith, low))
      | inr le ↦ inr (omega (arith, cut.le, cut.enough))
    ]),
  )

  pub owned-kept : (o : Owner) → o ≢ taken → KeptFor own s.mem owned fenced_mem o
  owned-kept o ne = Same-kept it.placed owned-same o ne

  owned-IsLive : IsLive owned fenced_mem p fence a n
  owned-IsLive = record {
    somewhere = it.somewhere;
    ends = omega (arith, it.ends, cut.le);
    least = it.least;
    small = omega (arith, it.fits, it.rounded.least);
    fits = cut.small;
    placed =
        Placed-hand (live_at a)
          (λ x o.
            mem-other x
              (elim o [ inl lt ↦ inl (omega arith) | inr le ↦ inr (omega (arith, cut.enough)) ]))
          cut.placed;
    fenced = elim (Bool-cases (is_set s.pool.flags flag_no_free)) [
      | inl none_needed ↦ inl (rw none_needed refl)
      | inr needed ↦ inr ((rw needed refl), (rw needed (check_magic-write_magic s.mem a n)))
    ];
  }

  -- There was no allocation at the address.
  pub apart : live a ≡ 0
  apart = elim (Bool-cases (live a == 0)) [
    | inl none_there ↦ ground arith
    | inr there ↦
        let at_a : IsLive own s.mem p fence a (live a) = it.valid.lives a (ground arith) in
        let wide : 0 < real_size_of p (live a + fence) =
          omega (arith, real_size-le p (live a + fence) it.valid.page at_a.small, at_a.least) in
        let before : own a ≡ live_at a =
          Placed-Owns at_a.placed a (omega arith) (omega (arith, wide)) in
        let now : own a ≡ taken =
          Placed-Owns it.placed a (omega arith) (omega (arith, cut.le, cut.enough, it.least)) in
        let clash : live_at a ≡ taken = sym before ∙ now in cc
  ]

  pub owned-IsValid : IsValid (record s { mem = fenced_mem }) owned (put live a n)
  owned-IsValid =
      let kept = IsValid-kept s own owned live fenced_mem (λ o ne ne'. owned-kept o ne) it.valid in
      record {
        magic = kept.magic;
        magic2 = kept.magic2;
        page = kept.page;
        pool_bytes = kept.pool_bytes;
        spans = kept.spans;
        heads = kept.heads;
        chains = kept.chains;
        short = kept.short;
        lives = λ c lt. elim (Bool-cases (c == a)) [
          | inl here ↦
              let at : a ≡ c = ground arith in
              rw here (subst (λ d. IsLive owned fenced_mem p fence d n) at owned-IsLive)
          | inr other ↦ rw other (kept.lives c (ground (arith, other, lt)))
        ];
      }
