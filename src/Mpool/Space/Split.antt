-- ===== src/Mpool/Space/Split.antt =====
-- `split_block` on a block of pages that the call has in hand: the first pages stay, the rest is freed.
use mathlib.Core.Path.{subst}
use native.Mathlib.Decide.{dec_lt}
use source.Mpool.Bytes.{Bytes}
use source.Mpool.Free.Outcome.{free_pointer-Freed}
use source.Mpool.Free.Pushed.{with_free}
use source.Mpool.Free.Real.{real_size-small}
use source.Mpool.Free.{free_pointer, free_rest, split_headers}
use source.Mpool.Pages.Laws.{IsPages, IsSmall}
use source.Mpool.Pages.{is_block, bounds_at}
use source.Mpool.Space.Headers.{
  split_headers-other, split_headers-old, split_headers-old_bounds, split_headers-new,
  split_headers-new_bounds,
}
use source.Mpool.State.{Error, no_error, Store}
use source.Mpool.Valid.Hand.{Same-kept}
use source.Mpool.Valid.Kept.{IsSame, KeptFor, lower}
use source.Mpool.Valid.Pools.{IsValid-kept}
use source.Mpool.Valid.{Owner, Owners, taken, Owns, Placed, small, IsValid}
use source.Prelude.Words.{sub64}
use source.Prelude.{
  ℕ, ◌+◌, ◌-◌, ◌*◌, ◌^◌, ◌≤◌, ◌<◌, ◌≡◌, ◌≢◌, ◌⊎◌, inl, inr, refl, sym, ◌∙◌, true, ◌==◌,
  if◌then◌else◌, Bool-cases, arith,
}

-- The block at `block_p` of `k` pages, of which `l` are needed for the size.
pub record IsSplit (s : Store) (own : Owners) (block_p k l size : ℕ) : Type 0 where
  pub are : IsPages s.pool.page_size size l
  pub less : l < k
  pub some_bytes : 0 < size
  pub owns : Owns own taken block_p (k * s.pool.page_size)
  pub block : is_block s.mem block_p ≡ true
  pub bounds : bounds_at s.mem block_p ≡ block_p + k * s.pool.page_size
  pub ends : block_p + k * s.pool.page_size < 2 ^ 64
  pub fits : IsSmall (k * s.pool.page_size - 32)

-- After the rest of a single first page has been freed: what is kept for the size, and the new block,
-- have not changed.
pub record Rested (s : Store) (own : Owners) (live : ℕ → ℕ) (kept_to new_p : ℕ)
    (run : Error × Store) : Type 0 where
  pub owners : Owners
  pub free : ℕ → ℕ
  pub mem : Bytes
  pub runs : run ≡ (no_error, with_free s free mem)
  pub holds : IsValid (with_free s free mem) owners live
  pub kept : (o : Owner) → o ≢ taken → KeptFor own s.mem owners mem o
  pub same : (x : ℕ) → (x < kept_to) ⊎ (new_p ≤ x) → IsSame own s.mem owners mem x

module _ (s : Store) (own : Owners) (live : ℕ → ℕ) (valid : IsValid s own live)
    (block_p k l size : ℕ) (it : IsSplit s own block_p k l size) where
  abbrev p : ℕ
  p = s.pool.page_size

  abbrev pub new_p : ℕ
  new_p = block_p + l * p

  abbrev pub kept_to : ℕ
  kept_to = if l == 1 then block_p + 32 + size else new_p

  abbrev pub headed : Store
  headed = record s { mem = split_headers s.mem block_p new_p }

  more_pages : l * p + p ≤ k * p
  more_pages = grind (arith, it.less)

  -- The headers are written in memory that the call has in hand.
  headed-other : (x : ℕ) → (x < block_p) ⊎ (block_p + k * p ≤ x) → headed.mem x ≡ s.mem x
  headed-other x o =
      split_headers-other s.mem block_p new_p (omega (arith, it.are.enough))
        (omega (arith, it.ends, more_pages)) x
        (elim o [ inl lt ↦ inl lt | inr le ↦ inr (omega (arith, more_pages, it.are.enough)) ])
        (elim o [
          | inl lt ↦ inl (omega arith)
          | inr le ↦ inr (omega (arith, more_pages, valid.page.least))
        ])

  pub headed-kept : (o : Owner) → o ≢ taken → KeptFor own s.mem own headed.mem o
  headed-kept o ne x e = elim (dec_lt x block_p) [
    | yes lt ↦ (refl, headed-other x (inl lt))
    | no ge ↦ elim (dec_lt x (block_p + k * p)) [
      | yes lt ↦ absurd (ne (sym e ∙ it.owns x (omega arith) lt))
      | no over ↦ (refl, headed-other x (inr (omega arith)))
    ]
  ]

  pub headed-IsValid : IsValid headed own live
  headed-IsValid = IsValid-kept s own own live headed.mem (λ o ne ne'. headed-kept o ne) valid

  low : block_p + 32 ≤ new_p
  low = omega (arith, it.are.enough)

  high : new_p < 2 ^ 64
  high = omega (arith, it.ends, more_pages)

  pub headed-old : is_block headed.mem block_p ≡ true
  headed-old = split_headers-old s.mem block_p new_p low high ∙ it.block

  pub headed-old_bounds : bounds_at headed.mem block_p ≡ new_p
  headed-old_bounds = split_headers-old_bounds s.mem block_p new_p low high

  pub headed-new : is_block headed.mem new_p ≡ true
  headed-new = split_headers-new s.mem block_p new_p low high

  pub headed-new_bounds : bounds_at headed.mem new_p ≡ block_p + k * p
  headed-new_bounds =
      split_headers-new_bounds s.mem block_p new_p low high (omega (arith, it.bounds, it.ends))
      ∙ it.bounds

  -- With nothing to free.
  none_freed : Rested headed own live kept_to new_p (no_error, headed)
  none_freed = record {
    owners = own;
    free = s.pool.free;
    mem = headed.mem;
    runs = refl;
    holds = headed-IsValid;
    kept = λ o ne x e. (refl, refl);
    same = λ x o. (refl, refl);
  }

  -- The end of a single page.
  single_freed :
      l ≡ 1
      → (rest : ℕ) → block_p + 32 + size + rest ≡ new_p
      → Rested headed own live kept_to new_p (free_pointer headed (block_p + 32 + size) rest)
  unfolding free_pointer
  single_freed one rest e = elim (dec_lt 0 rest) [
    | no none_left ↦ let zero_left : (rest == 0) ≡ true = ground arith in rw zero_left none_freed
    | yes lt ↦
        let page : l * p ≡ p = grind (arith, one) in
        let upper : kept_to ≡ block_p + 32 + size = ground (arith, one) in
        let placed : Placed own headed.mem p taken (block_p + 32 + size) rest =
          small (omega (arith, page, e))
            (λ x x_le x_lt. it.owns x (omega arith) (omega (arith, e, page, more_pages))) in
        let f =
          free_pointer-Freed headed own live headed-IsValid (block_p + 32 + size) rest (omega arith)
            placed lt (omega (arith, e, high)) (omega (arith, e, page, more_pages, it.fits)) rest lt
            (real_size-small p rest valid.page (omega (arith, page, e))) in
        let plain : lower p (block_p + 32 + size) rest ≡ block_p + 32 + size =
          ground (arith, page, e) in
        record {
          owners = f.owners;
          free = f.free;
          mem = f.mem;
          runs = f.runs;
          holds = f.holds;
          kept = λ o ne. Same-kept placed f.same o ne;
          same = λ x o. elim o [
            | inl below ↦ f.same x (inl (omega (arith, plain, upper)))
            | inr above ↦ f.same x (inr (omega (arith, e)))
          ];
        }
  ]

  pub free_rest-Rested :
      Rested headed own live kept_to new_p (free_rest headed (block_p + 32) size block_p l)
  unfolding free_rest
  free_rest-Rested = elim (Bool-cases (l == 1)) [
    | inl one ↦
        let is_one : l ≡ 1 = ground arith in
        let page : l * p ≡ p = grind (arith, is_one) in
        let size_e : sub64 (bounds_at headed.mem block_p) (block_p + 32 + size)
            ≡ new_p - (block_p + 32 + size) =
          omega (arith, headed-old_bounds, high, it.are.enough) in
        let run : free_rest headed (block_p + 32) size block_p l
            ≡ free_pointer headed (block_p + 32 + size) (new_p - (block_p + 32 + size)) =
          rw (free_rest, one, size_e) refl in
        subst (Rested headed own live kept_to new_p) (sym run)
          (single_freed is_one (new_p - (block_p + 32 + size)) (omega (arith, it.are.enough)))
    | inr more ↦
        let run : free_rest headed (block_p + 32) size block_p l ≡ (no_error, headed) =
          rw (free_rest, more) refl in
        subst (Rested headed own live kept_to new_p) (sym run) none_freed
  ]
