-- ===== src/Mpool/Space/Released.antt =====
-- `free_mem` on an allocation of a valid pool.
use mathlib.Core.Path.{subst}
use source.Mpool.Bytes.{put}
use source.Mpool.Free.Outcome.{free_pointer-Freed}
use source.Mpool.Free.Pushed.{with_free}
use source.Mpool.Free.Real.{real_size-le}
use source.Mpool.Free.{free_pointer, real_size_of}
use source.Mpool.Pages.Laws.{max_block_user_memory-eq}
use source.Mpool.Pages.{is_block, max_block_user_memory}
use source.Mpool.Space.{fence_of, enough, is_place, check_fence, count_free, free_fenced, free_mem}
use source.Mpool.State.{Error, no_error, Store, is_set, flag_no_free}
use source.Mpool.Valid.Hand.{Same-kept}
use source.Mpool.Valid.Kept.{KeptFor}
use source.Mpool.Valid.Lives.{in_hand, in_hand-kept, in_hand-Placed, in_hand-IsValid}
use source.Mpool.Valid.Pools.{IsValid-pool}
use source.Mpool.Valid.{Owners, live_at, Placed, small, big, IsLive, IsValid}
use source.Prelude.Words.{u64, sub64}
use source.Prelude.{
  ℕ, ◌+◌, ◌<◌, ◌≡◌, ◌≢◌, inl, inr, refl, sym, ap, ◌∙◌, true, false, ltb, ◌||◌, Bool-cases, arith,
}

-- After a run that gives the allocation at `a` back: no error, a valid pool in which it is not an
-- allocation any more, and all others as they were. The counters are less by it.
pub record Released (s : Store) (own : Owners) (live : ℕ → ℕ) (a : ℕ) (run : Error × Store)
    : Type 0 where
  pub owners : Owners
  pub after : Store
  pub runs : run ≡ (no_error, after)
  pub holds : IsValid after owners (put live a 0)
  pub kept : (c : ℕ) → c ≢ a → KeptFor own s.mem owners after.mem (live_at c)
  pub alloc_c : after.pool.alloc_c ≡ sub64 s.pool.alloc_c 1
  pub user_alloc : after.pool.user_alloc ≡ sub64 s.pool.user_alloc (live a)
  pub log_func : after.pool.log_func ≡ s.pool.log_func

module _ (s : Store) (own : Owners) (live : ℕ → ℕ) (valid : IsValid s own live) (a : ℕ)
    (some_live : 0 < live a) where
  abbrev p : ℕ
  p = s.pool.page_size

  at_a : IsLive own s.mem p (fence_of s.pool) a (live a)
  at_a = valid.lives a some_live

  -- The place has a header if its size needs one.
  pub placed-is_place : (n : ℕ) → enough n ≡ live a → is_place s a n ≡ true
  unfolding is_place
  placed-is_place n e = elim (Bool-cases (ltb (max_block_user_memory p) n)) [
    | inl over ↦
        let lt : p < n + 32 =
          ground (arith, over, max_block_user_memory-eq p valid.page, valid.page.least) in
        let same : n ≡ live a = ground (arith, e, valid.page.least, lt) in
        rw over (by_place at_a.placed (omega (arith, lt, same)))
    | inr within ↦ rw within refl
  ]
    where
      by_place :
          Placed own s.mem p (live_at a) a (real_size_of p (live a + fence_of s.pool))
          → p < live a + 32
          → (false || is_block s.mem (sub64 a 32)) ≡ true
      by_place (small le owns) lt =
          absurd (omega (arith, real_size-le p (live a + fence_of s.pool) valid.page at_a.small))
      by_place (big block_p k lt at whole owns block bounds) less =
          let header : sub64 a 32 ≡ block_p = omega (arith, at, at_a.ends) in rw header block

  pub fence-no_error : check_fence s a (live a) ≡ no_error
  unfolding check_fence
  fence-no_error = elim (Bool-cases (is_set s.pool.flags flag_no_free)) [
    | inl none_needed ↦ rw none_needed refl
    | inr needed ↦ elim at_a.fenced [
      | inl none_there ↦ absurd (ground (arith, needed, none_there))
      | inr there ↦ rw needed there.1
    ]
  ]

  -- The end of `free_mem`.
  free_fenced-Released : Released s own live a (free_fenced s a (live a))
  unfolding free_fenced
  free_fenced-Released =
      let n = live a + fence_of s.pool in
      let size = real_size_of p n in
      let le = real_size-le p n valid.page at_a.small in
      let whole : u64 n ≡ n = omega (arith, at_a.small) in
      let own1 = in_hand s own live valid a some_live in
      let f =
        free_pointer-Freed s own1 (put live a 0) (in_hand-IsValid s own live valid a some_live) a
          size at_a.somewhere (in_hand-Placed s own live valid a some_live)
          (omega (arith, le, some_live)) at_a.ends at_a.fits n (omega (arith, some_live)) refl in
      let after = with_free s f.free f.mem in
      subst
        (λ r. Released s own live a (elim r.0 as (λ _. Error × Store) [
          | no_error ↦ (no_error, record r.1 { pool = count_free r.1.pool (live a) })
          | e ↦ (e, r.1)
        ]))
        (sym (ap (λ z. free_pointer s a z) whole ∙ f.runs))
        (record {
          owners = f.owners;
          after = record after { pool = count_free after.pool (live a) };
          runs = refl;
          holds =
              IsValid-pool after f.owners (put live a 0) (count_free after.pool (live a))
                (record {
                  magic = refl;
                  magic2 = refl;
                  page_size = refl;
                  flags = refl;
                  free = refl;
                })
                f.holds;
          kept = λ c ne x e.
              let first =
                in_hand-kept s own live valid a some_live (live_at c)
                  (λ z. let same : c ≡ a = cc in ne same) x e in
              let second =
                Same-kept (in_hand-Placed s own live valid a some_live) f.same (live_at c) (λ z. cc)
                  x (first.0 ∙ e) in
              (second.0 ∙ first.0, second.1 ∙ first.1);
          alloc_c = refl;
          user_alloc = refl;
          log_func = refl;
        })

  pub free_mem-Released : (n : ℕ) → enough n ≡ live a → Released s own live a (free_mem s a n)
  unfolding free_mem
  free_mem-Released n e = rw (placed-is_place n e, e, fence-no_error, e) free_fenced-Released
