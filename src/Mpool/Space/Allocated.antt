-- ===== src/Mpool/Space/Allocated.antt =====
-- `alloc_mem` on a valid pool.
use mathlib.Core.Path.{subst}
use source.Mpool.Bytes.{put}
use source.Mpool.Pages.Granted.{IsFresh}
use source.Mpool.Pages.{System, Got, got, error}
use source.Mpool.Space.Found.{Ready}
use source.Mpool.Space.Gets.{no_space, space_at, get_space-Gets}
use source.Mpool.Space.Handed.{IsHeld, owned, fenced_mem, owned-kept, owned-IsValid, apart}
use source.Mpool.Space.Lists.{round_up-IsRounded}
use source.Mpool.Space.{enough, fence_of, count_alloc, fence_alloc, round_up, get_space, alloc_mem}
use source.Mpool.State.{Error, Store}
use source.Mpool.Valid.Kept.{KeptFor}
use source.Mpool.Valid.Pools.{fence-same, IsValid-pool}
use source.Mpool.Valid.{Owners, live_at, IsValid}
use source.Prelude.Words.{u64}
use source.Prelude.{ℕ, ◌+◌, ◌^◌, ◌<◌, ◌≡◌, refl, sym, ap, ◌∙◌, arith}

-- After a run that allocates for `n` bytes: an address where there was no allocation, a valid pool with
-- it, and the bytes of all other allocations as they were.
pub record Allocated (s : Store) (own : Owners) (live : ℕ → ℕ) (n : ℕ) (run : Got × Store)
    : Type 0 where
  pub addr : ℕ
  pub after : Store
  pub owners : Owners
  pub runs : run ≡ (got addr, after)
  pub before : live addr ≡ 0
  pub holds : IsValid after owners (put live addr (enough n))
  pub kept : (c : ℕ) → KeptFor own s.mem owners after.mem (live_at c)

pub data Allocates (s : Store) (own : Owners) (live : ℕ → ℕ) (n : ℕ) (run : Got × Store)
    : Type 0 where
  refused : (e : Error) → run ≡ (error e, s) → Allocates s own live n run
  allocated : Allocated s own live n run → Allocates s own live n run

-- `alloc_mem` behind `get_space`.
abbrev then_fence : ℕ → Got × Store → Got × Store
then_fence n r = elim r.0 as (λ _. Got × Store) [
  | error e ↦ (error e, r.1)
  | got addr ↦ (got addr, fence_alloc r.1 addr (enough n))
]

module _ (s : Store) (own : Owners) (live : ℕ → ℕ) (n : ℕ)
    (fits : n + 100 + s.pool.page_size < 2 ^ 31) where
  abbrev size : ℕ
  size = enough n + fence_of s.pool

  size-small : size + 50 + s.pool.page_size < 2 ^ 31
  size-small = ground (arith, fits)

  then_fence-Allocated :
      (run : Got × Store)
      → Ready s own live (round_up 7 size) run
      → Allocated s own live n (then_fence n run)
  unfolding fence_alloc
  then_fence-Allocated run r =
      let same : fence_of r.after.pool ≡ fence_of s.pool = fence-same s.pool r.after.pool r.flags in
      let up = round_up-IsRounded size (omega (arith, size-small)) in
      let it : IsHeld r.after r.owners live r.addr r.total (enough n) (round_up 7 size) = record {
        valid = r.holds;
        somewhere = r.somewhere;
        ends = r.ends;
        placed = r.placed;
        least = ground arith;
        rounded = rw same up;
        shape = r.shape;
        fits = rw r.page_size (omega (arith, up.most, size-small));
      } in
      let held : Store = record r.after {
        mem = fenced_mem r.after r.owners live r.addr r.total (enough n) (round_up 7 size) it;
      } in
      let own' = owned r.after r.owners live r.addr r.total (enough n) (round_up 7 size) it in
      subst (λ z. Allocated s own live n (then_fence n z)) (sym r.runs)
        (record {
          addr = r.addr;
          after = fence_alloc r.after r.addr (enough n);
          owners = own';
          runs = refl;
          before = apart r.after r.owners live r.addr r.total (enough n) (round_up 7 size) it;
          holds =
              IsValid-pool held own' (put live r.addr (enough n))
                (count_alloc r.after.pool (enough n))
                (record {
                  magic = refl;
                  magic2 = refl;
                  page_size = refl;
                  flags = refl;
                  free = refl;
                })
                (owned-IsValid r.after r.owners live r.addr r.total (enough n) (round_up 7 size)
                  it);
          kept = λ c x e.
              let first = r.kept c x e in
              let second =
                owned-kept r.after r.owners live r.addr r.total (enough n) (round_up 7 size) it
                  (live_at c) (λ z. cc) x (first.0 ∙ e) in
              (second.0 ∙ first.0, second.1 ∙ first.1);
        })

  module _ {W : Type 0} (sys : System W) (w : W) where
    abbrev finished : (Got × Store) × W → (Got × Store) × W
    finished r = elim r.0.0 as (λ _. (Got × Store) × W) [
      | error e ↦ ((error e, r.0.1), r.1)
      | got addr ↦ ((got addr, fence_alloc r.0.1 addr (enough n)), r.1)
    ]

    finished-then_fence : (r : (Got × Store) × W) → (finished r).0 ≡ then_fence n r.0
    finished-then_fence ((error e, s'), w') = refl
    finished-then_fence ((got a, s'), w') = refl

    alloc_mem-run : (alloc_mem sys s n w).0 ≡ then_fence n (get_space sys s size w).0
    unfolding alloc_mem
    alloc_mem-run =
        let whole : u64 size ≡ size = omega (arith, size-small) in
        ap (λ z. (finished (get_space sys s z w)).0) whole
        ∙ finished-then_fence (get_space sys s size w)

    pub alloc_mem-Allocates :
        IsValid s own live → IsFresh sys own w → Allocates s own live n (alloc_mem sys s n w).0
    alloc_mem-Allocates valid fresh =
        subst (Allocates s own live n) (sym alloc_mem-run)
          (elim (get_space-Gets sys s own live valid w fresh size (ground arith)
            (omega (arith, size-small))) [
              | no_space e run ↦ refused e (ap (then_fence n) run)
              | space_at r ↦ allocated (then_fence-Allocated (get_space sys s size w).0 r)
            ])
