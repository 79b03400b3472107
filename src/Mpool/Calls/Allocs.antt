-- ===== src/Mpool/Calls/Allocs.antt =====
-- `mpool_alloc` on a valid pool, and `mpool_free` behind it.
use mathlib.Core.Path.{subst}
use source.Mpool.Bytes.{put}
use source.Mpool.Calls.Frees.{Frees, check_pool-IsValid, mpool_free-Frees}
use source.Mpool.Calls.{func_alloc, log_of, addr_of, log_call, mpool_alloc, mpool_free}
use source.Mpool.Free.Real.{real_size-le}
use source.Mpool.Pages.Granted.{IsFresh}
use source.Mpool.Pages.{System, Got, got, error}
use source.Mpool.Space.Allocated.{Allocated, Allocates, refused, allocated, alloc_mem-Allocates}
use source.Mpool.Space.{enough, fence_of, alloc_mem}
use source.Mpool.State.{Store}
use source.Mpool.Valid.Kept.{Placed-Owns}
use source.Mpool.Valid.{Owners, live_at, IsLive, IsValid}
use source.Prelude.{
  ℕ, ◌+◌, ◌^◌, ◌≤◌, ◌<◌, ◌≡◌, inl, inr, refl, sym, ap, ◌∙◌, true, false, ltb, ◌==◌, Bool-cases,
  Option, some, arith,
}

-- The call ends as `Allocates` says, and the log function has been called if there is one.
pub record PoolAllocates {W : Type 0} (sys : System W) (s : Store) (own : Owners) (live : ℕ → ℕ)
    (n : ℕ) (w : W) (run : (Got × Option Store) × W) : Type 0 where
  pub reply : Got
  pub after : Store
  pub world : W
  pub runs : run ≡ (
    (reply, some after),
    log_call sys after.pool.log_func (log_of func_alloc n 0 (addr_of reply) 0 0) world,
  )
  pub allocates : Allocates s own live n (reply, after)

-- On a valid pool, where the system gives memory that nobody owns, and for a size above 0 that is with
-- the page size and 100 bytes below 2 ^ 31, mpool_alloc either gives an error and leaves the pool and
-- the memory as they are, or gives an address where there was no allocation and leaves a valid pool
-- with an allocation of the size, at least 16, there; the owner and the content of every byte of all
-- other allocations are the same. The log function is called if there is one.
pub mpool_alloc-PoolAllocates :
    {W : Type 0} (sys : System W) (s : Store) (own : Owners) (live : ℕ → ℕ)
    → IsValid s own live
    → (n : ℕ) (w : W) → IsFresh sys own w
    → 0 < n
    → n + 100 + s.pool.page_size < 2 ^ 31
    → PoolAllocates sys s own live n w (mpool_alloc sys (some s) n w)
unfolding mpool_alloc
mpool_alloc-PoolAllocates sys s own live valid n w fresh lt fits =
    let some_bytes : (n == 0) ≡ false = ground arith in
    let r = alloc_mem sys s n w in
    record {
      reply = r.0.0;
      after = r.0.1;
      world = r.1;
      runs = rw (mpool_alloc, check_pool-IsValid s own live valid, some_bytes) refl;
      allocates = alloc_mem-Allocates s own live n fits sys w valid fresh;
    }

put_same : (m : ℕ → ℕ) (a v : ℕ) → put m a v a ≡ v
put_same m a v = let here : (a == a) ≡ true = ground arith in rw here refl

-- What `Allocates` says of an address that has been given.
given_at :
    (s s' : Store) (own : Owners) (live : ℕ → ℕ) (n a : ℕ)
    → Allocates s own live n (got a, s')
    → Allocated s own live n (got a, s')
given_at s s' own live n a (refused e run) =
    let clash : got a ≡ error e = ap (λ r. r.0) run in absurd (cc)
given_at s s' own live n a (allocated r) = r

-- An allocation can be freed with its size.
allocated-Frees :
    {W : Type 0} (sys : System W) (s s' : Store) (own : Owners) (live : ℕ → ℕ) (n a : ℕ) (w' : W)
    → 0 < n
    → Allocated s own live n (got a, s')
    → (live a ≡ 0)
      × ((own' : Owners) × Frees sys s' own'
            (put live a (enough n))
            a
            n
            w'
            (mpool_free sys (some s') a n w'))
allocated-Frees sys s s' own live n a w' lt g =
    let at : got a ≡ got g.addr = ap (λ z. z.0) g.runs in
    let addr : g.addr ≡ a = cc in
    let same : g.after ≡ s' = sym (ap (λ z. z.1) g.runs) in
    let holds : IsValid s' g.owners (put live a (enough n)) =
      subst (λ z. IsValid s' g.owners (put live z (enough n))) addr
        (subst (λ z. IsValid z g.owners (put live g.addr (enough n))) same g.holds) in
    (
      subst (λ z. live z ≡ 0) addr g.before,
      (
        g.owners,
        mpool_free-Frees sys s' g.owners (put live a (enough n)) holds a n w' lt
            (sym (put_same live a (enough n))),
      ),
    )

-- After mpool_alloc has given an address for a size, as in mpool_alloc-PoolAllocates, mpool_free of
-- the address with the size returns no error and leaves a valid pool. There was no allocation at the
-- address before, and there is none after it.
pub mpool_free-mpool_alloc :
    {W : Type 0} (sys : System W) (s s' : Store) (own : Owners) (live : ℕ → ℕ)
    → IsValid s own live
    → (n a : ℕ) (w w' : W) → IsFresh sys own w
    → 0 < n
    → n + 100 + s.pool.page_size < 2 ^ 31
    → (mpool_alloc sys (some s) n w).0 ≡ (got a, some s')
    → (live a ≡ 0)
      × ((own' : Owners) × Frees sys s' own'
            (put live a (enough n))
            a
            n
            w'
            (mpool_free sys (some s') a n w'))
mpool_free-mpool_alloc sys s s' own live valid n a w w' fresh lt fits run =
    let r = mpool_alloc-PoolAllocates sys s own live valid n w fresh lt fits in
    let both : (r.reply, some r.after) ≡ (got a, some s') = sym (ap (λ z. z.0) r.runs) ∙ run in
    let reply : r.reply ≡ got a = ap (λ z. z.0) both in
    let after : some r.after ≡ some s' = ap (λ z. z.1) both in
    let store : r.after ≡ s' = cc in
    let all : Allocates s own live n (got a, s') =
      subst (λ z. Allocates s own live n (z, s')) reply
        (subst (λ z. Allocates s own live n (r.reply, z)) store r.allocates) in
    allocated-Frees sys s s' own live n a w' lt (given_at s s' own live n a all)

-- On a valid pool no two allocations have a byte in common.
lives_apart :
    (s : Store) (own : Owners) (live : ℕ → ℕ)
    → IsValid s own live
    → (a c : ℕ) → a < c
    → 0 < live a
    → 0 < live c
    → a + live a ≤ c
lives_apart s own live valid a c lt some_a some_c =
    let at_a : IsLive own s.mem s.pool.page_size (fence_of s.pool) a (live a) =
      valid.lives a some_a in
    let at_c : IsLive own s.mem s.pool.page_size (fence_of s.pool) c (live c) =
      valid.lives c some_c in
    elim (Bool-cases (ltb c (a + live a))) [
      | inr apart ↦ ground arith
      | inl within ↦
          let wide = real_size-le s.pool.page_size _ valid.page at_a.small in
          let wide' = real_size-le s.pool.page_size _ valid.page at_c.small in
          let first : own c ≡ live_at a =
            Placed-Owns at_a.placed c (omega arith) (ground (arith, wide)) in
          let second : own c ≡ live_at c =
            Placed-Owns at_c.placed c (omega arith) (omega (arith, wide', some_c)) in
          let same : a ≡ c = (let clash : live_at a ≡ live_at c = sym first ∙ second in cc) in
          absurd (omega (arith, same))
    ]
