-- ===== src/Mpool/Calls/Callocs.antt =====
-- `mpool_calloc` on a valid pool.
use mathlib.Core.Path.{subst}
use source.Mpool.Bytes.{Bytes, put, clear_bytes}
use source.Mpool.Calls.Frees.{check_pool-IsValid}
use source.Mpool.Calls.{func_calloc, log_of, addr_of, clear_got, log_call, mpool_calloc}
use source.Mpool.Pages.Granted.{IsFresh}
use source.Mpool.Pages.{System, Got, got, error}
use source.Mpool.Space.Allocated.{Allocated, Allocates, refused, allocated, alloc_mem-Allocates}
use source.Mpool.Space.{enough, alloc_mem}
use source.Mpool.State.{Error, Store}
use source.Mpool.Valid.Kept.{KeptFor}
use source.Mpool.Valid.Writes.{written-IsValid}
use source.Mpool.Valid.{Owners, live_at, IsValid}
use source.Prelude.Words.{u64}
use source.Prelude.{
  ℕ, zero, suc, ◌+◌, ◌*◌, ◌^◌, ◌≤◌, ◌<◌, ◌≡◌, ◌≢◌, ◌⊎◌, inl, inr, refl, sym, ap, ◌∙◌, false, true,
  ◌||◌, ◌==◌, Option, some, arith,
}

-- An allocation whose bytes are 0, at an address where there was none, with all others as they were.
pub record Cleared (s : Store) (own : Owners) (live : ℕ → ℕ) (n : ℕ) (run : Got × Store)
    : Type 0 where
  pub addr : ℕ
  pub after : Store
  pub owners : Owners
  pub runs : run ≡ (got addr, after)
  pub before : live addr ≡ 0
  pub holds : IsValid after owners (put live addr (enough n))
  pub kept : (c : ℕ) → c ≢ addr → KeptFor own s.mem owners after.mem (live_at c)
  pub zeros : (x : ℕ) → addr ≤ x → x < addr + n → after.mem x ≡ 0

pub data Clears (s : Store) (own : Owners) (live : ℕ → ℕ) (n : ℕ) (run : Got × Store) : Type 0 where
  failed : (e : Error) → run ≡ (error e, s) → Clears s own live n run
  cleared : Cleared s own live n run → Clears s own live n run

-- The call ends as `Clears` says, and the log function has been called if there is one.
pub record PoolClears {W : Type 0} (sys : System W) (s : Store) (own : Owners) (live : ℕ → ℕ)
    (ele_n ele_size : ℕ) (run : (Got × Option Store) × W) : Type 0 where
  pub reply : Got
  pub after : Store
  pub world : W
  pub runs : run ≡ (
    (reply, some after),
    log_call sys after.pool.log_func (log_of func_calloc ele_size ele_n (addr_of reply) 0 0) world,
  )
  pub clears : Clears s own live (ele_n * ele_size) (reply, after)

clear_bytes-other : (m : Bytes) (a n x : ℕ) → (x < a) ⊎ (a + n ≤ x) → clear_bytes m a n x ≡ m x
unfolding clear_bytes
clear_bytes-other m a n x (inl lt) = ground arith
clear_bytes-other m a n x (inr le) = ground arith

clear_bytes-inside : (m : Bytes) (a n x : ℕ) → a ≤ x → x < a + n → clear_bytes m a n x ≡ 0
unfolding clear_bytes
clear_bytes-inside m a n x le lt = ground arith

some_factors : (a b : ℕ) → 0 < a * b → ((a == 0) || (b == 0)) ≡ false
some_factors zero b lt = absurd (omega (arith, lt))
some_factors (suc a) zero lt = absurd (omega (arith, lt))
some_factors (suc a) (suc b) lt =
    let first : (suc a == 0) ≡ false = ground arith in
    let second : (suc b == 0) ≡ false = ground arith in rw (first, second) refl

module _ (s : Store) (own : Owners) (live : ℕ → ℕ) (n : ℕ) (some_bytes : 0 < n) where
  -- What has been allocated is cleared.
  clear_got-Cleared :
      (run : Got × Store)
      → Allocated s own live n run
      → Cleared s own live n (run.0, clear_got run.0 n run.1)
  unfolding clear_got
  clear_got-Cleared run g =
      let size = enough n in
      let wide : n ≤ size = ground arith in
      let live' = put live g.addr size in
      let there : live' g.addr ≡ size =
        (let here : (g.addr == g.addr) ≡ true = ground arith in rw here refl) in
      let m' = clear_bytes g.after.mem g.addr n in
      let out : (x : ℕ) → (x < g.addr) ⊎ (g.addr + live' g.addr ≤ x) → m' x ≡ g.after.mem x = λ x o.
        clear_bytes-other g.after.mem g.addr n x
          (elim o [ inl lt ↦ inl lt | inr le ↦ inr (omega (arith, there, wide)) ]) in
      let written =
        written-IsValid g.after g.owners live' g.holds g.addr (omega (arith, there, wide)) m' out in
      subst (λ r. Cleared s own live n (r.0, clear_got r.0 n r.1)) (sym g.runs)
        (record {
          addr = g.addr;
          after = record g.after { mem = m' };
          owners = g.owners;
          runs = refl;
          before = g.before;
          holds = written.0;
          kept = λ c ne x e.
              let first = g.kept c x e in
              let second = written.1 c ne x (first.0 ∙ e) in
              (second.0 ∙ first.0, second.1 ∙ first.1);
          zeros = λ x le lt. clear_bytes-inside g.after.mem g.addr n x le lt;
        })

  clear_got-Clears :
      (run : Got × Store)
      → Allocates s own live n run
      → Clears s own live n (run.0, clear_got run.0 n run.1)
  unfolding clear_got
  clear_got-Clears run (refused e at) = failed e (ap (λ r. (r.0, clear_got r.0 n r.1)) at)
  clear_got-Clears run (allocated g) = cleared (clear_got-Cleared run g)

-- On a valid pool, where the system gives memory that nobody owns, and for a number and a size of
-- elements above 0 whose product is with the page size and 100 bytes below 2 ^ 31, mpool_calloc either
-- gives an error and leaves the pool and the memory as they are, or gives an address where there was
-- no allocation and leaves a valid pool with an allocation of the product, at least 16, there, all of
-- whose bytes up to the product are 0; the owner and the content of every byte of all other
-- allocations are the same. The log function is called if there is one.
pub mpool_calloc-PoolClears :
    {W : Type 0} (sys : System W) (s : Store) (own : Owners) (live : ℕ → ℕ)
    → IsValid s own live
    → (ele_n ele_size : ℕ) (w : W) → IsFresh sys own w
    → 0 < ele_n * ele_size
    → ele_n * ele_size + 100 + s.pool.page_size < 2 ^ 31
    → PoolClears sys s own live ele_n ele_size (mpool_calloc sys (some s) ele_n ele_size w)
unfolding mpool_calloc
mpool_calloc-PoolClears sys s own live valid ele_n ele_size w fresh lt fits =
    let n = ele_n * ele_size in
    let whole : u64 n ≡ n = omega (arith, fits) in
    let some_elements : ((ele_n == 0) || (ele_size == 0)) ≡ false =
      some_factors ele_n ele_size lt in
    let r = alloc_mem sys s n w in
    record {
      reply = r.0.0;
      after = clear_got r.0.0 n r.0.1;
      world = r.1;
      runs = rw (mpool_calloc, check_pool-IsValid s own live valid, some_elements, whole) refl;
      clears =
          clear_got-Clears s own live n lt r.0
            (alloc_mem-Allocates s own live n fits sys w valid fresh);
    }
