-- ===== src/Mpool/Calls/Frees.antt =====
-- `mpool_free` on a valid pool.
use source.Mpool.Calls.{check_pool, func_free, log_of, log_call, mpool_free}
use source.Mpool.Pages.{System}
use source.Mpool.Space.Released.{Released, free_mem-Released}
use source.Mpool.Space.{enough}
use source.Mpool.State.{Error, no_error, Store}
use source.Mpool.Valid.{Owners, IsValid}
use source.Prelude.{ℕ, ◌<◌, ◌≡◌, refl, false, ◌==◌, Option, some, arith}

-- The magic numbers of a valid pool.
pub check_pool-IsValid :
    (s : Store) (own : Owners) (live : ℕ → ℕ) → IsValid s own live → check_pool s.pool ≡ no_error
unfolding check_pool
check_pool-IsValid s own live valid = rw (valid.magic, valid.magic2) refl

-- The call returns no error, the pool is as `Released` says, and the log function has been called if
-- there is one.
pub record Frees {W : Type 0} (sys : System W) (s : Store) (own : Owners) (live : ℕ → ℕ) (a n : ℕ)
    (w : W) (run : (Error × Option Store) × W) : Type 0 where
  pub after : Store
  pub runs :
      run ≡ ((no_error, some after), log_call sys s.pool.log_func (log_of func_free n 0 0 a 0) w)
  pub released : Released s own live a (no_error, after)

-- On a valid pool, mpool_free of an allocation with the size it was made with returns no error. The
-- pool after it is valid, without that allocation; the owner and the content of every byte of all
-- other allocations are the same; the counters of allocations and bytes are less by it; the log
-- function is called if there is one.
pub mpool_free-Frees :
    {W : Type 0} (sys : System W) (s : Store) (own : Owners) (live : ℕ → ℕ)
    → IsValid s own live
    → (a n : ℕ) (w : W) → 0 < n
    → enough n ≡ live a
    → Frees sys s own live a n w (mpool_free sys (some s) a n w)
unfolding mpool_free
mpool_free-Frees sys s own live valid a n w lt e =
    let some_live : 0 < live a = ground (arith, e) in
    let r = free_mem-Released s own live valid a some_live n e in
    let place : (a == 0) ≡ false = ground (arith, (valid.lives a some_live).somewhere) in
    let some_bytes : (n == 0) ≡ false = ground arith in
    record {
      after = r.after;
      runs = rw (mpool_free, check_pool-IsValid s own live valid, place, some_bytes, r.runs) refl;
      released = record {
        owners = r.owners;
        after = r.after;
        runs = refl;
        holds = r.holds;
        kept = r.kept;
        alloc_c = r.alloc_c;
        user_alloc = r.user_alloc;
        log_func = r.log_func;
      };
    }
