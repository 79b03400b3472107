-- ===== src/Mpool/Calls/Resizes.antt =====
-- `mpool_resize` on a valid pool.
use mathlib.Core.Path.{subst}
use source.Mpool.Bytes.{Bytes, put, copy_bytes}
use source.Mpool.Calls.Frees.{check_pool-IsValid}
use source.Mpool.Calls.{
  check_old, move_bytes, resize_mem, func_resize, log_of, log_call, mpool_resize,
}
use source.Mpool.Free.Real.{real_size-le}
use source.Mpool.Pages.Granted.{IsFresh}
use source.Mpool.Pages.{System, Got, got, error}
use source.Mpool.Space.Allocated.{Allocated, refused, allocated, alloc_mem-Allocates}
use source.Mpool.Space.Released.{Released, placed-is_place, fence-no_error, free_mem-Released}
use source.Mpool.Space.{enough, fence_of, alloc_mem, free_mem}
use source.Mpool.State.{Error, no_error, Store}
use source.Mpool.Valid.Kept.{KeptFor, Placed-Owns}
use source.Mpool.Valid.Writes.{written-IsValid}
use source.Mpool.Valid.{Owners, live_at, IsLive, IsValid}
use source.Prelude.{
  ℕ, ◌+◌, ◌-◌, ◌^◌, ◌≤◌, ◌<◌, ◌≡◌, ◌≢◌, ◌⊎◌, inl, inr, refl, sym, ap, ◌∙◌, true, false, ltb, leb,
  ◌&&◌, ◌==◌, if◌then◌else◌, Bool-cases, Option, some, arith,
}

-- The bytes that are copied.
abbrev pub copied : ℕ → ℕ → ℕ
copied old_n new_n = if ltb old_n new_n then old_n else new_n

-- An allocation of the new size in place of the old one, with the bytes of the old one as far as they
-- fit. All other allocations are as they were.
pub record Resized (s : Store) (own : Owners) (live : ℕ → ℕ) (old old_n new_n : ℕ)
    (run : Got × Option Store) : Type 0 where
  pub addr : ℕ
  pub after : Store
  pub owners : Owners
  pub runs : run ≡ (got addr, some after)
  pub before : live addr ≡ 0
  pub holds : IsValid after owners (put (put live addr (enough new_n)) old 0)
  pub same : (i : ℕ) → i < copied old_n new_n → after.mem (addr + i) ≡ s.mem (old + i)
  pub kept : (c : ℕ) → c ≢ old → c ≢ addr → KeptFor own s.mem owners after.mem (live_at c)

pub data Resizes (s : Store) (own : Owners) (live : ℕ → ℕ) (old old_n new_n : ℕ)
    (run : Got × Option Store) : Type 0 where
  kept_old : (e : Error) → run ≡ (error e, some s) → Resizes s own live old old_n new_n run
  resized : Resized s own live old old_n new_n run → Resizes s own live old old_n new_n run

copy_bytes-inside :
    (m : Bytes) (to from n i : ℕ) → i < n → copy_bytes m to from n (to + i) ≡ m (from + i)
unfolding copy_bytes
copy_bytes-inside m to from n i lt =
    let inside : (leb to (to + i) && ltb (to + i) (to + n)) ≡ true = ground arith in
    let place : from + (to + i) - to ≡ from + i = omega arith in rw inside (ap m place)

module _ (s : Store) (own : Owners) (live : ℕ → ℕ) (valid : IsValid s own live)
    (old old_n new_n : ℕ) (some_bytes : 0 < old_n) (e : enough old_n ≡ live old) where
  some_live : 0 < live old
  some_live = ground (arith, e)

  checked : check_old s old old_n ≡ no_error
  unfolding check_old
  checked =
      rw
        (
          check_old,
          placed-is_place s own live valid old some_live old_n e,
          e,
          fence-no_error s own live valid old some_live,
        )
        refl

  -- With the new memory.
  module _ (run : Got × Store) (g : Allocated s own live new_n run) where
    abbrev live' : ℕ → ℕ
    live' = put live g.addr (enough new_n)

    apart : (old == g.addr) ≡ false
    apart = elim (Bool-cases (old == g.addr)) [
      | inr no_same ↦ no_same
      | inl same ↦
          let at : g.addr ≡ old = ground arith in
          let none_there : live old ≡ 0 = ap live (sym at) ∙ g.before in
          absurd (omega (arith, none_there, some_live))
    ]

    live-old : live' old ≡ live old
    live-old = rw apart refl

    live-new : live' g.addr ≡ enough new_n
    live-new = let here : (g.addr == g.addr) ≡ true = ground arith in rw here refl

    abbrev m' : Bytes
    m' = copy_bytes g.after.mem g.addr old (copied old_n new_n)

    out : (x : ℕ) → (x < g.addr) ⊎ (g.addr + live' g.addr ≤ x) → m' x ≡ g.after.mem x
    unfolding copy_bytes
    out x (inl lt) = ground arith
    out x (inr le) =
        let most : copied old_n new_n ≤ enough new_n = ground arith in
        ground (arith, most, le, live-new)

    abbrev moved : Store
    moved = record g.after { mem = m' }

    written :
        IsValid moved g.owners live'
        × ((c : ℕ) → c ≢ g.addr → KeptFor g.owners g.after.mem g.owners m' (live_at c))
    written =
        written-IsValid g.after g.owners live' g.holds g.addr (ground (arith, live-new)) m' out

    freed : Released moved g.owners live' old (free_mem moved old old_n)
    freed =
        free_mem-Released moved g.owners live' written.0 old (omega (arith, live-old, some_live))
          old_n (e ∙ sym live-old)

    move-run : move_bytes g.after old old_n g.addr new_n ≡ (got g.addr, freed.after)
    unfolding move_bytes
    move-run =
        ap
          (λ r. elim r.0 as (λ _. Got × Store) [
            | no_error ↦ (got g.addr, r.1)
            | e ↦ (error e, (free_mem r.1 g.addr new_n).1)
          ])
          freed.runs

    -- The bytes of the old allocation.
    contents : (i : ℕ) → i < copied old_n new_n → freed.after.mem (g.addr + i) ≡ s.mem (old + i)
    contents i lt =
        let at_old : IsLive own s.mem s.pool.page_size (fence_of s.pool) old (live old) =
          valid.lives old some_live in
        let wide =
          real_size-le s.pool.page_size (live old + fence_of s.pool) valid.page at_old.small in
        let less : i < live old = ground (arith, e, lt) in
        let old_own : own (old + i) ≡ live_at old =
          Placed-Owns at_old.placed (old + i) (omega arith) (omega (arith, wide, less)) in
        freed-new i (ground (arith, lt)) ∙ copy_at i lt ∙ (g.kept old (old + i) old_own).1
      where
        freed-new : (i : ℕ) → i < enough new_n → freed.after.mem (g.addr + i) ≡ m' (g.addr + i)
        freed-new i lt =
            let some_new : 0 < live' g.addr = ground (arith, live-new, lt) in
            let at_new : IsLive g.owners m' g.after.pool.page_size (fence_of g.after.pool) g.addr
                (live' g.addr) =
              written.0.lives g.addr some_new in
            let wide =
              real_size-le g.after.pool.page_size (live' g.addr + fence_of g.after.pool)
                g.holds.page at_new.small in
            let no_old : g.addr ≢ old =
              λ same. let clash : true ≡ false = sym (ground (arith, same)) ∙ apart in cc in
            (freed.kept g.addr no_old (g.addr + i) (
              Placed-Owns at_new.placed (g.addr + i) (omega arith)
                (omega (arith, wide, live-new, lt)))).1

        copy_at : (i : ℕ) → i < copied old_n new_n → m' (g.addr + i) ≡ g.after.mem (old + i)
        copy_at i lt = copy_bytes-inside g.after.mem g.addr old (copied old_n new_n) i lt

    resized-run : Resized s own live old old_n new_n (got g.addr, some freed.after)
    resized-run = record {
      addr = g.addr;
      after = freed.after;
      owners = freed.owners;
      runs = refl;
      before = g.before;
      holds = freed.holds;
      same = contents;
      kept = λ c ne ne' x at.
          let first = g.kept c x at in
          let second = written.1 c ne' x (first.0 ∙ at) in
          let third = freed.kept c ne x (first.0 ∙ at) in
          (third.0 ∙ first.0, third.1 ∙ second.1 ∙ first.1);
    }

  module _ {W : Type 0} (sys : System W) (w : W) where
    -- `resize_mem` behind its calls.
    abbrev then_log : W → Got × Store → (Got × Option Store) × W
    then_log w m = elim m.0 as (λ _. (Got × Option Store) × W) [
      | error e ↦ ((error e, some m.1), w)
      | got addr ↦ (
        (got addr, some m.1),
        log_call sys m.1.pool.log_func (log_of func_resize new_n 0 addr old old_n) w,
      )
    ]

    abbrev then_move : (Got × Store) × W → (Got × Option Store) × W
    then_move r = elim r.0.0 as (λ _. (Got × Option Store) × W) [
      | error e ↦ ((error e, some r.0.1), r.1)
      | got new_addr ↦ then_log r.1 (move_bytes r.0.1 old old_n new_addr new_n)
    ]

    resize_mem-Resizes :
        IsFresh sys own w
        → new_n + 100 + s.pool.page_size < 2 ^ 31
        → Resizes s own live old old_n new_n (resize_mem sys s old old_n new_n w).0
    unfolding resize_mem
    resize_mem-Resizes fresh fits =
        let r = alloc_mem sys s new_n w in
        elim (alloc_mem-Allocates s own live new_n fits sys w valid fresh) [
          | refused e run ↦ kept_old e (ap (λ q. (then_move (q, r.1)).0) run)
          | allocated g ↦ resized (
              subst (Resized s own live old old_n new_n)
                (sym (
                  ap (λ q. (then_move (q, r.1)).0) g.runs
                  ∙ ap (λ m. (then_log r.1 m).0) (move-run r.0 g)))
                (resized-run r.0 g))
        ]

    -- On a valid pool, where the system gives memory that nobody owns, for an allocation with the size
    -- it was made with, and a new size that is with the page size and 100 bytes below 2 ^ 31,
    -- mpool_resize either gives an error and leaves the pool and the memory as they are, or gives an
    -- address where there was no allocation and leaves a valid pool with an allocation of the new size
    -- there in place of the old one, that begins with the bytes of the old one as far as both reach.
    -- The owner and the content of every byte of all other allocations are the same.
    pub mpool_resize-Resizes :
        IsFresh sys own w
        → new_n + 100 + s.pool.page_size < 2 ^ 31
        → Resizes s own live old old_n new_n (mpool_resize sys (some s) old old_n new_n w).0
    unfolding mpool_resize
    mpool_resize-Resizes fresh fits =
        let place : (old == 0) ≡ false = ground (arith, (valid.lives old some_live).somewhere) in
        let some_size : (old_n == 0) ≡ false = ground arith in
        let run : mpool_resize sys (some s) old old_n new_n w ≡ resize_mem sys s old old_n new_n w =
          rw (mpool_resize, check_pool-IsValid s own live valid, place, some_size, checked) refl in
        subst (λ r. Resizes s own live old old_n new_n r.0) (sym run)
          (resize_mem-Resizes fresh fits)
