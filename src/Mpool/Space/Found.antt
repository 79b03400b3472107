-- ===== src/Mpool/Space/Found.antt =====
-- The end of `get_space`: what is left of a block that has been found is freed.
use mathlib.Core.Path.{subst}
use source.Mpool.Bytes.{Bytes}
use source.Mpool.Free.Outcome.{free_pointer-Freed}
use source.Mpool.Free.Pushed.{with_free, IsListed}
use source.Mpool.Free.Real.{real_size-small}
use source.Mpool.Pages.Laws.{IsPages, IsSmall, max_block_user_memory-eq}
use source.Mpool.Pages.{Got, got, error, max_block_user_memory}
use source.Mpool.Space.{Space, update_bounds, bound, free_left, use_space}
use source.Mpool.State.{no_error, Pool, Store}
use source.Mpool.Valid.Hand.{Same-kept}
use source.Mpool.Valid.Kept.{KeptFor, lower, Placed-Owns}
use source.Mpool.Valid.Pools.{SamePool, IsValid-pool}
use source.Mpool.Valid.{Owners, taken, live_at, Placed, small, IsValid}
use source.Prelude.{
  ℕ, ◌+◌, ◌-◌, ◌*◌, ◌^◌, ◌≤◌, ◌<◌, ◌≡◌, inl, inr, refl, sym, ap, ◌∙◌, true, false, ltb, leb, ◌&&◌,
  Bool-cases, arith,
}

-- Of a block of `total` bytes for `size`, the rest is `left` where both are in one page. Else the
-- block has the pages that the size needs.
pub data Shape (p size total left : ℕ) : Type 0 where
  single :
      size + 32 ≤ p → total + 32 ≤ p → size ≤ total → left ≡ total - size → Shape p size total left
  paged : (k : ℕ) → p < size + 32 → IsPages p size k → total + 32 ≡ k * p → Shape p size total left

-- The allocations that there are stay what they are.
abbrev pub LiveKept : Owners → Bytes → Owners → Bytes → Type 0
LiveKept own m own' m' = (a : ℕ) → KeptFor own m own' m' (live_at a)

pub LiveKept-trans :
    (own own' own'' : Owners) (m m' m'' : Bytes)
    → LiveKept own m own' m'
    → LiveKept own' m' own'' m''
    → LiveKept own m own'' m''
LiveKept-trans own own' own'' m m' m'' first second a x e =
    let one = first a x e in let two = second a x (one.0 ∙ e) in (two.0 ∙ one.0, two.1 ∙ one.1)

pub record Found (s : Store) (own : Owners) (live : ℕ → ℕ) (size : ℕ) (r : Space) : Type 0 where
  pub owners : Owners
  pub total : ℕ
  pub code : r.code ≡ no_error
  pub page_size : r.after.pool.page_size ≡ s.pool.page_size
  pub flags : r.after.pool.flags ≡ s.pool.flags
  pub holds : IsValid r.after owners live
  pub somewhere : 0 < r.free_addr
  pub ends : r.free_addr + total < 2 ^ 64
  pub fits : IsSmall total
  pub placed : Placed owners r.after.mem r.after.pool.page_size taken r.free_addr total
  pub shape : Shape r.after.pool.page_size size total r.left
  pub kept : LiveKept own s.mem owners r.after.mem

-- A block for `size` is in the hands of the call, and nothing is left of it.
pub record Ready (s : Store) (own : Owners) (live : ℕ → ℕ) (size : ℕ) (run : Got × Store)
    : Type 0 where
  pub addr : ℕ
  pub after : Store
  pub owners : Owners
  pub total : ℕ
  pub runs : run ≡ (got addr, after)
  pub page_size : after.pool.page_size ≡ s.pool.page_size
  pub flags : after.pool.flags ≡ s.pool.flags
  pub holds : IsValid after owners live
  pub somewhere : 0 < addr
  pub ends : addr + total < 2 ^ 64
  pub placed : Placed owners after.mem after.pool.page_size taken addr total
  pub shape : Shape after.pool.page_size size total 0
  pub kept : LiveKept own s.mem owners after.mem

-- What has been found is used: the block in hand is at its address, and what is left of it in its page
-- is on its free list.
pub record Uses (s : Store) (own : Owners) (live : ℕ → ℕ) (size : ℕ) (r : Space) (run : Got × Store)
    : Type 0 where
  pub ready : Ready s own live size run
  pub at : ready.addr ≡ r.free_addr
  pub rest :
      0 < r.left
      → size + 32 ≤ r.after.pool.page_size
      → IsListed r.after.pool.free (r.free_addr + size) r.left ready.after.pool.free ready.after.mem

bounds-SamePool : (mp : Pool) (a : ℕ) → SamePool mp (update_bounds mp a)
unfolding update_bounds
bounds-SamePool mp a = elim (Bool-cases (ltb mp.bounds_p a)) [
  | inl above ↦
      rw above (record { magic = refl; magic2 = refl; page_size = refl; flags = refl; free = refl })
  | inr not_above ↦ rw not_above (elim (Bool-cases (ltb a mp.min_p)) [
    | inl below ↦
        rw below
          (record { magic = refl; magic2 = refl; page_size = refl; flags = refl; free = refl })
    | inr within ↦
        rw within
          (record { magic = refl; magic2 = refl; page_size = refl; flags = refl; free = refl })
  ])
]

module _ (s : Store) (own : Owners) (live : ℕ → ℕ) (size : ℕ) (r : Space)
    (f : Found s own live size r) (some_bytes : 0 < size) where
  abbrev p : ℕ
  p = r.after.pool.page_size

  -- With the rest gone.
  bound-Uses :
      (after : Store) (own' : Owners) (total : ℕ)
      → after.pool.page_size ≡ p
      → after.pool.flags ≡ r.after.pool.flags
      → IsValid after own' live
      → r.free_addr + total < 2 ^ 64
      → Placed own' after.mem p taken r.free_addr total
      → Shape p size total 0
      → LiveKept f.owners r.after.mem own' after.mem
      → (0 < r.left
          → size + 32 ≤ p
          → IsListed r.after.pool.free (r.free_addr + size) r.left after.pool.free after.mem)
      → Uses s own live size r (bound after r.free_addr)
  unfolding bound
  bound-Uses after own' total page flags valid ends placed shape kept listed =
      let same = bounds-SamePool after.pool r.free_addr in
      record {
        ready = record {
          addr = r.free_addr;
          after = record after { pool = update_bounds after.pool r.free_addr };
          owners = own';
          total = total;
          runs = refl;
          page_size = same.page_size ∙ page ∙ f.page_size;
          flags = same.flags ∙ flags ∙ f.flags;
          holds = IsValid-pool after own' live (update_bounds after.pool r.free_addr) same valid;
          somewhere = f.somewhere;
          ends = ends;
          placed = rw (same.page_size, page) placed;
          shape = rw (same.page_size, page) shape;
          kept = LiveKept-trans own f.owners own' s.mem r.after.mem after.mem f.kept kept;
        };
        at = refl;
        rest = λ some_left one.
            subst (λ f. IsListed r.after.pool.free (r.free_addr + size) r.left f after.mem)
              (sym same.free) (listed some_left one);
      }

  -- The rest of a page.
  rest-Uses :
      size + 32 ≤ p
      → f.total + 32 ≤ p
      → size < f.total
      → r.left ≡ f.total - size
      → Uses s own live size r (free_left r size)
  unfolding free_left
  rest-Uses one one_total lt e =
      let owns = Placed-Owns f.placed in
      let rest : Placed f.owners r.after.mem p taken (r.free_addr + size) r.left =
        small (omega arith) (λ x x_le x_lt. owns x (omega arith) (omega (arith, e))) in
      let g =
        free_pointer-Freed r.after f.owners live f.holds (r.free_addr + size) r.left (omega arith)
          rest (omega (arith, e)) (omega (arith, e, f.ends)) (omega (arith, e, f.fits)) r.left
          (omega (arith, e)) (real_size-small p r.left f.holds.page (omega (arith, e))) in
      let some_left : ltb 0 r.left ≡ true = ground (arith, e) in
      let in_page : leb size (max_block_user_memory p) ≡ true =
        ground (arith, max_block_user_memory-eq p f.holds.page) in
      let plain : lower p (r.free_addr + size) r.left ≡ r.free_addr + size = ground (arith, e) in
      rw (some_left, in_page)
        (subst
          (λ f. Uses s own live size r (elim f.0 as (λ _. Got × Store) [
            | no_error ↦ bound f.1 r.free_addr
            | e ↦ (error e, f.1)
          ]))
          (sym g.runs)
          (bound-Uses (with_free r.after g.free g.mem) g.owners size refl refl g.holds
            (omega (arith, f.ends))
            (small one (λ x x_le x_lt.
              (g.same x (inl (omega (arith, plain)))).0 ∙ owns x x_le (omega arith)))
            (single one one (omega arith) (omega arith))
            (λ a. Same-kept rest g.same (live_at a) (λ z. cc)) (λ some in_page. g.listed)))

  -- Nothing is to be freed.
  whole-Uses :
      (ltb 0 r.left && leb size (max_block_user_memory p)) ≡ false
      → Shape p size f.total 0
      → (0 < r.left → ¬ (size + 32 ≤ p))
      → Uses s own live size r (free_left r size)
  unfolding free_left
  whole-Uses e shape none = rw e (
      bound-Uses r.after f.owners f.total refl refl f.holds f.ends f.placed shape
        (λ a x e. (refl, refl)) (λ some one. absurd (none some one)))

  free_left-Uses : Uses s own live size r (free_left r size)
  free_left-Uses = by_shape f.shape
    where
      by_shape : Shape p size f.total r.left → Uses s own live size r (free_left r size)
      by_shape (single one one_total le e) = elim (Bool-cases (ltb size f.total)) [
        | inl less ↦ rest-Uses one one_total (ground arith) e
        | inr all ↦
            let same : f.total ≡ size = ground arith in
            let nothing : (ltb 0 r.left && leb size (max_block_user_memory p)) ≡ false =
              ground (arith, e, same) in
            whole-Uses nothing (single one one_total le (omega (arith, same)))
              (λ some one. omega (arith, some, same, e))
      ]
      by_shape (paged k lt are e) =
          let over : leb size (max_block_user_memory p) ≡ false =
            ground (arith, max_block_user_memory-eq p f.holds.page, f.holds.page.least) in
          let nothing : (ltb 0 r.left && leb size (max_block_user_memory p)) ≡ false =
            ground (arith, over) in
          whole-Uses nothing (paged k lt are e) (λ some one. omega (arith, lt, one))

  -- When a block for a size above 0 has been found, get_space has no error: the pool is valid, the
  -- block that remains in hand is at the address that was found and large enough, and the bytes of all
  -- allocations are the same. Where the size fits in a page, what is left of the block is on the free
  -- list for its size, as in free_pointer-Freed.
  pub use_space-Uses : Uses s own live size r (use_space r size)
  unfolding use_space
  use_space-Uses = subst (Uses s own live size r) (sym found) free_left-Uses
    where
      found : use_space r size ≡ free_left r size
      found =
          ap
            (λ c. elim c as (λ _. Got × Store) [
              | no_error ↦ free_left r size
              | e ↦ (error e, r.after)
            ])
            f.code
