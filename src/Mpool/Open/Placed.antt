-- ===== src/Mpool/Open/Placed.antt =====
-- The structure of a pool on its page, with and without heavy packing.
use source.Mpool.Bytes.{Bytes}
use source.Mpool.Free.Outcome.{free_pointer-Freed}
use source.Mpool.Free.Pushed.{with_free, Freed}
use source.Mpool.Free.Real.{real_size-small}
use source.Mpool.Free.{free_pointer}
use source.Mpool.Bits.{size_to_free_bits}
use source.Mpool.Open.{Opened, close_fd, open_packed, open_plain}
use source.Mpool.Pages.Laws.{IsPageSize}
use source.Mpool.Pages.{System, size_of_pages, write_block, free_pages}
use source.Mpool.State.{
  Error, no_error, Pool, Store, mpool_magic, pool_size, flag_use_sbrk, flag_heavy_packing, is_set,
}
use source.Mpool.Valid.Pools.{SamePool, IsValid-pool}
use source.Mpool.Valid.{
  Owners, Owns, nobody, structure, taken, live_at, give, Placed, small, IsValid,
}
use source.Prelude.Words.{sub64}
use source.Prelude.{
  ℕ, ◌+◌, ◌-◌, ◌^◌, ◌≤◌, ◌<◌, ◌≡◌, ◌≢◌, inl, inr, true, false, leb, ltb, ◌&&◌, Bool-cases, refl, ap,
  ◌∙◌, none, some, [], arith,
}

-- A pool with these flags, empty lists and no allocations.
pub record IsBlank (asked : ℕ) (mp : Pool) : Type 0 where
  pub magic : mp.magic ≡ mpool_magic
  pub magic2 : mp.magic2 ≡ mpool_magic
  pub page : IsPageSize mp.page_size
  pub roomy : 512 ≤ mp.page_size
  pub empty : (b : ℕ) → mp.free b ≡ 0
  pub flags : mp.flags ≡ asked
  pub alloc_c : mp.alloc_c ≡ 0
  pub user_alloc : mp.user_alloc ≡ 0

pub IsBlank-IsValid :
    (flags : ℕ) (s : Store) (own : Owners)
    → IsBlank flags s.pool
    → Owns own structure s.self pool_size
    → IsValid s own (λ a. 0)
IsBlank-IsValid flags s own blank owns = record {
  magic = blank.magic;
  magic2 = blank.magic2;
  page = blank.page;
  pool_bytes = owns;
  spans = λ b. [];
  heads = λ b le top. blank.empty b;
  chains = λ b le top. tt;
  short = λ b lt. inl (blank.empty b);
  lives = λ a lt. absurd (omega (arith, lt));
}

pub IsBlank-same :
    (flags : ℕ) (mp mp' : Pool)
    → SamePool mp mp'
    → mp'.alloc_c ≡ mp.alloc_c
    → mp'.user_alloc ≡ mp.user_alloc
    → IsBlank flags mp
    → IsBlank flags mp'
IsBlank-same flags mp mp' same count user blank = record {
  magic = same.magic ∙ blank.magic;
  magic2 = same.magic2 ∙ blank.magic2;
  page = rw same.page_size blank.page;
  roomy = rw same.page_size blank.roomy;
  empty = λ b. ap (λ f. f b) same.free ∙ blank.empty b;
  flags = same.flags ∙ blank.flags;
  alloc_c = count ∙ blank.alloc_c;
  user_alloc = user ∙ blank.user_alloc;
}

-- A valid pool with these flags: its counters are 0, no byte is in an allocation, and with heavy
-- packing what its structure leaves of the page is in front of its free list.
pub record IsNew (asked : ℕ) (s : Store) (own : Owners) : Type 0 where
  pub valid : IsValid s own (λ a. 0)
  pub flags : s.pool.flags ≡ asked
  pub alloc_c : s.pool.alloc_c ≡ 0
  pub user_alloc : s.pool.user_alloc ≡ 0
  pub unused : (a x : ℕ) → own x ≢ live_at a
  pub packing :
      is_set asked flag_heavy_packing ≡ true
      → s.pool.free (size_to_free_bits (s.pool.page_size - 392)) ≡ s.self + 360

-- An error and no pool, or no error and a new pool.
pub data Opens (flags : ℕ) (run : Opened) : Type 0 where
  closed : (e : Error) → e ≢ no_error → run ≡ (e, none) → Opens flags run
  opened :
      (s : Store) (own : Owners) → run ≡ (no_error, some s) → IsNew flags s own → Opens flags run

pub one_page : (p : ℕ) → IsPageSize p → size_of_pages p 1 ≡ p
unfolding size_of_pages
one_page p page = omega (arith, page.most)

module _ {W : Type 0} (sys : System W) (m : Bytes) where
  -- On one page at `a`.
  module _ (flags : ℕ) (mp : Pool) (blank : IsBlank flags mp) (a : ℕ) (w : W) (somewhere : 0 < a)
      (ends : a + mp.page_size < 2 ^ 64) where
    abbrev p : ℕ
    p = mp.page_size

    abbrev packed : Store
    packed = record { self = a + 32; pool = mp; mem = write_block m a (a + p) 0 }

    abbrev own : Owners
    own = give (give (λ x. nobody) (a + 32) 360 structure) (a + 32 + 360) (p - 392) taken

    own-structure : Owns own structure (a + 32) 360
    unfolding give
    own-structure x le lt = ground arith

    own-unused : (b x : ℕ) → own x ≢ live_at b
    unfolding give
    own-unused b x z =
        elim (Bool-cases (leb (a + 32 + 360) x && ltb x (a + 32 + 360 + (p - 392)))) [
          | inl rest ↦ let held : own x ≡ taken = rw rest refl in cc
          | inr out ↦ elim (Bool-cases (leb (a + 32) x && ltb x (a + 32 + 360))) [
            | inl pool ↦ let held : own x ≡ structure = rw (out, pool) refl in cc
            | inr free ↦ let held : own x ≡ nobody = rw (out, free) refl in cc
          ]
        ]

    rest-Placed : Placed own packed.mem p taken (a + 32 + 360) (p - 392)
    unfolding give
    rest-Placed = small (omega (arith, blank.roomy)) (λ x le lt. ground arith)

    rest-Freed :
        Freed packed own
          (λ x. 0)
          (a + 32 + 360)
          (p - 392)
          (free_pointer packed (a + 32 + 360) (p - 392))
    rest-Freed =
        free_pointer-Freed packed own (λ x. 0)
          (IsBlank-IsValid flags packed own blank own-structure) (a + 32 + 360) (p - 392)
          (omega arith) rest-Placed (omega (arith, blank.roomy)) (omega (arith, blank.roomy, ends))
          (omega (arith, blank.page.most)) (p - 392) (omega (arith, blank.roomy))
          (real_size-small p (p - 392) blank.page (omega (arith, blank.roomy)))

    -- `open_packed` behind its call of `free_pointer`.
    abbrev then_open : ℕ → Error × Store → Opened × W
    then_open z r = elim r.0 as (λ _. Opened × W) [
      | no_error ↦
          let mp' = record r.1.pool { min_p = a; bounds_p = a + z } in
          ((no_error, some (record r.1 { pool = mp' })), w)
      | e ↦
          let w = close_fd sys mp.fd w in
          let sbrk_b = is_set mp.flags flag_use_sbrk in
          ((e, none), free_pages sys a (size_of_pages mp.page_size 1) sbrk_b w)
    ]

    abbrev packed_call : ℕ → Error × Store
    packed_call z =
        free_pointer (record { self = a + 32; pool = mp; mem = write_block m a (a + z) 0 })
          (a + 32 + 360) (sub64 (a + z) (a + 32 + 360))

    pub packed-Opens : Opens flags (open_packed sys mp m a 1 w).0
    unfolding open_packed
    packed-Opens =
        let s' = with_free packed rest-Freed.free rest-Freed.mem in
        let rest : sub64 (a + p) (a + 32 + 360) ≡ p - 392 = omega (arith, blank.roomy, ends) in
        opened (record s' { pool = record s'.pool { min_p = a; bounds_p = a + p } })
          rest-Freed.owners
          (ap (λ z. (then_open z (packed_call z)).0) (one_page p blank.page)
            ∙ ap (λ z. (then_open p (free_pointer packed (a + 32 + 360) z)).0) rest
            ∙ ap (λ r. (then_open p r).0) rest-Freed.runs)
          (record {
            valid =
                IsValid-pool s' rest-Freed.owners (λ x. 0)
                  (record s'.pool { min_p = a; bounds_p = a + p })
                  (record {
                    magic = refl;
                    magic2 = refl;
                    page_size = refl;
                    flags = refl;
                    free = refl;
                  })
                  rest-Freed.holds;
            flags = blank.flags;
            alloc_c = blank.alloc_c;
            user_alloc = blank.user_alloc;
            unused = λ b x z. own-unused b x (rest-Freed.no_live x b z);
            packing = λ e. rest-Freed.listed.front (omega (arith, blank.roomy));
          })

    abbrev plain_own : Owners
    plain_own = give (λ x. nobody) a 360 structure

    plain-structure : Owns plain_own structure a 360
    unfolding give
    plain-structure x le lt = ground arith

    plain-unused : (b x : ℕ) → plain_own x ≢ live_at b
    unfolding give
    plain-unused b x z = elim (Bool-cases (leb a x && ltb x (a + 360))) [
      | inl pool ↦ let held : plain_own x ≡ structure = rw pool refl in cc
      | inr free ↦ let held : plain_own x ≡ nobody = rw free refl in cc
    ]

    pub plain-Opens :
        is_set flags flag_heavy_packing ≡ false → Opens flags (open_plain sys mp m a 1 w).0
    unfolding open_plain
    plain-Opens plain =
        let mp' = record mp { min_p = a; bounds_p = a + size_of_pages p 1 } in
        let s' : Store = record { self = a; pool = mp'; mem = m } in
        opened s' plain_own refl (record {
          valid =
              IsBlank-IsValid flags s' plain_own
                (record {
                  magic = blank.magic;
                  magic2 = blank.magic2;
                  page = blank.page;
                  roomy = blank.roomy;
                  empty = blank.empty;
                  flags = blank.flags;
                  alloc_c = blank.alloc_c;
                  user_alloc = blank.user_alloc;
                })
                plain-structure;
          flags = blank.flags;
          alloc_c = blank.alloc_c;
          user_alloc = blank.user_alloc;
          unused = plain-unused;
          packing = λ heavy. absurd cc;
        })
