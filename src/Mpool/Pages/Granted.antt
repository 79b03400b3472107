-- ===== src/Mpool/Pages/Granted.antt =====
-- `alloc_pages`, on a system that gives memory that nobody owns.
use source.Mpool.Pages.{
  System, Mapped, mapped, failed, Got, got, error, size_of_pages, fill_page, sbrk_pages,
  alloc_pages, past_pages, count_pages,
}
use source.Mpool.State.{
  Error, no_error, no_mem, mmap_error, sbrk_contig, no_pages, Pool, flag_use_sbrk, is_set,
}
use source.Mpool.Valid.Pools.{SamePool}
use source.Mpool.Valid.{Owners, nobody, Owns}
use source.Prelude.{
  ℕ, ◌+◌, ◌-◌, ◌%◌, ◌^◌, ◌<◌, ◌≡◌, ◌≢◌, Bool, inl, inr, refl, true, false, ltb, leb, ◌&&◌, ◌==◌,
  if◌then◌else◌, Bool-cases, Option, none, some, arith,
}

-- Memory that nobody owns, below the end of the address space.
pub record IsRoom (own : Owners) (a n : ℕ) : Type 0 where
  pub somewhere : 0 < a
  pub ends : a + n < 2 ^ 64
  pub owns : Owns own nobody a n

-- What `mmap` and `sbrk` give from a state of the system on is such memory, also what `sbrk` gives to a
-- second call.
pub record IsFresh {W : Type 0} (sys : System W) (own : Owners) (w : W) : Type 0 where
  pub maps :
      (addr size : ℕ) (fd : Option ℕ) (offset a : ℕ)
      → (sys.mmap addr size fd offset w).0 ≡ mapped a
      → IsRoom own a size
  pub grows : (size a : ℕ) → (sys.sbrk size w).0 ≡ some a → IsRoom own a size
  pub grows_on :
      (size more a : ℕ) → (sys.sbrk more (sys.sbrk size w).1).0 ≡ some a → IsRoom own a more

-- The pages with the counters of the allocations as they were, or an error and the pool as it was.
pub data Granted (own : Owners) (mp : Pool) (n : ℕ) (r : Got × Pool) : Type 0 where
  denied : (e : Error) → e ≢ no_error → r ≡ (error e, mp) → Granted own mp n r
  granted :
      (a : ℕ) (mp' : Pool)
      → r ≡ (got a, mp')
      → SamePool mp mp'
      → mp'.alloc_c ≡ mp.alloc_c
      → mp'.user_alloc ≡ mp.user_alloc
      → IsRoom own a n
      → Granted own mp n r

mmap_code : (enomem : Bool) → (if enomem then no_mem else mmap_error) ≢ no_error
mmap_code true = λ z. cc
mmap_code false = λ z. cc

module _ {W : Type 0} (sys : System W) (own : Owners) (mp : Pool) (k : ℕ) (w : W)
    (fresh : IsFresh sys own w) (page : 0 < mp.page_size) where
  abbrev n : ℕ
  n = size_of_pages mp.page_size k

  mmap-Granted :
      (ltb 0 mp.max_pages && leb mp.max_pages mp.page_c) ≡ false
      → is_set mp.flags flag_use_sbrk ≡ false
      → (m : Mapped) → (sys.mmap mp.addr n mp.fd mp.top w).0 ≡ m
      → Granted own mp n (alloc_pages sys mp k w).0
  unfolding alloc_pages
  mmap-Granted room mapping (failed enomem) e =
      denied (if enomem then no_mem else mmap_error) (mmap_code enomem)
        (rw (alloc_pages, room, mapping, e) refl)
  mmap-Granted room mapping (mapped a) e =
      granted a (count_pages sys (past_pages sys mp n) k (got a))
        (rw (alloc_pages, room, mapping, e) refl)
        (record { magic = refl; magic2 = refl; page_size = refl; flags = refl; free = refl }) refl
        refl (fresh.maps mp.addr n mp.fd mp.top a e)

  -- What `sbrk` gives.
  data Grown (r : Got) : Type 0 where
    short : (e : Error) → e ≢ no_error → r ≡ error e → Grown r
    grown : (a : ℕ) → r ≡ got a → IsRoom own a n → Grown r

  fill-Grown : (a : ℕ) → (sys.sbrk n w).0 ≡ some a → Grown (fill_page sys mp n a (sys.sbrk n w).1).0
  unfolding fill_page
  fill-Grown a e = elim (Bool-cases (a % mp.page_size == 0)) [
    | inl whole ↦ grown a (rw (fill_page, whole) refl) (fresh.grows n a e)
    | inr part ↦ by_more part (sys.sbrk (mp.page_size - a % mp.page_size) (sys.sbrk n w).1).0 refl
  ]
    where
      by_more :
          (a % mp.page_size == 0) ≡ false
          → (o : Option ℕ) → (sys.sbrk (mp.page_size - a % mp.page_size) (sys.sbrk n w).1).0 ≡ o
          → Grown (fill_page sys mp n a (sys.sbrk n w).1).0
      by_more part none f = short no_mem (λ z. cc) (rw (fill_page, part, f) refl)
      by_more part (some b) f = elim (Bool-cases (b == a + n)) [
        | inr apart ↦ short sbrk_contig (λ z. cc) (rw (fill_page, part, f, apart) refl)
        | inl joined ↦
            let first = fresh.grows n a e in
            let second = fresh.grows_on n (mp.page_size - a % mp.page_size) b f in
            let at : b ≡ a + n = ground arith in
            let more = mp.page_size - a % mp.page_size in
            grown (a + more) (rw (fill_page, part, f, joined) refl) (record {
              somewhere = omega (arith, first.somewhere);
              ends = omega (arith, second.ends, at);
              owns = λ x le lt. elim (Bool-cases (ltb x (a + n))) [
                | inl low ↦ first.owns x (omega arith) (ground arith)
                | inr high ↦ second.owns x (ground (arith, at)) (omega (arith, at))
              ];
            })
      ]

  sbrk-Granted :
      (ltb 0 mp.max_pages && leb mp.max_pages mp.page_c) ≡ false
      → is_set mp.flags flag_use_sbrk ≡ true
      → (o : Option ℕ) → (sys.sbrk n w).0 ≡ o
      → Granted own mp n (alloc_pages sys mp k w).0
  unfolding alloc_pages sbrk_pages
  sbrk-Granted room growing none e =
      denied no_mem (λ z. cc) (rw (alloc_pages, room, growing, sbrk_pages, e) refl)
  sbrk-Granted room growing (some a) e = elim (fill-Grown a e) [
    | short c ne f ↦ denied c ne (rw (alloc_pages, room, growing, sbrk_pages, e, f) refl)
    | grown b f given ↦
        granted b (count_pages sys mp k (got b))
          (rw (alloc_pages, room, growing, sbrk_pages, e, f) refl)
          (record { magic = refl; magic2 = refl; page_size = refl; flags = refl; free = refl }) refl
          refl given
  ]

  pub alloc_pages-Granted : Granted own mp n (alloc_pages sys mp k w).0
  unfolding alloc_pages
  alloc_pages-Granted = elim (Bool-cases (ltb 0 mp.max_pages && leb mp.max_pages mp.page_c)) [
    | inl over ↦ denied no_pages (λ z. cc) (rw (alloc_pages, over) refl)
    | inr room ↦ elim (Bool-cases (is_set mp.flags flag_use_sbrk)) [
      | inl growing ↦ sbrk-Granted room growing (sys.sbrk n w).0 refl
      | inr mapping ↦ mmap-Granted room mapping (sys.mmap mp.addr n mp.fd mp.top w).0 refl
    ]
  ]
