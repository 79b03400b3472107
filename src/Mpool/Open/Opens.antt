-- ===== src/Mpool/Open/Opens.antt =====
-- `mpool_open` gives a valid pool.
use mathlib.Core.Path.{subst}
use source.Mpool.Bytes.{Bytes}
use source.Mpool.Open.Placed.{
  IsBlank, IsBlank-same, one_page, Opens, closed, packed-Opens, plain-Opens,
}
use source.Mpool.Open.{
  zeroed, page_size_of, Opened, close_fd, open_packed, open_plain, open_pages, open_sized,
  mpool_open,
}
use source.Mpool.Pages.Granted.{IsRoom, IsFresh, denied, granted, alloc_pages-Granted}
use source.Mpool.Pages.Laws.{IsPageSize, pages_in_size-IsPages, pages-one}
use source.Mpool.Pages.{System, Got, got, error, pages_in_size, size_of_pages, alloc_pages}
use source.Mpool.State.{
  Error, no_error, arg_invalid, page_size_error, default_page_mult, open_zero, Pool,
  flag_heavy_packing, flag_use_sbrk, is_set,
}
use source.Mpool.Valid.Pools.{SamePool}
use source.Mpool.Valid.{nobody}
use source.Prelude.Words.{u32}
use source.Prelude.{
  ℕ, ◌+◌, ◌^◌, ◌≤◌, ◌<◌, ◌≡◌, ◌≢◌, ◌*◌, ◌%◌, ◌==◌, inl, inr, refl, sym, ap, ◌∙◌, false,
  if◌then◌else◌, Bool-cases, Option, none, some, arith,
}

module _ {W : Type 0} (sys : System W) (m : Bytes) where
  -- `open_pages` behind `alloc_pages`.
  abbrev then_place : Pool → ℕ → (Got × Pool) × W → Opened × W
  then_place mp c r = elim r.0.0 as (λ _. Opened × W) [
    | error e ↦ ((e, none), close_fd sys mp.fd r.1)
    | got mem ↦
        if is_set mp.flags flag_heavy_packing
        then open_packed sys r.0.1 m mem c r.1
        else open_plain sys r.0.1 m mem c r.1
  ]

  open_pages-Opens :
      (flags : ℕ) (mp : Pool) (w : W)
      → IsBlank flags mp
      → IsFresh sys (λ x. nobody) w
      → Opens flags (open_pages sys mp m w).0
  unfolding open_pages
  open_pages-Opens flags mp w blank fresh =
      let p = mp.page_size in
      let are = pages_in_size-IsPages p 360 blank.page (omega arith) in
      let one : u32 (pages_in_size p 360) ≡ 1 = omega (
        arith,
        pages-one p 360 (pages_in_size p 360) blank.page are (omega (arith, blank.roomy)),
      ) in
      let r = alloc_pages sys mp 1 w in
      subst (Opens flags) (sym (ap (λ c. (then_place mp c (alloc_pages sys mp c w)).0) one))
        (elim (alloc_pages-Granted sys (λ x. nobody) mp 1 w fresh (omega (arith, blank.roomy))) [
          | denied e ne run ↦ closed e ne (ap (λ q. (then_place mp 1 (q, r.1)).0) run)
          | granted a mp' run same count user room ↦
              subst (λ q. Opens flags (then_place mp 1 (q, r.1)).0) (sym run)
                (place a mp' r.1 same count user room)
        ])
    where
      place :
          (a : ℕ) (mp' : Pool) (w' : W)
          → SamePool mp mp'
          → mp'.alloc_c ≡ mp.alloc_c
          → mp'.user_alloc ≡ mp.user_alloc
          → IsRoom (λ x. nobody) a (size_of_pages mp.page_size 1)
          → Opens flags (then_place mp 1 ((got a, mp'), w')).0
      place a mp' w' same count user room =
          let blank' = IsBlank-same flags mp mp' same count user blank in
          let page : size_of_pages mp.page_size 1 ≡ mp'.page_size =
            one_page mp.page_size blank.page ∙ sym same.page_size in
          let ends : a + mp'.page_size < 2 ^ 64 = omega (arith, room.ends, page) in
          elim (Bool-cases (is_set mp.flags flag_heavy_packing)) [
            | inl heavy ↦ rw heavy (packed-Opens sys m flags mp' blank' a w' room.somewhere ends)
            | inr plain ↦ rw plain (
                plain-Opens sys m flags mp' blank' a w' room.somewhere ends
                  (ap (λ f. is_set f flag_heavy_packing) (sym blank.flags) ∙ plain))
          ]

  open_sized-Opens :
      (flags p start_addr : ℕ) (w : W)
      → IsPageSize p
      → 512 ≤ p
      → ((w : W) → IsFresh sys (λ x. nobody) w)
      → Opens flags (open_sized sys flags p start_addr m w).0
  unfolding open_sized
  open_sized-Opens flags p start_addr w page roomy fresh =
      elim (Bool-cases (is_set flags flag_use_sbrk)) [
        | inl growing ↦
            rw (open_sized, growing)
              (open_pages-Opens flags (zeroed flags p none 0) w (blank none 0) (fresh w))
        | inr mapping ↦ by_zero mapping (sys.open_zero w).0 refl
      ]
    where
      blank : (fd : Option ℕ) (addr : ℕ) → IsBlank flags (zeroed flags p fd addr)
      blank fd addr = record {
        magic = refl;
        magic2 = refl;
        page = page;
        roomy = roomy;
        empty = λ b. refl;
        flags = refl;
        alloc_c = refl;
        user_alloc = refl;
      }

      by_zero :
          is_set flags flag_use_sbrk ≡ false
          → (o : Option ℕ) → (sys.open_zero w).0 ≡ o
          → Opens flags (open_sized sys flags p start_addr m w).0
      by_zero mapping none e = closed open_zero (λ z. cc) (rw (open_sized, mapping, e) refl)
      by_zero mapping (some fd) e =
          rw (open_sized, mapping, e)
            (open_pages-Opens flags (zeroed flags p (some fd) start_addr) (sys.open_zero w).1
              (blank (some fd) start_addr) (fresh (sys.open_zero w).1))

page_size_of-error :
    (getpagesize page_size : ℕ) (e : Error)
    → page_size_of getpagesize page_size ≡ error e
    → e ≢ no_error
unfolding page_size_of
page_size_of-error getpagesize page_size e run z =
    let size = u32 (getpagesize * default_page_mult) in
    elim (Bool-cases (page_size == 0)) [
      | inl default ↦ elim (Bool-cases (size % 1024 == 0)) [
        | inl whole ↦
            let it : page_size_of getpagesize page_size ≡ got size =
              rw (page_size_of, default, whole) refl in
            cc
        | inr part ↦
            let it : page_size_of getpagesize page_size ≡ error page_size_error =
              rw (page_size_of, default, part) refl in
            cc
      ]
      | inr asked ↦ elim (Bool-cases (page_size % getpagesize == 0)) [
        | inl whole ↦
            let it : page_size_of getpagesize page_size ≡ got page_size =
              rw (page_size_of, asked, whole) refl in
            cc
        | inr part ↦
            let it : page_size_of getpagesize page_size ≡ error arg_invalid =
              rw (page_size_of, asked, part) refl in
            cc
      ]
    ]

-- Where the system gives memory below the end of the address space, and the page size that
-- mpool_open takes, if it takes one, is a multiple of 8 from 512 to 2 ^ 30, mpool_open gives an error
-- that is not no_error and no pool, or no error and a valid pool with the flags asked for, counters
-- of 0 and no byte in an allocation. With heavy packing what the structure leaves of its page is in
-- front of the free list for its size.
pub mpool_open-Opens :
    {W : Type 0} (sys : System W) (flags page_size start_addr : ℕ) (m : Bytes) (w : W)
    → ((p : ℕ) → page_size_of sys.getpagesize page_size ≡ got p → IsPageSize p × (512 ≤ p))
    → ((w : W) → IsFresh sys (λ x. nobody) w)
    → Opens flags (mpool_open sys flags page_size start_addr m w).0
unfolding mpool_open
mpool_open-Opens sys flags page_size start_addr m w sizes fresh =
    by_size (page_size_of sys.getpagesize page_size) refl
  where
    by_size :
        (g : Got)
        → page_size_of sys.getpagesize page_size ≡ g
        → Opens flags (mpool_open sys flags page_size start_addr m w).0
    by_size (error e) run =
        closed e (page_size_of-error sys.getpagesize page_size e run) (rw (mpool_open, run) refl)
    by_size (got p) run =
        rw (mpool_open, run)
          (open_sized-Opens sys m flags p start_addr w (sizes p run).0 (sizes p run).1 fresh)
