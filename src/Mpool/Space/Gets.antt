-- ===== src/Mpool/Space/Gets.antt =====
-- `get_space` on a valid pool: a block in hand, or an error with nothing changed.
use mathlib.Core.Path.{subst}
use source.Mpool.Bits.{size_to_bits}
use source.Mpool.Pages.Granted.{IsRoom, IsFresh, denied, granted, alloc_pages-Granted}
use source.Mpool.Pages.Laws.{IsPages, IsSmall, pages_in_size-IsPages, pages-lt, size_of_pages-eq}
use source.Mpool.Pages.{System, Got, got, error, pages_in_size, size_of_pages, alloc_pages}
use source.Mpool.Space.Found.{Ready, use_space-Uses}
use source.Mpool.Space.Fresh.{new_block-Found}
use source.Mpool.Space.Lists.{round_up-IsRounded, IsListFor, find_list-IsListFor}
use source.Mpool.Space.Taken.{taken-Found}
use source.Mpool.Space.{round_up, find_list, new_block, take_free, use_space, get_pages, get_space}
use source.Mpool.State.{Error, Pool, Store, max_bits}
use source.Mpool.Valid.Pools.{SamePool, IsValid-pool}
use source.Mpool.Valid.{Owners, Span, head_of, IsValid}
use source.Prelude.Words.{u32}
use source.Prelude.{
  ℕ, ◌+◌, ◌*◌, ◌≤◌, ◌<◌, ◌≡◌, inl, inr, refl, sym, ap, ◌∙◌, ltb, Bool-cases, List, [], ◌∷◌, arith,
}

-- Either there are no pages, and nothing has changed, or there is a block for the size.
pub data Gets (s : Store) (own : Owners) (live : ℕ → ℕ) (size : ℕ) (run : Got × Store)
    : Type 0 where
  no_space : (e : Error) → run ≡ (error e, s) → Gets s own live size run
  space_at : Ready s own live size run → Gets s own live size run

module _ {W : Type 0} (sys : System W) (s : Store) (own : Owners) (live : ℕ → ℕ)
    (valid : IsValid s own live) (w : W) (fresh : IsFresh sys own w) where
  abbrev p : ℕ
  p = s.pool.page_size

  module _ (size : ℕ) (some_bytes : 0 < size) (fits : IsSmall (size + s.pool.page_size)) where
    abbrev k : ℕ
    k = pages_in_size p size

    are : IsPages p size k
    are = pages_in_size-IsPages p size valid.page (omega (arith, fits))

    bytes : size_of_pages p k ≡ k * p
    bytes = size_of_pages-eq p size k valid.page (omega (arith, fits)) are

    page_n : u32 k ≡ k
    page_n = let few = pages-lt p size k valid.page (omega (arith, fits)) are in omega (arith, few)

    -- With the pool that `alloc_pages` leaves.
    granted-Ready :
        (a : ℕ) (mp : Pool)
        → SamePool s.pool mp
        → IsRoom own a (size_of_pages p k)
        → Ready s own live size (use_space (new_block (record s { pool = mp }) a k size) size)
    granted-Ready a mp same room =
        let s' : Store = record s { pool = mp } in
        let valid' : IsValid s' own live = IsValid-pool s own live mp same valid in
        let f =
          new_block-Found s' own live valid' a k size (rw same.page_size are)
            (rw same.page_size fits) (rw same.page_size (subst (IsRoom own a) bytes room)) in
        let r = (use_space-Uses s' own live size (new_block s' a k size) f some_bytes).ready in
        record {
          addr = r.addr;
          after = r.after;
          owners = r.owners;
          total = r.total;
          runs = r.runs;
          page_size = r.page_size ∙ same.page_size;
          flags = r.flags ∙ same.flags;
          holds = r.holds;
          somewhere = r.somewhere;
          ends = r.ends;
          placed = r.placed;
          shape = r.shape;
          kept = r.kept;
        }

    -- `get_pages` behind `alloc_pages`.
    abbrev then_use : Got × Pool → Got × Store
    then_use r = elim r.0 as (λ _. Got × Store) [
      | error e ↦ (error e, record s { pool = r.1 })
      | got block_p ↦ use_space (new_block (record s { pool = r.1 }) block_p k size) size
    ]

    abbrev counted : ℕ → (Got × Pool) × W → Got × Store
    counted c r =
        (elim r.0.0 as (λ _. (Got × Store) × W) [
          | error e ↦ ((error e, record s { pool = r.0.1 }), r.1)
          | got block_p ↦
              (use_space (new_block (record s { pool = r.0.1 }) block_p c size) size, r.1)
        ]).0

    counted-then_use : (r : (Got × Pool) × W) → counted k r ≡ then_use r.0
    counted-then_use ((error e, mp), w') = refl
    counted-then_use ((got a, mp), w') = refl

    get_pages-run : (get_pages sys s size w).0 ≡ then_use (alloc_pages sys s.pool k w).0
    unfolding get_pages
    get_pages-run =
        ap (λ c. counted c (alloc_pages sys s.pool c w)) page_n
        ∙ counted-then_use (alloc_pages sys s.pool k w)

    get_pages-Gets : Gets s own live size (get_pages sys s size w).0
    get_pages-Gets =
        subst (Gets s own live size) (sym get_pages-run)
          (elim (alloc_pages-Granted sys own s.pool k w fresh (omega (arith, valid.page.least))) [
            | denied e ne run ↦ no_space e (ap then_use run)
            | granted a mp run same count user room ↦ space_at (
                subst (λ r. Ready s own live size (then_use r)) (sym run)
                  (granted-Ready a mp same room))
          ])

    take_list-Ready :
        (b : ℕ)
        → IsListFor s.pool.free size b
        → b ≤ max_bits
        → (ys : List Span) → valid.spans b ≡ ys
        → Ready s own live size (use_space (take_free s b size) size)
    take_list-Ready b lists le [] e =
        absurd (lists.some_in le (valid.heads b lists.long le ∙ ap head_of e))
    take_list-Ready b lists le (x ∷ xs) e =
        let room =
          (subst (source.Mpool.Valid.Chain own s.mem p b) e
            (valid.chains b lists.long le)).0.room in
        (use_space-Uses s own live size (take_free s b size)
          (taken-Found s own live valid b lists.long le x xs e size
            (omega (arith, lists.room le, room)) some_bytes)
          some_bytes).ready

  pub get_space-Gets :
      (n : ℕ)
      → 16 ≤ n
      → IsSmall (n + 8 + p)
      → Gets s own live (round_up 7 n) (get_space sys s n w).0
  unfolding get_space
  get_space-Gets n le fits =
      let size = round_up 7 n in
      let r = round_up-IsRounded n (omega (arith, fits)) in
      let some_bytes : 0 < size = omega (arith, r.least) in
      let small_size : IsSmall (size + p) = omega (arith, r.most, fits) in
      let b = find_list s.pool.free (size_to_bits size) in
      let lists = find_list-IsListFor s.pool.free size (omega (arith, r.least)) in
      elim (Bool-cases (ltb max_bits b)) [
        | inl none_in ↦ rw (get_space, none_in) (get_pages-Gets size some_bytes small_size)
        | inr there ↦
            rw (get_space, there)
              (space_at (
                take_list-Ready size some_bytes small_size b lists (ground arith) (valid.spans b)
                  refl))
      ]
