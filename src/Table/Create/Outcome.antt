-- ===== src/Table/Create/Outcome.antt =====
-- A new table is valid and empty, and clearing a table leaves such a one.
use source.Prelude.Words.{u32}
use source.Prelude.{
  ℕ, ◌*◌, ◌/◌, ◌^◌, ◌<◌, ◌≡◌, ◌≢◌, refl, ◌∙◌, ◌⊎◌, inl, inr, Bool, true, false, Option, none, some,
  List, [], ◌∷◌, length-replicate, arith,
}
use source.Table.Buckets.{total-replicate, replicate-IsPlaced, lookup-replicate}
use source.Table.Create.{
  buckets_wanted, fresh, table_alloc, table_alloc_in_pool, free_chain, free_chains, reset, clear,
  table_clear,
}
use source.Table.Memory.{Memory, Hooks, libc, pool, allocate, release}
use source.Table.State.{
  Error, no_error, alloc_error, free_error, Chain, Table, pointer_size, table_size,
}
use source.Table.Valid.{
  IsValid, view, Returns, returns, Returns-bind, Returns-mono, allocate-Returns, release-Returns,
  OnTable, guarded-OnTable,
}

-- A valid table with no entry.
pub record IsEmpty (t : Table) : Type 0 where
  pub valid : IsValid t
  pub entry_n : t.entry_n ≡ 0
  pub reads : (q : List ℕ) → view t q ≡ none

pub fresh-IsEmpty :
    (hooks : Hooks) (buck_n addr slots : ℕ)
    → 0 < buck_n
    → buck_n < 2 ^ 29
    → slots ≡ buck_n
    → IsEmpty (fresh hooks buck_n addr slots)
fresh-IsEmpty hooks buck_n addr slots pos small e = record {
  valid = record {
    magic = refl;
    in_memory = refl;
    width = length-replicate slots [] ∙ e;
    pos = pos;
    small = small;
    counted = total-replicate slots;
    few = omega arith;
    placed = replicate-IsPlaced slots;
  };
  entry_n = refl;
  reads = lookup-replicate slots;
}

-- The result of an allocation: a table or an error.
pub data Created (bucket_n : ℕ) (hooks : Hooks) : Error × Option (ℕ × Table) → Type 0 where
  refused : Created bucket_n hooks (alloc_error, none)
  made :
      {addr : ℕ} {t : Table}
      → IsEmpty t
      → (bucket_n ≡ 0 → t.bucket_n ≡ 1024)
      → (0 < bucket_n → t.bucket_n ≡ bucket_n)
      → t.hooks ≡ hooks
      → Created bucket_n hooks (no_error, some (addr, t))

module _ {W : Type 0} (mem : Memory W) (bucket_n : ℕ) (small : bucket_n < 2 ^ 29) where
  pos : 0 < buckets_wanted bucket_n
  pos = ground arith

  fits : buckets_wanted bucket_n < 2 ^ 29
  fits = ground arith

  none_asked : bucket_n ≡ 0 → buckets_wanted bucket_n ≡ 1024
  none_asked e = ground (arith, e)

  some_asked : 0 < bucket_n → buckets_wanted bucket_n ≡ bucket_n
  some_asked lt = ground arith

  -- For fewer than 2 ^ 29 buckets, `table_alloc` returns a valid empty table that has as many
  -- buckets as asked for, or 1024 for 0, or else the code of an allocation error and no table.
  pub table_alloc-Created : (w : W) → Returns (table_alloc mem bucket_n w) (Created bucket_n libc)
  unfolding table_alloc
  table_alloc-Created w =
      Returns-bind (allocate mem libc table_size) _ w (allocate-Returns mem libc _ w) (elim [
        | none ↦ λ w' _. returns _ w' refused
        | some table_p ↦ λ w' _.
            Returns-bind (allocate mem libc (buckets_wanted bucket_n * pointer_size)) _ w'
              (allocate-Returns mem libc _ w')
              (elim [
                | none ↦ λ w'' _.
                    Returns-bind (release mem libc table_p table_size) _ w''
                      (release-Returns mem libc _ _ w'') (λ _ w3 _. returns _ w3 refused)
                | some addr ↦ λ w'' _.
                    returns _ w''
                      (made (fresh-IsEmpty libc _ addr _ pos fits refl) none_asked some_asked refl)
              ])
      ])

  -- For fewer than 2 ^ 29 buckets, and with both required functions given, `table_alloc_in_pool`
  -- returns a valid empty table with as many buckets as asked for, or 1024 for 0, that uses the given
  -- functions, or else the code of an allocation error and no table.
  pub table_alloc_in_pool-Created :
      (resize : Bool) (w : W)
      → Returns (table_alloc_in_pool mem bucket_n true resize w) (Created bucket_n (pool resize))
  unfolding table_alloc_in_pool
  table_alloc_in_pool-Created resize w =
      let size = u32 (buckets_wanted bucket_n * pointer_size) in
      let room : size / pointer_size ≡ buckets_wanted bucket_n = omega (arith, fits) in
      Returns-bind (allocate mem (pool resize) table_size) _ w (allocate-Returns mem _ _ w) (elim [
        | none ↦ λ w' _. returns _ w' refused
        | some table_p ↦ λ w' _.
            Returns-bind (allocate mem (pool resize) size) _ w' (allocate-Returns mem _ _ w')
              (elim [
                | none ↦ λ w'' _.
                    Returns-bind (release mem (pool resize) table_p table_size) _ w''
                      (release-Returns mem _ _ _ w'') (λ _ w3 _. returns _ w3 refused)
                | some addr ↦ λ w'' _.
                    returns _ w''
                      (made (fresh-IsEmpty _ _ addr _ pos fits room) none_asked some_asked refl)
              ])
      ])

-- What clearing does: an empty table of the same width, and an error only from a user's function.
pub data Cleared (t : Table) : Error → Table → Type 0 where
  cleared :
      {code : Error} {t' : Table}
      → (code ≡ no_error) ⊎ ((code ≡ free_error) × (t.hooks ≢ libc))
      → IsEmpty t'
      → t'.bucket_n ≡ t.bucket_n
      → Cleared t code t'

module _ {W : Type 0} (mem : Memory W) (t : Table) where
  abbrev Frees : Bool → Bool → Type 0
  Frees before after = after ≡ false → (before ≡ false) ⊎ (t.hooks ≢ libc)

  free_chain-Frees :
      (c : Chain) (good : Bool) (w : W) → Returns (free_chain mem t c good w) (Frees good)
  unfolding free_chain
  free_chain-Frees [] good w = returns good w (λ e. inl e)
  free_chain-Frees (e ∷ c) good w =
      Returns-bind (release mem t.hooks e.addr _) _ w (release-Returns mem t.hooks _ _ w) (elim [
        | true ↦ λ w' _. free_chain-Frees c good w'
        | false ↦ λ w' user. Returns-mono (free_chain-Frees c false w') (λ b _ e. inr (user refl))
      ])

  free_chains-Frees :
      (cs : List Chain) (good : Bool) (w : W) → Returns (free_chains mem t cs good w) (Frees good)
  unfolding free_chains
  free_chains-Frees [] good w = returns good w (λ e. inl e)
  free_chains-Frees (c ∷ cs) good w =
      Returns-bind (free_chain mem t c good) _ w (free_chain-Frees c good w) (λ good' w' first.
        Returns-mono (free_chains-Frees cs good' w') (λ b rest. chained first rest))
    where
      chained : {x y z : Bool} → Frees x y → Frees y z → Frees x z
      chained first rest e = elim (rest e) [ inl d ↦ first d | inr user ↦ inr user ]

  reset-IsEmpty : IsValid t → IsEmpty (reset t)
  unfolding reset
  reset-IsEmpty valid = record {
    valid = record {
      magic = valid.magic;
      in_memory = valid.in_memory;
      width = length-replicate t.bucket_n [];
      pos = valid.pos;
      small = valid.small;
      counted = total-replicate t.bucket_n;
      few = omega arith;
      placed = replicate-IsPlaced t.bucket_n;
    };
    entry_n = refl;
    reads = lookup-replicate t.bucket_n;
  }

  width : (reset t).bucket_n ≡ t.bucket_n
  unfolding reset
  width = refl

  clear-Cleared : (w : W) → IsValid t → Returns (clear mem t w) (λ r. Cleared t r.0 r.1)
  unfolding clear
  clear-Cleared w valid = simp valid.in_memory (
      Returns-bind (free_chains mem t t.buckets true) _ w (free_chains-Frees t.buckets true w)
        (elim [
          | true ↦ λ w' _. returns _ w' (cleared (inl refl) (reset-IsEmpty valid) width)
          | false ↦ λ w' why.
              returns _ w' (cleared (inr (refl, user (why refl))) (reset-IsEmpty valid) width)
        ]))
    where
      user : (true ≡ false) ⊎ (t.hooks ≢ libc) → t.hooks ≢ libc
      user (inl e) = cc
      user (inr u) = u

-- On a valid table `table_clear` ends with no fault and leaves a valid empty table with as many
-- buckets. The code is not an error, or it is `free_error` and the user's functions are in use.
pub table_clear-Cleared :
    {W : Type 0} (mem : Memory W) (t : Table) (w : W)
    → IsValid t
    → Returns (table_clear mem (some t) w) (OnTable (λ r. Cleared t r.code))
unfolding table_clear
table_clear-Cleared mem t w valid =
    guarded-OnTable (λ r. Cleared t r.code) t _ w valid
      (Returns-bind (clear mem t) _ w (clear-Cleared mem t w valid)
        (λ (code, t') w' p. returns _ w' p))
