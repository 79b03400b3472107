-- ===== src/Table/Adjust/Outcome.antt =====
-- What `table_adjust` does to a valid table, whatever the memory functions answer.
use mathlib.Core.Logic.{◌⊎◌, inl, inr}
use source.Prelude.Words.{u32}
use source.Prelude.{
  ℕ, ◌*◌, ◌/◌, ◌^◌, ◌<◌, ◌≡◌, ◌≢◌, refl, ◌∙◌, Bool, true, false, none, some, List, [], replicate,
  ◌==◌, if◌then◌else◌, Bool-cases, arith,
}
use source.Table.Adjust.Rehash.{rehash_all-replicate}
use source.Table.Adjust.{adjust, table_adjust, grow_to, replace_buckets, normalized, rehash_all}
use source.Table.Buckets.{lookup-replicate}
use source.Table.Memory.{Memory, libc, allocate, release, pure}
use source.Table.State.{Error, no_error, alloc_error, free_error, Table, Chain, pointer_size}
use source.Table.Valid.{
  IsValid, SameSettings, view, SameView, Returns, returns, Returns-bind, Returns-lift,
  allocate-Returns, release-Returns, OnTable, guarded-OnTable,
}

-- The result code with the table that goes with it. In the last case the entries are lost, since
-- the old array has been emptied when its release is refused, by a function of the user's.
pub data Adjusted (t : Table) (buck_n : ℕ) : Error → Table → Type 0 where
  unchanged : buck_n ≡ t.bucket_n → Adjusted t buck_n no_error t
  rehashed :
      {t' : Table}
      → IsValid t'
      → SameSettings t t'
      → SameView t t'
      → t'.bucket_n ≡ buck_n
      → t'.entry_n ≡ t.entry_n
      → Adjusted t buck_n no_error t'
  no_room : Adjusted t buck_n alloc_error t
  emptied :
      {t' : Table}
      → t.hooks ≢ libc
      → ((q : List ℕ) → view t' q ≡ none)
      → t'.entry_n ≡ t.entry_n
      → Adjusted t buck_n free_error t'

module _ {W : Type 0} (mem : Memory W) (t : Table) (valid : IsValid t) (buck_n : ℕ) where
  kept :
      {n addr : ℕ} {buckets : List Chain}
      → SameSettings t (record t { bucket_n = n; buckets_addr = addr; buckets = buckets })
  kept = record { flags = refl; data_align = refl; hooks = refl; linear = refl }

  replace_buckets-Adjusted :
      (addr : ℕ) (buckets : List Chain) (w : W)
      → IsValid (record t { bucket_n = buck_n; buckets_addr = addr; buckets = buckets })
      → SameView t (record t { buckets = buckets })
      → Returns (replace_buckets mem t buck_n addr buckets w) (λ r. Adjusted t buck_n r.0 r.1)
  unfolding replace_buckets
  replace_buckets-Adjusted addr buckets w v same =
      Returns-bind (release mem t.hooks t.buckets_addr (t.bucket_n * pointer_size)) _ w
        (release-Returns mem t.hooks _ _ w)
        (elim [
          | true ↦ λ w' _. returns _ w' (rehashed v kept same refl refl)
          | false ↦ λ w' own. returns _ w' (emptied (own refl) (lookup-replicate t.bucket_n) refl)
        ])

  grow_to-Adjusted :
      (w : W)
      → 0 < buck_n
      → buck_n < 2 ^ 29
      → Returns (grow_to mem t buck_n w) (λ r. Adjusted t buck_n r.0 r.1)
  unfolding grow_to
  grow_to-Adjusted w pos small =
      let (r, run, width, entries, placed, reads) =
        rehash_all-replicate buck_n t.buckets pos (omega arith) valid.placed in
      let room : u32 (buck_n * pointer_size) / pointer_size ≡ buck_n = omega arith in
      Returns-bind (allocate mem t.hooks (u32 (buck_n * pointer_size))) _ w
        (allocate-Returns mem t.hooks _ w)
        (elim [
          | none ↦ λ w' _. returns _ w' no_room
          | some addr ↦ λ w' _.
              Returns-lift
                (rehash_all buck_n t.buckets
                  (replicate (u32 (buck_n * pointer_size) / pointer_size) []))
                _ w' r (rw room run)
                (replace_buckets-Adjusted addr r w'
                  (record {
                    magic = valid.magic;
                    in_memory = valid.in_memory;
                    width = width;
                    pos = pos;
                    small = small;
                    counted = entries ∙ valid.counted;
                    few = valid.few;
                    placed = placed;
                  })
                  reads)
        ])

  -- On a valid table, with a number of buckets below 2 ^ 29 after normalizing.
  pub adjust-Adjusted :
      (bucket_n : ℕ) (w : W)
      → normalized bucket_n t.entry_n ≡ buck_n
      → buck_n < 2 ^ 29
      → Returns (adjust mem t bucket_n w) (λ r. Adjusted t buck_n r.0 r.1)
  unfolding adjust
  adjust-Adjusted bucket_n w e small = elim (Bool-cases (buck_n == t.bucket_n)) [
    | inl same ↦ simp (valid.in_memory, e, same) (returns _ w (unchanged (ground arith)))
    | inr other ↦ simp (valid.in_memory, e, other) (grow_to-Adjusted w (ground arith) small)
  ]

-- What is left of a table after an automatic adjustment: the same map, unless the entries are lost.
pub data Kept (t : Table) : Error → Table → Type 0 where
  same :
      {code : Error} {t' : Table}
      → (code ≡ no_error) ⊎ (code ≡ alloc_error)
      → IsValid t'
      → SameSettings t t'
      → SameView t t'
      → t'.entry_n ≡ t.entry_n
      → Kept t code t'
  lost : {t' : Table} → t.hooks ≢ libc → ((q : List ℕ) → view t' q ≡ none) → Kept t free_error t'

pub Kept-self :
    {t : Table} {code : Error}
    → IsValid t
    → (code ≡ no_error) ⊎ (code ≡ alloc_error)
    → Kept t code t
Kept-self valid why =
    same why valid (record { flags = refl; data_align = refl; hooks = refl; linear = refl })
      (λ q. refl) refl

Adjusted-Kept :
    {t : Table} {n : ℕ} {code : Error} {t' : Table}
    → IsValid t
    → Adjusted t n code t'
    → Kept t code t'
Adjusted-Kept valid (unchanged e) = Kept-self valid (inl refl)
Adjusted-Kept valid (rehashed v s m b e) = same (inl refl) v s m e
Adjusted-Kept valid no_room = Kept-self valid (inr refl)
Adjusted-Kept valid (emptied own m e) = lost own m

-- The two automatic adjustments, to as many buckets as there are entries, behind their tests.
pub adjust_if-Kept :
    {W : Type 0} (mem : Memory W) (t : Table) (test : Bool) (w : W)
    → IsValid t
    → t.entry_n < 2 ^ 29
    → Returns
        ((if test then adjust mem t t.entry_n else pure (no_error, t)) w)
        (λ r. Kept t r.0 r.1)
adjust_if-Kept mem t false w valid small = returns _ w (Kept-self valid (inl refl))
adjust_if-Kept mem t true w valid small =
    let r = adjust-Adjusted mem t valid _ t.entry_n w refl (ground arith) in
    record {
      result = r.result;
      memory = r.memory;
      runs = r.runs;
      holds = Adjusted-Kept valid r.holds;
    }

-- On a valid table, and for a number of buckets that is below 2 ^ 29 (0 stands for the number of
-- entries, and 1 is the least), the call ends with no fault. It changes nothing, or it rehashes to
-- that number of buckets and keeps the data under every key; a failed allocation changes nothing;
-- a refused release, by a user's function, leaves a table that has no entry but counts them.
pub table_adjust-Adjusted :
    {W : Type 0} (mem : Memory W) (t : Table) (bucket_n : ℕ) (w : W)
    → IsValid t
    → normalized bucket_n t.entry_n < 2 ^ 29
    → Returns
        (table_adjust mem (some t) bucket_n w)
        (OnTable (λ r. Adjusted t (normalized bucket_n t.entry_n) r.code))
unfolding table_adjust
table_adjust-Adjusted mem t bucket_n w valid small =
    guarded-OnTable (λ r. Adjusted t (normalized bucket_n t.entry_n) r.code) t _ w valid
      (Returns-bind (adjust mem t bucket_n) _ w
        (adjust-Adjusted mem t valid _ bucket_n w refl small) (λ (code, t') w' p. returns _ w' p))
