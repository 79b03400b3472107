-- ===== src/Table/Valid.antt =====
-- The invariant of a table, the map that it stands for, and runs that return.
use source.Prelude.{
  ℕ, ◌^◌, ◌<◌, ◌≡◌, ◌≢◌, refl, ap, ◌∙◌, true, false, Option, none, some, List, length, ◌==◌,
  if◌then◌else◌, arith,
}
use source.Table.Buckets.{
  home, home-lt, bucket_of-home, slot-get_or, chain_of, lookup, IsPlaced, total, Writes,
}
use source.Table.Entry.{same_key, bucket_of, slot}
use source.Table.Memory.{
  Run, done, fault, M, ◌>>=◌, Memory, Hooks, libc, pool, lift, allocate, release,
}
use source.Table.State.{Cell, Chain, Reply, guarded, Table, table_magic}

-- The array is in memory and holds `bucket_n` buckets; `bucket_n * sizeof (table_entry_t *)` is
-- within 32 bits; `entry_n` counts the entries, which stand in their buckets.
pub record IsValid (t : Table) : Type 0 where
  pub magic : t.magic ≡ table_magic
  pub in_memory : t.mmapped ≡ false
  pub width : length t.buckets ≡ t.bucket_n
  pub pos : 0 < t.bucket_n
  pub small : t.bucket_n < 2 ^ 29
  pub counted : total t.buckets ≡ t.entry_n
  pub few : t.entry_n < 2 ^ 32
  pub placed : IsPlaced t.buckets

-- What the operations on entries leave alone.
pub record SameSettings (t t' : Table) : Type 0 where
  pub flags : t'.flags ≡ t.flags
  pub data_align : t'.data_align ≡ t.data_align
  pub hooks : t'.hooks ≡ t.hooks
  pub linear : t'.linear ≡ t.linear

abbrev pub view : Table → List ℕ → Option (List Cell)
view t q = lookup t.buckets q

abbrev pub SameView : Table → Table → Type 0
SameView t t' = (q : List ℕ) → view t' q ≡ view t q

-- `t'` is valid and reads as `t` with `v` under the key `k`; it has `n` entries.
pub record Stored (t : Table) (k : List ℕ) (v : Option (List Cell)) (n : ℕ) (t' : Table)
    : Type 0 where
  pub valid : IsValid t'
  pub settings : SameSettings t t'
  pub reads : (q : List ℕ) → view t' q ≡ (if same_key k q then v else view t q)
  pub entry_n : t'.entry_n ≡ n

-- A write to the bucket of `k` keeps the table valid.
pub Stored-Writes :
    {t : Table} {k : List ℕ} {v : Option (List Cell)} {n : ℕ} {bs : List Chain}
    → IsValid t
    → n < 2 ^ 32
    → Writes k v n t.buckets bs
    → Stored t k v n (record t { buckets = bs; entry_n = n })
Stored-Writes valid few w = record {
  valid = record {
    magic = valid.magic;
    in_memory = valid.in_memory;
    width = w.width ∙ valid.width;
    pos = valid.pos;
    small = valid.small;
    counted = w.entries;
    few = few;
    placed = w.placed;
  };
  settings = record { flags = refl; data_align = refl; hooks = refl; linear = refl };
  reads = w.reads;
  entry_n = refl;
}

module _ {t : Table} (valid : IsValid t) (k : List ℕ) where
  pub bucket_of-valid : bucket_of k t.bucket_n ≡ done (home k (length t.buckets))
  bucket_of-valid = rw valid.width (bucket_of-home k t.bucket_n valid.pos (omega arith))

  pub slot-valid : slot t.buckets (home k (length t.buckets)) ≡ done (chain_of t.buckets k)
  slot-valid = slot-get_or t.buckets _ (home-lt k (length t.buckets) (omega arith))

-- The run ends with no fault, in a result that satisfies `P`.
pub record Returns {W A : Type 0} (run : Run (A × W)) (P : A → Type 0) : Type 0 where
  pub result : A
  pub memory : W
  pub runs : run ≡ done (result, memory)
  pub holds : P result

module _ {W A : Type 0} {P : A → Type 0} where
  pub returns : (a : A) (w : W) → P a → Returns (done (a, w)) P
  returns a w p = record { result = a; memory = w; runs = refl; holds = p }

  pub Returns-mono :
      {Q : A → Type 0} {run : Run (A × W)} → Returns run P → ((a : A) → P a → Q a) → Returns run Q
  Returns-mono r weaken = record {
    result = r.result;
    memory = r.memory;
    runs = r.runs;
    holds = weaken _ r.holds;
  }

  -- A first part that needs no memory.
  pub Returns-lift :
      {B : Type 0} (m : Run B) (f : B → M W A) (w : W) (b : B)
      → m ≡ done b
      → Returns (f b w) P
      → Returns ((lift m >>= f) w) P
  Returns-lift {B} m f w b e r = record {
    result = r.result;
    memory = r.memory;
    runs = bound ∙ r.runs;
    holds = r.holds;
  }
    where
      bound : (lift m >>= f) w ≡ f b w
      bound = ap (λ (x : Run B). (lift x >>= f) w) e

  -- A run in two parts returns if both do.
  pub Returns-bind :
      {B : Type 0} {Q : B → Type 0} (m : M W A) (f : A → M W B) (w : W)
      → Returns (m w) P
      → ((a : A) (w' : W) → P a → Returns (f a w') Q)
      → Returns ((m >>= f) w) Q
  Returns-bind {B} m f w r next =
      let s = next r.result r.memory r.holds in
      record { result = s.result; memory = s.memory; runs = bound ∙ s.runs; holds = s.holds }
    where
      bound : (m >>= f) w ≡ f r.result r.memory
      bound =
          ap
            (λ (x : Run (A × W)).
              let y : Run (B × W) = elim x [ fault ↦ fault | done (a, w') ↦ f a w' ] in y)
            r.runs

module _ {W : Type 0} (mem : Memory W) where
  pub allocate-Returns :
      (h : Hooks) (size : ℕ) (w : W) → Returns (allocate mem h size w) (λ _. Unit {0})
  unfolding allocate
  allocate-Returns libc size w = returns (mem.malloc size w).0 (mem.malloc size w).1 tt
  allocate-Returns (pool b) size w = returns (mem.alloc_func size w).0 (mem.alloc_func size w).1 tt

  pub release-Returns :
      (h : Hooks) (addr size : ℕ) (w : W)
      → Returns (release mem h addr size w) (λ b. b ≡ false → h ≢ libc)
  unfolding release
  release-Returns libc addr size w = returns true (mem.free addr w) (λ e. cc)
  release-Returns (pool b) addr size w =
      returns (mem.free_func addr size w).0 (mem.free_func addr size w).1 (λ _ e. cc)

-- What an exported function leaves, where its table pointer is not `NULL`.
abbrev pub OnTable : (Reply → Table → Type 0) → Reply × Option Table → Type 0
OnTable P (r, none) = ⊥
OnTable P (r, some t) = P r t

pub guarded-OnTable :
    {W : Type 0} (P : Reply → Table → Type 0) (t : Table) (body : Table → M W (Reply × Table))
    (w : W)
    → IsValid t
    → Returns (body t w) (λ r. P r.0 r.1)
    → Returns (guarded (some t) body w) (OnTable P)
unfolding guarded
guarded-OnTable P t body w valid r =
    let test : (t.magic == table_magic) ≡ true = ground (arith, valid.magic) in
    simp test (Returns-bind (body t) _ w r (λ (a, t') w' p. returns _ w' p))
