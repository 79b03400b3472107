-- ===== src/Table/Buckets.antt =====
-- An array of buckets read as a map from keys to data: where entries stand, and writes to one bucket.
pub mod Flatten
use source.Prelude.{
  ℕ, zero, suc, ◌+◌, ◌%◌, ◌^◌, ◌≤◌, ◌<◌, ◌≡◌, refl, true, Option, none, List, [], ◌∷◌, length,
  get_or, set, replicate, length-set, get_or-set, get_or-replicate, ◌==◌, if◌then◌else◌, arith,
}
use source.Table.Entry.Chains.{bytes_of, count}
use source.Table.Entry.Keys.{same_key-eq}
use source.Table.Entry.{same_key, find, bucket_of, slot}
use source.Table.Hash.{hash}
use source.Table.Memory.{done}
use source.Table.State.{Cell, Chain}

-- The bucket that a key belongs to.
pub home : List ℕ → ℕ → ℕ
home q n = hash q 0 % n

pub home-lt : (q : List ℕ) (n : ℕ) → 0 < n → home q n < n
unfolding home
home-lt q n h = omega arith

pub home_congr : (a b : List ℕ) (n : ℕ) → same_key a b ≡ true → home a n ≡ home b n
home_congr a b n h = rw (same_key-eq a b h)

pub bucket_of-home : (q : List ℕ) (n : ℕ) → 0 < n → n < 2 ^ 31 → bucket_of q n ≡ done (home q n)
unfolding bucket_of home
bucket_of-home q zero p h = absurd (omega arith)
bucket_of-home q (suc n) p h = ground arith

pub slot-get_or : (bs : List Chain) (i : ℕ) → i < length bs → slot bs i ≡ done (get_or bs i [])
unfolding slot
slot-get_or [] i h = absurd (omega arith)
slot-get_or (c ∷ bs) zero h = refl
slot-get_or (c ∷ bs) (suc i) h = slot-get_or bs i (omega arith)

abbrev pub chain_of : List Chain → List ℕ → Chain
chain_of bs q = get_or bs (home q (length bs)) []

-- The map that an array of buckets stands for.
unfoldable pub lookup : List Chain → List ℕ → Option (List Cell)
lookup bs q = bytes_of (find q (chain_of bs q))

-- A key occurs at most once, and only in its own bucket.
abbrev pub IsPlaced : List Chain → Type 0
IsPlaced bs =
    (q : List ℕ) (i : ℕ) → count q (get_or bs i []) ≤ (if home q (length bs) == i then 1 else 0)

-- The number of entries in all buckets.
unfoldable pub total : List Chain → ℕ
total [] = 0
total (c ∷ bs) = length c + total bs

pub total-set :
    (bs : List Chain) (i : ℕ) (c : Chain)
    → i < length bs
    → total (set bs i c) + length (get_or bs i []) ≡ total bs + length c
unfolding total
total-set [] i c h = absurd (omega arith)
total-set (d ∷ bs) zero c h = omega arith
total-set (d ∷ bs) (suc i) c h = omega (arith, total-set bs i c (omega arith))

pub length-get_or-le : (bs : List Chain) (i : ℕ) → length (get_or bs i []) ≤ total bs
unfolding total
length-get_or-le [] i = omega arith
length-get_or-le (c ∷ bs) zero = omega arith
length-get_or-le (c ∷ bs) (suc i) = omega (arith, length-get_or-le bs i)

pub total-replicate : (n : ℕ) → total (replicate n []) ≡ 0
unfolding total
total-replicate zero = refl
total-replicate (suc n) = omega (arith, total-replicate n)

pub replicate-IsPlaced : (n : ℕ) → IsPlaced (replicate n [])
unfolding count
replicate-IsPlaced n q i = rw get_or-replicate (omega arith)

pub lookup-replicate : (n : ℕ) (q : List ℕ) → lookup (replicate n []) q ≡ none
unfolding lookup find
lookup-replicate n q = rw get_or-replicate

-- The array `bs'` reads as `bs` with `v` under the key `k`, and has `n` entries.
pub record Writes (k : List ℕ) (v : Option (List Cell)) (n : ℕ) (bs bs' : List Chain) : Type 0 where
  pub width : length bs' ≡ length bs
  pub entries : total bs' ≡ n
  pub placed : IsPlaced bs'
  pub reads : (q : List ℕ) → lookup bs' q ≡ (if same_key k q then v else lookup bs q)

module _ (bs : List Chain) (pos : 0 < length bs) (placed : IsPlaced bs) (k : List ℕ) where
  -- A write to the bucket of `k` that changes what it says of `k` alone.
  pub set-Writes :
      (c : Chain) (v : Option (List Cell)) (n : ℕ)
      → n + length (chain_of bs k) ≡ total bs + length c
      → ((q : List ℕ) → count q c ≤ (if same_key k q then 1 else count q (chain_of bs k)))
      → ((q : List ℕ)
          → bytes_of (find q c) ≡ (if same_key k q then v else bytes_of (find q (chain_of bs k))))
      → Writes k v n bs (set bs (home k (length bs)) c)
  unfolding lookup
  set-Writes c v n size few reads =
      let h = home-lt k (length bs) pos in
      record {
        width = length-set bs _ c;
        entries = omega (arith, total-set bs _ c h);
        placed = λ q j.
            rw (length-set, get_or-set bs _ j c [] h)
              (ground (arith, placed q j, few q, home_congr k q (length bs)));
        reads = λ q.
            rw (length-set, get_or-set bs _ (home q (length bs)) c [] h)
              (ground (arith, reads q, home_congr k q (length bs)));
      }
