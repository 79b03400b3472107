-- ===== src/Table/Linear/Walk.antt =====
-- The linear access visits every entry once, bucket by bucket.
use mathlib.Core.List.{flatten}
use source.Prelude.{
  ℕ, zero, suc, ◌+◌, ◌-◌, ◌^◌, ◌≤◌, ◌<◌, ◌≡◌, refl, false, sym, ap, ◌∙◌, Option, none, some, List,
  [], ◌∷◌, ◌++◌, length, drop, get_or, get_elem?, length-drop, drop-drop, get_or-drop,
  get_elem?-drop, arith, leb,
}
use source.Prelude.Words.{u32}
use source.Table.Buckets.{slot-get_or, length-get_or-le}
use source.Table.Buckets.Flatten.{length-flatten}
use source.Table.Linear.Gather.{gather, collect}
use source.Table.Linear.{
  scan, first_entry, next_bucket, next_from, next_in, next_entry, at_bucket, steps,
}
use source.Table.Memory.{done}
use source.Table.State.{Error, no_error, not_found, Entry, Chain, Linear, Table}
use source.Table.Valid.{IsValid}

-- The first entry of an array, with its bucket, and the entries from there on.
data Scanned (i : ℕ) (bs : List Chain) : Option (ℕ × Entry) → Type 0 where
  nowhere : flatten bs ≡ [] → Scanned i bs none
  at :
      {e : Entry} {k : ℕ} (j : ℕ) (c : Chain)
      → k ≡ i + j
      → j < length bs
      → get_or bs j [] ≡ e ∷ c
      → flatten bs ≡ e ∷ (c ++ flatten (drop (suc j) bs))
      → Scanned i bs (some (k, e))

scan-Scanned :
    (n i : ℕ) (bs : List Chain)
    → n ≡ length bs
    → (r : Option (ℕ × Entry)) × (scan n i bs ≡ done r) × Scanned i bs r
unfolding scan flatten
scan-Scanned zero i [] h = (none, refl, nowhere refl)
scan-Scanned zero i (c ∷ bs) h = absurd (omega arith)
scan-Scanned (suc n) i [] h = absurd (omega arith)
scan-Scanned (suc n) i ([] ∷ bs) h =
    let (r, run, s) = scan-Scanned n (i + 1) bs (omega arith) in (r, run, later s)
  where
    later : {r : Option (ℕ × Entry)} → Scanned (i + 1) bs r → Scanned i ([] ∷ bs) r
    later (nowhere e) = nowhere e
    later (at j c here lt found rest) = at (suc j) c (omega arith) (omega arith) found rest
scan-Scanned (suc n) i ((e ∷ c) ∷ bs) h =
    (some (i, e), refl, at 0 c (omega arith) (omega arith) refl refl)

-- The entries of the buckets from `i` on.
abbrev from_bucket : Table → ℕ → List Entry
from_bucket t i = flatten (drop i t.buckets)

abbrev bucket : Table → ℕ → Chain
bucket t i = get_or t.buckets i []

-- `l` stands at an entry `e`, with `c` behind it in its bucket.
record StandsAt (t : Table) (l : Linear) (e : Entry) (c : Chain) : Type 0 where
  within : l.bucket_c < t.bucket_n
  short : l.entry_c + length c + 1 < 2 ^ 31
  here : drop l.entry_c (bucket t l.bucket_c) ≡ e ∷ c

-- What `next_entry` reports, where `es` are the entries that are left.
data Next (t : Table) : List Entry → Error × Option Entry × Linear → Type 0 where
  over : {l : Linear} → Next t [] (not_found, none, l)
  more :
      {l : Linear} {e : Entry} (c : Chain)
      → StandsAt t l e c
      → Next t (e ∷ (c ++ from_bucket t (suc l.bucket_c))) (no_error, some e, l)

module _ (t : Table) (valid : IsValid t) (few : t.entry_n < 2 ^ 31 - 1) where
  -- The first entry of bucket `k`.
  stands_first :
      (l : Linear) (k : ℕ) {e : Entry} {c : Chain}
      → k < t.bucket_n
      → bucket t k ≡ e ∷ c
      → StandsAt t (at_bucket l k) e c
  stands_first l k within here = record {
    within = within;
    short = omega (arith, length-get_or-le t.buckets k, valid.counted, ap length here);
    here = here;
  }

  next_bucket-Next :
      (l : Linear) (i : ℕ)
      → i ≤ t.bucket_n
      → (r : Error × Option Entry × Linear) × (next_bucket t l i ≡ done r)
        × Next t (from_bucket t i) r
  unfolding next_bucket
  next_bucket-Next l i h =
      let (r, run, s) =
        scan-Scanned (t.bucket_n - i) i (drop i t.buckets) (rw (length-drop, valid.width) refl) in
      let (r', run', s') = by_scan r s in (r', rw run run', s')
    where
      by_scan :
          (r : Option (ℕ × Entry))
          → Scanned i (drop i t.buckets) r
          → (r' : Error × Option Entry × Linear) × (next_from t l r ≡ done r')
            × Next t (from_bucket t i) r'
      by_scan none (nowhere e) = ((not_found, none, at_bucket l t.bucket_n), refl, rw e over)
      by_scan (some (k, e)) (at j c place lt found rest) =
          let next : i + suc j ≡ suc k = omega arith in
          let within : k < t.bucket_n = omega (arith, length-drop i t.buckets, valid.width) in
          let head : bucket t k ≡ e ∷ c =
            ap (bucket t) place ∙ sym (get_or-drop i j t.buckets []) ∙ found in
          (
            (no_error, some e, at_bucket l k),
            refl,
            rw (rest, drop-drop, next) (more c (stands_first l k within head)),
          )

  next_in-Next :
      (l : Linear) (e : Entry) (c : Chain)
      → StandsAt t l e c
      → (r : Error × Option Entry × Linear) × (next_in t
            (record l { entry_c = l.entry_c + 1 })
            (get_elem? (e ∷ c) 1)
          ≡ done r)
        × Next t (c ++ from_bucket t (suc l.bucket_c)) r
  next_in-Next l e [] at_e = next_bucket-Next _ (suc l.bucket_c) at_e.within
  next_in-Next l e (d ∷ c) at_e = (
    (no_error, some d, record l { entry_c = l.entry_c + 1 }),
    refl,
    more c (record {
      within = at_e.within;
      short = omega (arith, at_e.short);
      here = sym (drop-drop 1 l.entry_c (bucket t l.bucket_c)) ∙ ap (drop 1) at_e.here;
    }),
  )

  -- From an entry with `c` behind it in its bucket.
  next_entry-Next :
      (l : Linear) (e : Entry) (c : Chain)
      → StandsAt t l e c
      → (r : Error × Option Entry × Linear) × (next_entry t l ≡ done r)
        × Next t (c ++ from_bucket t (suc l.bucket_c)) r
  unfolding next_entry
  next_entry-Next l e c at_e =
      let inside : leb t.bucket_n l.bucket_c ≡ false = ground (arith, at_e.within) in
      let counter : u32 (l.entry_c + 1) ≡ l.entry_c + 1 = omega (arith, at_e.short) in
      let down : steps (l.entry_c + 1) ≡ l.entry_c + 1 = ground (arith, at_e.short) in
      let chain = slot-get_or t.buckets l.bucket_c (omega (arith, at_e.within, valid.width)) in
      let behind : get_elem? (bucket t l.bucket_c) (l.entry_c + 1) ≡ get_elem? (e ∷ c) 1 =
        sym (get_elem?-drop l.entry_c 1 (bucket t l.bucket_c))
        ∙ ap (λ x. get_elem? x 1) at_e.here in
      simp (inside, chain, counter, down, behind) (next_in-Next l e c at_e)

  -- `gather` from an entry on, with places for it and all that are behind it.
  abbrev Gathers : ℕ → Type 0
  Gathers slots =
      (l : Linear) (code : Error) (e : Entry) (c : Chain)
      → StandsAt t l e c
      → length (c ++ from_bucket t (suc l.bucket_c)) < slots
      → gather slots t l code (some e) ≡ done (not_found, e ∷ (c ++ from_bucket t (suc l.bucket_c)))

  gather-Next :
      (slots : ℕ) {es : List Entry} {r : Error × Option Entry × Linear}
      → Gathers slots
      → Next t es r
      → length es < suc slots
      → gather slots t r.2 r.0 r.1 ≡ done (not_found, es)
  unfolding gather
  gather-Next slots rec over room = refl
  gather-Next slots rec (more {l} {e} c at_e) room = rec l no_error e c at_e (omega arith)

  gather-Gathers : (slots : ℕ) → Gathers slots
  unfolding gather
  gather-Gathers zero l code e c at_e room = absurd (omega arith)
  gather-Gathers (suc slots) l code e c at_e room =
      let (r, run, s) = next_entry-Next l e c at_e in
      rw (run, gather-Next slots (gather-Gathers slots) s room) refl

  collect-Scanned :
      (slots : ℕ) (l : Linear) {r : Option (ℕ × Entry)}
      → t.entry_n ≤ slots
      → scan t.bucket_n 0 t.buckets ≡ done r
      → Scanned 0 t.buckets r
      → collect slots t l ≡ done (not_found, flatten t.buckets)
  unfolding collect first_entry gather
  collect-Scanned slots l room run (nowhere e) = rw (run, e) refl
  collect-Scanned slots l room run (at {e} {k} j c place lt found rest) =
      let j_k : suc j ≡ suc k = omega arith in
      let all : flatten t.buckets ≡ e ∷ (c ++ from_bucket t (suc k)) =
        rest ∙ ap (λ (n : ℕ). e ∷ (c ++ from_bucket t n)) j_k in
      let within : k < t.bucket_n = omega (arith, valid.width) in
      let k_j : k ≡ j = omega arith in
      let head : bucket t k ≡ e ∷ c = ap (bucket t) k_j ∙ found in
      let count = length-flatten t.buckets in
      rw run (
        gather-Gathers slots (at_bucket l k) not_found e c (stands_first l k within head)
          (omega (arith, ap length all, valid.counted))
        ∙ ap (λ (es : List Entry). done (not_found, es)) (sym all))

-- On a valid table with fewer than 2 ^ 31 - 1 entries, `first_entry` and then `next_entry` until it
-- finds no more visit every entry of every bucket once, in the order of the array. An array of
-- `entry_n` places holds them all, with no write past its end.
pub collect-flatten :
    (slots : ℕ) (t : Table) (l : Linear)
    → IsValid t
    → t.entry_n < 2 ^ 31 - 1
    → t.entry_n ≤ slots
    → collect slots t l ≡ done (not_found, flatten t.buckets)
collect-flatten slots t l valid few room =
    let (r, run, s) = scan-Scanned t.bucket_n 0 t.buckets (sym valid.width) in
    collect-Scanned t valid few slots l room run s
