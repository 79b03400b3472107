-- ===== src/Table/Adjust/Rehash.antt =====
-- The loops of `table_adjust` write inside the new array, and lose and double no entry.
use mathlib.Core.List.{flatten}
use mathlib.Core.Path.{fun_ext, subst}
use source.Prelude.{
  ℕ, ◌+◌, ◌^◌, ◌≤◌, ◌<◌, ◌≡◌, refl, ◌∙◌, some, List, [], ◌∷◌, ◌++◌, length, set, get_or-set,
  length-set, replicate, length-replicate, get_or-replicate, if◌then◌else◌, arith,
}
use source.Table.Adjust.{rehash, rehash_chain, rehash_all}
use source.Table.Buckets.{
  home, home-lt, home_congr, bucket_of-home, slot-get_or, chain_of, lookup, IsPlaced, total, Writes,
  total-replicate, replicate-IsPlaced, lookup-replicate, set-Writes,
}
use source.Table.Buckets.Flatten.{length-flatten, flatten-lookup}
use source.Table.Entry.Chains.{bytes_of, count, first_some, find-eq-none}
use source.Table.Entry.{find, same_key}
use source.Table.Memory.{done, and_then, and_then_assoc}
use source.Table.State.{Entry, Chain}

rehash_chain-append :
    (n : ℕ) (a b : Chain) (bs : List Chain)
    → rehash_chain n (a ++ b) bs ≡ and_then (rehash_chain n a bs) (rehash_chain n b)
unfolding rehash_chain
rehash_chain-append n [] b bs = refl
rehash_chain-append n (e ∷ a) b bs = simp (and_then_assoc, rehash_chain-append n a b)

-- The two nested loops are one loop over all the entries.
rehash_all-flatten :
    (n : ℕ) (cs bs : List Chain) → rehash_all n cs bs ≡ rehash_chain n (flatten cs) bs
unfolding rehash_all rehash_chain flatten
rehash_all-flatten n [] bs = refl
rehash_all-flatten n (c ∷ cs) bs = rw (rehash_chain-append, ← fun_ext (rehash_all-flatten n cs))

-- A new array of `n` buckets after the entries `es` have been moved into `bs`.
record Moved (es : Chain) (bs r : List Chain) : Type 0 where
  width : length r ≡ length bs
  entries : total r ≡ total bs + length es
  placed : IsPlaced r
  reads : (q : List ℕ) → lookup r q ≡ first_some (bytes_of (find q es)) (lookup bs q)

rehash-Writes :
    (e : Entry) (bs : List Chain)
    → 0 < length bs
    → length bs < 2 ^ 31
    → IsPlaced bs
    → ((q : List ℕ) → (if same_key e.key q then 1 else 0) + count q (chain_of bs q) ≤ 1)
    → (r : List Chain) × (rehash (length bs) e bs ≡ done r)
      × Writes e.key (some e.bytes) (total bs + 1) bs r
      × ((q : List ℕ)
          → count q (chain_of r q) ≡ (if same_key e.key q then 1 else 0) + count q (chain_of bs q))
unfolding rehash count find
rehash-Writes e bs pos small placed once =
    let h = home-lt e.key (length bs) pos in
    let c = chain_of bs e.key in
    (
      set bs (home e.key (length bs)) (e ∷ c),
      rw (bucket_of-home e.key (length bs) pos small, slot-get_or bs _ h) refl,
      set-Writes bs pos placed e.key (e ∷ c) (some e.bytes) _ (omega arith)
          (λ q. ground (arith, once q, home_congr e.key q (length bs))) (λ q. ground arith),
      λ q.
          rw (length-set, get_or-set bs _ (home q (length bs)) (e ∷ c) [] h)
            (ground (arith, home_congr e.key q (length bs))),
    )

rehash_chain-Moved :
    (n : ℕ) (es : Chain) (bs : List Chain)
    → length bs ≡ n
    → 0 < n
    → n < 2 ^ 31
    → IsPlaced bs
    → ((q : List ℕ) → count q es + count q (chain_of bs q) ≤ 1)
    → (r : List Chain) × (rehash_chain n es bs ≡ done r) × Moved es bs r
unfolding rehash_chain count find
rehash_chain-Moved n [] bs width pos small placed once =
    (bs, refl, record { width = refl; entries = omega arith; placed = placed; reads = λ q. refl })
rehash_chain-Moved n (e ∷ es) bs width pos small placed once =
    let (b, run, w, counts) =
      rehash-Writes e bs (omega arith) (omega arith) placed (λ q. omega (arith, once q)) in
    let (r, run', m) =
      rehash_chain-Moved n es b (w.width ∙ width) pos small w.placed
        (λ q. omega (arith, once q, counts q)) in
    (
      r,
      rw (subst (λ k. rehash k e bs ≡ done b) width run) run',
      record {
        width = m.width ∙ w.width;
        entries = omega arith;
        placed = m.placed;
        reads = λ q. ground (arith, m.reads q, w.reads q, once q, find-eq-none q es);
      },
    )

-- Moving every entry of a well-placed array into `n` empty buckets runs without a fault. The new
-- array has the width asked for, as many entries, each in its place, and the same data under
-- every key.
pub rehash_all-replicate :
    (n : ℕ) (bs : List Chain)
    → 0 < n
    → n < 2 ^ 31
    → IsPlaced bs
    → (r : List Chain) × (rehash_all n bs (replicate n []) ≡ done r)
      × (length r ≡ n)
      × (total r ≡ total bs)
      × IsPlaced r
      × ((q : List ℕ) → lookup r q ≡ lookup bs q)
unfolding count
rehash_all-replicate n bs pos small placed =
    let (r, run, m) =
      rehash_chain-Moved n (flatten bs) (replicate n []) (length-replicate n []) pos small
        (replicate-IsPlaced n)
        (λ q.
          rw (get_or-replicate, (flatten-lookup bs q placed).1)
            (ground (arith, placed q (home q (length bs))))) in
    (
      r,
      rw rehash_all-flatten run,
      m.width ∙ length-replicate n [],
      omega (arith, m.entries, total-replicate n, length-flatten bs),
      m.placed,
      λ q. rw (m.reads q, (flatten-lookup bs q placed).0, lookup-replicate) (ground arith),
    )
