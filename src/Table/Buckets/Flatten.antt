-- ===== src/Table/Buckets/Flatten.antt =====
-- All the entries of an array in one chain say what the array says.
use mathlib.Core.List.{flatten}
use source.Prelude.{
  ℕ, zero, suc, ◌≤◌, ◌≡◌, refl, List, [], ◌∷◌, length, get_or, length-append, ◌==◌, if◌then◌else◌,
  arith,
}
use source.Table.Buckets.{home, chain_of, lookup, IsPlaced, total}
use source.Table.Entry.Chains.{bytes_of, count, count-append, find-append, find-eq-none}
use source.Table.Entry.{find}
use source.Table.State.{Chain}

pub length-flatten : (bs : List Chain) → length (flatten bs) ≡ total bs
unfolding flatten total
length-flatten [] = refl
length-flatten (c ∷ bs) = omega (arith, length-append c (flatten bs), length-flatten bs)

count-flatten_nowhere :
    (q : List ℕ) (bs : List Chain)
    → ((i : ℕ) → count q (get_or bs i []) ≤ 0)
    → count q (flatten bs) ≡ 0
unfolding flatten count
count-flatten_nowhere q [] h = refl
count-flatten_nowhere q (c ∷ cs) h =
    omega (arith, count-append q c (flatten cs), h 0, count-flatten_nowhere q cs (λ i. h (suc i)))

flatten_only :
    (q : List ℕ) (bs : List Chain) (j : ℕ)
    → ((i : ℕ) → count q (get_or bs i []) ≤ (if j == i then 1 else 0))
    → (find q (flatten bs) ≡ find q (get_or bs j []))
      × (count q (flatten bs) ≡ count q (get_or bs j []))
unfolding flatten
flatten_only q [] j h = (refl, refl)
flatten_only q (c ∷ cs) zero h =
    let rest = count-flatten_nowhere q cs (λ i. ground (arith, h (suc i))) in
    rw (find-append, count-append, rest, find-eq-none q (flatten cs) rest) (ground arith)
flatten_only q (c ∷ cs) (suc j) h =
    let here : count q c ≡ 0 = ground (arith, h 0) in
    let (found, counted) = flatten_only q cs j (λ i. ground (arith, h (suc i))) in
    rw (find-append, count-append, here, find-eq-none q c here) (found, omega arith)

pub flatten-lookup :
    (bs : List Chain) (q : List ℕ)
    → IsPlaced bs
    → (bytes_of (find q (flatten bs)) ≡ lookup bs q)
      × (count q (flatten bs) ≡ count q (chain_of bs q))
unfolding lookup
flatten-lookup bs q placed =
    let (found, counted) = flatten_only q bs (home q (length bs)) (placed q) in (rw found, counted)
