-- ===== src/Table/Entry/Chains.antt =====
-- What `find`, `unlink` and `assign` do to one chain.
use source.Prelude.{
  ℕ, ◌+◌, ◌≤◌, ◌≡◌, refl, true, Option, none, some, List, [], ◌∷◌, ◌++◌, length, if◌then◌else◌,
  arith,
}
use source.Table.Entry.Keys.{same_key_left, same_key_right}
use source.Table.Entry.{same_key, find, unlink, assign}
use source.Table.State.{Cell, Entry, Chain}

-- The data of an entry that may be missing.
abbrev pub bytes_of : Option Entry → Option (List Cell)
bytes_of none = none
bytes_of (some e) = some e.bytes

-- How many entries of a chain have the key.
unfoldable pub count : List ℕ → Chain → ℕ
count q [] = 0
count q (e ∷ c) = (if same_key e.key q then 1 else 0) + count q c

pub count-append : (q : List ℕ) (a b : Chain) → count q (a ++ b) ≡ count q a + count q b
unfolding count
count-append q [] b = omega arith
count-append q (e ∷ a) b = omega (arith, count-append q a b)

abbrev pub first_some : {A : Type 0} → Option A → Option A → Option A
first_some none b = b
first_some (some a) b = some a

pub find-append : (q : List ℕ) (a b : Chain) → find q (a ++ b) ≡ first_some (find q a) (find q b)
unfolding find
find-append q [] b = refl
find-append q (e ∷ a) b = ground (arith, find-append q a b)

pub find-eq-none : (q : List ℕ) (c : Chain) → count q c ≡ 0 → find q c ≡ none
unfolding count find
find-eq-none q [] h = refl
find-eq-none q (e ∷ c) h = ground (arith, find-eq-none q c)

pub count-eq-zero : (q : List ℕ) (c : Chain) → find q c ≡ none → count q c ≡ 0
unfolding count find
count-eq-zero q [] h = refl
count-eq-zero q (e ∷ c) h = ground (arith, count-eq-zero q c)

pub find-key : (k : List ℕ) (c : Chain) {e : Entry} → find k c ≡ some e → same_key e.key k ≡ true
unfolding find
find-key k [] h = cc
find-key k (d ∷ c) {e} h = ground (arith, find-key k c {e = e})

pub length-find : (k : List ℕ) (c : Chain) {e : Entry} → find k c ≡ some e → length e.key ≡ length k
unfolding same_key
length-find k c {e} h = let same : same_key e.key k ≡ true = find-key k c h in ground arith

-- Both keys are held fixed: `k` is changed, and `q` is looked up.
module _ (k q : List ℕ) where
  pub find-unlink :
      (c : Chain) → count q c ≤ 1 → find q (unlink k c) ≡ (if same_key k q then none else find q c)
  unfolding count find unlink
  find-unlink [] h = ground arith
  find-unlink (e ∷ c) h =
      ground
        (arith, find-unlink c, find-eq-none q c, same_key_left e.key k q, same_key_right k q e.key)

  pub count-unlink :
      (c : Chain) {e : Entry}
      → find k c ≡ some e
      → count q (unlink k c) + (if same_key k q then 1 else 0) ≡ count q c
  unfolding count find unlink
  count-unlink [] h = cc
  count-unlink (d ∷ c) {e} h = ground (arith, count-unlink c {e = e}, same_key_left d.key k q)

  pub find-assign :
      (bs : List Cell) (c : Chain) {e : Entry}
      → find k c ≡ some e
      → bytes_of (find q (assign k bs c)) ≡ (if same_key k q then some bs else bytes_of (find q c))
  unfolding find assign
  find-assign bs [] h = cc
  find-assign bs (d ∷ c) {e} h =
      ground (arith, find-assign bs c {e = e}, same_key_left d.key k q, same_key_right k q d.key)

  pub count-assign : (bs : List Cell) (c : Chain) → count q (assign k bs c) ≡ count q c
  unfolding count assign
  count-assign bs [] = refl
  count-assign bs (d ∷ c) = ground (arith, count-assign bs c)

pub length-unlink :
    (k : List ℕ) (c : Chain) {e : Entry} → find k c ≡ some e → length (unlink k c) + 1 ≡ length c
unfolding find unlink
length-unlink k [] h = cc
length-unlink k (d ∷ c) {e} h = ground (arith, length-unlink k c {e = e})

pub length-assign : (k : List ℕ) (bs : List Cell) (c : Chain) → length (assign k bs c) ≡ length c
unfolding assign
length-assign k bs [] = refl
length-assign k bs (d ∷ c) = ground (arith, length-assign k bs c)
