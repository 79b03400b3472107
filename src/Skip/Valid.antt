-- ===== src/Skip/Valid.antt =====
-- The invariant of a skip list, and the map from keys to data that it stands for.
pub mod Split
pub mod Lookup
use Prim.Native.Nat.{Ordering}
use source.Prelude.All.{All, Pairwise}
use source.Prelude.{ℕ, ◌^◌, ◌<◌, ◌≡◌, ◌≢◌, ◌⊎◌, false, Option, none, some, List, [], ◌∷◌, length}
use source.Skip.Items.{Item, IsLow, Linked}
use source.Skip.Order.{IsShort, IsOrder}
use source.Skip.Search.{compare_with}
use source.Skip.State.{Compare, SkipList, skip_magic}

-- Keys that go up, so that none occurs twice.
abbrev pub IsBelow : Compare → Item → Item → Type 0
IsBelow cmp x y = cmp x.key y.key ≡ Ordering.lt

abbrev pub IsSorted : Compare → List Item → Type 0
IsSorted cmp = Pairwise (IsBelow cmp)

abbrev pub Differs : Item → Item → Type 0
Differs x y = x.addr ≢ y.addr

abbrev pub Distinct : List Item → Type 0
Distinct = Pairwise Differs

abbrev pub Among : ℕ → List Item → Type 0
Among p [] = ⊥
Among p (x ∷ xs) = (x.addr ≡ p) ⊎ Among p xs

-- A pointer to an entry, or `NULL`.
abbrev pub IsEntry : Option ℕ → List Item → Type 0
IsEntry none xs = Unit
IsEntry (some p) xs = Among p xs

abbrev pub HasShortKey : Item → Type 0
HasShortKey x = IsShort x.key

abbrev pub Stands : Item → Type 0
Stands x = 0 < x.height

abbrev pub compare_of : SkipList → Compare
compare_of s = compare_with s.compare

-- The list in memory has the head node `t` and the entries `xs`: each forward pointer leads to the
-- next node that is as tall, the keys go up, and the head is as tall as any entry.
pub record IsValid (s : SkipList) (t : Item) (xs : List Item) : Type 0 where
  pub magic : s.magic ≡ skip_magic
  pub in_memory : s.mmapped ≡ false
  pub top : t.addr ≡ s.top
  pub linked : Linked s.heap (t ∷ xs)
  pub distinct : Distinct (t ∷ xs)
  pub low : All (IsLow t.height) xs
  pub tall : All Stands xs
  pub empty : xs ≡ [] → t.height ≡ 0
  pub counted : length xs ≡ s.entry_n
  pub few : s.entry_n < 2 ^ 32
  pub order : IsOrder (compare_of s)
  pub short : All HasShortKey xs
  pub sorted : IsSorted (compare_of s) xs
  pub this : IsEntry s.this_p xs

-- The entry under a key.
unfoldable pub lookup : Compare → List ℕ → List Item → Option Item
lookup cmp k [] = none
lookup cmp k (x ∷ xs) = elim (cmp x.key k) [ Ordering.eq ↦ some x | _ ↦ lookup cmp k xs ]

-- The entries before a key, and those from it on.
unfoldable pub before : Compare → List ℕ → List Item → List Item
before cmp k [] = []
before cmp k (x ∷ xs) = elim (cmp x.key k) [ Ordering.lt ↦ x ∷ before cmp k xs | _ ↦ [] ]

unfoldable pub from : Compare → List ℕ → List Item → List Item
from cmp k [] = []
from cmp k (x ∷ xs) = elim (cmp x.key k) [ Ordering.lt ↦ from cmp k xs | _ ↦ x ∷ xs ]
