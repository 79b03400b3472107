-- ===== src/Skip/Items.antt =====
-- What a skip list stands for: its entries in the order of the bottom row, each with the number of
-- its forward pointers. The pointers are what the entries behind a node make them.
use mathlib.Core.Path.{subst}
use mathlib.Core.List.{append_assoc}
use native.Mathlib.Decide.{dec_lt}
use source.Prelude.All.{All}
use source.Prelude.{
  ℕ, ◌≤◌, ◌<◌, ◌≡◌, refl, ap, ◌∙◌, Option, none, some, List, [], ◌∷◌, ◌++◌, length, ltb, ltb→lt,
  Bool-cases, inl, inr, get_elem?, if◌then◌else◌, arith,
}
use source.Skip.State.{Datum, Node, Heap, deref, next_of}
use source.Table.Memory.{done}

pub record Item : Type 0 where
  pub addr : ℕ
  pub key_addr : ℕ
  pub key : List ℕ
  pub value : Datum
  pub height : ℕ

-- The first item that stands on a level.
abbrev pub above : ℕ → List Item → Option Item
above level [] = none
above level (x ∷ xs) = if ltb level x.height then some x else above level xs

abbrev pub addr_of : Option Item → Option ℕ
addr_of none = none
addr_of (some x) = some x.addr

abbrev pub next : ℕ → List Item → Option ℕ
next level xs = addr_of (above level xs)

-- The last item that stands on a level, behind a first one that does.
abbrev pub pred_of : ℕ → Item → List Item → ℕ
pred_of level a [] = a.addr
pred_of level a (x ∷ xs) = if ltb level x.height then pred_of level x xs else pred_of level a xs

-- The node of an item is in memory.
pub record Stored (h : Heap) (x : Item) (node : Node) : Type 0 where
  pub at : h x.addr ≡ some node
  pub key_addr : node.key_addr ≡ x.key_addr
  pub key : node.key ≡ x.key
  pub value : node.value ≡ x.value
  pub height : length node.forward ≡ x.height

abbrev pub IsStored : Heap → Item → Type 0
IsStored h x = (node : Node) × Stored h x node

pub deref-Stored :
    (h : Heap) (x : Item) (node : Node) → Stored h x node → deref h x.addr ≡ done node
unfolding deref
deref-Stored h x node s = rw (s.at, deref)

-- So is it with its forward pointers, which lead to the next items that stand on each level.
pub record Points (h : Heap) (x : Item) (rest : List Item) : Type 0 where
  pub node : Node
  pub stored : Stored h x node
  pub links : (level : ℕ) → level < x.height → get_elem? node.forward level ≡ some (next level rest)

abbrev pub Linked : Heap → List Item → Type 0
Linked h [] = Unit
Linked h (x ∷ xs) = Points h x xs × Linked h xs

pub next_of-first :
    {h : Heap} (a : Item) (xs : List Item) (p : Points h a xs)
    → 0 < a.height
    → next_of p.node 0 ≡ done (next 0 xs)
unfolding next_of
next_of-first a xs p lt = rw (p.links 0 lt, next_of)

pub next-first : (x : Item) (xs : List Item) → 0 < x.height → next 0 (x ∷ xs) ≡ some x.addr
next-first x xs h = ground arith

pub Linked-IsStored : (h : Heap) (xs : List Item) → Linked h xs → All (IsStored h) xs
Linked-IsStored h [] l = tt
Linked-IsStored h (x ∷ xs) l = ((l.0.node, l.0.stored), Linked-IsStored h xs l.1)

pub above-All :
    (P : Item → Type 0) (level : ℕ) (xs : List Item) {y : Item}
    → All P xs
    → above level xs ≡ some y
    → P y × (level < y.height)
above-All P level [] a e = cc
above-All P level (x ∷ xs) {y} a e = elim (Bool-cases (ltb level x.height)) [
  | inl stands ↦
      let got : some x ≡ some y = rw stands at e in
      let same : x ≡ y = cc in subst (λ z. P z × (level < z.height)) same (a.0, ltb→lt _ _ stands)
  | inr not_here ↦ above-All P level xs a.1 (rw not_here at e)
]

-- The items on no level above `level`.
abbrev pub IsLow : ℕ → Item → Type 0
IsLow level x = x.height ≤ level

pub above-low :
    (level : ℕ) (xs ys : List Item) → All (IsLow level) xs → above level (xs ++ ys) ≡ above level ys
above-low level [] ys a = refl
above-low level (x ∷ xs) ys a = ground (arith, above-low level xs ys a.1)

pub pred_of-low :
    (level : ℕ) (a : Item) (xs : List Item) → All (IsLow level) xs → pred_of level a xs ≡ a.addr
pred_of-low level a [] p = refl
pred_of-low level a (x ∷ xs) p = ground (arith, pred_of-low level a xs p.1)

-- A list of items has none on a level, or a first one.
pub data Cut (level : ℕ) (xs : List Item) : Type 0 where
  low : All (IsLow level) xs → Cut level xs
  tall :
      (pre : List Item) (x : Item) (post : List Item)
      → xs ≡ pre ++ x ∷ post
      → All (IsLow level) pre
      → level < x.height
      → Cut level xs

Cut-behind :
    (level : ℕ) (x : Item) (xs : List Item) → IsLow level x → Cut level xs → Cut level (x ∷ xs)
Cut-behind level x xs p (low q) = low (p, q)
Cut-behind level x xs p (tall pre y post e q h) =
    tall (x ∷ pre) y post (ap (λ zs. x ∷ zs) e) (p, q) h

pub cut : (level : ℕ) (xs : List Item) → Cut level xs
cut level [] = low tt
cut level (x ∷ xs) = elim (dec_lt level x.height) [
  | yes h ↦ tall [] x xs refl tt h
  | no h ↦ Cut-behind level x xs (omega arith) (cut level xs)
]

-- The first one is what the level sees, whatever stands behind.
pub above-tall :
    (level : ℕ) (xs ys pre : List Item) (x : Item) (post : List Item)
    → xs ≡ pre ++ x ∷ post
    → All (IsLow level) pre
    → level < x.height
    → above level (xs ++ ys) ≡ some x
above-tall level xs ys pre x post e a h =
    ap (λ (zs : List Item). above level (zs ++ ys)) e
    ∙ rw (append_assoc, above-low level pre _ a) (ground arith)

-- Behind the items before it, a tall one is what all lower levels see.
pub pred_of-tall :
    (level : ℕ) (a : Item) (pre : List Item) (x : Item) (post : List Item)
    → level < x.height
    → pred_of level a (pre ++ x ∷ post) ≡ pred_of level x post
pred_of-tall level a [] x post h = ground arith
pred_of-tall level a (y ∷ pre) x post h =
    ground (arith, pred_of-tall level a pre x post h, pred_of-tall level y pre x post h)

pub Linked-right : (h : Heap) (xs ys : List Item) → Linked h (xs ++ ys) → Linked h ys
Linked-right h [] ys l = l
Linked-right h (x ∷ xs) ys l = Linked-right h xs ys l.1
