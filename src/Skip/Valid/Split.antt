-- ===== src/Skip/Valid/Split.antt =====
-- A key splits the entries in two, and the search finds the place.
use Prim.Native.Nat.{Ordering}
use mathlib.Core.Path.{subst}
use source.Prelude.All.{All, All-left, All-right}
use source.Prelude.{
  ℕ, ◌+◌, ◌≡◌, ◌≢◌, refl, sym, ◌∙◌, ap, Bool, Option, none, some, List, [], ◌∷◌, ◌++◌, length,
  length-append, inl, inr, true, false, ◌==◌, ◌<◌, some, arith,
}
use source.Skip.Items.{Item, deref-Stored, addr_of, IsLow, Linked}
use source.Skip.Order.{IsShort, IsOrder, swap}
use source.Skip.Search.Turns.{IsLess, IsMore, NotBefore, found_on, preds}
use source.Skip.Search.Finds.{find_loop-Finds}
use source.Skip.Search.{find_node}
use source.Skip.State.{Compare, SkipList, deref}
use source.Skip.Valid.{
  Among, IsSorted, HasShortKey, Stands, compare_of, IsValid, lookup, before, from,
}
use source.Table.Memory.{done}

module _ (cmp : Compare) (k : List ℕ) where
  pub before-from : (xs : List Item) → before cmp k xs ++ from cmp k xs ≡ xs
  unfolding before from
  before-from [] = refl
  before-from (x ∷ xs) = ground (arith, before-from xs)

  pub before-IsLess : (xs : List Item) → All (IsLess cmp k) (before cmp k xs)
  unfolding before
  before-IsLess [] = tt
  before-IsLess (x ∷ xs) = by_order (before-IsLess xs) (cmp x.key k) refl
    where
      by_order :
          All (IsLess cmp k) (before cmp k xs)
          → (o : Ordering) → cmp x.key k ≡ o
          → All (IsLess cmp k) (elim o [ Ordering.lt ↦ x ∷ before cmp k xs | _ ↦ [] ])
      by_order rest Ordering.lt e = (e, rest)
      by_order rest _ e = tt

  -- What stands behind an entry that is not before the key is after it.
  module _ (order : IsOrder cmp) (short_k : IsShort k) where
    after-IsMore :
        (x : Item) (xs : List Item)
        → IsShort x.key
        → All HasShortKey xs
        → cmp x.key k ≢ Ordering.lt
        → All (λ y. cmp x.key y.key ≡ Ordering.lt) xs
        → All (IsMore cmp k) xs
    after-IsMore x [] p ps late all = tt
    after-IsMore x (y ∷ ys) p ps late all =
        let back : cmp y.key x.key ≡ Ordering.gt = order.flip x.key y.key p ps.0 ∙ ap swap all.0 in
        (by_order back (cmp x.key k) refl, after-IsMore x ys p ps.1 late all.1)
      where
        by_order : cmp y.key x.key ≡ Ordering.gt → (o : Ordering) → cmp x.key k ≡ o → IsMore cmp k y
        by_order back Ordering.lt e = absurd (late e)
        by_order back Ordering.eq e = sym (order.same x.key k y.key p short_k ps.0 e) ∙ back
        by_order back Ordering.gt e = order.trans y.key x.key k ps.0 p short_k back e

    pub from-NotBefore :
        (xs : List Item) → All HasShortKey xs → IsSorted cmp xs → NotBefore cmp k (from cmp k xs)
    unfolding from
    from-NotBefore [] ps sorted = tt
    from-NotBefore (x ∷ xs) ps sorted =
        by_order (from-NotBefore xs ps.1 sorted.1) (cmp x.key k) refl
      where
        by_order :
            NotBefore cmp k (from cmp k xs)
            → (o : Ordering) → cmp x.key k ≡ o
            → NotBefore cmp k (elim o [ Ordering.lt ↦ from cmp k xs | _ ↦ x ∷ xs ])
        by_order rest Ordering.lt e = rest
        by_order rest Ordering.eq e = (λ z. cc, after-IsMore x xs ps.0 ps.1 (λ z. cc) sorted.0)
        by_order rest Ordering.gt e = (λ z. cc, after-IsMore x xs ps.0 ps.1 (λ z. cc) sorted.0)

  pub lookup-more : (xs : List Item) → All (IsMore cmp k) xs → lookup cmp k xs ≡ none
  unfolding lookup
  lookup-more [] more = refl
  lookup-more (x ∷ xs) more = rw (more.0, lookup) (lookup-more xs more.1)

  pub lookup-All :
      (P : Item → Type 0) (xs : List Item) {x : Item} → All P xs → lookup cmp k xs ≡ some x → P x
  unfolding lookup
  lookup-All P [] all e = cc
  lookup-All P (y ∷ ys) {x} all e = by_order (lookup-All P ys all.1) (cmp y.key k) e
    where
      by_order :
          (lookup cmp k ys ≡ some x → P x)
          → (o : Ordering)
          → elim o as (λ _. Option Item) [ Ordering.eq ↦ some y | _ ↦ lookup cmp k ys ] ≡ some x
          → P x
      by_order rec Ordering.eq e = let same : y ≡ x = cc in subst P same all.0
      by_order rec Ordering.lt e = rec e
      by_order rec Ordering.gt e = rec e

  -- The entry is the first of those from the key on.
  pub found_on-lookup :
      (xs : List Item)
      → All Stands xs
      → NotBefore cmp k (from cmp k xs)
      → found_on cmp k 0 (from cmp k xs) ≡ addr_of (lookup cmp k xs)
  unfolding lookup from
  found_on-lookup [] tall behind = refl
  found_on-lookup (x ∷ xs) tall behind = ground (arith, found_on-lookup xs tall.1, lookup-more xs)

  pub found_on-top :
      (level : ℕ) (xs : List Item) → All (IsLow level) xs → found_on cmp k level xs ≡ none
  found_on-top level [] low = refl
  found_on-top level (x ∷ xs) low = ground arith

-- The head is read.
pub deref-top :
    (s : SkipList) (t : Item) (xs : List Item) (valid : IsValid s t xs)
    → deref s.heap s.top ≡ done valid.linked.0.node
deref-top s t xs valid =
    ap (deref s.heap) (sym valid.top) ∙ deref-Stored s.heap t _ valid.linked.0.stored

-- The head has pointers if there are entries.
pub head_empty :
    (s : SkipList) (t : Item) (valid : IsValid s t [])
    → (length valid.linked.0.node.forward == 0) ≡ true
head_empty s t valid = ground (arith, valid.linked.0.stored.height, valid.empty refl)

pub head_high : (s : SkipList) (t x : Item) (xs : List Item) → IsValid s t (x ∷ xs) → 0 < t.height
head_high s t x xs valid = omega (arith, valid.tall.0, valid.low.0)

pub head_full :
    (s : SkipList) (t x : Item) (xs : List Item) (valid : IsValid s t (x ∷ xs))
    → (length valid.linked.0.node.forward == 0) ≡ false
head_full s t x xs valid = ground (arith, valid.linked.0.stored.height, head_high s t x xs valid)

-- A list stays valid when its linear access goes to an entry.
pub this-IsValid :
    (s : SkipList) (t : Item) (xs : List Item) (p : ℕ)
    → IsValid s t xs
    → Among p xs
    → IsValid (record s { this_p = some p }) t xs
this-IsValid s t xs p v here = record {
  magic = v.magic;
  in_memory = v.in_memory;
  top = v.top;
  linked = v.linked;
  distinct = v.distinct;
  low = v.low;
  tall = v.tall;
  empty = v.empty;
  counted = v.counted;
  few = v.few;
  order = v.order;
  short = v.short;
  sorted = v.sorted;
  this = here;
}

pub Among-append : (pre : List Item) (x : Item) (post : List Item) → Among x.addr (pre ++ x ∷ post)
Among-append [] x post = inl refl
Among-append (y ∷ pre) x post = inr (Among-append pre x post)

-- The nodes that the search notes for a key: on each level the last one before the key.
abbrev pub preds_of : SkipList → List ℕ → Bool → Item → List Item → List ℕ
preds_of s k tracked t xs = preds tracked t.height t (before (compare_of s) k xs) []

-- On a valid list, and for a key that is shorter than 2 ^ 31 bytes, the search ends with no fault:
-- it gives the node whose key compares equal, or none, and with tracking it notes on each level the
-- last node before the key.
pub find_node-Finds :
    (s : SkipList) (t : Item) (xs : List Item) (k : List ℕ) (tracked : Bool)
    → IsValid s t xs
    → IsShort k
    → find_node s k tracked ≡ done (addr_of (lookup (compare_of s) k xs), preds_of s k tracked t xs)
unfolding find_node
find_node-Finds s t xs k tracked valid short_k =
    let cmp = compare_of s in
    let mid = before cmp k xs in
    let rest = from cmp k xs in
    let all = before-from cmp k xs in
    let behind = from-NotBefore cmp k valid.order short_k xs valid.short valid.sorted in
    let low = subst (λ ys. All (IsLow t.height) ys) (sym all) valid.low in
    let linked = subst (λ ys. Linked s.heap (t ∷ ys)) (sym all) valid.linked in
    let found = found_on-lookup cmp k xs valid.tall behind in
    let start = found_on-top cmp k t.height rest (All-right (IsLow t.height) mid rest low) in
    let head = deref-Stored s.heap t _ linked.0.stored in
    let fits : length mid + length rest ≡ length xs =
      sym (length-append mid rest) ∙ ap (λ (ys : List Item). length ys) all in
    let run =
      find_loop-Finds s.heap cmp k rest behind (t.height + s.entry_n + 1) tracked t.height t mid []
        linked (omega arith) (before-IsLess cmp k xs) (All-left (IsLow t.height) mid rest low)
        (omega (arith, valid.counted)) (λ z. rw z at start) in
    rw (← valid.top, head, linked.0.stored.height, ← start, ← found) run
