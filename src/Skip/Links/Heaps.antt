-- ===== src/Skip/Links/Heaps.antt =====
-- Lists in memory: what stands at the noted nodes, and writes elsewhere.
use mathlib.Core.Path.{subst}
use native.Mathlib.Decide.{dec_lt}
use native.Mathlib.Nat.{zero-add}
use source.Prelude.All.{All}
use source.Prelude.{
  ℕ, zero, suc, ◌+◌, ◌<◌, ◌≡◌, ◌≢◌, refl, ap, ◌∙◌, true, Option, some, List, [], ◌∷◌, ◌++◌, length,
  get_elem?, ltb, Bool-cases, inl, inr, arith,
}
use source.Skip.Items.{Item, above, addr_of, next, pred_of, IsStored, Points, Linked}
use source.Skip.Search.Turns.{preds}
use source.Skip.State.{Node, Heap, write}

pub write-other : (h : Heap) (p : ℕ) (c : Option Node) (a : ℕ) → a ≢ p → write h p c a ≡ h a
unfolding write
write-other h p c a ne = ground arith

pub write-same : (h : Heap) (p : ℕ) (c : Option Node) → write h p c p ≡ c
unfolding write
write-same h p c = ground arith

abbrev pub IsAt : ℕ → Item → Type 0
IsAt p x = x.addr ≡ p

-- A write where none of the nodes is.
pub Linked-write :
    (h : Heap) (p : ℕ) (c : Option Node) (xs : List Item)
    → All (λ x. x.addr ≢ p) xs
    → Linked h xs
    → Linked (write h p c) xs
Linked-write h p c [] apart l = tt
Linked-write h p c (x ∷ xs) apart l = (
  record {
    node = l.0.node;
    stored = record {
      at = write-other h p c x.addr apart.0 ∙ l.0.stored.at;
      key_addr = l.0.stored.key_addr;
      key = l.0.stored.key;
      value = l.0.stored.value;
      height = l.0.stored.height;
    };
    links = l.0.links;
  },
  Linked-write h p c xs apart.1 l.1,
)

-- The last node on a level is there, and has a pointer on it.
pub pred_of-stands :
    (h : Heap) (level : ℕ) (a : Item) (xs : List Item)
    → IsStored h a
    → All (IsStored h) xs
    → level < a.height
    → (n : Node) × (h (pred_of level a xs) ≡ some n) × (level < length n.forward)
pred_of-stands h level a [] (n, s) all lt = (n, s.at, omega (arith, s.height))
pred_of-stands h level a (x ∷ xs) st all lt = elim (Bool-cases (ltb level x.height)) [
  | inl stands ↦ rw stands (pred_of-stands h level x xs all.0 all.1 (ground arith))
  | inr not_here ↦ rw not_here (pred_of-stands h level a xs st all.1 lt)
]

-- That pointer leads over the place.
pub pred_of-reads :
    (h : Heap) (level : ℕ) (a : Item) (xs ys zs : List Item)
    → Points h a zs
    → above level zs ≡ above level (xs ++ ys)
    → Linked h (xs ++ ys)
    → level < a.height
    → (n : Node) × (h (pred_of level a xs) ≡ some n)
      × (level < length n.forward)
      × (get_elem? n.forward level ≡ some (next level ys))
pred_of-reads h level a [] ys zs p e l lt = (
  p.node,
  p.stored.at,
  omega (arith, p.stored.height),
  p.links level lt ∙ ap (λ o. some (addr_of o)) e,
)
pred_of-reads h level a (x ∷ xs) ys zs p e l lt = elim (Bool-cases (ltb level x.height)) [
  | inl stands ↦ rw stands (pred_of-reads h level x xs ys (xs ++ ys) l.0 refl l.1 (ground arith))
  | inr not_here ↦ rw not_here (pred_of-reads h level a xs ys zs p (e ∙ rw not_here refl) l.1 lt)
]

preds-behind :
    (n : ℕ) (a : Item) (mid : List Item) (update : List ℕ) (j : ℕ)
    → get_elem? (preds true n a mid update) (n + j) ≡ get_elem? update j
preds-behind zero a mid update j = rw zero-add refl
preds-behind (suc n) a mid update j =
    let moved : suc n + j ≡ n + suc j = omega arith in
    rw (moved, preds-behind n a mid (pred_of n a mid ∷ update) (suc j))

-- The nodes that the search has noted, by level.
pub preds-get_elem? :
    (n : ℕ) (a : Item) (mid : List Item) (update : List ℕ) (l : ℕ)
    → l < n
    → get_elem? (preds true n a mid update) l ≡ some (pred_of l a mid)
preds-get_elem? zero a mid update l lt = absurd (omega arith)
preds-get_elem? (suc n) a mid update l lt = elim (dec_lt l n) [
  | yes below ↦ preds-get_elem? n a mid _ l below
  | no top ↦
      let n_l : n ≡ l = omega arith in
      let at_n : get_elem? (preds true n a mid (pred_of n a mid ∷ update)) (n + 0)
          ≡ some (pred_of n a mid) =
        preds-behind n a mid (pred_of n a mid ∷ update) 0 in
      let n_0 : n + 0 ≡ n = omega arith in
      subst
        (λ m. get_elem? (preds true n a mid (pred_of n a mid ∷ update)) m ≡ some (pred_of m a mid))
        n_l (rw n_0 at at_n)
]
