-- ===== src/Skip/Insert/Rows.antt =====
-- The rows with a new node.
use source.Prelude.All.{
  All-zip, All, All-left, All-right, All-map, All-transposed, Pairwise-left, Pairwise-across,
}
use source.Prelude.{
  ℕ, ◌<◌, ◌≤◌, ◌≡◌, ◌≢◌, refl, sym, ap, ◌∙◌, none, some, List, [], ◌∷◌, ◌++◌, length, get_elem?,
  arith,
}
use source.Skip.Insert.Link.{links_to, link_levels-links}
use source.Skip.Insert.{link_levels}
use source.Skip.Items.{
  Item, above, addr_of, next, pred_of, Points, Linked, Linked-IsStored, Linked-right, IsLow,
}
use source.Skip.Links.Heaps.{pred_of-reads, Linked-write, write-same}
use source.Skip.Links.Relink.{joins, pred_of-All, Linked-joins, Linked-Changes}
use source.Skip.Links.{Change, else_old, Changes, Changes-none, Changes-congr}
use source.Skip.State.{Node, Heap, write}
use source.Skip.Valid.{Differs, Distinct}
use source.Table.Memory.{done}

-- The item of a new node.
abbrev pub item_of : ℕ → Node → Item
item_of p n = record {
  addr = p;
  key_addr = n.key_addr;
  key = n.key;
  value = n.value;
  height = length n.forward;
}

above-none : (l k : ℕ) (xs : List Item) → All (IsLow k) xs → k ≤ l → above l xs ≡ none
above-none l k [] low le = refl
above-none l k (x ∷ xs) low le = ground (arith, above-none l k xs low.1 le)

module _ (h : Heap) (t : Item) (pre post : List Item) (linked : Linked h (t ∷ (pre ++ post)))
    (distinct : Distinct (t ∷ (pre ++ post))) (low : All (IsLow t.height) (pre ++ post)) (new_p : ℕ)
    (new : Node) (fresh : h new_p ≡ none) where
  abbrev pred : ℕ → ℕ
  pred l = pred_of l t pre

  -- No node of the list stands where the new one does.
  pub fresh-apart : All (λ y. y.addr ≢ new_p) (t ∷ (pre ++ post))
  fresh-apart =
      All-map _ _ (t ∷ (pre ++ post))
        (λ y p e. let clash : some p.0 ≡ none = sym p.1.at ∙ ap h e ∙ fresh in cc)
        (Linked-IsStored h (t ∷ (pre ++ post)) linked)

  abbrev h0 : Heap
  h0 = write h new_p (some new)

  linked0 : Linked h0 (t ∷ (pre ++ post))
  linked0 = Linked-write h new_p (some new) (t ∷ (pre ++ post)) fresh-apart linked

  abbrev item : Item
  item = item_of new_p new

  abbrev links : Change
  links = links_to pred t.height new_p post (length new.forward)

  -- At a node before the place, the change is the one that `joins` describes.
  links-joins :
      (y : Item) (l : ℕ)
      → y.addr ≢ new_p
      → IsLow t.height y
      → l < y.height
      → links y.addr l ≡ joins pred (length new.forward) (item ∷ post) y.addr l
  links-joins y l ne le lt = ground arith

  -- The new node has its place.
  item-Points : {h' : Heap} → Changes h0 h' links → Points h' item post
  item-Points changes =
      let (n, at, c) = changes new_p new (write-same h new_p (some new)) in
      record {
        node = n;
        stored = record {
          at = at;
          key_addr = c.key_addr;
          key = c.key;
          value = c.value;
          height = c.width;
        };
        links = λ l lt.
            let set_here : links new_p l ≡ some (next l post) = ground arith in
            c.links l lt ∙ ap (λ o. else_old o (get_elem? new.forward l)) set_here;
      }

  -- The change is about none of the nodes behind.
  behind : All (λ y. (l : ℕ) → links y.addr l ≡ none) post
  behind =
      let across = Pairwise-across Differs (t ∷ pre) post distinct in
      All-map _ _ post
        (λ y p l. let other = pred_of-All (λ a. a ≢ y.addr) l t pre p.1.0 p.1.1 in ground arith)
        (All-zip _ _ post (All-right (λ y. y.addr ≢ new_p) (t ∷ pre) post fresh-apart)
          (All-transposed Differs (t ∷ pre) post across))

  -- The loop puts the new node on its rows, between the nodes before the key and those behind.
  pub link_levels-Linked :
      (update : List ℕ)
      → ((l : ℕ) → l < t.height → get_elem? update l ≡ some (pred_of l t pre))
      → (h' : Heap) × (link_levels t.height new_p update (length new.forward) 0 h0 ≡ done h')
        × Linked h' (t ∷ (pre ++ item ∷ post))
  link_levels-Linked update noted =
      let apart_pre = All-left (λ y. y.addr ≢ new_p) (t ∷ pre) post fresh-apart in
      let low_pre = All-left (IsLow t.height) pre post low in
      let low_post = All-right (IsLow t.height) pre post low in
      let (h', run, changes) =
        link_levels-links h0 new_p new (write-same h new_p (some new)) pred t.height post update
          noted (λ l lt. pred_of-reads h0 l t pre post (pre ++ post) linked0.0 refl linked0.1 lt)
          (λ l. pred_of-All (λ a. a ≢ new_p) l t pre apart_pre.0 apart_pre.1)
          (λ l le. ap addr_of (above-none l t.height post low_post le)) (length new.forward) 0 h0
          (omega arith) (Changes-congr (Changes-none h0) (λ p l. ground arith)) in
      (
        h',
        run,
        Linked-joins t (length new.forward) post (item ∷ post) (λ l ge. ground arith) pre changes
            (
              (λ l lt. links-joins t l apart_pre.0 (omega arith) lt),
              All-map _ _ pre (λ y p l lt. links-joins y l p.0 p.1 lt)
                  (All-zip _ _ pre apart_pre.1 low_pre),
            )
            (Pairwise-left Differs (t ∷ pre) post distinct) linked0
            (
              item-Points changes,
              Linked-Changes post changes behind (Linked-right h0 (t ∷ pre) post linked0),
            ),
      )
