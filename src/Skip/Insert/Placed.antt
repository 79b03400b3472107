-- ===== src/Skip/Insert/Placed.antt =====
-- A new node at its place: what `link_node` makes of a valid list, and what an insertion leaves.
use mathlib.Core.Path.{subst}
use source.Prelude.All.{All, All-right, All-with, All-map, All-zip}
use source.Prelude.{
  ℕ, ◌+◌, ◌≤◌, ◌^◌, ◌<◌, ◌≡◌, ◌≢◌, ◌⊎◌, ◌==◌, refl, sym, ap, ◌∙◌, true, Option, none, some, List,
  [], ◌∷◌, ◌++◌, length, get_elem?, ltb, if◌then◌else◌, inl, inr, arith,
}
use source.Skip.Insert.Raised.{raise_top-Adds}
use source.Skip.Insert.Rows.{item_of, fresh-apart, link_levels-Linked}
use source.Skip.Insert.{Answers, stored, last_noted, link_levels, link_node}
use source.Skip.Items.{Item, pred_of}
use source.Skip.Links.Heaps.{preds-get_elem?}
use source.Skip.Order.{IsShort, swap}
use source.Skip.Search.{compare_with}
use source.Skip.State.{no_error, alloc_error, Datum, Node, write, SkipList, Reply, status}
use source.Skip.Valid.Lookup.{with_key, absent-IsMore, lookup-with}
use source.Skip.Valid.Split.{before-from, before-IsLess, from-NotBefore, preds_of, deref-top}
use source.Skip.Valid.{IsValid, IsBelow, IsSorted, HasShortKey, compare_of, lookup, before, from}
use source.Table.Memory.{Run, done}

-- What the caller gets of the data that are stored.
abbrev pub kept : ℕ → Datum → Option Datum
kept new_size v = if new_size == 0 then none else some v

-- After a run that adds an entry: the answer, and a valid list with one more entry, whose map has the
-- data under the keys that compare equal, and is the same elsewhere.
pub record Inserted (s : SkipList) (xs : List Item) (k : List ℕ) (v : Datum) (value : Option Datum)
    (run : Run (Reply × Option SkipList)) : Type 0 where
  pub list : SkipList
  pub head : Item
  pub items : List Item
  pub entry : Item
  pub runs : run ≡ done (stored no_error value, some list)
  pub holds : IsValid list head items
  pub compare : list.compare ≡ s.compare
  pub key : entry.key ≡ k
  pub value_stored : entry.value ≡ v
  pub reads :
      (q : List ℕ)
      → IsShort q
      → lookup (compare_of s) q items
        ≡ with_key (compare_of s k q) entry (lookup (compare_of s) q xs)

-- The blocks for a new entry, if there is memory for all of them.
abbrev pub blocks : Option ℕ → Option ℕ → Option Datum → Option (ℕ × (ℕ × Datum))
blocks none key value = none
blocks (some p) none value = none
blocks (some p) (some key_addr) none = none
blocks (some p) (some key_addr) (some v) = some (p, (key_addr, v))

-- The answers for the blocks that there are.
abbrev pub Inserts :
    SkipList
    → List Item
    → List ℕ
    → ℕ
    → Option (ℕ × (ℕ × Datum))
    → Run (Reply × Option SkipList)
    → Type 0
Inserts s xs k new_size none run = run ≡ done (status alloc_error, some s)
Inserts s xs k new_size (some (p, (key_addr, v))) run = Inserted s xs k v (kept new_size v) run

-- The head's new block: where no node is, and not that of the new node, or where the head is.
abbrev pub IsRoom : SkipList → Option ℕ → ℕ → Type 0
IsRoom s node a = (a ≡ s.top) ⊎ ((s.heap a ≡ none) × (node ≢ some a))

module _ (s : SkipList) (t : Item) (xs : List Item) (valid : IsValid s t xs)
    (more : s.entry_n + 1 < 2 ^ 32) (k : List ℕ) (short_k : IsShort k)
    (absent : lookup (compare_of s) k xs ≡ none) (answers : Answers) (a : ℕ)
    (given : answers.top ≡ some a) (room : IsRoom s answers.node a) where
  abbrev pre : List Item
  pre = before (compare_of s) k xs

  abbrev post : List Item
  post = from (compare_of s) k xs

  all : xs ≡ pre ++ post
  all = sym (before-from (compare_of s) k xs)

  split : IsValid s t (pre ++ post)
  split = subst (λ zs. IsValid s t zs) all valid

  -- The new node, at its place.
  module _ (new_p : ℕ) (at : answers.node ≡ some new_p) (fresh : s.heap new_p ≡ none) (new : Node)
      (its_key : new.key ≡ k) where
    abbrev item : Item
    item = item_of new_p new

    before_it : All (λ y. IsBelow (compare_of s) y item) pre
    before_it =
        All-map _ _ pre (λ y p. ap (compare_of s y.key) its_key ∙ p)
          (before-IsLess (compare_of s) k xs)

    after_it : All (IsBelow (compare_of s) item) post
    after_it =
        let behind =
          from-NotBefore (compare_of s) k valid.order short_k xs valid.short valid.sorted in
        All-map _ _ post
          (λ y p.
            ap (λ z. compare_of s z y.key) its_key
            ∙ valid.order.flip y.key k p.0 short_k
            ∙ ap swap p.1)
          (All-zip _ _ post (All-right HasShortKey pre post split.short)
            (absent-IsMore (compare_of s) k xs behind absent))

    key-IsShort : IsShort new.key
    key-IsShort = subst (λ z. IsShort z) (sym its_key) short_k

    room_apart : All (λ y. y.addr ≢ a) (pre ++ item ∷ post)
    room_apart = by_room room
      where
        by_room : IsRoom s answers.node a → All (λ y. y.addr ≢ a) (pre ++ item ∷ post)
        by_room (inr p) =
            let others =
              fresh-apart s.heap t pre post split.linked split.distinct split.low a new p.0 in
            All-with _ pre item post (λ e. p.1 (at ∙ ap (λ z. some z) e)) others.1
        by_room (inl top) =
            let others =
              fresh-apart s.heap t pre post split.linked split.distinct split.low new_p new fresh in
            All-with _ pre item post (λ e. others.0 (split.top ∙ sym top ∙ sym e))
              (All-map _ _ (pre ++ post) (λ y p e. p (split.top ∙ sym top ∙ sym e))
                split.distinct.0)

    -- The nodes that the search has noted.
    noted :
        (l : ℕ)
        → l < t.height
        → get_elem? (preds_of s k (ltb 0 t.height) t xs) l ≡ some (pred_of l t pre)
    noted l lt =
        let tracked : ltb 0 t.height ≡ true = ground arith in
        rw tracked (preds-get_elem? t.height t pre [] l lt)

    pub link_node-Inserted :
        (value : Option Datum)
        → 0 < length new.forward
        → length new.forward ≤ t.height + 1
        → Inserted s xs k new.value value
            (link_node answers s new_p new (preds_of s k (ltb 0 t.height) t xs) value)
    unfolding link_node
    link_node-Inserted value stands near =
        let update = preds_of s k (ltb 0 t.height) t xs in
        let (h, run, linked) =
          link_levels-Linked s.heap t pre post split.linked split.distinct split.low new_p new fresh
            update noted in
        let forward_n = length split.linked.0.node.forward in
        let high : forward_n ≡ t.height = split.linked.0.stored.height in
        let run' : link_levels forward_n new_p update (length new.forward) 0
              (write s.heap new_p (some new))
            ≡ done h =
          rw high run in
        let node_p = last_noted forward_n update in
        let r =
          raise_top-Adds s t pre post split more new_p new fresh stands key-IsShort before_it
            after_it h linked answers a given room_apart near node_p value in
        record {
          list = r.list;
          head = r.head;
          items = pre ++ item ∷ post;
          entry = item;
          runs = rw (deref-top s t (pre ++ post) split, run') r.runs;
          holds = r.holds;
          compare = r.compare;
          key = its_key;
          value_stored = refl;
          reads = λ q short_q.
              let sorted =
                subst (λ cmp. IsSorted cmp (pre ++ item ∷ post)) (ap compare_with r.compare)
                  r.holds.sorted in
              lookup-with (compare_of s) valid.order q short_q item key-IsShort pre post
                r.holds.short sorted
              ∙ rw (
                ap (λ z. compare_of s z q) its_key,
                ap (λ zs. lookup (compare_of s) q zs) (sym all),
              );
        }
