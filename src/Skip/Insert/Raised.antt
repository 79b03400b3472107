-- ===== src/Skip/Insert/Raised.antt =====
-- The end of an insertion: the head is made as tall as the new node, and the entry is counted.
use mathlib.Core.Path.{subst}
use native.Mathlib.Decide.{dec_lt}
use source.Prelude.All.{All, All-left, All-right, All-with, All-map, Pairwise-with}
use source.Prelude.Words.{u32}
use source.Prelude.{
  ℕ, ◌+◌, ◌-◌, ◌^◌, ◌<◌, ◌≤◌, ◌≡◌, ◌≢◌, refl, sym, ap, ◌∙◌, true, false, Option, none, some, List,
  [], ◌∷◌, ◌++◌, length, length-append, length-replicate, replicate, get_elem?, get_elem?-replicate,
  get_elem?-left, get_elem?-right, ltb, inl, inr, arith,
}
use source.Skip.Insert.Rows.{item_of, fresh-apart}
use source.Skip.Insert.{Answers, raised, stored, raise_top}
use source.Skip.Items.{Item, above-low, addr_of, next, Points, Linked, IsLow, deref-Stored}
use source.Skip.Links.Heaps.{Linked-write, write-same}
use source.Skip.Order.{IsShort}
use source.Skip.State.{no_error, Datum, Node, Heap, write, SkipList, deref, Reply}
use source.Skip.Valid.{IsValid, IsEntry, Among, Differs, IsBelow, Stands, HasShortKey, compare_of}
use source.Table.Memory.{Run, done}

Among-with :
    (q : ℕ) (pre : List Item) (x : Item) (post : List Item)
    → Among q (pre ++ post)
    → Among q (pre ++ x ∷ post)
Among-with q [] x post a = inr a
Among-with q (y ∷ pre) x post (inl e) = inl e
Among-with q (y ∷ pre) x post (inr a) = inr (Among-with q pre x post a)

IsEntry-with :
    (o : Option ℕ) (pre : List Item) (x : Item) (post : List Item)
    → IsEntry o (pre ++ post)
    → IsEntry o (pre ++ x ∷ post)
IsEntry-with none pre x post e = tt
IsEntry-with (some q) pre x post e = Among-with q pre x post e

module _ (s : SkipList) (t : Item) (pre post : List Item) (valid : IsValid s t (pre ++ post))
    (more : s.entry_n + 1 < 2 ^ 32) (new_p : ℕ) (new : Node) (fresh : s.heap new_p ≡ none)
    (stands : 0 < length new.forward) (short : IsShort new.key)
    (above_it : All (λ y. IsBelow (compare_of s) y (item_of new_p new)) pre)
    (below_it : All (IsBelow (compare_of s) (item_of new_p new)) post) where
  abbrev item : Item
  item = item_of new_p new

  abbrev items : List Item
  items = pre ++ item ∷ post

  abbrev with_item : ℕ → Heap → SkipList
  with_item top h = record s { top = top; heap = h; entry_n = u32 (s.entry_n + 1) }

  with-IsValid :
      (t' : Item) (top : ℕ) (h : Heap)
      → t'.addr ≡ top
      → Linked h (t' ∷ items)
      → All (Differs t') items
      → All (IsLow t'.height) items
      → IsValid (with_item top h) t' items
  with-IsValid t' top h at linked apart low =
      let alone =
        fresh-apart s.heap t pre post valid.linked valid.distinct valid.low new_p new fresh in
      let one_more : length items ≡ length (pre ++ post) + 1 =
        omega (arith, length-append pre post, length-append pre (item ∷ post)) in
      record {
        magic = valid.magic;
        in_memory = valid.in_memory;
        top = at;
        linked = linked;
        distinct = (
          apart,
          Pairwise-with Differs pre item post (All-left (λ y. y.addr ≢ new_p) pre post alone.1)
              (All-map _ _ post (λ y p e. p (sym e))
                (All-right (λ y. y.addr ≢ new_p) pre post alone.1))
              valid.distinct.1,
        );
        low = low;
        tall = All-with Stands pre item post stands valid.tall;
        empty = λ e. absurd (omega (arith, ap (λ (ys : List Item). length ys) e));
        counted = omega (arith, valid.counted);
        few = omega arith;
        order = valid.order;
        short = All-with HasShortKey pre item post short valid.short;
        sorted =
            Pairwise-with (IsBelow (compare_of s)) pre item post above_it below_it valid.sorted;
        this = IsEntry-with s.this_p pre item post valid.this;
      }

  -- After a run that adds the entry: the answer, and a valid list with it.
  pub record Adds (value : Option Datum) (run : Run (Reply × Option SkipList)) : Type 0 where
    pub list : SkipList
    pub head : Item
    pub runs : run ≡ done (stored no_error value, some list)
    pub holds : IsValid list head items
    pub compare : list.compare ≡ s.compare

  module _ (h : Heap) (linked : Linked h (t ∷ items)) (answers : Answers) (a : ℕ)
      (given : answers.top ≡ some a) (room : All (λ y. y.addr ≢ a) items)
      (near : length new.forward ≤ t.height + 1) (node_p : Option ℕ) (value : Option Datum) where
    abbrev run : Run (Reply × Option SkipList)
    run = raise_top answers (record s { heap = h }) new_p (length new.forward) node_p value

    head_read : deref h s.top ≡ done linked.0.node
    head_read = ap (deref h) (sym valid.top) ∙ deref-Stored h t linked.0.node linked.0.stored

    head-Differs : All (Differs t) items
    head-Differs =
        let alone =
          fresh-apart s.heap t pre post valid.linked valid.distinct valid.low new_p new fresh in
        All-with (Differs t) pre item post alone.0 valid.distinct.0

    kept-Adds : length new.forward ≤ t.height → Adds value run
    unfolding raise_top
    kept-Adds le =
        let enough : ltb (length linked.0.node.forward) (length new.forward) ≡ false =
          ground (arith, linked.0.stored.height) in
        record {
          list = with_item s.top h;
          head = t;
          runs = rw (head_read, enough);
          holds =
              with-IsValid t s.top h valid.top linked head-Differs
                (All-with (IsLow t.height) pre item post le valid.low);
          compare = refl;
        }

    abbrev taller : Item
    taller = record t { addr = a; height = length new.forward }

    abbrev top' : Node
    top' = raised linked.0.node (length new.forward) new_p

    abbrev h' : Heap
    h' = write (write h s.top none) a (some top')

    -- The new pointers of the head lead to the new node.
    taller-Points : t.height < length new.forward → Points h' taller items
    taller-Points lt =
        let old = linked.0.node.forward in
        let level = length new.forward in
        let ends = replicate (level - length old) (some new_p) in
        let low_pre = All-left (IsLow t.height) pre post valid.low in
        record {
          node = top';
          stored = record {
            at = write-same (write h s.top none) a (some top');
            key_addr = linked.0.stored.key_addr;
            key = linked.0.stored.key;
            value = linked.0.stored.value;
            height = omega (
              arith,
              length-append old ends,
              length-replicate (level - length old) (some new_p),
              linked.0.stored.height,
            );
          };
          links = λ l l_lt. elim (dec_lt l t.height) [
            | yes inside ↦
                get_elem?-left old ends l (omega (arith, linked.0.stored.height))
                ∙ linked.0.links l inside
            | no outside ↦
                let at_end : l ≡ length old + 0 = omega (arith, linked.0.stored.height) in
                let t_l : t.height ≡ l = omega arith in
                let sees : next l items ≡ some new_p =
                  ap addr_of
                    (above-low l pre (item ∷ post) (subst (λ m. All (IsLow m) pre) t_l low_pre))
                  ∙ ground arith in
                ap (get_elem? (old ++ ends)) at_end
                ∙ get_elem?-right old ends 0
                ∙ get_elem?-replicate (level - length old) 0 (some new_p)
                    (omega (arith, linked.0.stored.height))
                ∙ ap (λ o. some o) (sym sees)
          ];
        }

    raised-Adds : t.height < length new.forward → Adds value run
    unfolding raise_top
    raised-Adds lt =
        let small : ltb (length linked.0.node.forward) (length new.forward) ≡ true =
          ground (arith, linked.0.stored.height) in
        let apart_top = All-map _ _ items (λ y p e. p (valid.top ∙ sym e)) head-Differs in
        let behind =
          Linked-write (write h s.top none) a (some top') items room
            (Linked-write h s.top none items apart_top linked.1) in
        record {
          list = with_item a h';
          head = taller;
          runs = rw (head_read, small, given);
          holds =
              with-IsValid taller a h' refl (taller-Points lt, behind)
                (All-map _ _ items (λ y p e. p (sym e)) room)
                (All-with (IsLow (length new.forward)) pre item post (omega arith)
                  (All-map _ _ (pre ++ post) (λ y p. omega arith) valid.low));
          compare = refl;
        }

    pub raise_top-Adds : Adds value run
    raise_top-Adds = elim (dec_lt t.height (length new.forward)) [
      | yes lt ↦ raised-Adds lt
      | no ge ↦ kept-Adds (omega arith)
    ]
