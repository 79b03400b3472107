-- ===== src/Skip/Insert/Value.antt =====
-- A valid list in which the data of one entry are replaced.
use mathlib.Core.List.{append_assoc}
use source.Prelude.All.{
  All, All-map, All-replaced, Pairwise-across, Pairwise-right, Pairwise-replaced,
}
use source.Prelude.{
  ℕ, ◌≡◌, ◌≢◌, refl, sym, ap, ◌∙◌, Option, none, some, List, [], ◌∷◌, ◌++◌, length, length-append,
  inl, inr, arith,
}
use source.Skip.Items.{Item, next, Points, Linked, Linked-right, IsLow}
use source.Skip.Links.Heaps.{Linked-write, write-other, write-same}
use source.Skip.State.{Datum, Node, Heap, write, SkipList}
use source.Skip.Valid.{IsValid, IsEntry, Among, Differs, IsBelow, Stands, HasShortKey, compare_of}

-- An entry with other data.
abbrev pub with_value : Item → Datum → Item
with_value x v = record x { value = v }

-- The pointers do not tell the two apart.
next-with_value :
    (l : ℕ) (bs : List Item) (x : Item) (v : Datum) (post : List Item)
    → next l (bs ++ x ∷ post) ≡ next l (bs ++ with_value x v ∷ post)
next-with_value l [] x v post = ground arith
next-with_value l (b ∷ bs) x v post = ground (arith, next-with_value l bs x v post)

Among-replaced :
    (q : ℕ) (pre : List Item) (x : Item) (v : Datum) (post : List Item)
    → Among q (pre ++ x ∷ post)
    → Among q (pre ++ with_value x v ∷ post)
Among-replaced q [] x v post a = a
Among-replaced q (y ∷ pre) x v post (inl e) = inl e
Among-replaced q (y ∷ pre) x v post (inr a) = inr (Among-replaced q pre x v post a)

IsEntry-replaced :
    (o : Option ℕ) (pre : List Item) (x : Item) (v : Datum) (post : List Item)
    → IsEntry o (pre ++ x ∷ post)
    → IsEntry o (pre ++ with_value x v ∷ post)
IsEntry-replaced none pre x v post e = tt
IsEntry-replaced (some q) pre x v post e = Among-replaced q pre x v post e

module _ (h : Heap) (x : Item) (post : List Item) (node : Node) (v : Datum) where
  abbrev pub written : Heap
  written = write h x.addr (some (record node { value = v }))

  -- The nodes before it keep their pointers.
  Linked-value :
      (bs : List Item)
      → All (λ y. y.addr ≢ x.addr) bs
      → Linked h (bs ++ x ∷ post)
      → Linked written (with_value x v ∷ post)
      → Linked written (bs ++ with_value x v ∷ post)
  Linked-value [] apart l rest = rest
  Linked-value (b ∷ bs) apart l rest = (
    record {
      node = l.0.node;
      stored = record {
        at = write-other h x.addr _ b.addr apart.0 ∙ l.0.stored.at;
        key_addr = l.0.stored.key_addr;
        key = l.0.stored.key;
        value = l.0.stored.value;
        height = l.0.stored.height;
      };
      links = λ j lt. l.0.links j lt ∙ ap (λ o. some o) (next-with_value j bs x v post);
    },
    Linked-value bs apart.1 l.1 rest,
  )

module _ (s : SkipList) (t : Item) (pre : List Item) (x : Item) (post : List Item)
    (valid : IsValid s t (pre ++ x ∷ post)) (p : Points s.heap x post) (v : Datum) where
  abbrev pub list_with : SkipList
  list_with = record s { heap = written s.heap x post p.node v }

  linked_with : Linked list_with.heap (t ∷ (pre ++ with_value x v ∷ post))
  linked_with =
      let across = Pairwise-across Differs (t ∷ pre) (x ∷ post) valid.distinct in
      let later = (Pairwise-right Differs (t ∷ pre) (x ∷ post) valid.distinct).0 in
      let here : Points list_with.heap (with_value x v) post = record {
        node = record p.node { value = v };
        stored = record {
          at = write-same s.heap x.addr (some (record p.node { value = v }));
          key_addr = p.stored.key_addr;
          key = p.stored.key;
          value = refl;
          height = p.stored.height;
        };
        links = p.links;
      } in
      Linked-value s.heap x post p.node v (t ∷ pre) (All-map _ _ (t ∷ pre) (λ y q. q.0) across)
        valid.linked
        (
          here,
          Linked-write s.heap x.addr _ post (All-map _ _ post (λ y q e. q (sym e)) later)
              (Linked-right s.heap (t ∷ (pre ++ x ∷ [])) post (rw append_assoc valid.linked)),
        )

  pub with_value-IsValid : IsValid list_with t (pre ++ with_value x v ∷ post)
  with_value-IsValid = record {
    magic = valid.magic;
    in_memory = valid.in_memory;
    top = valid.top;
    linked = linked_with;
    distinct =
        Pairwise-replaced Differs (t ∷ pre) x (with_value x v) post (λ z q. q) (λ z q. q)
          valid.distinct;
    low = All-replaced (IsLow t.height) pre x (with_value x v) post (λ q. q) valid.low;
    tall = All-replaced Stands pre x (with_value x v) post (λ q. q) valid.tall;
    empty = λ e. absurd (
        omega
          (arith, length-append pre (with_value x v ∷ post), ap (λ (ys : List Item). length ys) e));
    counted = omega (
      arith,
      length-append pre (with_value x v ∷ post),
      length-append pre (x ∷ post),
      valid.counted,
    );
    few = valid.few;
    order = valid.order;
    short = All-replaced HasShortKey pre x (with_value x v) post (λ q. q) valid.short;
    sorted =
        Pairwise-replaced (IsBelow (compare_of s)) pre x (with_value x v) post (λ z q. q) (λ z q. q)
          valid.sorted;
    this = IsEntry-replaced s.this_p pre x v post valid.this;
  }
