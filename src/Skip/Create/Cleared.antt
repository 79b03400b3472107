-- ===== src/Skip/Create/Cleared.antt =====
-- `skip_alloc` and `skip_clear`: the empty list.
use mathlib.Core.Path.{subst}
use source.Prelude.All.{All, All-map}
use source.Prelude.{
  ℕ, zero, suc, ◌≤◌, ◌≡◌, ◌≢◌, ◌⊎◌, refl, sym, ap, ◌∙◌, false, Option, none, some, List, [], ◌∷◌,
  length, inl, inr, arith,
}
use source.Skip.Create.{blank, skip_alloc, free_row, clear_top, clear, skip_clear}
use source.Skip.Items.{Item, next, Stored, Points, Linked, deref-Stored, next_of-first, next-first}
use source.Skip.Links.Heaps.{Linked-write, write-other, write-same}
use source.Skip.Order.{IsOrder}
use source.Skip.Retrieve.View.{guarded-valid}
use source.Skip.Search.{compare_with}
use source.Skip.State.{
  Error, no_error, alloc_error, Compare, Node, Heap, write, SkipList, skip_magic, deref, Reply,
  status,
}
use source.Skip.Valid.Split.{deref-top, head_empty, head_full, head_high}
use source.Skip.Valid.{IsValid, IsEntry, compare_of, Stands, Distinct}
use source.Table.Memory.{Run, done}

-- The loop frees the nodes of the bottom row, and no other.
free_row-frees :
    (fuel : ℕ) (h : Heap) (xs : List Item)
    → Linked h xs
    → Distinct xs
    → All Stands xs
    → length xs ≤ fuel
    → (h' : Heap) × (free_row fuel (next 0 xs) h ≡ done h')
      × ((p : ℕ) → All (λ x. x.addr ≢ p) xs → h' p ≡ h p)
unfolding free_row
free_row-frees fuel h [] linked distinct tall enough = (h, refl, λ p apart. refl)
free_row-frees zero h (x ∷ xs) linked distinct tall enough = absurd (omega arith)
free_row-frees (suc fuel) h (x ∷ xs) linked distinct tall enough =
    let rest =
      Linked-write h x.addr none xs (All-map _ _ xs (λ y q e. q (sym e)) distinct.0) linked.1 in
    let (h', run, kept) =
      free_row-frees fuel (write h x.addr none) xs rest distinct.1 tall.1 (omega arith) in
    (
      h',
      rw
          (
            next-first x xs tall.0,
            deref-Stored h x linked.0.node linked.0.stored,
            next_of-first x xs linked.0 tall.0,
          )
          run,
      λ p apart. kept p apart.1 ∙ write-other h x.addr none p (λ e. apart.0 (sym e)),
    )

-- A node with no pointers has none that lead elsewhere.
bare-Points : (h : Heap) (t : Item) (node : Node) → Stored h t node → t.height ≡ 0 → Points h t []
bare-Points h t node stored flat = record {
  node = node;
  stored = stored;
  links = λ l lt. absurd (omega arith);
}

empty-IsValid :
    (s : SkipList) (t : Item)
    → s.magic ≡ skip_magic
    → s.mmapped ≡ false
    → t.addr ≡ s.top
    → Points s.heap t []
    → t.height ≡ 0
    → 0 ≡ s.entry_n
    → IsOrder (compare_of s)
    → s.this_p ≡ none
    → IsValid s t []
empty-IsValid s t magic in_memory top p flat none_in order this = record {
  magic = magic;
  in_memory = in_memory;
  top = top;
  linked = (p, tt);
  distinct = (tt, tt);
  low = tt;
  tall = tt;
  empty = λ e. flat;
  counted = none_in;
  few = omega arith;
  order = order;
  short = tt;
  sorted = tt;
  this = subst (λ o. IsEntry o []) (sym this) tt;
}

-- What `skip_alloc` answers: an error where memory is refused, or a valid empty list.
pub data Allocated (compare : Option Compare) (room top : Option ℕ) (r : Error × Option SkipList)
    : Type 0 where
  refused : (room ≡ none) ⊎ (top ≡ none) → r ≡ (alloc_error, none) → Allocated compare room top r
  fresh :
      (s : SkipList) (t : Item)
      → r ≡ (no_error, some s)
      → IsValid s t []
      → s.compare ≡ compare
      → Allocated compare room top r

-- For a comparison that is an order, `skip_alloc` returns an allocation error and no list where a
-- block is refused, and else a valid empty list with that comparison.
pub skip_alloc-Allocated :
    (compare : Option Compare) (room top : Option ℕ) (h : Heap)
    → IsOrder (compare_with compare)
    → Allocated compare room top (skip_alloc compare room top h)
unfolding skip_alloc
skip_alloc-Allocated compare none top h order = refused (inl refl) refl
skip_alloc-Allocated compare (some room) none h order = refused (inr refl) refl
skip_alloc-Allocated compare (some room) (some top) h order =
    let t : Item = record { addr = top; key_addr = 0; key = []; value = blank.value; height = 0 } in
    fresh _ t refl
      (empty-IsValid _ t refl refl refl
        (bare-Points (write h top (some blank)) t blank
          (record {
            at = write-same h top (some blank);
            key_addr = refl;
            key = refl;
            value = refl;
            height = refl;
          })
          refl)
        refl refl order refl)
      refl

-- What `skip_clear` leaves: a list that is valid and empty but for the pointer of the linear access,
-- which is kept.
pub record Cleared (s : SkipList) (run : Run (Reply × Option SkipList)) : Type 0 where
  pub list : SkipList
  pub head : Item
  pub runs : run ≡ done (status no_error, some list)
  pub holds : IsValid (record list { this_p = none }) head []
  pub this : list.this_p ≡ s.this_p
  pub compare : list.compare ≡ s.compare

-- On a valid list, and where `realloc` gives a block for the head, the call ends with no fault and
-- leaves a valid empty list with the same comparison, but for the pointer of the linear access, which
-- stays what it was.
pub skip_clear-Cleared :
    (s : SkipList) (t : Item) (xs : List Item) (room : Option ℕ) (a : ℕ)
    → IsValid s t xs
    → room ≡ some a
    → Cleared s (skip_clear room (some s))
unfolding skip_clear clear clear_top
skip_clear-Cleared s t [] room a valid given = record {
  list = s;
  head = t;
  runs =
      guarded-valid s t [] _ valid
      ∙ rw (valid.in_memory, deref-top s t [] valid, head_empty s t valid);
  holds =
      empty-IsValid (record s { this_p = none }) t valid.magic valid.in_memory valid.top
        valid.linked.0 (valid.empty refl) valid.counted valid.order refl;
  this = refl;
  compare = refl;
}
skip_clear-Cleared s t (x ∷ xs) room a valid given =
    let high = head_high s t x xs valid in
    let (h, run, kept) =
      free_row-frees s.entry_n s.heap (x ∷ xs) valid.linked.1 valid.distinct.1 valid.tall
        (omega (arith, valid.counted)) in
    let node = valid.linked.0.node in
    let bare = record node { forward = [] } in
    let apart : All (λ y. y.addr ≢ s.top) (x ∷ xs) =
      All-map _ _ (x ∷ xs) (λ y q e. q (valid.top ∙ sym e)) valid.distinct.0 in
    let same : h s.top ≡ some node =
      kept s.top apart ∙ ap s.heap (sym valid.top) ∙ valid.linked.0.stored.at in
    let there : deref h s.top ≡ done node = unfold deref in rw (same, deref) in
    let h' = write (write h s.top none) a (some bare) in
    record {
      list = record s { top = a; heap = h'; entry_n = 0 };
      head = record t { addr = a; height = 0 };
      runs =
          guarded-valid s t (x ∷ xs) _ valid
          ∙ rw (
            valid.in_memory,
            deref-top s t (x ∷ xs) valid,
            head_full s t x xs valid,
            next_of-first t (x ∷ xs) valid.linked.0 high,
            run,
            given,
            there,
          );
      holds =
          empty-IsValid (record s { top = a; heap = h'; entry_n = 0; this_p = none })
            (record t { addr = a; height = 0 }) valid.magic valid.in_memory refl
            (bare-Points h' (record t { addr = a; height = 0 }) bare
              (record {
                at = write-same (write h s.top none) a (some bare);
                key_addr = valid.linked.0.stored.key_addr;
                key = valid.linked.0.stored.key;
                value = valid.linked.0.stored.value;
                height = refl;
              })
              refl)
            refl refl valid.order refl;
      this = refl;
      compare = refl;
    }
