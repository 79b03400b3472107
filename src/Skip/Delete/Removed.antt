-- ===== src/Skip/Delete/Removed.antt =====
-- A valid list without one of its entries is what the end of `skip_delete` leaves.
use mathlib.Core.Path.{subst}
use source.Prelude.All.{
  All, All-append, All-right, All-without, All-map, Pairwise-without, Pairwise-across,
  Pairwise-right,
}
use source.Prelude.Words.{u32}
use source.Prelude.{
  ℕ, ◌+◌, ◌-◌, ◌^◌, ◌<◌, ◌≡◌, ◌≢◌, ◌⊎◌, refl, sym, ap, ◌∙◌, Option, none, some, List, [], ◌∷◌, ◌++◌,
  length, length-append, get_elem?, ◌==◌, if◌then◌else◌, Bool-cases, inl, inr, arith,
}
use source.Skip.Delete.Rows.{unlink_levels-Linked}
use source.Skip.Delete.{step_off, finish, remove_node}
use source.Skip.Items.{
  Item, next, pred_of, Points, Linked, IsLow, deref-Stored, next_of-first, next-first,
}
use source.Skip.Links.Heaps.{Linked-write, write-other, write-same}
use source.Skip.Search.{is_found}
use source.Skip.State.{Node, Heap, write, SkipList, deref, next_of, Reply}
use source.Skip.Valid.{IsValid, IsEntry, Among, Differs, IsBelow, Stands, HasShortKey, compare_of}
use source.Table.Memory.{Run, done}

Among-right : (q : ℕ) (xs ys : List Item) → Among q ys → Among q (xs ++ ys)
Among-right q [] ys a = a
Among-right q (x ∷ xs) ys a = inr (Among-right q xs ys a)

Among-without :
    (q : ℕ) (pre : List Item) (x : Item) (post : List Item)
    → x.addr ≢ q
    → Among q (pre ++ x ∷ post)
    → Among q (pre ++ post)
Among-without q [] x post ne (inl e) = absurd (ne e)
Among-without q [] x post ne (inr a) = a
Among-without q (y ∷ pre) x post ne (inl e) = inl e
Among-without q (y ∷ pre) x post ne (inr a) = inr (Among-without q pre x post ne a)

next-IsEntry : (pre post : List Item) → All Stands post → IsEntry (next 0 post) (pre ++ post)
next-IsEntry pre [] tall = tt
next-IsEntry pre (y ∷ post) tall =
    rw (next-first y post tall.0) (Among-right y.addr pre (y ∷ post) (inl refl))

-- The list with the entry `x` counted off and another head.
abbrev pub without : SkipList → ℕ → Heap → Option ℕ → SkipList
without s top h this_p = record s {
  top = top;
  heap = h;
  this_p = this_p;
  entry_n = u32 (s.entry_n + 2 ^ 32 - 1);
}

module _ (s : SkipList) (t : Item) (pre : List Item) (x : Item) (post : List Item)
    (valid : IsValid s t (pre ++ x ∷ post)) where
  abbrev rest : List Item
  rest = pre ++ post

  without-IsValid :
      (t' : Item) (top : ℕ) (h : Heap) (this_p : Option ℕ)
      → t'.addr ≡ top
      → Linked h (t' ∷ rest)
      → All (Differs t') rest
      → All (IsLow t'.height) rest
      → (rest ≡ [] → t'.height ≡ 0)
      → IsEntry this_p rest
      → IsValid (without s top h this_p) t' rest
  without-IsValid t' top h this_p at linked apart low empty this =
      let one_less : length rest + 1 ≡ length (pre ++ x ∷ post) =
        omega (arith, length-append pre post, length-append pre (x ∷ post)) in
      record {
        magic = valid.magic;
        in_memory = valid.in_memory;
        top = at;
        linked = linked;
        distinct = (apart, Pairwise-without Differs pre x post valid.distinct.1);
        low = low;
        tall = All-without Stands pre x post valid.tall;
        empty = empty;
        counted = omega (arith, valid.counted, valid.few);
        few = omega arith;
        order = valid.order;
        short = All-without HasShortKey pre x post valid.short;
        sorted = Pairwise-without (IsBelow (compare_of s)) pre x post valid.sorted;
        this = this;
      }

  -- The linear access does not stay at the entry.
  step_off-IsEntry :
      (p : Points s.heap x post)
      → (q : Option ℕ) × (step_off s x.addr p.node ≡ done q) × IsEntry q rest
  unfolding step_off
  step_off-IsEntry p = by_this s.this_p valid.this
    where
      by_this :
          (o : Option ℕ)
          → IsEntry o (pre ++ x ∷ post)
          → (q : Option ℕ) × ((if is_found x.addr o then next_of p.node 0 else done o) ≡ done q)
            × IsEntry q rest
      by_this none here = (none, refl, tt)
      by_this (some a) here = elim (Bool-cases (x.addr == a)) [
        | inl same ↦
            let tall = All-right Stands pre (x ∷ post) valid.tall in
            (next 0 post, rw same (next_of-first x post p tall.0), next-IsEntry pre post tall.1)
        | inr other ↦ (some a, rw other, Among-without a pre x post (ground arith) here)
      ]

  -- Where the new head may stand: where no node is, or where the old one is.
  abbrev IsRoom : ℕ → Type 0
  IsRoom a = (s.heap a ≡ none) ⊎ (a ≡ s.top)

  -- What is left after a run: the answer, and a valid list of the other entries.
  pub record Removes (out : Reply) (run : Run (Reply × Option SkipList)) : Type 0 where
    pub list : SkipList
    pub head : Item
    pub runs : run ≡ done (out, some list)
    pub holds : IsValid list head rest
    pub compare : list.compare ≡ s.compare

  -- No other node has its address.
  others : All (λ y. y.addr ≢ x.addr) (t ∷ rest)
  others =
      let apart = Pairwise-across Differs (t ∷ pre) (x ∷ post) valid.distinct in
      let later = (Pairwise-right Differs (t ∷ pre) (x ∷ post) valid.distinct).0 in
      All-append _ (t ∷ pre) post (All-map _ _ (t ∷ pre) (λ y p. p.0) apart)
        (All-map _ _ post (λ y p e. p (sym e)) later)

  room-apart : (p : Points s.heap x post) (a : ℕ) → IsRoom a → a ≢ x.addr
  room-apart p a (inl free) e =
      let clash : some p.node ≡ none = sym p.stored.at ∙ ap s.heap (sym e) ∙ free in cc
  room-apart p a (inr e') e = others.0 (valid.top ∙ sym e' ∙ e)

  module _ (h : Heap) (linked : Linked h (t ∷ rest)) (this : Option ℕ) (here : IsEntry this rest)
      (room : Option ℕ) (a : ℕ) (given : room ≡ some a) (apart : a ≢ x.addr) (out : Reply) where
    -- The list as the loop leaves it.
    abbrev rows : SkipList
    rows = record s { heap = h; this_p = this }

    head_read : deref h s.top ≡ done linked.0.node
    head_read = ap (deref h) (sym valid.top) ∙ deref-Stored h t linked.0.node linked.0.stored

    head_high : 0 < t.height
    head_high =
        let x_low = (All-right (IsLow t.height) pre (x ∷ post) valid.low).0 in
        let x_tall = (All-right Stands pre (x ∷ post) valid.tall).0 in omega arith

    tall_rest : All Stands rest
    tall_rest = All-without Stands pre x post valid.tall

    finish-some :
        (y : Item) (ys : List Item) → rest ≡ y ∷ ys → Removes out (finish room rows x.addr out)
    unfolding finish
    finish-some y ys e =
        let first : next 0 rest ≡ some y.addr =
          ap (next 0) e ∙ next-first y ys (subst (λ zs. All Stands zs) e tall_rest).0 in
        record {
          list = without s s.top (write h x.addr none) this;
          head = t;
          runs = rw (head_read, next_of-first t rest linked.0 head_high, first);
          holds =
              without-IsValid t s.top (write h x.addr none) this valid.top
                (Linked-write h x.addr none (t ∷ rest) others linked)
                (All-without (Differs t) pre x post valid.distinct.0)
                (All-without (IsLow t.height) pre x post valid.low)
                (λ z. let clash : y ∷ ys ≡ [] = sym e ∙ z in cc) here;
          compare = refl;
        }

    finish-none : rest ≡ [] → Removes out (finish room rows x.addr out)
    unfolding finish
    finish-none e =
        let bare = record linked.0.node { forward = [] } in
        let h0 = write h s.top none in
        let h1 = write h0 a (some bare) in
        let h' = write h1 x.addr none in
        let t' : Item = record t { addr = a; height = 0 } in
        let at : h' a ≡ some bare =
          write-other h1 x.addr none a apart ∙ write-same h0 a (some bare) in
        record {
          list = without s a h' this;
          head = t';
          runs = rw (head_read, next_of-first t rest linked.0 head_high, ap (next 0) e, given);
          holds =
              without-IsValid t' a h' this refl
                (
                  record {
                    node = bare;
                    stored = record {
                      at = at;
                      key_addr = linked.0.stored.key_addr;
                      key = linked.0.stored.key;
                      value = linked.0.stored.value;
                      height = refl;
                    };
                    links = λ l lt. absurd (omega arith);
                  },
                  subst (λ zs. Linked h' zs) (sym e) tt,
                )
                (subst (λ zs. All (Differs t') zs) (sym e) tt)
                (subst (λ zs. All (IsLow 0) zs) (sym e) tt) (λ z. refl) here;
          compare = refl;
        }

    finish-Removes : Removes out (finish room rows x.addr out)
    finish-Removes = by_rest rest refl
      where
        by_rest : (zs : List Item) → rest ≡ zs → Removes out (finish room rows x.addr out)
        by_rest [] e = finish-none e
        by_rest (y ∷ ys) e = finish-some y ys e

  -- With room for an empty head, the run takes the entry out and leaves a valid list.
  pub remove_node-Removes :
      (p : Points s.heap x post) (update : List ℕ) (room : Option ℕ) (a : ℕ) (out : Node → Reply)
      → ((l : ℕ) → l < x.height → get_elem? update l ≡ some (pred_of l t pre))
      → room ≡ some a
      → IsRoom a
      → Removes (out p.node) (remove_node room s x.addr update out)
  unfolding remove_node
  remove_node-Removes p update room a out noted given free =
      let low_x = (All-right (IsLow t.height) pre (x ∷ post) valid.low).0 in
      let (h, run, linked, changes) =
        unlink_levels-Linked s.heap t pre x post valid.linked valid.distinct low_x p update noted in
      let (q, step, here) = step_off-IsEntry p in
      let read = deref-Stored s.heap x p.node p.stored in
      let r = finish-Removes h linked q here room a given (room-apart p a free) (out p.node) in
      record {
        list = r.list;
        head = r.head;
        runs = rw (read, run, step) r.runs;
        holds = r.holds;
        compare = r.compare;
      }
