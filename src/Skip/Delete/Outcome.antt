-- ===== src/Skip/Delete/Outcome.antt =====
-- `skip_delete` and `skip_delete_first` on a valid list.
use mathlib.Core.Path.{subst}
use source.Prelude.All.{All-right}
use source.Prelude.{
  ℕ, ◌≡◌, ◌⊎◌, refl, sym, ap, ◌∙◌, true, Option, none, some, List, [], ◌∷◌, ◌++◌, length,
  get_elem?-replicate, replicate, arith,
}
use source.Skip.Delete.Removed.{Removes, remove_node-Removes}
use source.Skip.Delete.{
  remove_node, deleted, deleted_first, delete_key, skip_delete, skip_delete_first,
}
use source.Skip.Items.{Item, Stored, Linked-right, IsLow, deref-Stored, next_of-first, next-first}
use source.Skip.Links.Heaps.{preds-get_elem?}
use source.Skip.Order.{IsShort}
use source.Skip.Retrieve.View.{guarded-valid, mmap-valid}
use source.Skip.State.{no_error, not_found, Node, Heap, SkipList, Reply, status}
use source.Skip.Valid.Lookup.{lookup-from, lookup-without, without_key}
use source.Skip.Valid.Split.{
  from-NotBefore, before-from, preds_of, head_empty, head_high, head_full, find_node-Finds,
  deref-top,
}
use source.Skip.Valid.{IsValid, HasShortKey, compare_of, lookup, before}
use source.Table.Entry.{Size, sized}
use source.Table.Memory.{Run, done}

-- After a run that deletes the entry `x`: the answer, and a valid list of the other entries, whose
-- map has nothing under the keys that compare equal to that of `x`, and is the same elsewhere.
pub record Deleted (s : SkipList) (xs : List Item) (x : Item) (out : Reply)
    (run : Run (Reply × Option SkipList)) : Type 0 where
  pub list : SkipList
  pub head : Item
  pub items : List Item
  pub runs : run ≡ done (out, some list)
  pub holds : IsValid list head items
  pub compare : list.compare ≡ s.compare
  pub reads :
      (q : List ℕ)
      → IsShort q
      → lookup (compare_of s) q items
        ≡ without_key (compare_of s x.key q) (lookup (compare_of s) q xs)

-- What the caller gets of a deleted entry.
abbrev pub reply_deleted : Item → Reply
reply_deleted x = record { code = no_error; key = none; value = some x.value }

abbrev pub reply_first : Item → Reply
reply_first x = record { code = no_error; key = some (x.key_addr, x.key); value = some x.value }

first_reply : {h : Heap} {x : Item} {n : Node} → Stored h x n → deleted_first n ≡ reply_first x
first_reply p = ground (arith, p.key_addr, p.key, p.value)

Deleted-Removes :
    (s : SkipList) (t : Item) (pre : List Item) (x : Item) (post : List Item)
    (valid : IsValid s t (pre ++ x ∷ post)) (out out' : Reply) (run : Run (Reply × Option SkipList))
    → out ≡ out'
    → Removes s t pre x post valid out run
    → Deleted s (pre ++ x ∷ post) x out' run
Deleted-Removes s t pre x post valid out out' run same r = record {
  list = r.list;
  head = r.head;
  items = pre ++ post;
  runs = r.runs ∙ ap (λ o. done (o, some r.list)) same;
  holds = r.holds;
  compare = r.compare;
  reads = λ q short_q.
      lookup-without (compare_of s) valid.order q short_q x
        (All-right HasShortKey pre (x ∷ post) valid.short).0 pre post valid.short valid.sorted;
}

-- The answers of a deletion, for what the map has under the key.
abbrev pub Deletes : SkipList → List Item → Option Item → Run (Reply × Option SkipList) → Type 0
Deletes s xs none run = run ≡ done (status not_found, some s)
Deletes s xs (some x) run = Deleted s xs x (reply_deleted x) run

-- The first entry of a list.
abbrev pub DeletesFirst : SkipList → List Item → Run (Reply × Option SkipList) → Type 0
DeletesFirst s [] run = run ≡ done (status not_found, some s)
DeletesFirst s (x ∷ xs) run = Deleted s (x ∷ xs) x (reply_first x) run

module _ (s : SkipList) (t : Item) (xs : List Item) (valid : IsValid s t xs) (room : Option ℕ)
    (a : ℕ) (given : room ≡ some a) (free : (s.heap a ≡ none) ⊎ (a ≡ s.top)) where
  delete_key-Deletes :
      (k : List ℕ)
      → IsShort k
      → (o : Option Item) → lookup (compare_of s) k xs ≡ o
      → Deletes s xs o (delete_key room s k)
  unfolding delete_key
  delete_key-Deletes k short_k none e = rw (find_node-Finds s t xs k true valid short_k, e)
  delete_key-Deletes k short_k (some x) e =
      let cmp = compare_of s in
      let pre = before cmp k xs in
      let behind = from-NotBefore cmp k valid.order short_k xs valid.short valid.sorted in
      let (post, from_x) = lookup-from cmp k xs behind e in
      let all : xs ≡ pre ++ x ∷ post = sym (before-from cmp k xs) ∙ ap (λ zs. pre ++ zs) from_x in
      let valid' = subst (λ zs. IsValid s t zs) all valid in
      let p = (Linked-right s.heap (t ∷ pre) (x ∷ post) valid'.linked).0 in
      let low_x = (All-right (IsLow t.height) pre (x ∷ post) valid'.low).0 in
      let r =
        remove_node-Removes s t pre x post valid' p (preds_of s k true t xs) room a deleted
          (λ l lt. preds-get_elem? t.height t pre [] l (omega arith)) given free in
      let same = ap (λ v. record { code = no_error; key = none; value = some v }) p.stored.value in
      let d = Deleted-Removes s t pre x post valid' _ (reply_deleted x) _ same r in
      rw (find_node-Finds s t xs k true valid short_k, e)
        (subst
          (λ zs.
            Deleted s zs x (reply_deleted x)
              (remove_node room s x.addr (preds_of s k true t xs) deleted))
          (sym all) d)

-- What the caller gets, and the list after it, where the list has the entries `xs`.
module _ (s : SkipList) (t : Item) (room : Option ℕ) (a : ℕ) (given : room ≡ some a)
    (free : (s.heap a ≡ none) ⊎ (a ≡ s.top)) where
  -- On a valid list, for a key that can be read and is shorter than 2 ^ 31 bytes, and where `realloc`
  -- answers with the block of the head or one where no node is, the call ends with no fault. With no
  -- entry under the key, the code says so and nothing has changed. Otherwise the caller gets the
  -- data, and a valid list is left whose map has lost the key and is the same elsewhere.
  pub skip_delete-Deletes :
      (xs : List Item) (b : List ℕ) (key_size : Size) {k : List ℕ}
      → IsValid s t xs
      → sized b key_size ≡ done k
      → IsShort k
      → Deletes s xs (lookup (compare_of s) k xs) (skip_delete room (some s) b key_size)
  unfolding skip_delete lookup
  skip_delete-Deletes [] b key_size {k} valid key_read short_k =
      guarded-valid s t [] _ valid
      ∙ mmap-valid s t [] _ _ valid
      ∙ rw (deref-top s t [] valid, head_empty s t valid)
  skip_delete-Deletes (x ∷ xs) b key_size {k} valid key_read short_k =
      let run : skip_delete room (some s) b key_size ≡ delete_key room s k =
        guarded-valid s t (x ∷ xs) _ valid
        ∙ mmap-valid s t (x ∷ xs) _ _ valid
        ∙ rw (deref-top s t (x ∷ xs) valid, head_full s t x xs valid, key_read) in
      rw run (delete_key-Deletes s t (x ∷ xs) valid room a given free k short_k _ refl)

  -- On a valid list, and where `realloc` answers with the block of the head or one where no node is,
  -- the call ends with no fault. An empty list is reported and unchanged. Otherwise the caller gets
  -- the key and the data of the first entry, and a valid list is left whose map has lost that key
  -- and is the same elsewhere.
  pub skip_delete_first-DeletesFirst :
      (xs : List Item) → IsValid s t xs → DeletesFirst s xs (skip_delete_first room (some s))
  unfolding skip_delete_first
  skip_delete_first-DeletesFirst [] valid =
      guarded-valid s t [] _ valid
      ∙ mmap-valid s t [] _ _ valid
      ∙ rw (deref-top s t [] valid, head_empty s t valid)
  skip_delete_first-DeletesFirst (x ∷ xs) valid =
      let p = valid.linked.1.0 in
      let high = head_high s t x xs valid in
      let update = replicate (length p.node.forward) s.top in
      let r =
        remove_node-Removes s t [] x xs valid p update room a deleted_first
          (λ l lt.
            get_elem?-replicate (length p.node.forward) l s.top (omega (arith, p.stored.height))
            ∙ ap (λ q. some q) (sym valid.top))
          given free in
      let run : skip_delete_first room (some s) ≡ remove_node room s x.addr update deleted_first =
        guarded-valid s t (x ∷ xs) _ valid
        ∙ mmap-valid s t (x ∷ xs) _ _ valid
        ∙ rw (
          deref-top s t (x ∷ xs) valid,
          head_full s t x xs valid,
          next_of-first t (x ∷ xs) valid.linked.0 high,
          next-first x xs valid.tall.0,
          deref-Stored s.heap x p.node p.stored,
        ) in
      rw run (Deleted-Removes s t [] x xs valid _ (reply_first x) _ (first_reply p.stored) r)
