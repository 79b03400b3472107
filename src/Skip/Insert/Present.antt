-- ===== src/Skip/Insert/Present.antt =====
-- `skip_insert` with a key that is in the list.
use Prim.Native.Nat.{Ordering}
use mathlib.Core.Path.{subst}
use source.Prelude.All.{All-right}
use source.Skip.Insert.Value.{with_value, list_with, with_value-IsValid}
use source.Skip.Items.{Item, Linked-right, deref-Stored}
use source.Skip.Order.{IsShort}
use source.Skip.Valid.Lookup.{with_key, without_key, lookup-with, lookup-without}
use source.Skip.Valid.{IsValid, HasShortKey, compare_of, lookup}
use source.Prelude.{
  ℕ, ◌≡◌, refl, sym, ap, ◌∙◌, true, false, Bool, Option, none, some, List, ◌∷◌, ◌++◌,
}
use source.Skip.Insert.{Answers, overwrite_node}
use source.Skip.State.{overwrite, Datum, SkipList, Reply}
use source.Table.Memory.{Run, done}
use source.Skip.Insert.Copied.{new_data, answer, HasBlock, with_data, overwrite_node-new_data}

-- After a run that overwrites the data of the entry `x`: the answer, and a valid list that has the
-- data under the keys that compare equal to that of `x`, and is the same elsewhere.
pub record Overwritten (s : SkipList) (t : Item) (xs : List Item) (x : Item) (stored_b : Bool)
    (v : Datum) (run : Run (Reply × Option SkipList)) : Type 0 where
  pub list : SkipList
  pub items : List Item
  pub runs : run ≡ done (answer stored_b v, some list)
  pub holds : IsValid list t items
  pub compare : list.compare ≡ s.compare
  pub reads :
      (q : List ℕ)
      → IsShort q
      → lookup (compare_of s) q items
        ≡ with_key (compare_of s x.key q) (with_value x v) (lookup (compare_of s) q xs)

-- With `overwrite` not set, the data that are there are the answer, and nothing changes.
abbrev pub Overwrites :
    SkipList
    → Item
    → List Item
    → Item
    → Answers
    → ℕ
    → Option (List ℕ)
    → Bool
    → Run (Reply × Option SkipList)
    → Type 0
Overwrites s t xs x answers new_size src false run =
    run ≡ done (record { code = overwrite; key = none; value = some x.value }, some s)
Overwrites s t xs x answers new_size src true run =
    let d = new_data answers.value x.value new_size src in Overwritten s t xs x d.0 d.1 run

with_key_twice :
    (o : Ordering) (x : Item) (z : Option Item) → with_key o x (without_key o z) ≡ with_key o x z
with_key_twice Ordering.lt x z = refl
with_key_twice Ordering.eq x z = refl
with_key_twice Ordering.gt x z = refl

module _ (s : SkipList) (t : Item) (pre : List Item) (x : Item) (post : List Item)
    (valid : IsValid s t (pre ++ x ∷ post)) (answers : Answers) (new_size : ℕ)
    (src : Option (List ℕ)) where
  with_value-reads :
      (v : Datum) (q : List ℕ)
      → IsShort q
      → IsValid
          (list_with s t pre x post valid
            (Linked-right s.heap (t ∷ pre) (x ∷ post) valid.linked).0
            v)
          t
          (pre ++ with_value x v ∷ post)
      → lookup (compare_of s) q (pre ++ with_value x v ∷ post)
        ≡ with_key
            (compare_of s x.key q)
            (with_value x v)
            (lookup (compare_of s) q (pre ++ x ∷ post))
  with_value-reads v q short_q later =
      let short_x = (All-right HasShortKey pre (x ∷ post) valid.short).0 in
      lookup-with (compare_of s) valid.order q short_q (with_value x v) short_x pre post later.short
        later.sorted
      ∙ ap (with_key (compare_of s x.key q) (with_value x v)) (
          lookup-without (compare_of s) valid.order q short_q x short_x pre post valid.short
            valid.sorted)
      ∙ with_key_twice (compare_of s x.key q) (with_value x v) _

  pub overwrite_node-Overwrites :
      (overwrite_b : Bool)
      → HasBlock x.value
      → Overwrites s t
          (pre ++ x ∷ post)
          x
          answers
          new_size
          src
          overwrite_b
          (overwrite_node answers s x.addr new_size src overwrite_b)
  unfolding overwrite_node
  overwrite_node-Overwrites false filled =
      let p = (Linked-right s.heap (t ∷ pre) (x ∷ post) valid.linked).0 in
      rw (deref-Stored s.heap x p.node p.stored, p.stored.value)
  overwrite_node-Overwrites true filled =
      let p = (Linked-right s.heap (t ∷ pre) (x ∷ post) valid.linked).0 in
      let same : p.node.value ≡ x.value = p.stored.value in
      let d = new_data answers.value x.value new_size src in
      let run : overwrite_node answers s x.addr new_size src true ≡ with_data s x.addr p.node d =
        overwrite_node-new_data s x.addr p.node answers new_size src p.stored.at
          (subst (λ v. HasBlock v) (sym same) filled)
        ∙ ap (λ v. with_data s x.addr p.node (new_data answers.value v new_size src)) same in
      let holds = with_value-IsValid s t pre x post valid p d.1 in
      record {
        list = list_with s t pre x post valid p d.1;
        items = pre ++ with_value x d.1 ∷ post;
        runs = run;
        holds = holds;
        compare = refl;
        reads = λ q short_q. with_value-reads d.1 q short_q holds;
      }
