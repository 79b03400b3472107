-- ===== src/Skip/Delete/Rows.antt =====
-- The rows without an entry: the loop of `skip_delete` at work on a valid list.
use mathlib.Core.Path.{subst}
use mathlib.Core.List.{append_assoc}
use source.Prelude.All.{
  All, All-left, All-of, All-map, All-transposed, Pairwise-left, Pairwise-across,
}
use source.Prelude.{
  ℕ, ◌<◌, ◌≤◌, ◌≡◌, ◌≢◌, refl, none, some, List, [], ◌∷◌, ◌++◌, length, get_elem?, arith,
}
use source.Skip.Delete.Unlink.{unlink_levels-joins}
use source.Skip.Delete.{unlink_levels}
use source.Skip.Items.{Item, pred_of, IsStored, Points, Linked, Linked-IsStored, Linked-right}
use source.Skip.Links.Heaps.{pred_of-stands}
use source.Skip.Links.Relink.{joins, pred_of-All, Linked-joins, Linked-Changes}
use source.Skip.Links.{Changes, Changes-none, Changes-congr}
use source.Skip.State.{Heap}
use source.Skip.Valid.{Differs, Distinct}
use source.Table.Memory.{done}

-- What is known of a list in memory with an entry `x`.
module _ (h : Heap) (t : Item) (pre : List Item) (x : Item) (post : List Item)
    (linked : Linked h (t ∷ (pre ++ x ∷ post))) (distinct : Distinct (t ∷ (pre ++ x ∷ post)))
    (low_x : x.height ≤ t.height) where
  abbrev pred : ℕ → ℕ
  pred l = pred_of l t pre

  across : All (λ y. All (Differs y) (x ∷ post)) (t ∷ pre)
  across = Pairwise-across Differs (t ∷ pre) (x ∷ post) distinct

  pred-apart : (l : ℕ) → All (λ y. pred l ≢ y.addr) (x ∷ post)
  pred-apart l = pred_of-All (λ a. All (λ y. a ≢ y.addr) (x ∷ post)) l t pre across.0 across.1

  -- The change that the loop makes is about none of the entries behind.
  behind : (k : ℕ) → All (λ y. (l : ℕ) → joins pred k post y.addr l ≡ none) post
  behind k =
      All-map _ _ post
        (λ y apart l. ground (arith, pred_of-All (λ a. a ≢ y.addr) l t pre apart.0 apart.1))
        (All-transposed Differs (t ∷ pre) post (All-map _ _ (t ∷ pre) (λ y p. p.1) across))

  -- The loop leaves the rows of the other entries.
  pub unlink_levels-Linked :
      (p : Points h x post) (update : List ℕ)
      → ((l : ℕ) → l < x.height → get_elem? update l ≡ some (pred_of l t pre))
      → (h' : Heap) × (unlink_levels x.addr update (length p.node.forward) 0 h ≡ done h')
        × Linked h' (t ∷ (pre ++ post))
        × Changes h h' (joins pred x.height post)
  unlink_levels-Linked p update noted =
      let total : length p.node.forward ≡ x.height = p.stored.height in
      let stored = Linked-IsStored h (t ∷ (pre ++ x ∷ post)) linked in
      let at_pre = All-left (IsStored h) (t ∷ pre) (x ∷ post) stored in
      let (h', run, changes) =
        unlink_levels-joins h x.addr p.node p.stored.at pred post update
          (λ l lt. p.links l (omega arith)) (λ l lt. noted l (omega arith))
          (λ l lt. pred_of-stands h l t pre at_pre.0 at_pre.1 (omega arith)) (λ l. (pred-apart l).0)
          (length p.node.forward) 0 h (omega arith)
          (Changes-congr (Changes-none h) (λ a l. ground arith)) in
      let changes' = subst (λ k. Changes h h' (joins pred k post)) total changes in
      (
        h',
        run,
        Linked-joins t x.height (x ∷ post) post (λ l ge. ground arith) pre changes'
            (All-of _ (t ∷ pre) (λ y l lt. refl))
            (Pairwise-left Differs (t ∷ pre) (x ∷ post) distinct) linked
            (Linked-Changes post changes' (behind x.height)
              (Linked-right h (t ∷ (pre ++ x ∷ [])) post (rw append_assoc linked))),
        changes',
      )
