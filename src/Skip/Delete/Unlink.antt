-- ===== src/Skip/Delete/Unlink.antt =====
-- The loop of `skip_delete` that takes a node out of the rows.
use source.Prelude.{
  ℕ, zero, suc, ◌+◌, ◌<◌, ◌≡◌, ◌≢◌, refl, ap, ◌∙◌, ◌&&◌, Option, none, some, List, length,
  get_elem?, set, ltb, ◌==◌, if◌then◌else◌, Bool-cases, inl, inr, arith,
}
use mathlib.Core.Path.{subst}
use source.Skip.Delete.{unlink_levels}
use source.Skip.Items.{Item, next}
use source.Skip.Links.{
  else_old, Changes, Changes-set, Changes-trans, Changes-congr, set_one, set_next-done, then_change,
}
use source.Skip.Links.Relink.{joins}
use source.Skip.State.{Node, Heap, write, deref, next_of}
use source.Table.Memory.{done}

-- One more level.
pub joins-suc :
    (pred : ℕ → ℕ) (c : ℕ) (new : List Item) (p l : ℕ)
    → then_change (joins pred c new) (set_one (pred c) c (next c new)) p l
      ≡ joins pred (suc c) new p l
joins-suc pred c new p l = elim (Bool-cases (c == l)) [
  | inl same ↦
      let c_l : c ≡ l = ground arith in
      subst
        (λ m.
          then_change (joins pred c new) (set_one (pred c) c (next c new)) p m
          ≡ joins pred (suc c) new p m)
        c_l (at_c (next c new))
  | inr other ↦
      let older : ltb l (suc c) ≡ ltb l c = ground arith in
      rw (other, older) (elsewhere (joins pred c new p l))
]
  where
    at_c :
        (v : Option ℕ)
        → else_old
            (if p == pred c then (if c == c then some v else none) else none)
            (if ltb c c && (pred c == p) then some v else none)
          ≡ (if ltb c (suc c) && (pred c == p) then some v else none)
    at_c v = ground arith

    elsewhere : (o : Option (Option ℕ)) → else_old (if p == pred c then none else none) o ≡ o
    elsewhere o = ground arith

module _ (h0 : Heap) (found_p : ℕ) (found : Node) (at : h0 found_p ≡ some found) (pred : ℕ → ℕ)
    (post : List Item) (update : List ℕ)
    (links : (l : ℕ) → l < length found.forward → get_elem? found.forward l ≡ some (next l post))
    (noted : (l : ℕ) → l < length found.forward → get_elem? update l ≡ some (pred l))
    (stands : (l : ℕ)
      → l < length found.forward
      → (n : Node) × (h0 (pred l) ≡ some n) × (l < length n.forward))
    (apart : (l : ℕ) → pred l ≢ found_p) where
  pub unlink_levels-joins :
      (rounds c : ℕ) (h : Heap)
      → rounds + c ≡ length found.forward
      → Changes h0 h (joins pred c post)
      → (h' : Heap) × (unlink_levels found_p update rounds c h ≡ done h')
        × Changes h0 h' (joins pred (length found.forward) post)
  unfolding unlink_levels
  unlink_levels-joins zero c h e changes =
      let end : c ≡ length found.forward = omega arith in
      (h, refl, subst (λ k. Changes h0 h (joins pred k post)) end changes)
  unlink_levels-joins (suc rounds) c h e changes =
      let lt : c < length found.forward = omega arith in
      let (m, m_at, m_changed) = changes found_p found at in
      let (n0, n0_at, tall) = stands c lt in
      let (n, n_at, n_changed) = changes (pred c) n0 n0_at in
      let tall' : c < length n.forward = omega (arith, n_changed.width) in
      let h1 = write h (pred c) (some (record n { forward = set n.forward c (next c post) })) in
      let step = Changes-trans changes (Changes-set h (pred c) c (next c post) n n_at tall') in
      let rec =
        unlink_levels-joins rounds (suc c) h1 (omega arith)
          (Changes-congr step (joins-suc pred c post)) in
      let read : deref h found_p ≡ done m = unfold deref in rw (m_at, deref) in
      let kept : joins pred c post found_p c ≡ none = ground arith in
      let link : get_elem? m.forward c ≡ some (next c post) =
        m_changed.links c lt ∙ ap (λ o. else_old o (get_elem? found.forward c)) kept ∙ links c lt in
      let after : next_of m c ≡ done (next c post) = unfold next_of in rw (link, next_of) in
      (
        rec.0,
        rw (read, after, noted c lt, set_next-done h (pred c) c (next c post) n n_at tall') rec.1,
        rec.2,
      )
