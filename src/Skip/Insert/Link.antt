-- ===== src/Skip/Insert/Link.antt =====
-- The loop of `skip_insert` that links a new node into the rows.
use mathlib.Core.Path.{subst}
use native.Mathlib.Decide.{dec_lt}
use source.Prelude.{
  ℕ, zero, suc, ◌+◌, ◌<◌, ◌≤◌, ◌≡◌, ◌≢◌, refl, ap, ◌∙◌, ◌&&◌, true, false, Bool, Option, none, some,
  List, length, get_elem?, set, ltb, ◌==◌, if◌then◌else◌, Bool-cases, inl, inr, arith,
}
use source.Skip.Insert.{link_level, link_levels}
use source.Skip.Items.{Item, next}
use source.Skip.Links.{
  Change, else_old, Changes, Changes-set, Changes-trans, Changes-congr, set_one, set_next-done,
  then_change,
}
use source.Skip.State.{Node, Heap, write, deref, next_of}
use source.Table.Memory.{done}

-- The change after the levels below `c`: the new node has the pointers to the items `ys` behind it,
-- and on the levels of the head the last node before it leads to it.
abbrev pub links_to : (ℕ → ℕ) → ℕ → ℕ → List Item → ℕ → Change
links_to pred forward_n new_p ys c p l =
    if p == new_p
    then (if ltb l c then some (next l ys) else none)
    else (if ltb l c && (ltb l forward_n && (pred l == p)) then some (some new_p) else none)

neither : (a : Bool) (o : Option (Option ℕ)) → else_old (if a then none else none) o ≡ o
neither true o = refl
neither false o = refl

module _ (pred : ℕ → ℕ) (forward_n new_p : ℕ) (ys : List Item) (c p : ℕ) where
  -- Another level does not change in this round.
  links_other :
      (l : ℕ)
      → (c == l) ≡ false
      → links_to pred forward_n new_p ys c p l ≡ links_to pred forward_n new_p ys (suc c) p l
  links_other l other = let same : ltb l (suc c) ≡ ltb l c = ground arith in rw same

  links_below :
      (l : ℕ)
      → c < forward_n
      → pred c ≢ new_p
      → then_change
          (then_change (links_to pred forward_n new_p ys c) (set_one new_p c (next c ys)))
          (set_one (pred c) c (some new_p))
          p
          l
        ≡ links_to pred forward_n new_p ys (suc c) p l
  links_below l lt ne = elim (Bool-cases (c == l)) [
    | inl same ↦
        let c_l : c ≡ l = ground arith in
        subst
          (λ m.
            then_change
              (then_change (links_to pred forward_n new_p ys c) (set_one new_p c (next c ys)))
              (set_one (pred c) c (some new_p)) p m
            ≡ links_to pred forward_n new_p ys (suc c) p m)
          c_l (at_c (next c ys) (pred c) ne)
    | inr other ↦ rw (other, neither, neither) (links_other l other)
  ]
    where
      at_c :
          (v : Option ℕ) (q : ℕ)
          → q ≢ new_p
          → else_old (if p == q then (if c == c then some (some new_p) else none) else none) (
              else_old (if p == new_p then (if c == c then some v else none) else none) (
                if p == new_p
                then (if ltb c c then some v else none)
                else (if ltb c c && (ltb c forward_n && (q == p))
                    then some (some new_p)
                    else none)))
            ≡ (if p == new_p
                then (if ltb c (suc c) then some v else none)
                else (if ltb c (suc c) && (ltb c forward_n && (q == p))
                    then some (some new_p)
                    else none))
      at_c v q ne = ground arith

  links_above :
      (l : ℕ)
      → forward_n ≤ c
      → next c ys ≡ none
      → then_change (links_to pred forward_n new_p ys c) (set_one new_p c none) p l
        ≡ links_to pred forward_n new_p ys (suc c) p l
  links_above l ge e = elim (Bool-cases (c == l)) [
    | inl same ↦
        let c_l : c ≡ l = ground arith in
        subst
          (λ m.
            then_change (links_to pred forward_n new_p ys c) (set_one new_p c none) p m
            ≡ links_to pred forward_n new_p ys (suc c) p m)
          c_l (at_c (next c ys) (pred c) e)
    | inr other ↦ rw (other, neither) (links_other l other)
  ]
    where
      at_c :
          (v : Option ℕ) (q : ℕ)
          → v ≡ none
          → else_old (if p == new_p then (if c == c then some none else none) else none) (
              if p == new_p
              then (if ltb c c then some v else none)
              else (if ltb c c && (ltb c forward_n && (q == p)) then some (some new_p) else none))
            ≡ (if p == new_p
                then (if ltb c (suc c) then some v else none)
                else (if ltb c (suc c) && (ltb c forward_n && (q == p))
                    then some (some new_p)
                    else none))
      at_c v q e = ground arith

module _ (h0 : Heap) (new_p : ℕ) (new : Node) (at : h0 new_p ≡ some new) (pred : ℕ → ℕ)
    (forward_n : ℕ) (ys : List Item) (update : List ℕ)
    (noted : (l : ℕ) → l < forward_n → get_elem? update l ≡ some (pred l))
    (reads : (l : ℕ)
      → l < forward_n
      → (n : Node) × (h0 (pred l) ≡ some n)
        × (l < length n.forward)
        × (get_elem? n.forward l ≡ some (next l ys)))
    (apart : (l : ℕ) → pred l ≢ new_p) (top : (l : ℕ) → forward_n ≤ l → next l ys ≡ none) where
  abbrev links : ℕ → Change
  links = links_to pred forward_n new_p ys

  -- One round.
  link_level-links :
      (c : ℕ) (h : Heap)
      → c < length new.forward
      → Changes h0 h (links c)
      → (h' : Heap) × (link_level forward_n new_p update c h ≡ done h')
        × Changes h0 h' (links (suc c))
  unfolding link_level
  link_level-links c h lt changes = elim (dec_lt c forward_n) [
    | yes below ↦
        let inside : ltb c forward_n ≡ true = ground arith in
        let (m, m_at, m_changed) = changes new_p new at in
        let m_tall : c < length m.forward = omega (arith, m_changed.width) in
        let (n0, n0_at, n0_tall, n0_next) = reads c below in
        let (n, n_at, n_changed) = changes (pred c) n0 n0_at in
        let kept : links c (pred c) c ≡ none = ground (arith, apart c) in
        let link : get_elem? n.forward c ≡ some (next c ys) =
          n_changed.links c n0_tall
          ∙ ap (λ o. else_old o (get_elem? n0.forward c)) kept
          ∙ n0_next in
        let read : deref h (pred c) ≡ done n = unfold deref in rw (n_at, deref) in
        let after : next_of n c ≡ done (next c ys) = unfold next_of in rw (link, next_of) in
        let h1 = write h new_p (some (record m { forward = set m.forward c (next c ys) })) in
        let first = Changes-set h new_p c (next c ys) m m_at m_tall in
        let (k, k_at, k_changed) = first (pred c) n n_at in
        let k_tall : c < length k.forward = omega (arith, k_changed.width, n_changed.width) in
        let h2 = write h1 (pred c) (some (record k { forward = set k.forward c (some new_p) })) in
        let second = Changes-set h1 (pred c) c (some new_p) k k_at k_tall in
        (
          h2,
          rw (
            inside,
            noted c below,
            read,
            after,
            set_next-done h new_p c (next c ys) m m_at m_tall,
            set_next-done h1 (pred c) c (some new_p) k k_at k_tall,
          ),
          Changes-congr (Changes-trans (Changes-trans changes first) second)
              (λ p l. links_below pred forward_n new_p ys c p l below (apart c)),
        )
    | no over ↦
        let outside : ltb c forward_n ≡ false = ground arith in
        let (m, m_at, m_changed) = changes new_p new at in
        let m_tall : c < length m.forward = omega (arith, m_changed.width) in
        let h1 = write h new_p (some (record m { forward = set m.forward c none })) in
        (
          h1,
          rw (outside, set_next-done h new_p c none m m_at m_tall),
          Changes-congr (Changes-trans changes (Changes-set h new_p c none m m_at m_tall)) (λ p l.
              links_above pred forward_n new_p ys c p l (omega arith) (top c (omega arith))),
        )
  ]

  pub link_levels-links :
      (rounds c : ℕ) (h : Heap)
      → rounds + c ≡ length new.forward
      → Changes h0 h (links c)
      → (h' : Heap) × (link_levels forward_n new_p update rounds c h ≡ done h')
        × Changes h0 h' (links (length new.forward))
  unfolding link_levels
  link_levels-links zero c h e changes =
      let end : c ≡ length new.forward = omega arith in
      (h, refl, subst (λ k. Changes h0 h (links k)) end changes)
  link_levels-links (suc rounds) c h e changes =
      let (h1, run, changes1) = link_level-links c h (omega arith) changes in
      let (h2, rest, changes2) = link_levels-links rounds (suc c) h1 (omega arith) changes1 in
      (h2, rw (run, rest), changes2)
