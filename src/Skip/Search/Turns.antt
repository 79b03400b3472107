-- ===== src/Skip/Search/Turns.antt =====
-- What one round of the loop of `find_node` makes of a node, and what the loop notes.
use Prim.Native.Nat.{Ordering}
use native.Mathlib.Decide.{dec_lt}
use source.Prelude.All.{All}
use source.Prelude.{
  ℕ, zero, suc, ◌≤◌, ◌<◌, ◌≡◌, ◌≢◌, refl, sym, ◌∙◌, ap, inl, inr, Bool, true, false, Option, none,
  some, List, [], ◌∷◌, ◌++◌, length, ltb, Bool-cases, ◌==◌, if◌then◌else◌, arith,
}
use source.Skip.Items.{
  Item, above, next, pred_of, Stored, IsStored, Points, deref-Stored, above-All, pred_of-tall,
}
use source.Skip.Search.{Turn, down, hit, turn_of, is_found, turn, track}
use source.Skip.State.{Node, Heap, Compare, next_of}
use source.Table.Memory.{done}

abbrev pub IsLess : Compare → List ℕ → Item → Type 0
IsLess cmp k x = cmp x.key k ≡ Ordering.lt

abbrev pub IsMore : Compare → List ℕ → Item → Type 0
IsMore cmp k x = cmp x.key k ≡ Ordering.gt

-- No item is before the key, and only the first can have it.
abbrev pub NotBefore : Compare → List ℕ → List Item → Type 0
NotBefore cmp k [] = Unit
NotBefore cmp k (x ∷ xs) = (cmp x.key k ≢ Ordering.lt) × All (IsMore cmp k) xs

-- The node with the key, if it stands on a level.
abbrev pub found_on : Compare → List ℕ → ℕ → List Item → Option ℕ
found_on cmp k level [] = none
found_on cmp k level (x ∷ xs) =
    if ltb level x.height then elim (cmp x.key k) [ Ordering.eq ↦ some x.addr | _ ↦ none ] else none

-- The nodes noted on the levels below a number of levels.
abbrev pub preds : Bool → ℕ → Item → List Item → List ℕ → List ℕ
preds tracked zero a mid update = update
preds tracked (suc level) a mid update =
    preds tracked level a mid (track tracked (pred_of level a mid) update)

pub preds-tall :
    (tracked : Bool) (level : ℕ) (a : Item) (pre : List Item) (x : Item) (post : List Item)
    (update : List ℕ)
    → level ≤ x.height
    → preds tracked level a (pre ++ x ∷ post) update ≡ preds tracked level x post update
preds-tall tracked zero a pre x post update h = refl
preds-tall tracked (suc level) a pre x post update h =
    rw (pred_of-tall level a pre x post (omega arith))
      (preds-tall tracked level a pre x post _ (omega arith))

abbrev pub verdict : Option ℕ → Turn
verdict none = down
verdict (some p) = hit p

module _ (h : Heap) (cmp : Compare) (k : List ℕ) where
  next_of-Points :
      (a : Item) (level : ℕ) (xs : List Item) (p : Points h a xs)
      → level < a.height
      → next_of p.node level ≡ done (next level xs)
  unfolding next_of
  next_of-Points a level xs p lt = rw (p.links level lt, next_of)

  -- What the loop makes of a node `x` next to `a`.
  module _ (a x : Item) (level : ℕ) (found : Option ℕ) (xs : List Item) (p : Points h a xs)
      (e : above level xs ≡ some x) (lt : level < a.height) where
    turn-again : is_found x.addr found ≡ true → turn h cmp k a.addr level found ≡ done (hit x.addr)
    unfolding turn
    turn-again known =
        rw (deref-Stored h a p.node p.stored, next_of-Points a level xs p lt, e, known)

    module _ (fresh : is_found x.addr found ≡ false) (node : Node) (s : Stored h x node) where
      pub turn-compared :
          x.height ≤ a.height
          → turn h cmp k a.addr level found ≡ done (turn_of x.addr (cmp x.key k))
      unfolding turn
      turn-compared le =
          let short : ltb (length p.node.forward) (length node.forward) ≡ false =
            ground (arith, p.stored.height, s.height) in
          rw (
            deref-Stored h a p.node p.stored,
            next_of-Points a level xs p lt,
            e,
            fresh,
            deref-Stored h x node s,
            short,
            s.key,
          )

      turn-taller : a.height < x.height → turn h cmp k a.addr level found ≡ done down
      unfolding turn
      turn-taller gt =
          let long : ltb (length p.node.forward) (length node.forward) ≡ true =
            ground (arith, p.stored.height, s.height) in
          rw (
            deref-Stored h a p.node p.stored,
            next_of-Points a level xs p lt,
            e,
            fresh,
            deref-Stored h x node s,
            long,
          )

      turn-more : IsMore cmp k x → turn h cmp k a.addr level found ≡ done down
      turn-more more = elim (dec_lt a.height x.height) [
        | yes gt ↦ turn-taller gt
        | no le ↦ turn-compared (omega arith) ∙ ap (λ o. done (turn_of x.addr o)) more
      ]

  turn-end :
      (a : Item) (level : ℕ) (found : Option ℕ) (xs : List Item) (p : Points h a xs)
      → above level xs ≡ none
      → level < a.height
      → turn h cmp k a.addr level found ≡ done down
  unfolding turn
  turn-end a level found xs p e lt =
      rw (deref-Stored h a p.node p.stored, next_of-Points a level xs p lt, e)

  -- At the last node before the key on a level, with `x` behind it.
  module _ (a x : Item) (level : ℕ) (xs rest : List Item) (p : Points h a xs)
      (lt : level < a.height) where
    Turns : Type 0
    Turns =
        turn h cmp k a.addr level (found_on cmp k (suc level) (x ∷ rest))
        ≡ done (verdict (found_on cmp k level (x ∷ rest)))

    turn-first :
        (o : Ordering)
        → cmp x.key k ≡ o
        → o ≢ Ordering.lt
        → above level xs ≡ some x
        → IsStored h x
        → level < x.height
        → Turns
    unfolding Turns
    turn-first Ordering.lt c before e s stands = absurd (before refl)
    turn-first Ordering.eq c before e (node, s) stands =
        let here : ltb level x.height ≡ true = ground arith in
        elim (dec_lt (suc level) x.height) [
          | yes taller ↦
              let seen : ltb (suc level) x.height ≡ true = ground arith in
              rw (seen, here, c) (turn-again a x level _ xs p e lt (ground arith))
          | no level_top ↦
              let new : ltb (suc level) x.height ≡ false = ground arith in
              rw (new, here, c)
                (turn-compared a x level none xs p e lt refl node s (omega arith)
                  ∙ ap (λ o. done (turn_of x.addr o)) c)
        ]
    turn-first Ordering.gt c before e (node, s) stands =
        let unseen : found_on cmp k (suc level) (x ∷ rest) ≡ none = ground arith in
        let missing : found_on cmp k level (x ∷ rest) ≡ none = ground arith in
        rw (unseen, missing) (turn-more a x level none xs p e lt refl node s c)

    turn-later :
        (y : Option Item)
        → above level rest ≡ y
        → above level xs ≡ y
        → All (IsStored h) rest
        → All (IsMore cmp k) rest
        → x.height ≤ level
        → Turns
    unfolding Turns
    turn-later y ey e stored more short =
        let unseen : ltb (suc level) x.height ≡ false = ground arith in
        let missing : ltb level x.height ≡ false = ground arith in
        rw (unseen, missing) (later y ey e)
      where
        later :
            (y : Option Item)
            → above level rest ≡ y
            → above level xs ≡ y
            → turn h cmp k a.addr level none ≡ done down
        later none ey e = turn-end a level none xs p e lt
        later (some y) ey e =
            let (node, s) = (above-All (IsStored h) level rest stored ey).0 in
            turn-more a y level none xs p e lt refl node s
              (above-All (IsMore cmp k) level rest more ey).0

  pub turn-rest :
      (a : Item) (level : ℕ) (xs rest : List Item)
      → Points h a xs
      → above level xs ≡ above level rest
      → All (IsStored h) rest
      → NotBefore cmp k rest
      → level < a.height
      → turn h cmp k a.addr level (found_on cmp k (suc level) rest)
        ≡ done (verdict (found_on cmp k level rest))
  unfolding Turns
  turn-rest a level xs [] p e stored behind lt = turn-end a level _ xs p e lt
  turn-rest a level xs (x ∷ rest) p e stored behind lt = elim (dec_lt level x.height) [
    | yes stands ↦
        turn-first a x level xs rest p lt (cmp x.key k) refl behind.0 (e ∙ ground arith) stored.0
          stands
    | no short ↦
        turn-later a x level xs rest p lt _ refl (e ∙ ground arith) stored.1 behind.1 (omega arith)
  ]

  -- A smaller node is not the one that was found: its key is another.
  pub found_on-fresh :
      (x : Item) (level : ℕ) (rest : List Item)
      → IsStored h x
      → IsLess cmp k x
      → All (IsStored h) rest
      → is_found x.addr (found_on cmp k level rest) ≡ false
  found_on-fresh x level [] stored less all = refl
  found_on-fresh x level (y ∷ ys) (n, s) less ((m, t), all) = elim (Bool-cases (x.addr == y.addr)) [
    | inl same ↦
        let one : x.addr ≡ y.addr = ground arith in
        let node : some n ≡ some m = sym s.at ∙ ap h one ∙ t.at in
        let n_m : n ≡ m = cc in
        let key : x.key ≡ y.key = sym s.key ∙ ap (λ (v : Node). v.key) n_m ∙ t.key in
        let less_y : cmp y.key k ≡ Ordering.lt = rw (← key) less in ground arith
    | inr other ↦ ground arith
  ]

  pub found_on-down :
      (level : ℕ) (rest : List Item) {p : ℕ}
      → found_on cmp k level rest ≡ some p
      → found_on cmp k 0 rest ≡ some p
  found_on-down level [] e = cc
  found_on-down level (x ∷ rest) e = ground arith

  pub found_on-up :
      (level : ℕ) (rest : List Item)
      → found_on cmp k level rest ≡ none
      → found_on cmp k (suc level) rest ≡ none
  found_on-up level [] e = refl
  found_on-up level (x ∷ rest) e = ground arith

  pub preds-untracked :
      (level : ℕ) (a : Item) (mid : List Item) (update : List ℕ)
      → preds false level a mid update ≡ update
  preds-untracked zero a mid update = refl
  preds-untracked (suc level) a mid update = preds-untracked level a mid update
