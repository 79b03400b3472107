-- ===== src/Skip/Links/Relink.antt =====
-- A list whose entries behind a place change: the nodes before it that are the last on a level get
-- a new pointer.
use mathlib.Core.Path.{subst}
use mathlib.Core.List.{append_assoc}
use native.Mathlib.Decide.{dec_lt}
use source.Prelude.All.{All, All-right}
use source.Prelude.{
  ℕ, ◌<◌, ◌≤◌, ◌≡◌, ◌≢◌, refl, sym, ap, ◌∙◌, ◌&&◌, true, false, Option, none, some, List, [], ◌∷◌,
  ◌++◌, ltb, ◌==◌, if◌then◌else◌, Bool-cases, inl, inr, arith,
}
use source.Skip.Items.{
  Item, next, above-low, above-tall, pred_of, pred_of-low, pred_of-tall, Points, Linked, Cut, low,
  tall, cut,
}
use source.Skip.Links.{Change, else_old, Changes}
use source.Skip.State.{Heap}
use source.Skip.Valid.{Differs, Distinct}

-- What holds of the addresses of some items holds of the last one on a level.
pub pred_of-All :
    (P : ℕ → Type 0) (level : ℕ) (a : Item) (xs : List Item)
    → P a.addr
    → All (λ x. P x.addr) xs
    → P (pred_of level a xs)
pred_of-All P level a [] p all = p
pred_of-All P level a (x ∷ xs) p all = elim (Bool-cases (ltb level x.height)) [
  | inl stands ↦ rw stands (pred_of-All P level x xs all.0 all.1)
  | inr not_here ↦ rw not_here (pred_of-All P level a xs p all.1)
]

-- A node keeps its place if its pointers change to what then stands behind it.
pub Points-Changes :
    {h h' : Heap} {f : Change} (x : Item) (rest rest' : List Item)
    → Changes h h' f
    → Points h x rest
    → ((l : ℕ) → l < x.height → else_old (f x.addr l) (some (next l rest)) ≡ some (next l rest'))
    → Points h' x rest'
Points-Changes {f} x rest rest' changes p new =
    let (n', e, c) = changes x.addr p.node p.stored.at in
    record {
      node = n';
      stored = record {
        at = e;
        key_addr = c.key_addr ∙ p.stored.key_addr;
        key = c.key ∙ p.stored.key;
        value = c.value ∙ p.stored.value;
        height = c.width ∙ p.stored.height;
      };
      links = λ l lt.
          c.links l (omega (arith, p.stored.height))
          ∙ ap (else_old (f x.addr l)) (p.links l lt)
          ∙ new l lt;
    }

-- Nodes that no change is about.
pub Linked-Changes :
    {h h' : Heap} {f : Change} (xs : List Item)
    → Changes h h' f
    → All (λ x. (l : ℕ) → f x.addr l ≡ none) xs
    → Linked h xs
    → Linked h' xs
Linked-Changes [] changes same l = tt
Linked-Changes {f} (x ∷ xs) changes same l = (
  Points-Changes x xs xs changes l.0 (λ j lt. ap (λ o. else_old o (some (next j xs))) (same.0 j)),
  Linked-Changes xs changes same.1 l.1,
)

-- The change: on the levels below `k`, the last node before the place gets what then is next.
abbrev pub joins : (ℕ → ℕ) → ℕ → List Item → ℕ → ℕ → Option (Option ℕ)
joins pred k new p l = if ltb l k && (pred l == p) then some (next l new) else none

module _ (t : Item) (k : ℕ) (old new : List Item)
    (above_k : (l : ℕ) → k ≤ l → next l old ≡ next l new) where
  -- One node before the place, with `bs` between.
  joined :
      (y : Item) (bs : List Item) (p : ℕ) (l : ℕ)
      → p ≡ pred_of l y bs
      → All (Differs y) bs
      → else_old
          (if ltb l k && (p == y.addr) then some (next l new) else none)
          (some (next l (bs ++ old)))
        ≡ some (next l (bs ++ new))
  joined y bs p l e apart = by_cut (cut l bs)
    where
      by_cut :
          Cut l bs
          → else_old
              (if ltb l k && (p == y.addr) then some (next l new) else none)
              (some (next l (bs ++ old)))
            ≡ some (next l (bs ++ new))
      by_cut (low a) =
          let last : (p == y.addr) ≡ true = ground (arith, e, pred_of-low l y bs a) in
          elim (dec_lt l k) [
            | yes lt ↦
                let inside : ltb l k ≡ true = ground arith in
                rw (last, above-low l bs old a, above-low l bs new a, inside)
            | no ge ↦
                let outside : ltb l k ≡ false = ground arith in
                rw (last, above-low l bs old a, above-low l bs new a, outside)
                  (ap (λ o. some o) (above_k l (omega arith)))
          ]
      by_cut (tall pre x post cut_e a h) =
          let behind =
            All-right (Differs y) pre (x ∷ post) (subst (λ zs. All (Differs y) zs) cut_e apart) in
          let there : p ≡ pred_of l x post =
            e ∙ ap (pred_of l y) cut_e ∙ pred_of-tall l y pre x post h in
          let differs : y.addr ≢ p =
            rw there (pred_of-All (λ a. y.addr ≢ a) l x post behind.0 behind.1) in
          let other : (p == y.addr) ≡ false = ground arith in
          let none_here : (ltb l k && (p == y.addr)) ≡ false = ground arith in
          rw (
            none_here,
            above-tall l bs old pre x post cut_e a h,
            above-tall l bs new pre x post cut_e a h,
          )

  -- On its levels every node sees the last one before the place.
  abbrev Sees : (ℕ → ℕ) → Item → List Item → Type 0
  Sees pred y [] = (l : ℕ) → l < y.height → pred l ≡ pred_of l y []
  Sees pred y (z ∷ bs) = ((l : ℕ) → l < y.height → pred l ≡ pred_of l y (z ∷ bs)) × Sees pred z bs

  Sees-behind :
      (before pre : List Item) (y : Item) (bs : List Item)
      → before ≡ pre ++ y ∷ bs
      → Sees (λ l. pred_of l t before) y bs
  Sees-behind before pre y [] e = λ l lt. ap (pred_of l t) e ∙ pred_of-tall l t pre y [] lt
  Sees-behind before pre y (z ∷ bs) e = (
    λ l lt. ap (pred_of l t) e ∙ pred_of-tall l t pre y (z ∷ bs) lt,
    Sees-behind before (pre ++ y ∷ []) z bs (e ∙ sym (append_assoc pre (y ∷ []) (z ∷ bs))),
  )

  sees : (before : List Item) → Sees (λ l. pred_of l t before) t before
  sees [] = λ l lt. refl
  sees (z ∷ bs) = (λ l lt. refl, Sees-behind (z ∷ bs) [] z bs refl)

  module _ {h h' : Heap} {f : Change} (changes : Changes h h' f) (pred : ℕ → ℕ) where
    joined-Points :
        (y : Item) (bs : List Item)
        → ((l : ℕ) → l < y.height → f y.addr l ≡ joins pred k new y.addr l)
        → ((l : ℕ) → l < y.height → pred l ≡ pred_of l y bs)
        → All (Differs y) bs
        → Points h y (bs ++ old)
        → Points h' y (bs ++ new)
    joined-Points y bs changed here apart p =
        Points-Changes y (bs ++ old) (bs ++ new) changes p (λ l lt.
          ap (λ o. else_old o (some (next l (bs ++ old)))) (changed l lt)
          ∙ joined y bs (pred l) l (here l lt) apart)

    pub Linked-join :
        (y : Item) (bs : List Item)
        → All (λ x. (l : ℕ) → l < x.height → f x.addr l ≡ joins pred k new x.addr l) (y ∷ bs)
        → Sees pred y bs
        → Distinct (y ∷ bs)
        → Linked h (y ∷ (bs ++ old))
        → Linked h' new
        → Linked h' (y ∷ (bs ++ new))
    Linked-join y [] changed here apart l l_new =
        (joined-Points y [] changed.0 here apart.0 l.0, l_new)
    Linked-join y (z ∷ bs) changed here apart l l_new = (
      joined-Points y (z ∷ bs) changed.0 here.0 apart.0 l.0,
      Linked-join z bs changed.1 here.1 apart.1 l.1 l_new,
    )

  -- All the nodes before the place, from the head on.
  pub Linked-joins :
      {h h' : Heap} {f : Change} (before : List Item)
      → Changes h h' f
      → All
          (λ x.
            (l : ℕ) → l < x.height → f x.addr l ≡ joins (λ l. pred_of l t before) k new x.addr l)
          (t ∷ before)
      → Distinct (t ∷ before)
      → Linked h (t ∷ (before ++ old))
      → Linked h' new
      → Linked h' (t ∷ (before ++ new))
  Linked-joins before changes changed apart l l_new =
      Linked-join changes (λ l. pred_of l t before) t before changed (sees before) apart l l_new
