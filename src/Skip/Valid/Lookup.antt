-- ===== src/Skip/Valid/Lookup.antt =====
-- The map of a list, and the list without one of its entries.
use Prim.Native.Nat.{Ordering}
use source.Prelude.All.{
  All, All-append, All-right, All-left, All-map, All-zip, Pairwise-across, Pairwise-right,
}
use source.Prelude.{◌≡◌, ◌≢◌, refl, sym, ap, ◌∙◌, ℕ, Option, none, some, List, [], ◌∷◌, ◌++◌, arith}
use source.Skip.Items.{Item}
use source.Skip.Order.{IsShort, IsOrder, swap}
use source.Skip.Search.Turns.{NotBefore, IsMore}
use source.Skip.State.{Compare}
use source.Skip.Valid.Split.{lookup-more}
use source.Skip.Valid.{IsBelow, IsSorted, HasShortKey, lookup, from}

-- The entry of a key is the first from the key on, and its key compares equal.
pub lookup-from :
    (cmp : Compare) (k : List ℕ) (xs : List Item) {x : Item}
    → NotBefore cmp k (from cmp k xs)
    → lookup cmp k xs ≡ some x
    → (post : List Item) × (from cmp k xs ≡ x ∷ post)
unfolding lookup from
lookup-from cmp k [] behind e = cc
lookup-from cmp k (y ∷ ys) {x} behind e = by_order (cmp y.key k) (lookup-from cmp k ys) behind e
  where
    by_order :
        (o : Ordering)
        → (NotBefore cmp k (from cmp k ys)
            → lookup cmp k ys ≡ some x
            → (post : List Item) × (from cmp k ys ≡ x ∷ post))
        → NotBefore cmp k (elim o as (λ _. List Item) [ Ordering.lt ↦ from cmp k ys | _ ↦ y ∷ ys ])
        → elim o as (λ _. Option Item) [ Ordering.eq ↦ some y | _ ↦ lookup cmp k ys ] ≡ some x
        → (post : List Item) × (elim o as (λ _. List Item) [
          | Ordering.lt ↦ from cmp k ys
          | _ ↦ y ∷ ys
        ]
            ≡ x ∷ post)
    by_order Ordering.lt rec behind e = rec behind e
    by_order Ordering.eq rec behind e = let same : y ≡ x = cc in (ys, ap (λ z. z ∷ ys) same)
    by_order Ordering.gt rec behind e =
        let clash : none ≡ some x = sym (lookup-more cmp k ys behind.1) ∙ e in cc

-- What the map of the other entries says of a key.
abbrev pub without_key : Ordering → Option Item → Option Item
without_key Ordering.eq o = none
without_key Ordering.lt o = o
without_key Ordering.gt o = o

-- What the map with one more entry says of a key.
abbrev pub with_key : Ordering → Item → Option Item → Option Item
with_key Ordering.eq x o = some x
with_key Ordering.lt x o = o
with_key Ordering.gt x o = o

-- With no entry for the key, all those from the key on are after it.
pub absent-IsMore :
    (cmp : Compare) (k : List ℕ) (xs : List Item)
    → NotBefore cmp k (from cmp k xs)
    → lookup cmp k xs ≡ none
    → All (IsMore cmp k) (from cmp k xs)
unfolding lookup from
absent-IsMore cmp k [] behind e = tt
absent-IsMore cmp k (y ∷ ys) behind e =
    by_order (cmp y.key k) refl (absent-IsMore cmp k ys) behind e
  where
    by_order :
        (o : Ordering)
        → cmp y.key k ≡ o
        → (NotBefore cmp k (from cmp k ys)
            → lookup cmp k ys ≡ none
            → All (IsMore cmp k) (from cmp k ys))
        → NotBefore cmp k (elim o as (λ _. List Item) [ Ordering.lt ↦ from cmp k ys | _ ↦ y ∷ ys ])
        → elim o as (λ _. Option Item) [ Ordering.eq ↦ some y | _ ↦ lookup cmp k ys ] ≡ none
        → All
            (IsMore cmp k)
            (elim o as (λ _. List Item) [ Ordering.lt ↦ from cmp k ys | _ ↦ y ∷ ys ])
    by_order Ordering.lt o rec behind e = rec behind e
    by_order Ordering.eq o rec behind e = absurd cc
    by_order Ordering.gt o rec behind e = (o, behind.1)

module _ (cmp : Compare) (order : IsOrder cmp) (q : List ℕ) (short_q : IsShort q) (x : Item)
    (short_x : IsShort x.key) where
  lookup-ne : (xs : List Item) → All (λ y. cmp y.key q ≢ Ordering.eq) xs → lookup cmp q xs ≡ none
  unfolding lookup
  lookup-ne [] ne = refl
  lookup-ne (y ∷ ys) ne = ground (arith, lookup-ne ys ne.1)

  lookup-other :
      (pre post : List Item)
      → cmp x.key q ≢ Ordering.eq
      → lookup cmp q (pre ++ post) ≡ lookup cmp q (pre ++ x ∷ post)
  unfolding lookup
  lookup-other [] post ne = ground arith
  lookup-other (y ∷ pre) post ne = ground (arith, lookup-other pre post ne)

  before-ne :
      (y : Item)
      → IsShort y.key
      → IsBelow cmp y x
      → cmp x.key q ≡ Ordering.eq
      → cmp y.key q ≢ Ordering.eq
  before-ne y short_y below e z =
      let same = order.same x.key q y.key short_x short_q short_y e in
      let clash : Ordering.lt ≡ Ordering.eq = sym below ∙ same ∙ z in cc

  after-ne :
      (y : Item)
      → IsShort y.key
      → IsBelow cmp x y
      → cmp x.key q ≡ Ordering.eq
      → cmp y.key q ≢ Ordering.eq
  after-ne y short_y below e z =
      let same = order.same x.key q y.key short_x short_q short_y e in
      let back : cmp y.key x.key ≡ Ordering.gt =
        order.flip x.key y.key short_x short_y ∙ ap swap below in
      let clash : Ordering.gt ≡ Ordering.eq = sym back ∙ same ∙ z in cc

  pub lookup-without :
      (pre post : List Item)
      → All HasShortKey (pre ++ x ∷ post)
      → IsSorted cmp (pre ++ x ∷ post)
      → lookup cmp q (pre ++ post) ≡ without_key (cmp x.key q) (lookup cmp q (pre ++ x ∷ post))
  lookup-without pre post short sorted = by_order (cmp x.key q) refl
    where
      by_order :
          (o : Ordering)
          → cmp x.key q ≡ o
          → lookup cmp q (pre ++ post) ≡ without_key o (lookup cmp q (pre ++ x ∷ post))
      by_order Ordering.eq e =
          let above_it =
            (All-map _ _ pre (λ y p. p.0) (Pairwise-across (IsBelow cmp) pre (x ∷ post) sorted)) in
          let below_it = (Pairwise-right (IsBelow cmp) pre (x ∷ post) sorted).0 in
          let short_pre = All-left HasShortKey pre (x ∷ post) short in
          let short_post = (All-right HasShortKey pre (x ∷ post) short).1 in
          lookup-ne (pre ++ post) (
            All-append _ pre post
              (All-map _ _ pre (λ y p. before-ne y p.0 p.1 e) (All-zip _ _ pre short_pre above_it))
              (All-map _ _ post (λ y p. after-ne y p.0 p.1 e)
                (All-zip _ _ post short_post below_it)))
      by_order Ordering.lt e = lookup-other pre post (λ z. cc)
      by_order Ordering.gt e = lookup-other pre post (λ z. cc)

  lookup-behind :
      (pre zs : List Item)
      → All (λ y. cmp y.key q ≢ Ordering.eq) pre
      → lookup cmp q (pre ++ zs) ≡ lookup cmp q zs
  unfolding lookup
  lookup-behind [] zs ne = refl
  lookup-behind (y ∷ pre) zs ne = ground (arith, lookup-behind pre zs ne.1)

  lookup-here : (post : List Item) → cmp x.key q ≡ Ordering.eq → lookup cmp q (x ∷ post) ≡ some x
  unfolding lookup
  lookup-here post e = rw (e, lookup)

  pub lookup-with :
      (pre post : List Item)
      → All HasShortKey (pre ++ x ∷ post)
      → IsSorted cmp (pre ++ x ∷ post)
      → lookup cmp q (pre ++ x ∷ post) ≡ with_key (cmp x.key q) x (lookup cmp q (pre ++ post))
  lookup-with pre post short sorted = by_order (cmp x.key q) refl
    where
      by_order :
          (o : Ordering)
          → cmp x.key q ≡ o
          → lookup cmp q (pre ++ x ∷ post) ≡ with_key o x (lookup cmp q (pre ++ post))
      by_order Ordering.eq e =
          let above_it =
            (All-map _ _ pre (λ y p. p.0) (Pairwise-across (IsBelow cmp) pre (x ∷ post) sorted)) in
          let short_pre = All-left HasShortKey pre (x ∷ post) short in
          lookup-behind pre (x ∷ post)
            (All-map _ _ pre (λ y p. before-ne y p.0 p.1 e) (All-zip _ _ pre short_pre above_it))
          ∙ lookup-here post e
      by_order Ordering.lt e = sym (lookup-other pre post (λ z. cc))
      by_order Ordering.gt e = sym (lookup-other pre post (λ z. cc))
