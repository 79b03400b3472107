-- ===== src/Skip/Order.antt =====
-- What a comparison function must satisfy, and the default one of skiplist/skip.c: it is the
-- lexicographic order of byte strings.
use Prim.Native.Nat.{compare, Ordering}
use source.Prelude.Words.{sub32}
use source.Prelude.{ℕ, suc, ◌^◌, ◌<◌, ◌≡◌, refl, ◌∙◌, sym, ap, List, [], ◌∷◌, length, min, arith}
use source.Skip.Search.{sign_of, compare_keys}
use source.Skip.State.{Compare}
use source.Table.Entry.{memcmp}

abbrev pub swap : Ordering → Ordering
swap Ordering.lt = Ordering.gt
swap Ordering.eq = Ordering.eq
swap Ordering.gt = Ordering.lt

-- The size of a key is an `int`.
abbrev pub IsShort : List ℕ → Type 0
IsShort k = length k < 2 ^ 31

-- What `skip_alloc` asks of a comparison function: its sign is that of `*key1 - *key2`.
pub record IsOrder (cmp : Compare) : Type 0 where
  pub flip : (a b : List ℕ) → IsShort a → IsShort b → cmp b a ≡ swap (cmp a b)
  pub same :
      (a b c : List ℕ)
      → IsShort a
      → IsShort b
      → IsShort c
      → cmp a b ≡ Ordering.eq
      → cmp c a ≡ cmp c b
  pub trans :
      (a b c : List ℕ)
      → IsShort a
      → IsShort b
      → IsShort c
      → cmp a b ≡ Ordering.gt
      → cmp b c ≡ Ordering.gt
      → cmp a c ≡ Ordering.gt

-- The order of a dictionary.
abbrev then_by : Ordering → Ordering → Ordering
then_by Ordering.lt rest = Ordering.lt
then_by Ordering.eq rest = rest
then_by Ordering.gt rest = Ordering.gt

pub lex : List ℕ → List ℕ → Ordering
lex [] [] = Ordering.eq
lex [] (y ∷ b) = Ordering.lt
lex (x ∷ a) [] = Ordering.gt
lex (x ∷ a) (y ∷ b) = then_by (compare x y) (lex a b)

memcmp-cons :
    (n x y : ℕ) (a b : List ℕ)
    → memcmp (suc n) (x ∷ a) (y ∷ b) ≡ then_by (compare x y) (memcmp n a b)
unfolding memcmp
memcmp-cons n x y a b = ground arith

compare_keys-then_by :
    (a b : List ℕ)
    → compare_keys a b
      ≡ then_by (memcmp (min (length a) (length b)) a b) (sign_of (sub32 (length a) (length b)))
unfolding compare_keys
compare_keys-then_by a b = ground arith

then_by_assoc : (p q r : Ordering) → then_by (then_by p q) r ≡ then_by p (then_by q r)
then_by_assoc Ordering.lt q r = refl
then_by_assoc Ordering.eq q r = refl
then_by_assoc Ordering.gt q r = refl

-- The default comparison is the lexicographic order of byte strings whose sizes are `int`s.
pub compare_keys-lex : (a b : List ℕ) → IsShort a → IsShort b → compare_keys a b ≡ lex a b
unfolding lex
compare_keys-lex [] [] p q = unfold compare_keys memcmp in refl
compare_keys-lex [] (y ∷ b) p q = unfold compare_keys memcmp in ground arith
compare_keys-lex (x ∷ a) [] p q = unfold compare_keys memcmp in ground arith
compare_keys-lex (x ∷ a) (y ∷ b) p q =
    let n = length a in
    let m = length b in
    let shorter : min (suc n) (suc m) ≡ suc (min n m) = omega arith in
    let difference : sub32 (suc n) (suc m) ≡ sub32 n m = omega arith in
    compare_keys-then_by (x ∷ a) (y ∷ b)
    ∙ rw (shorter, difference, memcmp-cons, then_by_assoc)
        (ap (then_by (compare x y))
          (sym (compare_keys-then_by a b) ∙ compare_keys-lex a b (omega arith) (omega arith)))

lex-flip : (a b : List ℕ) → lex b a ≡ swap (lex a b)
unfolding lex
lex-flip [] [] = refl
lex-flip [] (y ∷ b) = refl
lex-flip (x ∷ a) [] = refl
lex-flip (x ∷ a) (y ∷ b) = ground (arith, lex-flip a b)

lex-eq : (a b : List ℕ) → lex a b ≡ Ordering.eq → a ≡ b
unfolding lex
lex-eq [] [] e = refl
lex-eq [] (y ∷ b) e = cc
lex-eq (x ∷ a) [] e = cc
lex-eq (x ∷ a) (y ∷ b) e = ground (arith, lex-eq a b)

lex_trans : (a b c : List ℕ) → lex a b ≡ Ordering.gt → lex b c ≡ Ordering.gt → lex a c ≡ Ordering.gt
unfolding lex
lex_trans [] [] c p q = cc
lex_trans [] (y ∷ b) c p q = cc
lex_trans (x ∷ a) b [] p q = refl
lex_trans (x ∷ a) [] (z ∷ c) p q = cc
lex_trans (x ∷ a) (y ∷ b) (z ∷ c) p q = ground (arith, lex_trans a b c)

pub compare_keys-IsOrder : IsOrder compare_keys
compare_keys-IsOrder = record {
  flip = λ a b p q. rw (compare_keys-lex a b p q, compare_keys-lex b a q p) (lex-flip a b);
  same = λ a b c p q r e. ap (compare_keys c) (lex-eq a b (sym (compare_keys-lex a b p q) ∙ e));
  trans = λ a b c p q r d e.
      compare_keys-lex a c p r
      ∙ lex_trans a b c (sym (compare_keys-lex a b p q) ∙ d) (sym (compare_keys-lex b c q r) ∙ e);
}
