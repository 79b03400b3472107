-- ===== src/Mpool/Valid/Hand.antt =====
-- Blocks that change hands.
use native.Mathlib.Decide.{dec_lt}
use source.Mpool.Bytes.{Bytes}
use source.Mpool.Valid.Kept.{IsSame, KeptFor, is_block-same, bounds-same, lower, Placed-lower}
use source.Mpool.Valid.{Owner, Owners, give, Placed, small, big}
use source.Prelude.{
  Bool-cases, refl, leb, ltb, ◌&&◌, ℕ, ◌+◌, ◌-◌, ◌≤◌, ◌<◌, ◌≡◌, ◌≢◌, ◌⊎◌, inl, inr, sym, ◌∙◌, arith,
}

-- A block changes hands: all of its bytes, with its header, get another owner.
abbrev pub hand : Owners → ℕ → ℕ → ℕ → Owner → Owners
hand own p a size o = give own (lower p a size) (a + size - lower p a size) o

-- The bytes outside of a block are the same.
abbrev pub SameOutside : Owners → Bytes → Owners → Bytes → ℕ → ℕ → ℕ → Type 0
SameOutside own m own' m' p a size =
    (x : ℕ) → (x < lower p a size) ⊎ (a + size ≤ x) → IsSame own m own' m' x

pub hand-other :
    (own : Owners) (p a size : ℕ) (o : Owner) (x : ℕ)
    → (x < lower p a size) ⊎ (a + size ≤ x)
    → hand own p a size o x ≡ own x
unfolding give
hand-other own p a size o x (inl lt) = ground arith
hand-other own p a size o x (inr le) = ground arith

pub hand-owner :
    (own : Owners) (p a size : ℕ) (o o' : Owner) (x : ℕ)
    → o ≢ o'
    → hand own p a size o x ≡ o'
    → own x ≡ o'
unfolding give
hand-owner own p a size o o' x ne e =
    elim (Bool-cases
      (leb (lower p a size) x && ltb x (lower p a size + (a + size - lower p a size)))) [
        | inl inside ↦
            let here : hand own p a size o x ≡ o = rw (give, inside) refl in
            absurd (ne (sym here ∙ e))
        | inr outside ↦
            let here : hand own p a size o x ≡ own x = rw (give, outside) refl in sym here ∙ e
      ]

pub hand-inside :
    (own : Owners) (p a size : ℕ) (o : Owner) (x : ℕ)
    → lower p a size ≤ x
    → x < a + size
    → hand own p a size o x ≡ o
unfolding give
hand-inside own p a size o x le lt = ground arith

-- What is not in the hands of the call stays the same.
pub Same-kept :
    {own own' : Owners} {m m' : Bytes} {p a size : ℕ} {o : Owner}
    → Placed own m p o a size
    → SameOutside own m own' m' p a size
    → (o' : Owner) → o' ≢ o
    → KeptFor own m own' m' o'
Same-kept {own} {p = p} {a = a} {size = size} placed same o' ne x e =
    elim (dec_lt x (lower p a size)) [
      | yes lt ↦ same x (inl lt)
      | no ge ↦ elim (dec_lt x (a + size)) [
        | yes lt ↦ absurd (ne (sym e ∙ Placed-lower placed x (omega arith) lt))
        | no over ↦ same x (inr (omega arith))
      ]
    ]

-- Only the memory of a block behind its header is written, and it changes hands.
pub Placed-hand :
    {own : Owners} {m m' : Bytes} {p : ℕ} {o : Owner} {a size : ℕ} (o' : Owner)
    → ((x : ℕ) → (x < a) ⊎ (a + size ≤ x) → m' x ≡ m x)
    → Placed own m p o a size
    → Placed (hand own p a size o') m' p o' a size
Placed-hand {own} {p = p} {a = a} {size = size} o' out (small le owns) =
    let plain : lower p a size ≡ a = ground arith in
    small le (λ x x_le x_lt. hand-inside own p a size o' x (omega (arith, plain)) x_lt)
Placed-hand {own} {m} {m'} {p = p} {a = a} {size = size} o' out
      (big block_p k lt at whole owns block bounds) =
    let headed : lower p a size ≡ block_p = ground arith in
    let header : (x : ℕ) → block_p ≤ x → x < block_p + 32 → m' x ≡ m x =
      λ x le x_lt. out x (inl (omega arith)) in
    big block_p k lt at whole
      (λ x x_le x_lt. hand-inside own p a size o' x (omega (arith, headed)) (omega arith))
      (is_block-same m m' block_p header ∙ block) (bounds-same m m' block_p header ∙ bounds)
