-- ===== src/Mpool/Bits/Laws.antt =====
-- The array holds the powers of two, and the loops give the numbers of bits.
use native.Mathlib.Nat.{pow-suc}
use source.Mpool.Bits.{
  started, bit_size, bits_from, size_to_bits, free_bits_from, size_to_free_bits,
}
use source.Mpool.State.{max_bits}
use source.Prelude.{
  ℕ, zero, List, [], ◌∷◌, ap, false, ◌∙◌, suc, ◌+◌, ◌-◌, ◌*◌, ◌^◌, ◌≤◌, ◌<◌, ◌≡◌, inl, inr, refl,
  ◌==◌, ltb, leb, ltb→lt, leb→le, Bool-cases, get_or, arith,
}

pub min_bits_next : started.min_bit_free_next ≡ 3
unfolding started
min_bits_next = refl

pub min_bits_size : started.min_bit_free_size ≡ 4
unfolding started
min_bits_size = refl

powers : ℕ → ℕ → List ℕ
powers zero v = []
powers (suc n) v = v ∷ powers n (v * 2)

get_or-powers : (n v i : ℕ) → i < n → get_or (powers n v) i 0 ≡ v * 2 ^ i
unfolding powers
get_or-powers zero v i lt = absurd (omega arith)
get_or-powers (suc n) v zero lt = omega arith
get_or-powers (suc n) v (suc i) lt =
    get_or-powers n (v * 2) i (omega arith) ∙ grind (arith, pow-suc 2 i)

started-powers : started.bit_array ≡ powers 31 1
unfolding started powers
started-powers = refl

-- Each place of the array holds a power of two.
pub bit_size-pow : (b : ℕ) → b ≤ max_bits → bit_size b ≡ 2 ^ b
unfolding bit_size
bit_size-pow b le =
    ap (λ xs. get_or xs b 0) started-powers ∙ get_or-powers 31 1 b (omega arith) ∙ omega arith

-- The smallest number of bits that is enough for a size, if 30 bits are.
pub record IsBits (size b : ℕ) : Type 0 where
  pub top : b ≤ max_bits + 1
  pub fits : b ≤ max_bits → size ≤ 2 ^ b
  pub least : 0 < b → 2 ^ (b - 1) < size

bits_from-IsBits :
    (rounds c size : ℕ)
    → c + rounds ≡ max_bits + 1
    → (0 < c → 2 ^ (c - 1) < size)
    → IsBits size (bits_from rounds c size)
unfolding bits_from
bits_from-IsBits zero c size e before = record {
  top = omega arith;
  fits = λ le. absurd (omega arith);
  least = before;
}
bits_from-IsBits (suc rounds) c size e before = elim (Bool-cases (leb size (bit_size c))) [
  | inl enough ↦
      let le = leb→le _ _ enough in
      let here = bit_size-pow c (omega arith) in
      rw enough (record { top = omega arith; fits = λ _. omega (arith, le, here); least = before })
  | inr small ↦
      let here = bit_size-pow c (omega arith) in
      let less : bit_size c < size = ground arith in
      let same : c + 1 - 1 ≡ c = omega arith in
      rw small (
        bits_from-IsBits rounds (c + 1) size (omega arith)
          (λ _. rw same (omega (arith, less, here))))
]

-- `size_to_bits` gives the smallest number of bits that is enough, or 31 where 30 bits are not.
pub size_to_bits-IsBits : (size : ℕ) → IsBits size (size_to_bits size)
unfolding size_to_bits
size_to_bits-IsBits size = bits_from-IsBits 31 0 size refl (λ lt. absurd (omega arith))

-- The largest number of bits that a size has room for, among those of the array.
pub record IsFreeBits (size b : ℕ) : Type 0 where
  pub top : b ≤ max_bits
  pub room : 2 ^ b ≤ size
  pub most : b < max_bits → size < 2 ^ (b + 1)

free_bits_from-IsFreeBits :
    (rounds c size : ℕ)
    → c + 1 + rounds ≡ max_bits + 1
    → 2 ^ c ≤ size
    → IsFreeBits size (free_bits_from rounds (c + 1) size - 1)
unfolding free_bits_from
free_bits_from-IsFreeBits zero c size e before =
    let same : c + 1 - 1 ≡ c = omega arith in
    rw same (record { top = omega arith; room = before; most = λ lt. absurd (omega arith) })
free_bits_from-IsFreeBits (suc rounds) c size e before =
    let same : c + 1 - 1 ≡ c = omega arith in
    let here = bit_size-pow (c + 1) (omega arith) in
    elim (Bool-cases (ltb size (bit_size (c + 1)))) [
      | inl small ↦
          let less = ltb→lt _ _ small in
          rw (small, same)
            (record { top = omega arith; room = before; most = λ _. omega (arith, less, here) })
      | inr enough ↦
          let le : bit_size (c + 1) ≤ size = ground arith in
          rw enough
            (free_bits_from-IsFreeBits rounds (c + 1) size (omega arith) (omega (arith, le, here)))
    ]

-- `size_to_free_bits` gives the largest number of bits, up to 30, that a size above 0 has room for.
pub size_to_free_bits-IsFreeBits : (size : ℕ) → 0 < size → IsFreeBits size (size_to_free_bits size)
unfolding size_to_free_bits free_bits_from
size_to_free_bits-IsFreeBits size lt =
    let some_bytes : (size == 0) ≡ false = ground arith in
    let here = bit_size-pow 0 (omega arith) in
    let first : ltb size (bit_size 0) ≡ false = ground (arith, here) in
    rw (some_bytes, first) (free_bits_from-IsFreeBits 30 0 size refl (omega arith))
