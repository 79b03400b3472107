-- ===== src/Mpool/Space/Lists.antt =====
-- The rounding of `get_space`, and its search for a list.
use source.Mpool.Bits.Laws.{size_to_bits-IsBits}
use source.Mpool.Bits.{size_to_bits}
use source.Mpool.Space.{round_up, first_list, find_list}
use source.Mpool.State.{max_bits}
use source.Mpool.Valid.Kept.{pow_mono}
use source.Prelude.Words.{u64}
use source.Prelude.{
  ℕ, zero, suc, ◌+◌, ◌-◌, ◌%◌, ◌^◌, ◌≤◌, ◌<◌, ◌≡◌, ◌≢◌, ◌⊎◌, inl, inr, ◌∙◌, ltb, ◌==◌, Bool-cases,
  arith,
}

-- The rounds are enough if they reach the next multiple of 8.
round_up-eights :
    (rounds size : ℕ)
    → size + 8 + rounds < 2 ^ 64
    → size % 8 ≡ 0 ⊎ (8 ≤ size % 8 + rounds)
    → round_up rounds size ≡ size + (8 - size % 8) % 8
unfolding round_up
round_up-eights zero size low (inl e) = omega (arith, e)
round_up-eights zero size low (inr le) = absurd (omega arith)
round_up-eights (suc rounds) size low o = elim (Bool-cases (size % 8 == 0)) [
  | inl even ↦ let is : size % 8 ≡ 0 = ground arith in rw even (omega (arith, is))
  | inr odd ↦
      let is : 0 < size % 8 = ground arith in
      let whole : u64 (size + 1) ≡ size + 1 = omega arith in
      let later : (size + 1) % 8 ≡ 0 ⊎ (8 ≤ (size + 1) % 8 + rounds) = elim o [
        | inl e ↦ absurd (omega arith)
        | inr le ↦ elim (Bool-cases ((size + 1) % 8 == 0)) [
          | inl e ↦ inl (ground arith)
          | inr e ↦ inr (ground arith)
        ]
      ] in
      rw (odd, whole) (round_up-eights rounds (size + 1) (omega arith) later ∙ omega (arith, is))
]

-- The next multiple of 8.
pub record IsRounded (size r : ℕ) : Type 0 where
  pub least : size ≤ r
  pub most : r < size + 8
  pub eights : r % 8 ≡ 0

pub round_up-IsRounded : (size : ℕ) → size + 16 < 2 ^ 64 → IsRounded size (round_up 7 size)
round_up-IsRounded size low =
    let reach : size % 8 ≡ 0 ⊎ (8 ≤ size % 8 + 7) = elim (Bool-cases (size % 8 == 0)) [
      | inl e ↦ inl (ground arith)
      | inr e ↦ inr (ground arith)
    ] in
    let e = round_up-eights 7 size (omega arith) reach in
    record { least = omega (arith, e); most = omega (arith, e); eights = omega (arith, e) }

-- A list that is not empty, or the end of the lists.
pub record IsFirst (free : ℕ → ℕ) (c end b : ℕ) : Type 0 where
  pub least : c ≤ b
  pub most : b ≤ end
  pub some_in : b < end → free b ≢ 0

first_list-IsFirst :
    (free : ℕ → ℕ) (rounds c : ℕ) → IsFirst free c (c + rounds) (first_list free rounds c)
unfolding first_list
first_list-IsFirst free zero c = record {
  least = omega arith;
  most = omega arith;
  some_in = λ lt. absurd (omega arith);
}
first_list-IsFirst free (suc rounds) c = elim (Bool-cases (free c == 0)) [
  | inl none_in ↦
      let r = first_list-IsFirst free rounds (c + 1) in
      rw none_in (record {
        least = omega (arith, r.least);
        most = omega (arith, r.most);
        some_in = λ lt. r.some_in (omega arith);
      })
  | inr some ↦
      rw some (record { least = omega arith; most = omega arith; some_in = λ lt. ground arith })
]

-- The list that is searched from the bits of a size on: its entries are large enough.
pub record IsListFor (free : ℕ → ℕ) (size b : ℕ) : Type 0 where
  pub most : b ≤ max_bits + 1
  pub long : 4 ≤ b
  pub some_in : b ≤ max_bits → free b ≢ 0
  pub room : b ≤ max_bits → size ≤ 2 ^ b

pub find_list-IsListFor :
    (free : ℕ → ℕ) (size : ℕ) → 16 ≤ size → IsListFor free size (find_list free (size_to_bits size))
unfolding find_list
find_list-IsListFor free size le =
    let c = size_to_bits size in
    let bits = size_to_bits-IsBits size in
    let r = first_list-IsFirst free (max_bits + 1 - c) c in
    record {
      most = omega (arith, r.most, bits.top);
      long = elim (Bool-cases (ltb c 4)) [
        | inl few ↦
            let most : c ≤ 3 = ground arith in
            absurd (omega (arith, bits.fits (omega arith), pow_mono c 3 most))
        | inr many ↦ ground (arith, r.least)
      ];
      some_in = λ lt. r.some_in (omega (arith, bits.top));
      room = λ lt. omega (
        arith,
        bits.fits (omega (arith, r.least)),
        pow_mono c (first_list free (max_bits + 1 - c) c) r.least,
      );
    }
