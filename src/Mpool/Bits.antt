-- ===== src/Mpool/Bits.antt =====
-- `startup`, and the numbers of bits of a size.
pub mod Laws
use source.Mpool.State.{max_bits}
use source.Prelude.{
  ℕ, zero, suc, ◌+◌, ◌-◌, ◌*◌, Bool, true, false, List, [], ◌∷◌, ◌++◌, get_or, ltb, leb, ◌==◌, ◌&&◌,
  if◌then◌else◌,
}

-- The variables of the library: `bit_array`, with the smallest numbers of bits that hold a pointer, and
-- a pointer and a size.
pub record Library : Type 0 where
  pub enabled_b : Bool
  pub bit_array : List ℕ
  pub min_bit_free_next : ℕ
  pub min_bit_free_size : ℕ

-- The place `bit_c` of the array is written.
abbrev pub note_bit : ℕ → ℕ → Library → Library
note_bit bit_c size l = record {
  enabled_b = l.enabled_b;
  bit_array = l.bit_array ++ size ∷ [];
  min_bit_free_next =
      if (l.min_bit_free_next == 0) && leb 8 size then bit_c else l.min_bit_free_next;
  min_bit_free_size =
      if (l.min_bit_free_size == 0) && leb 16 size then bit_c else l.min_bit_free_size;
}

unfoldable pub note_bits : ℕ → ℕ → ℕ → Library → Library
note_bits zero bit_c size l = l
note_bits (suc rounds) bit_c size l =
    note_bits rounds (bit_c + 1) (size * 2) (note_bit bit_c size l)

unfoldable pub startup : Library → Library
unfolding note_bits
startup l = if l.enabled_b then l else record (note_bits (max_bits + 1) 0 1 l) { enabled_b = true }

-- The library before the first `mpool_open`, and after it.
abbrev pub unstarted : Library
unstarted = record {
  enabled_b = false;
  bit_array = [];
  min_bit_free_next = 0;
  min_bit_free_size = 0;
}

unfoldable pub started : Library
unfolding startup
started = startup unstarted

-- `bit_array[bit_c]`
unfoldable pub bit_size : ℕ → ℕ
unfolding started
bit_size bit_c = get_or started.bit_array bit_c 0

-- The loops stop at the first place that is large enough, or behind the array.
unfoldable pub bits_from : ℕ → ℕ → ℕ → ℕ
bits_from zero bit_c size = bit_c
bits_from (suc rounds) bit_c size =
    let rest = bits_from rounds (bit_c + 1) size in
    if leb size (bit_size bit_c) then bit_c else rest

unfoldable pub size_to_bits : ℕ → ℕ
unfolding bits_from
size_to_bits size = bits_from (max_bits + 1) 0 size

unfoldable pub free_bits_from : ℕ → ℕ → ℕ → ℕ
free_bits_from zero bit_c size = bit_c
free_bits_from (suc rounds) bit_c size =
    let rest = free_bits_from rounds (bit_c + 1) size in
    if ltb size (bit_size bit_c) then bit_c else rest

unfoldable pub size_to_free_bits : ℕ → ℕ
unfolding free_bits_from
size_to_free_bits size = if size == 0 then 0 else free_bits_from (max_bits + 1) 0 size - 1

unfoldable pub bits_to_size : ℕ → ℕ
bits_to_size bit_n = if ltb max_bits bit_n then bit_size max_bits else bit_size bit_n
