-- ===== src/Table/Hash.antt =====
-- `HASH_MIX` of table-4.3.0/table_loc.h and `hash` of table-4.3.0/table.c.
pub mod Mix
use Prim.Native.Nat.{bit_xor}
use source.Prelude.Words.{u32, sub32}
use source.Prelude.{
  ℕ, zero, suc, ◌+◌, ◌*◌, ◌/◌, ◌^◌, List, ◌∷◌, length, get_or, drop, leb, if◌then◌else◌,
}

-- The three words `a`, `b` and `c`.
pub record Mixer : Type 0 where
  pub a : ℕ
  pub b : ℕ
  pub c : ℕ

abbrev pub mixer : ℕ → ℕ → ℕ → Mixer
mixer a b c = record { a = a; b = b; c = c }

-- `x -= y; x -= z; x ^= s`
unfoldable pub turn : ℕ → ℕ → ℕ → ℕ → ℕ
turn x y z s = bit_xor (sub32 (sub32 x y) z) s

abbrev pub shr : ℕ → ℕ → ℕ
shr x k = x / 2 ^ k

abbrev pub shl : ℕ → ℕ → ℕ
shl x k = u32 (x * 2 ^ k)

-- Three lines of the macro, with their shifts.
unfoldable pub mix_row : ℕ → ℕ → ℕ → Mixer → Mixer
mix_row i j k m =
    let a = turn m.a m.b m.c (shr m.c i) in
    let b = turn m.b m.c a (shl a j) in let c = turn m.c a b (shr b k) in mixer a b c

unfoldable pub hash_mix : Mixer → Mixer
hash_mix m = mix_row 3 10 15 (mix_row 12 16 5 (mix_row 13 8 13 m))

abbrev pub at : List ℕ → ℕ → ℕ
at key i = get_or key i 0

-- Four bytes from `i` on, the lowest first.
unfoldable pub word_at : List ℕ → ℕ → ℕ
word_at key i =
    at key i + at key (i + 1) * 2 ^ 8 + at key (i + 2) * 2 ^ 16 + at key (i + 3) * 2 ^ 24

-- The body of the loop over whole blocks of twelve bytes.
unfoldable pub absorb : List ℕ → Mixer → Mixer
unfolding word_at
absorb key m =
    hash_mix
      (mixer (u32 (m.a + word_at key 0)) (u32 (m.b + word_at key 4)) (u32 (m.c + word_at key 8)))

-- The loop runs `length / 12` times; it leaves the words and the bytes from `key_p` on.
unfoldable pub hash_blocks : ℕ → List ℕ → Mixer → Mixer × List ℕ
unfolding absorb
hash_blocks zero key m = (m, key)
hash_blocks (suc n) key m = hash_blocks n (drop 12 key) (absorb key m)

-- One case label of the `switch`, reached when at least `n` bytes are left.
abbrev pub when : ℕ → ℕ → ℕ → ℕ
when n len x = if leb n len then x else 0

-- The `switch`, whose cases fall through to the next.
unfoldable pub hash_tail : List ℕ → Mixer → Mixer
hash_tail key m =
    let len = length key in
    mixer
      (u32 (
        m.a
        + when 4 len (at key 3 * 2 ^ 24)
        + when 3 len (at key 2 * 2 ^ 16)
        + when 2 len (at key 1 * 2 ^ 8)
        + when 1 len (at key 0)))
      (u32 (
        m.b
        + when 8 len (at key 7 * 2 ^ 24)
        + when 7 len (at key 6 * 2 ^ 16)
        + when 6 len (at key 5 * 2 ^ 8)
        + when 5 len (at key 4)))
      (u32 (
        m.c
        + when 11 len (at key 10 * 2 ^ 24)
        + when 10 len (at key 9 * 2 ^ 16)
        + when 9 len (at key 8 * 2 ^ 8)))

abbrev pub golden_ratio : ℕ
golden_ratio = 0x9e3779b9

unfoldable pub hash : List ℕ → ℕ → ℕ
hash key init_val =
    let (m, rest) = hash_blocks (length key / 12) key (mixer golden_ratio golden_ratio init_val) in
    (hash_mix (hash_tail rest (record m { c = u32 (m.c + length key) }))).c
