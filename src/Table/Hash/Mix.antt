-- ===== src/Table/Hash/Mix.antt =====
-- `HASH_MIX` is reversible, and `hash` is a 32-bit word.
use Prim.Native.Nat.{bit_xor}
use native.Mathlib.Nat.{div-le_self}
use source.Prelude.Words.{u32, sub32, xor-xor, xor-lt, sub32-add}
use source.Prelude.{ℕ, ◌+◌, ◌<◌, ◌^◌, ◌≡◌, refl, List, arith}
use source.Table.Hash.{Mixer, mixer, turn, shr, shl, mix_row, hash_mix, hash, hash_tail}

abbrev pub IsWord : ℕ → Type 0
IsWord x = x < 2 ^ 32

pub record IsWords (m : Mixer) : Type 0 where
  pub a : IsWord m.a
  pub b : IsWord m.b
  pub c : IsWord m.c

turn-IsWord : (x y z s : ℕ) → IsWord s → IsWord (turn x y z s)
unfolding turn
turn-IsWord x y z s h = xor-lt 32 _ s (omega arith) h

-- Undoes `turn`.
unturn : ℕ → ℕ → ℕ → ℕ → ℕ
unturn x y z s = u32 (u32 (bit_xor x s + z) + y)

unturn-turn : (x y z s : ℕ) → IsWord x → IsWord y → IsWord z → unturn (turn x y z s) y z s ≡ x
unfolding turn unturn
unturn-turn x y z s p q r =
    rw (xor-xor (sub32 (sub32 x y) z) s, sub32-add (sub32 x y) z (omega arith) r)
      (sub32-add x y p q)

turn-unturn :
    (x y z s : ℕ) → IsWord x → IsWord y → IsWord z → IsWord s → turn (unturn x y z s) y z s ≡ x
unfolding turn unturn
turn-unturn x y z s p q r h =
    let w = xor-lt 32 x s p h in
    let e : sub32 (sub32 (u32 (u32 (bit_xor x s + z) + y)) y) z ≡ bit_xor x s = omega arith in
    rw e (xor-xor x s)

-- Undoes `mix_row`, last line first.
pub unmix_row : ℕ → ℕ → ℕ → Mixer → Mixer
unmix_row i j k m =
    let c = unturn m.c m.a m.b (shr m.b k) in
    let b = unturn m.b c m.a (shl m.a j) in mixer (unturn m.a b c (shr c i)) b c

shr-IsWord : (x k : ℕ) → IsWord x → IsWord (shr x k)
shr-IsWord x k h = grind (arith, div-le_self)

shl-IsWord : (x k : ℕ) → IsWord (shl x k)
shl-IsWord x k = omega arith

mix_row-IsWords : (i j k : ℕ) {m : Mixer} → IsWords m → IsWords (mix_row i j k m)
unfolding mix_row
mix_row-IsWords i j k {m} h =
    let a = turn-IsWord m.a m.b m.c (shr m.c i) (shr-IsWord m.c i h.c) in
    let b = turn-IsWord m.b m.c _ _ (shl-IsWord (turn m.a m.b m.c (shr m.c i)) j) in
    record { a = a; b = b; c = turn-IsWord m.c _ _ _ (shr-IsWord _ k b) }

unmix_row-mix_row : (i j k : ℕ) {m : Mixer} → IsWords m → unmix_row i j k (mix_row i j k m) ≡ m
unfolding unmix_row mix_row
unmix_row-mix_row i j k {m} h =
    let a = turn m.a m.b m.c (shr m.c i) in
    let ha : IsWord a = turn-IsWord m.a m.b m.c (shr m.c i) (shr-IsWord m.c i h.c) in
    let b = turn m.b m.c a (shl a j) in
    let hb : IsWord b = turn-IsWord m.b m.c a (shl a j) (shl-IsWord a j) in
    rw
      (
        unturn-turn m.c a b (shr b k) h.c ha hb,
        unturn-turn m.b m.c a (shl a j) h.b h.c ha,
        unturn-turn m.a m.b m.c (shr m.c i) h.a h.b h.c,
      )
      refl

-- Undoes the whole macro.
pub unmix : Mixer → Mixer
unmix m = unmix_row 13 8 13 (unmix_row 12 16 5 (unmix_row 3 10 15 m))

-- On three 32-bit words the macro is reversible: `unmix` gives the words back.
pub unmix-hash_mix : {m : Mixer} → IsWords m → unmix (hash_mix m) ≡ m
unfolding unmix hash_mix
unmix-hash_mix {m} h =
    let p = mix_row-IsWords 13 8 13 h in
    let q = mix_row-IsWords 12 16 5 p in
    rw (unmix_row-mix_row 3 10 15 q, unmix_row-mix_row 12 16 5 p) (unmix_row-mix_row 13 8 13 h)

-- `unmix` gives words, and the macro gives back the words that it was applied to: with the law
-- above, the macro is a bijection on triples of words.
unturn-IsWord : (x y z s : ℕ) → IsWord (unturn x y z s)
unfolding unturn
unturn-IsWord x y z s = omega arith

unmix_row-IsWords : (i j k : ℕ) (m : Mixer) → IsWords (unmix_row i j k m)
unfolding unmix_row unturn
unmix_row-IsWords i j k m = record { a = omega arith; b = omega arith; c = omega arith }

mix_row-unmix_row : (i j k : ℕ) {m : Mixer} → IsWords m → mix_row i j k (unmix_row i j k m) ≡ m
unfolding unmix_row mix_row
mix_row-unmix_row i j k {m} h =
    let c = unturn m.c m.a m.b (shr m.b k) in
    let hc : IsWord c = unturn-IsWord m.c m.a m.b (shr m.b k) in
    let b = unturn m.b c m.a (shl m.a j) in
    let hb : IsWord b = unturn-IsWord m.b c m.a (shl m.a j) in
    rw
      (
        turn-unturn m.a b c (shr c i) h.a hb hc (shr-IsWord c i hc),
        turn-unturn m.b c m.a (shl m.a j) h.b hc h.a (shl-IsWord m.a j),
        turn-unturn m.c m.a m.b (shr m.b k) h.c h.a h.b (shr-IsWord m.b k h.b),
      )
      refl

pub hash_mix-unmix : {m : Mixer} → IsWords m → hash_mix (unmix m) ≡ m
unfolding unmix hash_mix
hash_mix-unmix {m} h =
    let p = unmix_row-IsWords 3 10 15 m in
    let q = unmix_row-IsWords 12 16 5 (unmix_row 3 10 15 m) in
    rw (mix_row-unmix_row 13 8 13 q, mix_row-unmix_row 12 16 5 p) (mix_row-unmix_row 3 10 15 h)

-- On three 32-bit words the macro is a bijection: `unmix` undoes it on both sides.
pub hash_mix_bijective :
    {m : Mixer} → IsWords m → (unmix (hash_mix m) ≡ m) × (hash_mix (unmix m) ≡ m)
hash_mix_bijective h = (unmix-hash_mix h, hash_mix-unmix h)

hash_mix-IsWords : {m : Mixer} → IsWords m → IsWords (hash_mix m)
unfolding hash_mix
hash_mix-IsWords h = mix_row-IsWords 3 10 15 (mix_row-IsWords 12 16 5 (mix_row-IsWords 13 8 13 h))

hash_tail-IsWords : (key : List ℕ) (m : Mixer) → IsWords (hash_tail key m)
unfolding hash_tail
hash_tail-IsWords key m = record { a = omega arith; b = omega arith; c = omega arith }

-- The hash of every key, from every initial value, is a 32-bit word.
pub hash-lt : (key : List ℕ) (init_val : ℕ) → hash key init_val < 2 ^ 32
unfolding hash
hash-lt key init_val = (hash_mix-IsWords (hash_tail-IsWords _ _)).c
