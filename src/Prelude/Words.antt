-- ===== src/Prelude/Words.antt =====
-- 32-bit words: wrap-around written out, and exclusive or with its laws.
use Prim.Native.Nat.{
  ℕ, zero, suc, ◌+◌, ◌-◌, ◌*◌, ◌/◌, ◌%◌, ◌^◌, ◌≤◌, ◌<◌, bit_xor, bit_and, bit_and-bitwise, min,
  digits, bitwise, bit_xor-bitwise,
}
use Prim.Native.Nat.{differ}
use mathlib.Core.Path.{◌≡◌, refl, ap}
use native.Mathlib.Nat.{pow-suc}
use native.Mathlib.Omega.{arith}

abbrev pub u32 : ℕ → ℕ
u32 n = n % 2 ^ 32

abbrev pub u64 : ℕ → ℕ
u64 n = n % 2 ^ 64

-- `a - b` on `unsigned long`, for a subtrahend that is one.
abbrev pub sub64 : ℕ → ℕ → ℕ
sub64 a b = u64 (a + 2 ^ 64 - b)

-- `a - b` on `unsigned int`, for a subtrahend that is a word.
abbrev pub sub32 : ℕ → ℕ → ℕ
sub32 a b = u32 (a + 2 ^ 32 - b)

-- `bitwise op` with its fuel dropped, for what `op` makes of two digits and `tail` of a rest: both
-- fuels of `same` are enough for `a`.
module _ (tail : ℕ → ℕ) (op : ℕ → ℕ → ℕ) where
  same : (b a m n : ℕ) → a ≤ m → a ≤ n → digits tail op m a b ≡ digits tail op n a b
  same b zero zero zero u v = refl
  same b zero zero (suc n) u v = refl
  same b zero (suc m) zero u v = refl
  same b zero (suc m) (suc n) u v = refl
  same b (suc a) zero n u v = absurd (omega arith)
  same b (suc a) (suc m) zero u v = absurd (omega arith)
  same b (suc a) (suc m) (suc n) u v =
      let u' : suc a / 2 ≤ m = omega arith in
      let v' : suc a / 2 ≤ n = omega arith in
      ap (λ d. d * 2 + op (suc a % 2) (b % 2)) (same (b / 2) (suc a / 2) m n u' v')

  lowest :
      (b a : ℕ)
      → bitwise tail op (suc a) b ≡ bitwise tail op (suc a / 2) (b / 2) * 2 + op (suc a % 2) (b % 2)
  lowest b a =
      let high = suc a / 2 in
      let enough : high ≤ a = omega arith in
      let itself : high ≤ high = omega arith in
      ap (λ d. d * 2 + op (suc a % 2) (b % 2)) (same (b / 2) high a high enough itself)

pub zero-xor : (b : ℕ) → bit_xor 0 b ≡ b
zero-xor b = bit_xor-bitwise 0 b

differ_digits : (x y : ℕ) → x < 2 → y < 2 → differ x y ≡ (x + y) % 2
differ_digits zero zero p q = refl
differ_digits zero (suc y) p q = omega arith
differ_digits (suc x) zero p q = omega arith
differ_digits (suc zero) (suc zero) p q = refl
differ_digits (suc zero) (suc (suc y)) p q = absurd (omega arith)
differ_digits (suc (suc x)) (suc y) p q = absurd (omega arith)

-- The lowest binary digit of an exclusive or is 1 where the digits differ.
pub xor_step : (a b : ℕ) → bit_xor a b ≡ bit_xor (a / 2) (b / 2) * 2 + (a % 2 + b % 2) % 2
xor_step zero b = omega (arith, zero-xor b, zero-xor (b / 2))
xor_step (suc a) b = omega (
  arith,
  bit_xor-bitwise (suc a) b,
  bit_xor-bitwise (suc a / 2) (b / 2),
  lowest (λ y. y) differ b a,
  differ_digits (suc a % 2) (b % 2) (omega arith) (omega arith),
)

xor-half : (a b : ℕ) → bit_xor a b / 2 ≡ bit_xor (a / 2) (b / 2)
xor-half a b = omega (arith, xor_step a b)

xor-parity : (a b : ℕ) → bit_xor a b % 2 ≡ (a % 2 + b % 2) % 2
xor-parity a b = omega (arith, xor_step a b)

xor_fuel : (n a b : ℕ) → a ≤ n → b ≤ n → bit_xor (bit_xor a b) b ≡ a
xor_fuel zero zero zero p q = refl
xor_fuel zero zero (suc b) p q = absurd (omega arith)
xor_fuel zero (suc a) b p q = absurd (omega arith)
xor_fuel (suc n) a b p q =
    rw (xor_step (bit_xor a b) b, xor-half a b, xor-parity a b)
      (omega (arith, xor_fuel n (a / 2) (b / 2) (omega arith) (omega arith)))

-- Exclusive or with the same number twice gives the first number back.
pub xor-xor : (a b : ℕ) → bit_xor (bit_xor a b) b ≡ a
xor-xor a b = xor_fuel (a + b) a b (omega arith) (omega arith)

pub xor-lt : (k a b : ℕ) → a < 2 ^ k → b < 2 ^ k → bit_xor a b < 2 ^ k
xor-lt zero zero zero p q = omega arith
xor-lt zero zero (suc b) p q = absurd (omega arith)
xor-lt zero (suc a) b p q = absurd (omega arith)
xor-lt (suc k) a b p q =
    let e = pow-suc 2 k in
    omega (arith, xor_step a b, xor-lt k (a / 2) (b / 2) (omega arith) (omega arith))

-- `a -= b` and `a += b` undo one another on words.
pub sub32-add : (a b : ℕ) → a < 2 ^ 32 → b < 2 ^ 32 → u32 (sub32 a b + b) ≡ a
sub32-add a b p q = omega arith

zero-and : (b : ℕ) → bit_and 0 b ≡ 0
zero-and b = bit_and-bitwise 0 b

and_step : (a b : ℕ) → bit_and a b ≡ bit_and (a / 2) (b / 2) * 2 + min (a % 2) (b % 2)
and_step zero b = omega (arith, zero-and b, zero-and (b / 2))
and_step (suc a) b =
    omega (
      arith,
      bit_and-bitwise (suc a) b,
      bit_and-bitwise (suc a / 2) (b / 2),
      lowest (λ y. 0) min b a,
    )

and-zero_fuel : (n a : ℕ) → a ≤ n → bit_and a 0 ≡ 0
and-zero_fuel zero zero h = refl
and-zero_fuel zero (suc a) h = absurd (omega arith)
and-zero_fuel (suc n) a h = omega (arith, and_step a 0, and-zero_fuel n (a / 2) (omega arith))

and-zero : (a : ℕ) → bit_and a 0 ≡ 0
and-zero a = and-zero_fuel a a (omega arith)

-- A mask of up to six ones is the remainder by a power of two.
pub and_mask : (k : ℕ) → k < 6 → (a : ℕ) → bit_and a (2 ^ suc k - 1) ≡ a % 2 ^ suc k
and_mask zero h a = omega (arith, and_step a 1, and-zero (a / 2))
and_mask (suc zero) h a = omega (arith, and_step a 3, and_mask zero (omega arith) (a / 2))
and_mask (suc (suc zero)) h a =
    omega (arith, and_step a 7, and_mask (suc zero) (omega arith) (a / 2))
and_mask (suc (suc (suc zero))) h a =
    omega (arith, and_step a 15, and_mask (suc (suc zero)) (omega arith) (a / 2))
and_mask (suc (suc (suc (suc zero)))) h a =
    omega (arith, and_step a 31, and_mask (suc (suc (suc zero))) (omega arith) (a / 2))
and_mask (suc (suc (suc (suc (suc zero))))) h a =
    omega (arith, and_step a 63, and_mask (suc (suc (suc (suc zero)))) (omega arith) (a / 2))
and_mask (suc (suc (suc (suc (suc (suc k)))))) h a = absurd (omega arith)
