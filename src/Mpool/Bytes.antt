-- ===== src/Mpool/Bytes.antt =====
-- The memory of the process, byte by byte, and the numbers and pointers that stand in it, the low byte
-- first.
use source.Prelude.{
  ℕ, zero, suc, ◌+◌, ◌-◌, ◌*◌, ◌/◌, ◌%◌, ◌^◌, ◌≤◌, ◌<◌, ◌≡◌, ◌⊎◌, inl, inr, refl, ◌==◌, ltb, leb,
  ◌&&◌, if◌then◌else◌, arith,
}
use native.Mathlib.Nat.{pow-suc}

abbrev pub Bytes : Type 0
Bytes = ℕ → ℕ

abbrev pub put : (ℕ → ℕ) → ℕ → ℕ → ℕ → ℕ
put m a v x = if x == a then v else m x

-- A number of `n` bytes.
unfoldable pub load : Bytes → ℕ → ℕ → ℕ
load m a zero = 0
load m a (suc n) = m a + 256 * load m (a + 1) n

unfoldable pub store : Bytes → ℕ → ℕ → ℕ → Bytes
store m a zero v = m
store m a (suc n) v = put (store m (a + 1) n (v / 256)) a (v % 256)

-- `memset (addr, 0, n)`
unfoldable pub clear_bytes : Bytes → ℕ → ℕ → Bytes
clear_bytes m a n x = if leb a x && ltb x (a + n) then 0 else m x

-- `memcpy (to, from, n)`, for blocks that do not overlap.
unfoldable pub copy_bytes : Bytes → ℕ → ℕ → ℕ → Bytes
copy_bytes m to from n x = if leb to x && ltb x (to + n) then m (from + x - to) else m x

-- A write changes no byte outside its place.
abbrev pub IsOutside : ℕ → ℕ → ℕ → Type 0
IsOutside a n x = (x < a) ⊎ (a + n ≤ x)

pub store-other : (m : Bytes) (a n v x : ℕ) → IsOutside a n x → store m a n v x ≡ m x
unfolding store
store-other m a zero v x out = refl
store-other m a (suc n) v x (inl lt) =
    ground (arith, store-other m (a + 1) n (v / 256) x (inl (omega arith)))
store-other m a (suc n) v x (inr le) =
    ground (arith, store-other m (a + 1) n (v / 256) x (inr (omega arith)))

-- What is read depends on the bytes there only.
pub load-same :
    (m m' : Bytes) (a n : ℕ) → ((x : ℕ) → a ≤ x → x < a + n → m x ≡ m' x) → load m a n ≡ load m' a n
unfolding load
load-same m m' a zero same = refl
load-same m m' a (suc n) same =
    let rest = load-same m m' (a + 1) n (λ x le lt. same x (omega arith) (omega arith)) in
    let here = same a (omega arith) (omega arith) in omega (arith, rest, here)

-- What has been written is read.
pub load-store : (m : Bytes) (a n v : ℕ) → v < 256 ^ n → load (store m a n v) a n ≡ v
unfolding load store
load-store m a zero v lt = omega arith
load-store m a (suc n) v lt =
    let small : v / 256 < 256 ^ n = omega (arith, pow-suc 256 n) in
    let tail = store m (a + 1) n (v / 256) in
    let moved : load (put tail a (v % 256)) (a + 1) n ≡ load tail (a + 1) n =
      load-same _ _ (a + 1) n (λ x le lt. ground arith) in
    let here : put tail a (v % 256) a ≡ v % 256 = ground arith in
    omega (arith, moved, here, load-store m (a + 1) n (v / 256) small)

pub load-store-other :
    (m : Bytes) (a n v b k : ℕ) → (b + k ≤ a) ⊎ (a + n ≤ b) → load (store m a n v) b k ≡ load m b k
load-store-other m a n v b k (inl le) =
    load-same _ _ b k (λ x x_le x_lt. store-other m a n v x (inl (omega arith)))
load-store-other m a n v b k (inr le) =
    load-same _ _ b k (λ x x_le x_lt. store-other m a n v x (inr (omega arith)))
