-- ===== src/Table/Memory.antt =====
-- The memory functions that a table calls (libc's, or the hooks of `table_alloc_in_pool`), and
-- code over them: a step passes the state of the memory on, or has undefined behaviour.
use source.Prelude.{ℕ, ◌≡◌, refl, Bool, true, Option}

-- `fault` is a read or write outside an array, or a remainder by 0.
pub data Run (A : Type 0) : Type 0 where
  done : A → Run A
  fault : Run A

abbrev pub and_then : {A B : Type 0} → Run A → (A → Run B) → Run B
and_then (done a) f = f a
and_then fault f = fault

pub and_then_assoc :
    {A B C : Type 0} (m : Run A) (f : A → Run B) (g : B → Run C)
    → and_then (and_then m f) g ≡ and_then m (λ a. and_then (f a) g)
and_then_assoc (done a) f g = refl
and_then_assoc fault f g = refl

abbrev pub M : Type 0 → Type 0 → Type 0
M W A = W → Run (A × W)

infixl 5 ◌>>=◌
abbrev pub ◌>>=◌ : {W A B : Type 0} → M W A → (A → M W B) → M W B
◌>>=◌ m f w = elim (m w) [ fault ↦ fault | done (a, w') ↦ f a w' ]

abbrev pub pure : {W A : Type 0} → A → M W A
pure a w = done (a, w)

abbrev pub lift : {W A : Type 0} → Run A → M W A
lift (done a) w = done (a, w)
lift fault w = fault

-- The three functions of libc, and the three that a user can give instead. A size or an address
-- goes in, an address (`none` for `NULL`) or a success flag comes out.
pub record Memory (W : Type 0) : Type 0 where
  pub malloc : ℕ → W → Option ℕ × W
  pub realloc : ℕ → ℕ → W → Option ℕ × W
  pub free : ℕ → W → W
  pub alloc_func : ℕ → W → Option ℕ × W
  pub resize_func : ℕ → ℕ → ℕ → W → Option ℕ × W
  pub free_func : ℕ → ℕ → W → Bool × W

-- Which functions a table uses: `ta_alloc_func` and `ta_free_func` are set together, and the flag
-- says whether `ta_resize_func` is set too.
pub data Hooks : Type 0 where
  libc : Hooks
  pool : Bool → Hooks

module _ {W : Type 0} (mem : Memory W) where
  unfoldable pub allocate : Hooks → ℕ → M W (Option ℕ)
  allocate libc size w = done (mem.malloc size w)
  allocate (pool _) size w = done (mem.alloc_func size w)

  -- libc's `free` cannot fail.
  unfoldable pub release : Hooks → ℕ → ℕ → M W Bool
  release libc addr size w = done (true, mem.free addr w)
  release (pool _) addr size w = done (mem.free_func addr size w)
