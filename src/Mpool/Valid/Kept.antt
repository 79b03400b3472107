-- ===== src/Mpool/Valid/Kept.antt =====
-- What stays: parts of the memory that nothing is done to.
use native.Mathlib.Nat.{pow-suc}
use source.Mpool.Bytes.{Bytes, load-same}
use source.Mpool.Free.Real.{real_size-le}
use source.Mpool.Pages.Laws.{IsPageSize}
use source.Mpool.Pages.{is_block, bounds_at, check_magic}
use source.Mpool.Valid.{
  Owner, Owners, free_in, live_at, Owns, Placed, small, big, Span, IsFree, Chain, IsLive,
}
use source.Prelude.{
  ℕ, zero, suc, ◌+◌, ◌-◌, ◌^◌, ◌≤◌, ◌<◌, ◌≡◌, inl, inr, ◌∙◌, ltb, if◌then◌else◌, List, [], ◌∷◌,
  length, arith,
}

pub pow_mono : (a b : ℕ) → a ≤ b → 2 ^ a ≤ 2 ^ b
pow_mono zero zero le = omega arith
pow_mono zero (suc b) le = omega (arith, pow_mono zero b (omega arith), pow-suc 2 b)
pow_mono (suc a) zero le = absurd (omega arith)
pow_mono (suc a) (suc b) le = omega (arith, pow_mono a b (omega arith), pow-suc 2 a, pow-suc 2 b)

pub room-16 : (b size : ℕ) → 4 ≤ b → 2 ^ b ≤ size → 16 ≤ size
room-16 b size le room = omega (arith, pow_mono 4 b le, room)

-- The owner and the content of a byte are the same.
abbrev pub IsSame : Owners → Bytes → Owners → Bytes → ℕ → Type 0
IsSame own m own' m' x = (own' x ≡ own x) × (m' x ≡ m x)

-- Those of an owner's bytes.
abbrev pub KeptFor : Owners → Bytes → Owners → Bytes → Owner → Type 0
KeptFor own m own' m' o = (x : ℕ) → own x ≡ o → IsSame own m own' m' x

-- What an owner has stays its own.
pub Owns-kept :
    {own own' : Owners} {m m' : Bytes} {o : Owner} (a n : ℕ)
    → KeptFor own m own' m' o
    → Owns own o a n
    → Owns own' o a n
Owns-kept a n kept owns x le lt = (kept x (owns x le lt)).0 ∙ owns x le lt

pub is_block-same :
    (m m' : Bytes) (p : ℕ)
    → ((x : ℕ) → p ≤ x → x < p + 32 → m' x ≡ m x)
    → is_block m' p ≡ is_block m p
unfolding is_block
is_block-same m m' p same =
    let low = load-same m' m p 4 (λ x le lt. same x le (omega arith)) in
    let high = load-same m' m (p + 24) 4 (λ x le lt. same x (omega arith) (omega arith)) in
    rw (low, high)

pub bounds-same :
    (m m' : Bytes) (p : ℕ)
    → ((x : ℕ) → p ≤ x → x < p + 32 → m' x ≡ m x)
    → bounds_at m' p ≡ bounds_at m p
bounds-same m m' p same = load-same m' m (p + 8) 8 (λ x le lt. same x (omega arith) (omega arith))

pub Placed-Owns :
    {own : Owners} {m : Bytes} {p : ℕ} {o : Owner} {a size : ℕ}
    → Placed own m p o a size
    → Owns own o a size
Placed-Owns (small le owns) = owns
Placed-Owns (big block_p k lt at whole owns block bounds) =
    λ x le x_lt. owns x (omega arith) (omega arith)

-- The memory of a block begins at its header, if it has one.
abbrev pub lower : ℕ → ℕ → ℕ → ℕ
lower p a size = if ltb p (size + 32) then a - 32 else a

-- All its bytes have the owner.
pub Placed-lower :
    {own : Owners} {m : Bytes} {p : ℕ} {o : Owner} {a size : ℕ}
    → Placed own m p o a size
    → (x : ℕ) → lower p a size ≤ x
    → x < a + size
    → own x ≡ o
Placed-lower {p = p} {a = a} {size = size} (small le owns) x x_le x_lt =
    let plain : lower p a size ≡ a = ground arith in owns x (omega (arith, plain)) x_lt
Placed-lower {p = p} {a = a} {size = size} (big block_p k lt at whole owns block bounds) x x_le
      x_lt =
    let headed : lower p a size ≡ block_p = ground arith in
    owns x (omega (arith, headed)) (omega arith)

pub fence-kept :
    (m m' : Bytes) (a n : ℕ)
    → m' (a + n) ≡ m (a + n)
    → m' (a + n + 1) ≡ m (a + n + 1)
    → check_magic m' a n ≡ check_magic m a n
unfolding check_magic
fence-kept m m' a n e f = rw (e, f)

module _ {own own' : Owners} {m m' : Bytes} where
  pub Placed-kept :
      {p : ℕ} {o : Owner} {a size : ℕ}
      → KeptFor own m own' m' o
      → Placed own m p o a size
      → Placed own' m' p o a size
  Placed-kept kept (small le owns) =
      small le (λ x x_le x_lt. let e = owns x x_le x_lt in (kept x e).0 ∙ e)
  Placed-kept {size = size} kept (big block_p k lt at whole owns block bounds) =
      let e : Owns own _ block_p (size + 32) = owns in
      let header : (x : ℕ) → block_p ≤ x → x < block_p + 32 → m' x ≡ m x =
        λ x le x_lt. (kept x (owns x le (omega arith))).1 in
      big block_p k lt at whole (λ x le x_lt. (kept x (owns x le x_lt)).0 ∙ owns x le x_lt)
        (is_block-same m m' block_p header ∙ block) (bounds-same m m' block_p header ∙ bounds)

  pub IsFree-kept :
      {p b : ℕ} {x : Span} {xs : List Span}
      → 4 ≤ b
      → KeptFor own m own' m' (free_in b (length xs))
      → IsFree own m p b x xs
      → IsFree own' m' p b x xs
  IsFree-kept {b = b} {x} le kept f =
      let owns = Placed-Owns f.placed in
      let wide = room-16 b x.size le f.room in
      record {
        somewhere = f.somewhere;
        ends = f.ends;
        room = f.room;
        small = f.small;
        placed = Placed-kept kept f.placed;
        next =
            load-same m' m x.addr 8 (λ y y_le y_lt. (kept y (owns y y_le (omega arith))).1)
            ∙ f.next;
        size =
            load-same m' m (x.addr + 8) 8
              (λ y y_le y_lt. (kept y (owns y (omega arith) (omega arith))).1)
            ∙ f.size;
      }

  pub Chain-kept :
      (p b : ℕ) (xs : List Span)
      → 4 ≤ b
      → ((j : ℕ) → j < length xs → KeptFor own m own' m' (free_in b j))
      → Chain own m p b xs
      → Chain own' m' p b xs
  Chain-kept p b [] le kept c = tt
  Chain-kept p b (x ∷ xs) le kept c = (
    IsFree-kept le (kept (length xs) (omega arith)) c.0,
    Chain-kept p b xs le (λ j lt. kept j (omega arith)) c.1,
  )

  pub IsLive-kept :
      {p fence a n : ℕ}
      → IsPageSize p
      → KeptFor own m own' m' (live_at a)
      → IsLive own m p fence a n
      → IsLive own' m' p fence a n
  IsLive-kept {p} {fence} {a} {n} page kept f =
      let owns = Placed-Owns f.placed in
      let wide = real_size-le p (n + fence) page f.small in
      record {
        somewhere = f.somewhere;
        ends = f.ends;
        least = f.least;
        small = f.small;
        fits = f.fits;
        placed = Placed-kept kept f.placed;
        fenced = elim f.fenced [
          | inl e ↦ inl e
          | inr e ↦ inr (
            e.0,
            fence-kept m m' a n
                  (kept (a + n) (owns (a + n) (omega arith) (omega (arith, wide, e.0)))).1
                  (kept (a + n + 1) (owns (a + n + 1) (omega arith) (omega (arith, wide, e.0)))).1
                ∙ e.1,
          )
        ];
      }
