-- ===== src/Mpool/Free/Listed.antt =====
-- How `push_free` puts a block on the list for its size.
use source.Mpool.Bits.{size_to_free_bits}
use source.Mpool.Bytes.{Bytes, put, store, load-store, load-store-other}
use source.Mpool.Free.Pushed.{IsListed}
use source.Prelude.{ℕ, ◌+◌, ◌^◌, ◌≤◌, ◌<◌, ◌≡◌, ◌≢◌, inl, refl, ◌∙◌, true, false, ◌==◌, arith}

module _ (free : ℕ → ℕ) (a size : ℕ) where
  abbrev b : ℕ
  b = size_to_free_bits size

  put_here : put free b a b ≡ a
  put_here = let here : (b == b) ≡ true = ground arith in rw here refl

  put_other : (c : ℕ) → c ≢ b → put free b a c ≡ free c
  put_other c ne = let other : (c == b) ≡ false = ground arith in rw other refl

  pub first-IsListed :
      (m : Bytes) → size < 8 → (free b == 0) ≡ true → IsListed free a size (put free b a) m
  first-IsListed m few none_in = record {
    others = put_other;
    front = λ le. absurd (omega arith);
    next = λ le. absurd (omega arith);
    holds_size = λ le. absurd (omega arith);
    alone = λ lt. rw none_in put_here;
  }

  pub lost-IsListed : (m : Bytes) → size < 8 → (free b == 0) ≡ false → IsListed free a size free m
  lost-IsListed m few some_in = record {
    others = λ c ne. refl;
    front = λ le. absurd (omega arith);
    next = λ le. absurd (omega arith);
    holds_size = λ le. absurd (omega arith);
    alone = λ lt. rw some_in refl;
  }

  pub pointer-IsListed :
      (m : Bytes)
      → 8 ≤ size
      → size < 16
      → IsListed free a size (put free b a) (store m a 8 (free b))
  pointer-IsListed m some few = record {
    others = put_other;
    front = λ le. put_here;
    next = λ le. absurd (omega arith);
    holds_size = λ le. absurd (omega arith);
    alone = λ lt. absurd (omega arith);
  }

  pub entry-IsListed :
      (m : Bytes)
      → 16 ≤ size
      → size < 2 ^ 64
      → free b < 2 ^ 64
      → IsListed free a size (put free b a) (store (store m a 8 (free b)) (a + 8) 8 size)
  entry-IsListed m some low next_low = record {
    others = put_other;
    front = λ le. put_here;
    next = λ le.
        load-store-other (store m a 8 (free b)) (a + 8) 8 size a 8 (inl (omega arith))
        ∙ load-store m a 8 (free b) (omega (arith, next_low));
    holds_size = λ le. load-store (store m a 8 (free b)) (a + 8) 8 size (omega (arith, low));
    alone = λ lt. absurd (omega arith);
  }
