-- ===== src/Mpool/Space/Headers.antt =====
-- The headers that `split_block` writes.
use source.Mpool.Bytes.{Bytes, load, store, load-store, load-store-other, load-same, store-other}
use source.Mpool.Free.{split_headers}
use source.Mpool.Pages.Headers.{write_block-other, write_block-is_block, write_block-bounds_at}
use source.Mpool.Pages.{is_block, bounds_at, next_at, write_block}
use source.Mpool.Valid.Kept.{is_block-same}
use source.Prelude.{ℕ, ◌+◌, ◌^◌, ◌≤◌, ◌<◌, ◌≡◌, ◌⊎◌, inl, inr, ◌∙◌, true, arith}

module _ (m : Bytes) (block_p new_p : ℕ) (behind : block_p + 32 ≤ new_p)
    (low : new_p < 2 ^ 64) where
  abbrev w : Bytes
  w = write_block m new_p (bounds_at m block_p) (next_at m block_p)

  abbrev w1 : Bytes
  w1 = store w (block_p + 8) 8 new_p

  abbrev m' : Bytes
  m' = split_headers m block_p new_p

  -- Outside of the two headers nothing is written.
  pub split_headers-other :
      (x : ℕ) → (x < block_p) ⊎ (block_p + 32 ≤ x) → (x < new_p) ⊎ (new_p + 32 ≤ x) → m' x ≡ m x
  unfolding split_headers
  split_headers-other x (inl lt) new =
      store-other w1 (block_p + 16) 8 new_p x (inl (omega arith))
      ∙ store-other w (block_p + 8) 8 new_p x (inl (omega arith))
      ∙ write_block-other m new_p (bounds_at m block_p) (next_at m block_p) x new
  split_headers-other x (inr le) new =
      store-other w1 (block_p + 16) 8 new_p x (inr (omega arith))
      ∙ store-other w (block_p + 8) 8 new_p x (inr (omega arith))
      ∙ write_block-other m new_p (bounds_at m block_p) (next_at m block_p) x new

  -- Behind the old header, nothing but the new one.
  behind-same : (x : ℕ) → block_p + 24 ≤ x → m' x ≡ w x
  unfolding split_headers
  behind-same x le =
      store-other w1 (block_p + 16) 8 new_p x (inr (omega arith))
      ∙ store-other w (block_p + 8) 8 new_p x (inr (omega arith))

  pub split_headers-old : is_block m' block_p ≡ is_block m block_p
  unfolding split_headers is_block
  split_headers-old =
      let old : (a : ℕ) → a + 4 ≤ new_p → load w a 4 ≡ load m a 4 = λ a le. old_load a le in
      let first : load m' block_p 4 ≡ load m block_p 4 =
        load-store-other w1 (block_p + 16) 8 new_p block_p 4 (inl (omega arith))
        ∙ load-store-other w (block_p + 8) 8 new_p block_p 4 (inl (omega arith))
        ∙ old block_p (omega arith) in
      let second : load m' (block_p + 24) 4 ≡ load m (block_p + 24) 4 =
        load-store-other w1 (block_p + 16) 8 new_p (block_p + 24) 4 (inr (omega arith))
        ∙ load-store-other w (block_p + 8) 8 new_p (block_p + 24) 4 (inr (omega arith))
        ∙ old (block_p + 24) (omega arith) in
      rw (first, second)
    where
      old_load : (a : ℕ) → a + 4 ≤ new_p → load w a 4 ≡ load m a 4
      old_load a le = load-same w m a 4 (λ x x_le x_lt.
          write_block-other m new_p (bounds_at m block_p) (next_at m block_p) x (inl (omega arith)))

  pub split_headers-old_bounds : bounds_at m' block_p ≡ new_p
  unfolding split_headers
  split_headers-old_bounds =
      load-store-other w1 (block_p + 16) 8 new_p (block_p + 8) 8 (inl (omega arith))
      ∙ load-store w (block_p + 8) 8 new_p (omega arith)

  pub split_headers-new : is_block m' new_p ≡ true
  split_headers-new =
      is_block-same w m' new_p (λ x le lt. behind-same x (omega arith))
      ∙ write_block-is_block m new_p (bounds_at m block_p) (next_at m block_p)

  pub split_headers-new_bounds :
      bounds_at m block_p < 2 ^ 64 → bounds_at m' new_p ≡ bounds_at m block_p
  split_headers-new_bounds lt =
      load-same m' w (new_p + 8) 8 (λ x le x_lt. behind-same x (omega arith))
      ∙ write_block-bounds_at m new_p (bounds_at m block_p) (next_at m block_p) lt
