-- ===== src/Mpool/Pages/Headers.antt =====
-- What is read of a block header that has been written.
use source.Mpool.Bytes.{Bytes, load, store, load-store, load-store-other, store-other}
use source.Mpool.Pages.{is_block, bounds_at, write_block}
use source.Mpool.State.{block_magic}
use source.Prelude.{ℕ, ◌+◌, ◌^◌, ◌≤◌, ◌<◌, ◌≡◌, ◌⊎◌, inl, inr, ◌∙◌, true, arith}

module _ (m : Bytes) (block_p bounds next : ℕ) where
  abbrev m1 : Bytes
  m1 = store m block_p 4 block_magic

  abbrev m2 : Bytes
  m2 = store m1 (block_p + 8) 8 bounds

  abbrev m3 : Bytes
  m3 = store m2 (block_p + 16) 8 next

  pub write_block-other :
      (x : ℕ) → (x < block_p) ⊎ (block_p + 32 ≤ x) → write_block m block_p bounds next x ≡ m x
  unfolding write_block
  write_block-other x (inl lt) =
      store-other m3 (block_p + 24) 4 block_magic x (inl (omega arith))
      ∙ store-other m2 (block_p + 16) 8 next x (inl (omega arith))
      ∙ store-other m1 (block_p + 8) 8 bounds x (inl (omega arith))
      ∙ store-other m block_p 4 block_magic x (inl lt)
  write_block-other x (inr le) =
      store-other m3 (block_p + 24) 4 block_magic x (inr (omega arith))
      ∙ store-other m2 (block_p + 16) 8 next x (inr (omega arith))
      ∙ store-other m1 (block_p + 8) 8 bounds x (inr (omega arith))
      ∙ store-other m block_p 4 block_magic x (inr (omega arith))

  pub write_block-is_block : is_block (write_block m block_p bounds next) block_p ≡ true
  unfolding write_block is_block
  write_block-is_block =
      let low : load (write_block m block_p bounds next) block_p 4 ≡ block_magic =
        load-store-other m3 (block_p + 24) 4 block_magic block_p 4 (inl (omega arith))
        ∙ load-store-other m2 (block_p + 16) 8 next block_p 4 (inl (omega arith))
        ∙ load-store-other m1 (block_p + 8) 8 bounds block_p 4 (inl (omega arith))
        ∙ load-store m block_p 4 block_magic (omega arith) in
      let high : load (write_block m block_p bounds next) (block_p + 24) 4 ≡ block_magic =
        load-store m3 (block_p + 24) 4 block_magic (omega arith) in
      rw (low, high)

  pub write_block-bounds_at :
      bounds < 2 ^ 64 → bounds_at (write_block m block_p bounds next) block_p ≡ bounds
  unfolding write_block
  write_block-bounds_at lt =
      load-store-other m3 (block_p + 24) 4 block_magic (block_p + 8) 8 (inl (omega arith))
      ∙ load-store-other m2 (block_p + 16) 8 next (block_p + 8) 8 (inl (omega arith))
      ∙ load-store m1 (block_p + 8) 8 bounds (omega arith)
