-- ===== src/Mpool/Valid/Pools.antt =====
-- The fields of a pool that the invariant is about.
use source.Mpool.Space.{fence_of}
use source.Mpool.State.{Pool, Store}
use source.Mpool.Bytes.{Bytes}
use source.Mpool.Valid.Kept.{Owns-kept, KeptFor, Chain-kept, IsLive-kept}
use source.Mpool.Valid.{Owner, Owners, nobody, structure, lost, taken, free_in, live_at, IsValid}
use source.Prelude.{ℕ, ◌≡◌, ◌≢◌, inl, inr, ap, ◌∙◌}

pub record SamePool (mp mp' : Pool) : Type 0 where
  pub magic : mp'.magic ≡ mp.magic
  pub magic2 : mp'.magic2 ≡ mp.magic2
  pub page_size : mp'.page_size ≡ mp.page_size
  pub flags : mp'.flags ≡ mp.flags
  pub free : mp'.free ≡ mp.free

pub fence-same : (mp mp' : Pool) → mp'.flags ≡ mp.flags → fence_of mp' ≡ fence_of mp
fence-same mp mp' e = rw e

pub IsValid-pool :
    (s : Store) (own : Owners) (live : ℕ → ℕ) (mp' : Pool)
    → SamePool s.pool mp'
    → IsValid s own live
    → IsValid (record s { pool = mp' }) own live
IsValid-pool s own live mp' same valid = record {
  magic = same.magic ∙ valid.magic;
  magic2 = same.magic2 ∙ valid.magic2;
  page = rw same.page_size valid.page;
  pool_bytes = valid.pool_bytes;
  spans = valid.spans;
  heads = λ b le top. ap (λ f. f b) same.free ∙ valid.heads b le top;
  chains = λ b le top. rw same.page_size (valid.chains b le top);
  short = λ b lt. rw same.free (valid.short b lt);
  lives = λ a some_live.
      rw (same.page_size, fence-same s.pool mp' same.flags) (valid.lives a some_live);
}

-- Only what a call has in hand, or nobody owns, changes.
pub IsValid-kept :
    (s : Store) (own own' : Owners) (live : ℕ → ℕ) (m' : Bytes)
    → ((o : Owner) → o ≢ taken → o ≢ nobody → KeptFor own s.mem own' m' o)
    → IsValid s own live
    → IsValid (record s { mem = m' }) own' live
IsValid-kept s own own' live m' kept valid = record {
  magic = valid.magic;
  magic2 = valid.magic2;
  page = valid.page;
  pool_bytes = Owns-kept s.self 360 (kept structure (λ z. cc) (λ z. cc)) valid.pool_bytes;
  spans = valid.spans;
  heads = valid.heads;
  chains = λ b le top.
      Chain-kept s.pool.page_size b (valid.spans b) le
        (λ j lt. kept (free_in b j) (λ z. cc) (λ z. cc)) (valid.chains b le top);
  short = λ b lt. elim (valid.short b lt) [
    | inl none_in ↦ inl none_in
    | inr gone ↦ inr ((kept lost (λ z. cc) (λ z. cc) (s.pool.free b) gone).0 ∙ gone)
  ];
  lives = λ a some_live.
      IsLive-kept valid.page (kept (live_at a) (λ z. cc) (λ z. cc)) (valid.lives a some_live);
}
