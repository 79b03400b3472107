-- ===== src/Mpool/Valid/Lives.antt =====
-- Allocations that are given back.
use source.Mpool.Bytes.{put}
use source.Mpool.Free.{real_size_of}
use source.Mpool.Space.{fence_of}
use source.Mpool.State.{Store}
use source.Mpool.Valid.Hand.{hand, hand-other, SameOutside, Same-kept, Placed-hand}
use source.Mpool.Valid.Kept.{Owns-kept, KeptFor, Chain-kept, IsLive-kept}
use source.Mpool.Valid.{
  structure, Owner, Owners, lost, taken, free_in, live_at, Placed, IsLive, IsValid,
}
use source.Prelude.{
  ℕ, ◌+◌, ◌<◌, ◌≡◌, ◌≢◌, inl, inr, refl, sym, ◌∙◌, true, false, ◌==◌, Bool-cases, arith,
}

module _ (s : Store) (own : Owners) (live : ℕ → ℕ) (valid : IsValid s own live) (a : ℕ)
    (some_live : 0 < live a) where
  abbrev p : ℕ
  p = s.pool.page_size

  abbrev size : ℕ
  size = real_size_of p (live a + fence_of s.pool)

  -- Its block is in the hands of the call.
  abbrev pub in_hand : Owners
  in_hand = hand own p a size taken

  placed : Placed own s.mem p (live_at a) a size
  placed = (valid.lives a some_live).placed

  in_hand-same : SameOutside own s.mem in_hand s.mem p a size
  in_hand-same y o = (hand-other own p a size taken y o, refl)

  pub in_hand-kept : (o : Owner) → o ≢ live_at a → KeptFor own s.mem in_hand s.mem o
  in_hand-kept o ne = Same-kept placed in_hand-same o ne

  pub in_hand-Placed : Placed in_hand s.mem p taken a size
  in_hand-Placed = Placed-hand taken (λ y o. refl) placed

  pub in_hand-IsValid : IsValid s in_hand (put live a 0)
  in_hand-IsValid = record {
    magic = valid.magic;
    magic2 = valid.magic2;
    page = valid.page;
    pool_bytes = Owns-kept s.self 360 (in_hand-kept structure (λ z. cc)) valid.pool_bytes;
    spans = valid.spans;
    heads = valid.heads;
    chains = λ c le top.
        Chain-kept p c (valid.spans c) le (λ j lt. in_hand-kept (free_in c j) (λ z. cc))
          (valid.chains c le top);
    short = λ c lt. elim (valid.short c lt) [
      | inl none_in ↦ inl none_in
      | inr gone ↦ inr ((in_hand-kept lost (λ z. cc) (s.pool.free c) gone).0 ∙ gone)
    ];
    lives = λ c. by_address c;
  }
    where
      by_address :
          (c : ℕ) → 0 < put live a 0 c → IsLive in_hand s.mem p (fence_of s.pool) c (put live a 0 c)
      by_address c lt = elim (Bool-cases (c == a)) [
        | inl here ↦ absurd (ground (arith, here, lt))
        | inr other ↦
            let lt' : 0 < live c = ground (arith, other, lt) in
            rw other (
              IsLive-kept valid.page
                (in_hand-kept (live_at c) (λ e.
                  let same : c ≡ a = cc in
                  let clash : true ≡ false = sym (ground (arith, same)) ∙ other in cc))
                (valid.lives c lt'))
      ]
