-- ===== src/Mpool/Space/Popped.antt =====
-- The first entry of a free list is taken from it.
use mathlib.Core.Path.{subst}
use source.Mpool.Bytes.{put, load}
use source.Mpool.Free.Pushed.{with_free}
use source.Mpool.State.{Store, max_bits}
use source.Mpool.Valid.Hand.{hand, SameOutside, hand-other, Same-kept, Placed-hand}
use source.Mpool.Valid.Kept.{Owns-kept, KeptFor, Chain-kept, IsLive-kept}
use source.Mpool.Valid.{
  structure, Owner, Owners, lost, taken, free_in, live_at, Placed, Span, head_of, Chain, IsValid,
}
use source.Prelude.{
  ℕ, ◌≤◌, ◌≡◌, ◌≢◌, inl, inr, refl, sym, ◌∙◌, true, false, ◌==◌, if◌then◌else◌, Bool-cases, List,
  ◌∷◌, length, arith,
}

module _ (s : Store) (own : Owners) (live : ℕ → ℕ) (valid : IsValid s own live) (b : ℕ)
    (long : 4 ≤ b) (top : b ≤ max_bits) (x : Span) (xs : List Span)
    (front : valid.spans b ≡ x ∷ xs) where
  abbrev p : ℕ
  p = s.pool.page_size

  abbrev chain : Chain own s.mem p b (x ∷ xs)
  chain = subst (λ ys. Chain own s.mem p b ys) front (valid.chains b long top)

  abbrev own' : Owners
  own' = hand own p x.addr x.size taken

  pub pop-same : SameOutside own s.mem own' s.mem p x.addr x.size
  pop-same y o = (hand-other own p x.addr x.size taken y o, refl)

  pub pop-kept : (o : Owner) → o ≢ free_in b (length xs) → KeptFor own s.mem own' s.mem o
  pop-kept o ne = Same-kept chain.0.placed pop-same o ne

  -- The block is in the hands of the call.
  pub pop-Placed : Placed own' s.mem p taken x.addr x.size
  pop-Placed = Placed-hand taken (λ y o. refl) chain.0.placed

  abbrev spans' : ℕ → List Span
  spans' c = if c == b then xs else valid.spans c

  abbrev popped : Store
  popped = with_free s (put s.pool.free b (load s.mem x.addr 8)) s.mem

  pop-chains : (c : ℕ) → 4 ≤ c → c ≤ max_bits → Chain own' s.mem p c (spans' c)
  pop-chains c le c_top = elim (Bool-cases (c == b)) [
    | inl here ↦
        let c_b : b ≡ c = ground arith in
        rw here (
          subst (λ d. Chain own' s.mem p d xs) c_b
            (Chain-kept p b xs long
              (λ j lt. pop-kept (free_in b j) (λ e. let same : j ≡ length xs = cc in omega arith))
              chain.1))
    | inr other ↦ rw other (
        Chain-kept p c (valid.spans c) le
          (λ j lt. pop-kept (free_in c j) (λ e.
            let same : c ≡ b = cc in
            let clash : true ≡ false = sym (ground (arith, same)) ∙ other in cc))
          (valid.chains c le c_top))
  ]

  pop-heads :
      (c : ℕ)
      → 4 ≤ c
      → c ≤ max_bits
      → put s.pool.free b (load s.mem x.addr 8) c ≡ head_of (spans' c)
  pop-heads c le c_top = elim (Bool-cases (c == b)) [
    | inl here ↦ rw here chain.0.next
    | inr other ↦ rw other (valid.heads c le c_top)
  ]

  pub pop-IsValid : IsValid popped own' live
  pop-IsValid = record {
    magic = valid.magic;
    magic2 = valid.magic2;
    page = valid.page;
    pool_bytes = Owns-kept s.self 360 (pop-kept structure (λ z. cc)) valid.pool_bytes;
    spans = spans';
    heads = pop-heads;
    chains = pop-chains;
    short = λ c lt.
        let other : (c == b) ≡ false = ground arith in
        rw other (elim (valid.short c lt) [
          | inl none_in ↦ inl none_in
          | inr gone ↦ inr ((pop-kept lost (λ z. cc) (s.pool.free c) gone).0 ∙ gone)
        ]);
    lives = λ c some_live.
        IsLive-kept valid.page (pop-kept (live_at c) (λ z. cc)) (valid.lives c some_live);
  }
