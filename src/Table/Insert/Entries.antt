-- ===== src/Table/Insert/Entries.antt =====
-- The three ways in which `table_insert_kd` writes a bucket.
use source.Prelude.{ℕ, ◌+◌, ◌-◌, ◌≤◌, ◌<◌, ◌≡◌, ◌∙◌, none, some, List, [], ◌∷◌, length, set, arith}
use source.Table.Buckets.{home, home-lt, chain_of, IsPlaced, total, total-set, Writes, set-Writes}
use source.Table.Entry.Chains.{
  count, count-eq-zero, find-key, find-unlink, count-unlink, find-assign, count-assign,
  length-unlink, length-assign,
}
use source.Table.Entry.Keys.{same_key-eq}
use source.Table.Entry.{find, unlink, assign}
use source.Table.State.{Cell, Entry, Chain}

module _ (bs : List Chain) (pos : 0 < length bs) (placed : IsPlaced bs) (k : List ℕ) where
  -- A key occurs at most once in the bucket of `k`.
  pub count-chain_of : (q : List ℕ) → count q (chain_of bs k) ≤ 1
  count-chain_of q = ground (arith, placed q (home k (length bs)))

  module _ {e : Entry} (found : find k (chain_of bs k) ≡ some e) where
    pub assign-Writes :
        (v : List Cell)
        → Writes k (some v) (total bs) bs (set bs (home k (length bs)) (assign k v (chain_of bs k)))
    assign-Writes v =
        set-Writes bs pos placed k _ _ _ (rw length-assign)
          (λ q. rw count-assign (ground (arith, count-chain_of q)))
          (λ q. find-assign k q v (chain_of bs k) found)

    pub total-pos : 0 < total bs
    total-pos = omega (
      arith,
      total-set bs _ [] (home-lt k (length bs) pos),
      length-unlink k (chain_of bs k) found,
    )

    pub unlink-Writes :
        Writes k none (total bs - 1) bs (set bs (home k (length bs)) (unlink k (chain_of bs k)))
    unlink-Writes =
        let some_entry = total-pos in
        set-Writes bs pos placed k _ _ _ (omega (arith, length-unlink k (chain_of bs k) found))
          (λ q. ground (arith, count-chain_of q, count-unlink k q (chain_of bs k) found))
          (λ q. rw (find-unlink k q (chain_of bs k) (count-chain_of q)) (ground arith))

    -- The entry is replaced by one with its key, at the front.
    pub replace-Writes :
        (m : Entry)
        → m.key ≡ e.key
        → Writes k
            (some m.bytes)
            (total bs)
            bs
            (set bs (home k (length bs)) (m ∷ unlink k (chain_of bs k)))
    unfolding count find
    replace-Writes m same =
        let c = chain_of bs k in
        let own : m.key ≡ k = same ∙ same_key-eq e.key k (find-key k c found) in
        set-Writes bs pos placed k _ _ _ (omega (arith, length-unlink k c found))
          (λ q. rw own (ground (arith, count-chain_of q, count-unlink k q c found)))
          (λ q. rw (own, find-unlink k q c (count-chain_of q)) (ground arith))

  -- A new entry at the front.
  pub add-Writes :
      (e : Entry)
      → find k (chain_of bs k) ≡ none
      → e.key ≡ k
      → Writes k (some e.bytes) (total bs + 1) bs (set bs (home k (length bs)) (e ∷ chain_of bs k))
  unfolding count find
  add-Writes e absent own =
      let c = chain_of bs k in
      set-Writes bs pos placed k _ _ _ (omega arith)
        (λ q. rw own (ground (arith, count-chain_of q, count-eq-zero k c absent, same_key-eq k q)))
        (λ q. rw own (ground arith))
