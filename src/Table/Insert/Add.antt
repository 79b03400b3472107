-- ===== src/Table/Insert/Add.antt =====
-- A key that the table does not have.
use mathlib.Core.Path.{subst}
use source.Prelude.Words.{u32}
use source.Prelude.{
  ℕ, ◌+◌, ◌^◌, ◌<◌, ◌≡◌, refl, ap, ◌∙◌, inl, inr, Bool, true, Option, none, some, List, ◌∷◌, length,
  set, replicate, arith,
}
use source.Table.Adjust.Outcome.{Kept, same, lost, adjust_if-Kept}
use source.Table.Buckets.{home, lookup, chain_of, Writes}
use source.Table.Entry.Chains.{bytes_of}
use source.Table.Entry.{find, entry_size, in_block, fill}
use source.Table.Insert.Entries.{add-Writes}
use source.Table.Insert.Outcome.{Inserted, stored, full, cleared}
use source.Table.Insert.{grow, link_entry, add_entry}
use source.Table.Memory.{Memory, allocate}
use source.Table.State.{Cell, Entry, Error, Table}
use source.Table.Valid.{
  IsValid, SameSettings, Stored, Stored-Writes, view, Returns, returns, Returns-bind,
  allocate-Returns,
}

-- A table that keeps its map after a write has what was written.
pub Stored-Kept :
    {t t' t'' : Table} {k : List ℕ} {v : Option (List Cell)} {n : ℕ}
    → Stored t k v n t'
    → IsValid t''
    → SameSettings t' t''
    → ((q : List ℕ) → view t'' q ≡ view t' q)
    → t''.entry_n ≡ t'.entry_n
    → Stored t k v n t''
Stored-Kept s valid settings reads e = record {
  valid = valid;
  settings = record {
    flags = settings.flags ∙ s.settings.flags;
    data_align = settings.data_align ∙ s.settings.data_align;
    hooks = settings.hooks ∙ s.settings.hooks;
    linear = settings.linear ∙ s.settings.linear;
  };
  reads = λ q. reads q ∙ s.reads q;
  entry_n = e ∙ s.entry_n;
}

pub grow-Kept :
    {W : Type 0} (mem : Memory W) {t : Table} (w : W)
    → IsValid t
    → t.entry_n < 2 ^ 29
    → Returns (grow mem t w) (λ r. Kept t r.0 r.1)
unfolding grow
grow-Kept mem {t} w valid few = adjust_if-Kept mem t _ w valid few

-- The table with a new entry in front of its bucket.
pub Stored-add :
    {t : Table} (k : List ℕ) (e : Entry)
    → IsValid t
    → t.entry_n + 1 < 2 ^ 29
    → find k (chain_of t.buckets k) ≡ none
    → e.key ≡ k
    → Stored t k (some e.bytes) (t.entry_n + 1) (record t {
      buckets = set t.buckets (home k (length t.buckets)) (e ∷ chain_of t.buckets k);
      entry_n = u32 (t.entry_n + 1);
    })
Stored-add {t} k e valid few absent own =
    let n : u32 (t.entry_n + 1) ≡ t.entry_n + 1 = omega arith in
    let bs = set t.buckets (home k (length t.buckets)) (e ∷ chain_of t.buckets k) in
    let w = add-Writes t.buckets (omega (arith, valid.width)) valid.placed k e absent own in
    let s =
      Stored-Writes valid (omega arith)
        (subst (λ m. Writes k (some e.bytes) m t.buckets bs) (omega (arith, valid.counted)) w) in
    record { valid = s.valid; settings = s.settings; reads = s.reads; entry_n = s.entry_n ∙ n }

module _ (t : Table) (k : List ℕ) (dsize : ℕ) (src : Option (List ℕ)) (overwrite_b : Bool) where
  Kept-Inserted :
      {t' t'' : Table} {code : Error}
      → view t k ≡ none
      → Stored t k (some (fill src (replicate dsize none))) (t.entry_n + 1) t'
      → Kept t' code t''
      → Inserted t k dsize src overwrite_b code t''
  Kept-Inserted absent s (same (inl e) valid settings reads n) =
      stored (inl absent) (inl e) (rw absent (Stored-Kept s valid settings reads n))
  Kept-Inserted absent s (same (inr e) valid settings reads n) =
      stored (inl absent) (inr (e, absent)) (rw absent (Stored-Kept s valid settings reads n))
  Kept-Inserted absent s (lost own reads) = cleared absent (λ e. own (s.settings.hooks ∙ e)) reads

  pub add_entry-Inserted :
      {W : Type 0} (mem : Memory W) (w : W)
      → IsValid t
      → t.entry_n + 1 < 2 ^ 29
      → find k (chain_of t.buckets k) ≡ none
      → in_block t (length k) dsize (entry_size t (length k) dsize) ≡ true
      → Returns
          (add_entry mem t (home k (length t.buckets)) (chain_of t.buckets k) k dsize src w)
          (λ r. Inserted t k dsize src overwrite_b r.0.code r.1)
  unfolding add_entry link_entry lookup
  add_entry-Inserted mem w valid few absent fits =
      Returns-bind (allocate mem t.hooks (entry_size t (length k) dsize)) _ w
        (allocate-Returns mem t.hooks _ w)
        (elim [
          | none ↦ λ w' _. returns _ w' (full (ap bytes_of absent))
          | some addr ↦ λ w' _. simp fits (
              let e : Entry = record {
                addr = addr;
                key = k;
                bytes = fill src (replicate dsize none);
              } in
              let s = Stored-add k e valid few absent refl in
              Returns-bind (grow mem _) _ w' (grow-Kept mem w' s.valid (omega (arith, s.entry_n)))
                (λ r w'' kept. returns _ w'' (Kept-Inserted (ap bytes_of absent) s kept)))
        ])
