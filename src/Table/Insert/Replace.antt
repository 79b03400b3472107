-- ===== src/Table/Insert/Replace.antt =====
-- Data stored under a key that the table has.
use mathlib.Core.Path.{subst}
use mathlib.Core.List.{append-nil}
use source.Prelude.{
  ℕ, ◌-◌, ◌<◌, ◌≡◌, ◌≢◌, refl, sym, ap, ◌∙◌, ◌⊎◌, inl, inr, Bool, true, false, Option, none, some,
  List, [], ◌∷◌, length, set, take, ◌==◌, Bool-cases, arith,
}
use source.Table.Buckets.{home, lookup, chain_of, total, Writes}
use source.Table.Entry.Chains.{bytes_of}
use source.Table.Entry.{find, unlink, fill, resized, entry_size, in_block}
use source.Table.Insert.Entries.{assign-Writes, unlink-Writes, replace-Writes}
use source.Table.Insert.Outcome.{Inserted, kept, stored, dropped}
use source.Table.Insert.{
  Resized, moved, refused, moved_to, release_old, resize_block, resize_entry, replace_entry,
  overwrite_entry,
}
use source.Table.Memory.{Memory, allocate, release, Hooks, libc, pool}
use source.Table.State.{Cell, Entry, Chain, Error, no_error, alloc_error, free_error, Table}
use source.Table.Valid.{
  IsValid, Stored, Stored-Writes, view, Returns, returns, Returns-bind, allocate-Returns,
  release-Returns,
}

take-length : (bs : List Cell) → take (length bs) bs ≡ bs
take-length [] = refl
take-length (b ∷ bs) = ap (λ t. b ∷ t) (take-length bs)

resized_same : (bs : List Cell) → resized (length bs) bs ≡ bs
resized_same bs =
    let none_left : length bs - length bs ≡ 0 = omega arith in
    rw (none_left, take-length, append-nil)

-- The entry comes back with its key and its bytes as far as they fit, or there is an error.
data Resizes (h : Hooks) (e : Entry) (dsize : ℕ) : Resized → Type 0 where
  fits : {m : Entry} → m.key ≡ e.key → m.bytes ≡ resized dsize e.bytes → Resizes h e dsize (moved m)
  fails :
      {code : Error}
      → (code ≡ alloc_error) ⊎ ((code ≡ free_error) × (h ≢ libc))
      → Resizes h e dsize (refused code)

moved_to-Resizes :
    (h : Hooks) (dsize : ℕ) (room : Option ℕ) (e : Entry)
    → Resizes h e dsize (moved_to dsize room e)
moved_to-Resizes h dsize none e = fails (inl refl)
moved_to-Resizes h dsize (some addr) e = fits refl refl

module _ {W : Type 0} (mem : Memory W) where
  release_old-Resizes :
      (e : Entry) (old_size dsize : ℕ) (room : Option ℕ) (w : W)
      → Returns (release_old mem e old_size dsize room w) (Resizes (pool false) e dsize)
  unfolding release_old
  release_old-Resizes e old_size dsize none w = returns _ w (fails (inl refl))
  release_old-Resizes e old_size dsize (some addr) w =
      Returns-bind (release mem (pool false) e.addr old_size) _ w
        (release-Returns mem (pool false) _ _ w)
        (elim [
          | true ↦ λ w' _. returns _ w' (fits refl refl)
          | false ↦ λ w' _. returns _ w' (fails (inr (refl, λ e. cc)))
        ])

  resize_block-Resizes :
      (h : Hooks) (e : Entry) (new_size old_size dsize : ℕ) (w : W)
      → Returns (resize_block mem h e new_size old_size dsize w) (Resizes h e dsize)
  unfolding resize_block
  resize_block-Resizes libc e new_size old_size dsize w = returns _ _ (moved_to-Resizes _ dsize _ e)
  resize_block-Resizes (pool true) e new_size old_size dsize w =
      returns _ _ (moved_to-Resizes _ dsize _ e)
  resize_block-Resizes (pool false) e new_size old_size dsize w =
      Returns-bind (allocate mem (pool false) new_size) _ w (allocate-Returns mem (pool false) _ w)
        (λ room w' _. release_old-Resizes e old_size dsize room w')

  module _ (t : Table) (valid : IsValid t) (k : List ℕ) (dsize : ℕ) (src : Option (List ℕ)) where
    pos : 0 < length t.buckets
    pos = omega (arith, valid.width, valid.pos)

    abbrev pub bucket : ℕ
    bucket = home k (length t.buckets)

    -- Data stored under a key that is in the table.
    Stored-over :
        {old v : List Cell} {t' : Table}
        → view t k ≡ some old
        → v ≡ fill src (resized dsize old)
        → Stored t k (some v) t.entry_n t'
        → Inserted t k dsize src true no_error t'
    Stored-over {t'} seen e s =
        let same : Stored t k (some (fill src (resized dsize _))) t.entry_n t' =
          subst (λ x. Stored t k (some x) t.entry_n t') e s in
        stored (inr refl) (inl refl) (
          rw seen (record {
            valid = same.valid;
            settings = same.settings;
            reads = same.reads;
            entry_n = omega (arith, same.entry_n);
          }))

    Stored-bucket :
        {v : Option (List Cell)} (c : Chain)
        → Writes k v (total t.buckets) t.buckets (set t.buckets bucket c)
        → Stored t k v t.entry_n (record t { buckets = set t.buckets bucket c })
    Stored-bucket {v} c w =
        Stored-Writes valid valid.few
          (subst (λ n. Writes k v n t.buckets (set t.buckets bucket c)) valid.counted w)

    dropped_case :
        {e : Entry} {code : Error}
        → find k (chain_of t.buckets k) ≡ some e
        → dsize ≢ length e.bytes
        → Resizes t.hooks e dsize (refused code)
        → Inserted t k dsize src true code
            (record t { buckets = set t.buckets bucket (unlink k (chain_of t.buckets k)) })
    unfolding lookup
    dropped_case found other (fails why) =
        dropped (ap bytes_of found) refl other why
          (unlink-Writes t.buckets pos valid.placed k found).reads refl

    moved_case :
        {e m : Entry}
        → find k (chain_of t.buckets k) ≡ some e
        → Resizes t.hooks e dsize (moved m)
        → Inserted t k dsize src true no_error (record t {
          buckets =
              set t.buckets bucket
                (record m { bytes = fill src m.bytes } ∷ unlink k (chain_of t.buckets k));
        })
    unfolding lookup
    moved_case {m} found (fits own room) = Stored-over (ap bytes_of found) (ap (fill src) room) (
        Stored-bucket _ (
          replace-Writes t.buckets pos valid.placed k found (record m { bytes = fill src m.bytes })
            own))

    replace_entry-Inserted :
        (e : Entry) (w : W)
        → find k (chain_of t.buckets k) ≡ some e
        → dsize ≢ length e.bytes
        → in_block t (length e.key) dsize (entry_size t (length e.key) dsize) ≡ true
        → Returns
            (replace_entry mem t bucket (chain_of t.buckets k) k e dsize src w)
            (λ r. Inserted t k dsize src true r.0.code r.1)
    unfolding replace_entry resize_entry
    replace_entry-Inserted e w found other roomy =
        Returns-bind (resize_entry mem t e dsize) _ w (resize_block-Resizes t.hooks e _ _ dsize w)
          (elim [
            | refused code ↦ λ w' p. returns _ w' (dropped_case found other p)
            | moved m ↦ λ w' p. simp roomy (returns _ w' (moved_case found p))
          ])

    pub overwrite_entry-Inserted :
        (e : Entry) (overwrite_b : Bool) (w : W)
        → find k (chain_of t.buckets k) ≡ some e
        → in_block t (length e.key) dsize (entry_size t (length e.key) dsize) ≡ true
        → Returns
            (overwrite_entry mem t bucket (chain_of t.buckets k) k e dsize src overwrite_b w)
            (λ r. Inserted t k dsize src overwrite_b r.0.code r.1)
    unfolding overwrite_entry lookup
    overwrite_entry-Inserted e false w found roomy = returns _ w (kept (ap bytes_of found) refl)
    overwrite_entry-Inserted e true w found roomy = elim (Bool-cases (dsize == length e.bytes)) [
      | inr other ↦ simp other (replace_entry-Inserted e w found (ground arith) roomy)
      | inl same ↦
          let n : dsize ≡ length e.bytes = ground arith in
          simp same (
            returns _ w (
              Stored-over (ap bytes_of found)
                (ap (fill src)
                  (sym (resized_same e.bytes) ∙ ap (λ (j : ℕ). resized j e.bytes) (sym n)))
                (Stored-bucket _
                  (assign-Writes t.buckets pos valid.placed k found (fill src e.bytes)))))
    ]
