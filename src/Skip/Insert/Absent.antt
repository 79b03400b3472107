-- ===== src/Skip/Insert/Absent.antt =====
-- `skip_insert` with a key that is not in the list.
use source.Prelude.{
  ℕ, ◌+◌, ◌≤◌, ◌^◌, ◌<◌, ◌≡◌, refl, ◌∙◌, false, Bool, Option, none, some, List, length,
  length-replicate, replicate, ltb, arith,
}
use source.Skip.Height.Bounds.{random_level_bounds}
use source.Skip.Height.{random_level}
use source.Skip.Insert.{
  Answers, place_node, bad_data, skip_insert, new_value, new_node, add_node, insert_key,
}
use source.Skip.Items.{Item}
use source.Skip.Order.{IsShort}
use source.Skip.Search.{find_node}
use source.Skip.State.{Datum, SkipList}
use source.Skip.Valid.Split.{preds_of, deref-top, find_node-Finds}
use source.Skip.Valid.{IsValid, compare_of, lookup}
use source.Skip.Retrieve.View.{guarded-valid}
use source.Table.Entry.{Size, Buffer, sized}
use source.Table.Insert.{data_arg}
use source.Table.Memory.{done}
use source.Skip.Insert.Placed.{kept, blocks, Inserts, IsRoom, link_node-Inserted}

module _ (s : SkipList) (t : Item) (xs : List Item) (valid : IsValid s t xs)
    (more : s.entry_n + 1 < 2 ^ 32) (k : List ℕ) (short_k : IsShort k)
    (absent : lookup (compare_of s) k xs ≡ none) (answers : Answers) (a : ℕ)
    (given : answers.top ≡ some a) (room : IsRoom s answers.node a) where
  place_node-Inserts :
      (level new_size : ℕ) (node key : Option ℕ) (value : Option Datum)
      → answers.node ≡ node
      → ((p : ℕ) → node ≡ some p → s.heap p ≡ none)
      → 0 < level
      → level ≤ t.height + 1
      → Inserts s xs k new_size (blocks node key value) (
          place_node answers s k (preds_of s k (ltb 0 t.height) t xs) level new_size node key value)
  unfolding place_node
  place_node-Inserts level new_size none key value at fresh stands near = refl
  place_node-Inserts level new_size (some p) none value at fresh stands near = refl
  place_node-Inserts level new_size (some p) (some key_addr) none at fresh stands near = refl
  place_node-Inserts level new_size (some p) (some key_addr) (some v) at fresh stands near =
      let links : List (Option ℕ) = replicate level none in
      let width : length links ≡ level = length-replicate level none in
      link_node-Inserted s t xs valid more k short_k absent answers a given room p at (fresh p refl)
        (new_node key_addr k v level) refl (kept new_size v) (omega arith) (omega arith)

  add_node-Inserts :
      (random : ℕ → ℕ) (new_size : ℕ) (src : Option (List ℕ))
      → ((p : ℕ) → answers.node ≡ some p → s.heap p ≡ none)
      → Inserts s xs k new_size
          (blocks answers.node answers.key (new_value answers.value new_size src))
          (add_node answers random s k (preds_of s k (ltb 0 t.height) t xs) new_size src)
  unfolding add_node
  add_node-Inserts random new_size src fresh =
      let high : length valid.linked.0.node.forward ≡ t.height = valid.linked.0.stored.height in
      let (least, most) = random_level_bounds random t.height in
      rw (deref-top s t xs valid, high)
        (place_node-Inserts (random_level random t.height) new_size answers.node answers.key
          (new_value answers.value new_size src) refl fresh (omega arith) (omega arith))

  insert_key-Inserts :
      (random : ℕ → ℕ) (new_size : ℕ) (src : Option (List ℕ)) (overwrite_b : Bool)
      → ((p : ℕ) → answers.node ≡ some p → s.heap p ≡ none)
      → Inserts s xs k new_size
          (blocks answers.node answers.key (new_value answers.value new_size src))
          (insert_key answers random s k new_size src overwrite_b)
  unfolding insert_key
  insert_key-Inserts random new_size src overwrite_b fresh =
      let forward_n = length valid.linked.0.node.forward in
      let high : forward_n ≡ t.height = valid.linked.0.stored.height in
      let search : find_node s k (ltb 0 forward_n)
          ≡ done (none, preds_of s k (ltb 0 t.height) t xs) =
        find_node-Finds s t xs k (ltb 0 forward_n) valid short_k ∙ rw (absent, high) in
      rw (deref-top s t xs valid, search) (add_node-Inserts random new_size src fresh)

-- On a valid list with fewer than 2 ^ 32 - 1 entries, for a key that can be read, is shorter than
-- 2 ^ 31 bytes and is under no entry, and for data that can be read, where the allocations answer
-- with blocks where no node is, but for the head, which may stay, and the block of the head is not
-- refused: the call ends with no fault. If a block of the new entry is refused, the code says so and
-- nothing has changed. Otherwise a valid list is left with one more entry, whose map has the data
-- under the key and is the same elsewhere.
pub skip_insert-Inserts :
    (s : SkipList) (t : Item) (xs : List Item) (answers : Answers) (random : ℕ → ℕ) (b : List ℕ)
    (key_size : Size) (data_buf : Buffer) (data_size : Size) (overwrite_b : Bool) {k : List ℕ}
    {new_size : ℕ} {src : Option (List ℕ)} (a : ℕ)
    → IsValid s t xs
    → s.entry_n + 1 < 2 ^ 32
    → bad_data data_buf data_size ≡ false
    → sized b key_size ≡ done k
    → data_arg data_buf data_size ≡ done (new_size, src)
    → IsShort k
    → lookup (compare_of s) k xs ≡ none
    → ((p : ℕ) → answers.node ≡ some p → s.heap p ≡ none)
    → answers.top ≡ some a
    → IsRoom s answers.node a
    → Inserts s xs k new_size
        (blocks answers.node answers.key (new_value answers.value new_size src))
        (skip_insert answers random (some s) b key_size data_buf data_size overwrite_b)
unfolding skip_insert
skip_insert-Inserts s t xs answers random b key_size data_buf data_size overwrite_b {k} {new_size}
      {src} a valid more good key_read data_read short_k absent fresh given room =
    let run : skip_insert answers random (some s) b key_size data_buf data_size overwrite_b
        ≡ insert_key answers random s k new_size src overwrite_b =
      guarded-valid s t xs _ valid ∙ rw (good, valid.in_memory, key_read, data_read) in
    rw run (
      insert_key-Inserts s t xs valid more k short_k absent answers a given room random new_size src
        overwrite_b fresh)
