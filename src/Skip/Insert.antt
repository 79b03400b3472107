-- ===== src/Skip/Insert.antt =====
-- `skip_insert` of skiplist/skip.c, for a list in memory and a key pointer that can be read.
pub mod Link
pub mod Rows
pub mod Raised
pub mod Placed
pub mod Absent
pub mod Value
pub mod Copied
pub mod Present
pub mod Found
use source.Prelude.Words.{u32}
use source.Prelude.{
  ℕ, zero, suc, ◌+◌, ◌-◌, Bool, true, false, not, Option, none, some, List, [], ◌++◌, length,
  get_elem?, replicate, ltb, ◌==◌, if◌then◌else◌,
}
use source.Skip.Height.{random_level}
use source.Skip.Search.{find_node}
use source.Skip.State.{
  ◌>>=◌, Error, no_error, size_error, overwrite, alloc_error, mmap_op, Datum, Node, Heap, write,
  SkipList, deref, next_of, set_next, Reply, status, guarded,
}
use source.Table.Entry.{Buffer, null, bytes, Size, negative, counted, sized, fill}
use source.Table.Insert.{data_arg}
use source.Table.Memory.{Run, done, fault}

-- What `malloc` and `realloc` answer to the calls that one call of the library makes.
pub record Answers : Type 0 where
  pub node : Option ℕ
  pub key : Option ℕ
  pub value : Option ℕ
  pub top : Option ℕ

-- The end of the branch for a key that is there: the copy, and the pointer for the caller.
unfoldable pub copy_value :
    SkipList → ℕ → Node → Datum → Option (List ℕ) → Run (Reply × Option SkipList)
unfolding write
copy_value s p node d src =
    let v : Datum = record d { bytes = fill src d.bytes } in
    let r : Reply = record { code = no_error; key = none; value = some v } in
    done (r, some (record s { heap = write s.heap p (some (record node { value = v })) }))

-- A copy of no bytes, or from no buffer, is not made; a copy to `NULL` is a fault.
unfoldable pub store_value :
    SkipList → ℕ → Node → Datum → Option (List ℕ) → Run (Reply × Option SkipList)
unfolding copy_value
store_value s p node d none = copy_value s p node d none
store_value s p node d (some src) =
    if d.size == 0
    then copy_value s p node d none
    else elim d.addr [ none ↦ fault | some _ ↦ copy_value s p node d (some src) ]

-- Room for data of another size. With no memory, the size stays and the pointer is `NULL`.
unfoldable pub resize_value :
    Answers → SkipList → ℕ → Node → ℕ → Option (List ℕ) → Run (Reply × Option SkipList)
unfolding store_value
resize_value answers s p node new_size src =
    if new_size == 0
    then store_value s p node (record { addr = none; size = 0; bytes = [] }) src
    else elim answers.value [
      | none ↦
          let lost : Datum = record { addr = none; size = node.value.size; bytes = [] } in
          done (
            status alloc_error,
            some (record s { heap = write s.heap p (some (record node { value = lost })) }),
          )
      | some a ↦
          store_value s p node
            (record { addr = some a; size = new_size; bytes = replicate new_size none }) src
    ]

-- The branch for a key that is there.
unfoldable pub overwrite_node :
    Answers → SkipList → ℕ → ℕ → Option (List ℕ) → Bool → Run (Reply × Option SkipList)
unfolding resize_value
overwrite_node answers s p new_size src overwrite_b = do
  node ← deref s.heap p
  if not overwrite_b
      then done (record { code = overwrite; key = none; value = some node.value }, some s)
      else if new_size == node.value.size
      then store_value s p node node.value src
      else resize_value answers s p node new_size src

-- One round of the loop that links the new node: it takes the pointer over from the node that was
-- noted on the level, or gets `NULL` above the head.
unfoldable pub link_level : ℕ → ℕ → List ℕ → ℕ → Heap → Run Heap
link_level forward_n new_p update level_c h =
    if ltb level_c forward_n
    then elim (get_elem? update level_c) [
      | none ↦ fault
      | some node_p ↦ do
        node ← deref h node_p
        after ← next_of node level_c
        h' ← set_next h new_p level_c after
        set_next h' node_p level_c (some new_p)
    ]
    else set_next h new_p level_c none

-- The rounds that are left, and the level.
unfoldable pub link_levels : ℕ → ℕ → List ℕ → ℕ → ℕ → Heap → Run Heap
unfolding link_level
link_levels forward_n new_p update zero level_c h = done h
link_levels forward_n new_p update (suc rounds) level_c h =
    link_level forward_n new_p update level_c h
    >>= link_levels forward_n new_p update rounds (suc level_c)

-- The head in a larger block, whose new pointers lead to the new node.
abbrev pub raised : Node → ℕ → ℕ → Node
raised top level new_p = record top {
  forward = top.forward ++ replicate (level - length top.forward) (some new_p);
}

-- What the caller gets: the code, and the data if there is room for any.
abbrev pub stored : Error → Option Datum → Reply
stored code value = record { code = code; key = none; value = value }

-- `free (p)`
unfoldable pub release : Heap → Option ℕ → Heap
unfolding write
release h none = h
release h (some p) = write h p none

-- What `node_p` points to after the loop, where the new node is taller than the head: the node that
-- was noted on the top level.
abbrev pub last_noted : ℕ → List ℕ → Option ℕ
last_noted zero update = none
last_noted (suc level) update = get_elem? update level

-- The root is made as tall as the new node. With no memory, `node_p` and the new node are freed,
-- although they are part of the list.
unfoldable pub raise_top :
    Answers → SkipList → ℕ → ℕ → Option ℕ → Option Datum → Run (Reply × Option SkipList)
unfolding release
raise_top answers s new_p level node_p value = do
  top ← deref s.heap s.top
  let n = u32 (s.entry_n + 1)
  if ltb (length top.forward) level
      then elim answers.top [
        | none ↦ done (
          stored alloc_error value,
          some (record s { heap = write (release s.heap node_p) new_p none }),
        )
        | some a ↦ done (
          stored no_error value,
          some (record s {
            top = a;
            heap = write (write s.heap s.top none) a (some (raised top level new_p));
            entry_n = n;
          }),
        )
      ]
      else done (stored no_error value, some (record s { entry_n = n }))

-- The new node, linked on its levels.
unfoldable pub link_node :
    Answers → SkipList → ℕ → Node → List ℕ → Option Datum → Run (Reply × Option SkipList)
unfolding raise_top link_levels
link_node answers s new_p node update value = do
  top ← deref s.heap s.top
  let level = length node.forward
  let forward_n = length top.forward
  h ← link_levels forward_n new_p update level 0 (write s.heap new_p (some node))
  raise_top answers (record s { heap = h }) new_p level (last_noted forward_n update) value

-- The data of a new node: `NULL` for no bytes, or a block with a copy. `none` is no memory.
abbrev pub new_value : Option ℕ → ℕ → Option (List ℕ) → Option Datum
new_value room new_size src =
    if new_size == 0 then some (record { addr = none; size = 0; bytes = [] }) else elim room [
      | none ↦ none
      | some a ↦
          some
            (record { addr = some a; size = new_size; bytes = fill src (replicate new_size none) })
    ]

abbrev pub new_node : ℕ → List ℕ → Datum → ℕ → Node
new_node key_addr key value level = record {
  key_addr = key_addr;
  key = key;
  value = value;
  forward = replicate level none;
}

-- The blocks for the node, its key and its data, in their order; each may be refused.
unfoldable pub place_node :
    Answers
    → SkipList
    → List ℕ
    → List ℕ
    → ℕ
    → ℕ
    → Option ℕ
    → Option ℕ
    → Option Datum
    → Run (Reply × Option SkipList)
unfolding link_node
place_node answers s key update level new_size none key_addr value =
    done (status alloc_error, some s)
place_node answers s key update level new_size (some new_p) none value =
    done (status alloc_error, some s)
place_node answers s key update level new_size (some new_p) (some key_addr) none =
    done (status alloc_error, some s)
place_node answers s key update level new_size (some new_p) (some key_addr) (some v) =
    link_node answers s new_p (new_node key_addr key v level) update
      (if new_size == 0 then none else some v)

-- The branch for a key that is not there.
unfoldable pub add_node :
    Answers
    → (ℕ → ℕ)
    → SkipList
    → List ℕ
    → List ℕ
    → ℕ
    → Option (List ℕ)
    → Run (Reply × Option SkipList)
unfolding place_node
add_node answers random s key update new_size src = do
  top ← deref s.heap s.top
  let level = random_level random (length top.forward)
  place_node answers s key update level new_size answers.node answers.key
      (new_value answers.value new_size src)

-- `skip_insert` behind its checks.
unfoldable pub insert_key :
    Answers
    → (ℕ → ℕ)
    → SkipList
    → List ℕ
    → ℕ
    → Option (List ℕ)
    → Bool
    → Run (Reply × Option SkipList)
unfolding add_node overwrite_node
insert_key answers random s key new_size src overwrite_b = do
  top ← deref s.heap s.top
  (found, update) ← find_node s key (ltb 0 (length top.forward))
  elim found [
    | some p ↦ overwrite_node answers s p new_size src overwrite_b
    | none ↦ add_node answers random s key update new_size src
  ]

-- `data_buf` can be `NULL`, but then needs a size.
abbrev pub bad_data : Buffer → Size → Bool
bad_data null negative = true
bad_data null (counted n) = false
bad_data (bytes b) size = false

-- The data are read here, and by the code where it copies them.
unfoldable pub skip_insert :
    Answers
    → (ℕ → ℕ)
    → Option SkipList
    → List ℕ
    → Size
    → Buffer
    → Size
    → Bool
    → Run (Reply × Option SkipList)
unfolding insert_key
skip_insert answers random sp key_buf key_size data_buf data_size overwrite_b = guarded sp (λ s.
    if bad_data data_buf data_size
    then done (status size_error, some s)
    else if s.mmapped
    then done (status mmap_op, some s)
    else do
      key ← sized key_buf key_size
      (new_size, src) ← data_arg data_buf data_size
      insert_key answers random s key new_size src overwrite_b)
