-- ===== src/Skip/Search.antt =====
-- `find_node` of skiplist/skip.c: the search for a key from the top level down, which notes the
-- nodes that it goes down from.
pub mod Turns
pub mod Finds
use Prim.Native.Nat.{Ordering}
use source.Prelude.Words.{sub32}
use source.Prelude.{
  ℕ, zero, suc, ◌+◌, ◌^◌, Bool, true, false, Option, none, some, List, [], ◌∷◌, length, ltb, min,
  ◌==◌, if◌then◌else◌,
}
use source.Skip.State.{◌>>=◌, Node, Heap, Compare, SkipList, deref, next_of}
use source.Table.Entry.{memcmp}
use source.Table.Memory.{Run, done, fault}

-- The sign of the `int` that a difference of two `unsigned int` is stored in.
abbrev pub sign_of : ℕ → Ordering
sign_of d = if d == 0 then Ordering.eq else if ltb d (2 ^ 31) then Ordering.gt else Ordering.lt

-- The comparison without a user function: the common bytes, then the sizes.
unfoldable pub compare_keys : Compare
compare_keys next key = elim (memcmp (min (length next) (length key)) next key) [
  | Ordering.lt ↦ Ordering.lt
  | Ordering.gt ↦ Ordering.gt
  | Ordering.eq ↦ sign_of (sub32 (length next) (length key))
]

abbrev pub compare_with : Option Compare → Compare
compare_with none = compare_keys
compare_with (some user) = user

-- What one round of the loop makes of the comparison: go right to a node, go down, or find a node.
pub data Turn : Type 0 where
  right : ℕ → Turn
  down : Turn
  hit : ℕ → Turn

abbrev pub turn_of : ℕ → Ordering → Turn
turn_of p Ordering.lt = right p
turn_of p Ordering.eq = hit p
turn_of p Ordering.gt = down

abbrev pub is_found : ℕ → Option ℕ → Bool
is_found p none = false
is_found p (some q) = p == q

-- The tests on `next_p`: the end of a row, the node found before, a taller node, the keys.
unfoldable pub compare_next : Heap → Compare → List ℕ → Node → Option ℕ → Option ℕ → Run Turn
compare_next h cmp key node found none = done down
compare_next h cmp key node found (some next_p) =
    if is_found next_p found then done (hit next_p) else do
      next ← deref h next_p
      if ltb (length node.forward) (length next.forward)
          then done down
          else done (turn_of next_p (cmp next.key key))

unfoldable pub turn : Heap → Compare → List ℕ → ℕ → ℕ → Option ℕ → Run Turn
unfolding compare_next
turn h cmp key node_p level found = do
  node ← deref h node_p
  next_p ← next_of node level
  compare_next h cmp key node found next_p

-- `update_p[level] = node_p`, if there is an array. It is filled from the top level down: the head
-- of the list is the level that was written last.
abbrev pub track : Bool → ℕ → List ℕ → List ℕ
track true node_p update = node_p ∷ update
track false node_p update = update

-- The loop, with fuel, for `level + 1` levels that are left; running out of fuel is a fault.
unfoldable pub find_loop :
    Heap → Compare → List ℕ → Bool → ℕ → ℕ → ℕ → Option ℕ → List ℕ → Run (Option ℕ × List ℕ)
unfolding turn
find_loop h cmp key tracked zero levels node_p found update = fault
find_loop h cmp key tracked (suc fuel) zero node_p found update = done (none, update)
find_loop h cmp key tracked (suc fuel) (suc level) node_p found update = do
  t ← turn h cmp key node_p level found
  elim t [
    | right next_p ↦ find_loop h cmp key tracked fuel (suc level) next_p found update
    | down ↦ find_loop h cmp key tracked fuel level node_p found (track tracked node_p update)
    | hit next_p ↦
        if tracked
        then (if level == 0
            then done (some next_p, node_p ∷ update)
            else find_loop h cmp key tracked fuel level node_p (some next_p) (node_p ∷ update))
        else done (some next_p, update)
  ]

-- The loop goes right at most once for each entry and down once for each level.
unfoldable pub find_node : SkipList → List ℕ → Bool → Run (Option ℕ × List ℕ)
unfolding find_loop
find_node s key tracked = do
  top ← deref s.heap s.top
  let levels = length top.forward
  find_loop s.heap (compare_with s.compare) key tracked (levels + s.entry_n + 1) levels s.top none
      []
