-- ===== src/Skip/Retrieve.antt =====
-- `skip_retrieve`, `skip_first`, `skip_next`, `skip_this` and `skip_info` of skiplist/skip.c, for a
-- list in memory and key pointers that can be read.
pub mod View
pub mod Walk
use source.Prelude.{ℕ, Option, none, some, List, length, ◌==◌, if◌then◌else◌}
use source.Skip.Search.{find_node}
use source.Skip.State.{
  ◌>>=◌, Error, no_error, pnt, arg_null, not_found, linear_error, Node, SkipList, skip_magic, deref,
  next_of, Reply, status, guarded,
}
use source.Table.Entry.{Size, sized}
use source.Table.Memory.{Run, done, fault}
use source.Prelude.{false}

-- The answer for a node that `find_node` gave.
unfoldable pub retrieve_at : SkipList → Option ℕ → Run (Reply × Option SkipList)
retrieve_at s none = done (status not_found, some s)
retrieve_at s (some p) = do
  node ← deref s.heap p
  done (record { code = no_error; key = none; value = some node.value }, some s)

unfoldable pub skip_retrieve : Option SkipList → List ℕ → Size → Run (Reply × Option SkipList)
skip_retrieve sp key_buf key_size = guarded sp (λ s. do
  key ← sized key_buf key_size
  (found, update) ← find_node s key false
  retrieve_at s found)

-- The key and the data of a node.
abbrev pub entry_reply : Node → Reply
entry_reply n = record { code = no_error; key = some (n.key_addr, n.key); value = some n.value }

-- `sk_this_p` is set, and the node's fields are stored.
unfoldable pub go_to : SkipList → Option ℕ → Run (Reply × Option SkipList)
go_to s none = fault
go_to s (some p) = do
  node ← deref s.heap p
  done (entry_reply node, some (record s { this_p = some p }))

unfoldable pub skip_first : Option SkipList → Run (Reply × Option SkipList)
unfolding go_to
skip_first sp = guarded sp (λ s. do
  top ← deref s.heap s.top
  if length top.forward == 0
      then done (status not_found, some s)
      else do node_p ← next_of top 0; go_to s node_p)

-- From the node that the linear access stands at.
unfoldable pub next_from : SkipList → Option ℕ → Run (Reply × Option SkipList)
unfolding go_to
next_from s none = done (status linear_error, some s)
next_from s (some p) = do
  node ← deref s.heap p
  next_p ← next_of node 0
  elim next_p [ none ↦ done (status not_found, some s) | some q ↦ go_to s (some q) ]

unfoldable pub skip_next : Option SkipList → Run (Reply × Option SkipList)
unfolding next_from
skip_next sp = guarded sp (λ s. next_from s s.this_p)

unfoldable pub this_at : SkipList → Option ℕ → Run (Reply × Option SkipList)
this_at s none = done (status linear_error, some s)
this_at s (some p) = do node ← deref s.heap p; done (entry_reply node, some s)

unfoldable pub skip_this : Option SkipList → Run (Reply × Option SkipList)
unfolding this_at
skip_this sp = guarded sp (λ s. this_at s s.this_p)

-- The height of the node that the linear access stands at, if it stands at one.
unfoldable pub info_at : SkipList → Option ℕ → Run (Error × Option ℕ)
info_at s none = done (linear_error, none)
info_at s (some p) = do node ← deref s.heap p; done (no_error, some (length node.forward))

unfoldable pub skip_info : Option SkipList → Run (Error × Option ℕ)
unfolding info_at
skip_info none = done (arg_null, none)
skip_info (some s) = if s.magic == skip_magic then info_at s s.this_p else done (pnt, none)
