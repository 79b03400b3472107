-- ===== src/Skip/State.antt =====
-- The structures, error codes and constants of skiplist/skip.h and skiplist/skip_loc.h.
use Prim.Native.Nat.{Ordering}
use source.Prelude.{
  ℕ, Bool, Option, none, some, List, get_elem?, set, ltb, length, ◌==◌, if◌then◌else◌,
}
use source.Table.Memory.{Run, done, fault, and_then}

infixl 5 ◌>>=◌
abbrev pub ◌>>=◌ : {A B : Type 0} → Run A → (A → Run B) → Run B
◌>>=◌ = and_then

-- `SKIP_ERROR_NONE` and the other codes that the modelled functions return.
pub data Error : Type 0 where
  no_error pnt arg_null size_error overwrite not_found alloc_error linear_error mmap_op : Error

-- `datum_t` of an entry's data: `NULL` or an address, the size, and the bytes in the block (`none`
-- for one that nothing has written).
pub record Datum : Type 0 where
  pub addr : Option ℕ
  pub size : ℕ
  pub bytes : List (Option ℕ)

-- `skip_node_t`. The array of forward pointers has `sn_forward_n` places.
pub record Node : Type 0 where
  pub key_addr : ℕ
  pub key : List ℕ
  pub value : Datum
  pub forward : List (Option ℕ)

-- The nodes in memory.
abbrev pub Heap : Type 0
Heap = ℕ → Option Node

unfoldable pub write : Heap → ℕ → Option Node → Heap
write h p c a = if a == p then c else h a

-- `skip_compare_t`, as the sign of what it returns.
abbrev pub Compare : Type 0
Compare = List ℕ → List ℕ → Ordering

-- `skip_t`, with the memory that its nodes stand in. `sk_compare` is `NULL` or a function.
pub record SkipList : Type 0 where
  pub magic : ℕ
  pub entry_n : ℕ
  pub compare : Option Compare
  pub top : ℕ
  pub this_p : Option ℕ
  pub mmapped : Bool
  pub heap : Heap

abbrev pub skip_magic : ℕ
skip_magic = 0x10dd1dea

-- `*p`: a fault where no node is.
unfoldable pub deref : Heap → ℕ → Run Node
deref h p = elim (h p) [ none ↦ fault | some n ↦ done n ]

-- `n->sn_forward_p[level]`: a fault outside the array.
unfoldable pub next_of : Node → ℕ → Run (Option ℕ)
next_of n level = elim (get_elem? n.forward level) [ none ↦ fault | some p ↦ done p ]

-- `p->sn_forward_p[level] = q`
unfoldable pub set_next : Heap → ℕ → ℕ → Option ℕ → Run Heap
unfolding deref write
set_next h p level q = do
  n ← deref h p
  if ltb level (length n.forward)
      then done (write h p (some (record n { forward = set n.forward level q })))
      else fault

-- What an exported function returns, with what it stores through its result pointers.
pub record Reply : Type 0 where
  pub code : Error
  pub key : Option (ℕ × List ℕ)
  pub value : Option Datum

abbrev pub status : Error → Reply
status code = record { code = code; key = none; value = none }

-- The prologue of the exported functions: `skip_p == NULL`, then the magic number.
unfoldable pub guarded :
    Option SkipList → (SkipList → Run (Reply × Option SkipList)) → Run (Reply × Option SkipList)
guarded none body = done (status arg_null, none)
guarded (some s) body = if s.magic == skip_magic then body s else done (status pnt, some s)
