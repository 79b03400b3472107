-- ===== src/Skip/Retrieve/View.antt =====
-- `skip_retrieve` reads the map that a valid list stands for, and the linear access walks through
-- the entries in order.
use source.Prelude.{
  ℕ, ◌≡◌, refl, ap, ◌∙◌, Bool, true, false, Option, none, some, List, ◌==◌, if◌then◌else◌, arith,
}
use source.Skip.Items.{Item, addr_of, IsStored, deref-Stored, Linked-IsStored}
use source.Skip.Order.{IsShort}
use source.Skip.Retrieve.{retrieve_at, skip_retrieve}
use source.Skip.State.{no_error, not_found, SkipList, skip_magic, Reply, status, guarded}
use source.Skip.Valid.Split.{find_node-Finds, lookup-All}
use source.Skip.Valid.{IsValid, compare_of, lookup}
use source.Table.Entry.{Size, sized}
use source.Table.Memory.{Run, done}

-- The checks of the prologue pass.
pub guarded-valid :
    (s : SkipList) (t : Item) (xs : List Item) (body : SkipList → Run (Reply × Option SkipList))
    → IsValid s t xs
    → guarded (some s) body ≡ body s
unfolding guarded
guarded-valid s t xs body valid =
    let passes : (s.magic == skip_magic) ≡ true = ground (arith, valid.magic) in
    rw (passes, guarded)

pub mmap-valid :
    (s : SkipList) (t : Item) (xs : List Item) (refused body : Run (Reply × Option SkipList))
    → IsValid s t xs
    → (if s.mmapped then refused else body) ≡ body
mmap-valid s t xs refused body valid =
    ap (λ (b : Bool). if b then refused else body) valid.in_memory

abbrev pub retrieved : Option Item → Reply
retrieved none = status not_found
retrieved (some x) = record { code = no_error; key = none; value = some x.value }

retrieve_at-lookup :
    (s : SkipList) (o : Option Item)
    → ((x : Item) → o ≡ some x → IsStored s.heap x)
    → retrieve_at s (addr_of o) ≡ done (retrieved o, some s)
unfolding retrieve_at
retrieve_at-lookup s none stored = refl
retrieve_at-lookup s (some x) stored =
    let (node, p) = stored x refl in rw (deref-Stored s.heap x node p, p.value)

-- On a valid list, and for a key that can be read and is shorter than 2 ^ 31 bytes, the call ends
-- with no fault and leaves the list as it is. It reports the data of the entry whose key compares
-- equal, or that there is none.
pub skip_retrieve-lookup :
    (s : SkipList) (t : Item) (xs : List Item) (b : List ℕ) (key_size : Size) {k : List ℕ}
    → IsValid s t xs
    → sized b key_size ≡ done k
    → IsShort k
    → skip_retrieve (some s) b key_size ≡ done (retrieved (lookup (compare_of s) k xs), some s)
unfolding skip_retrieve
skip_retrieve-lookup s t xs b key_size {k} valid key_read short_k =
    guarded-valid s t xs _ valid
    ∙ rw (key_read, find_node-Finds s t xs k false valid short_k)
        (retrieve_at-lookup s (lookup (compare_of s) k xs) (λ x e.
          lookup-All (compare_of s) k (IsStored s.heap) xs
            (Linked-IsStored s.heap xs valid.linked.1) e))
