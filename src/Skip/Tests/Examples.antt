-- ===== src/Skip/Tests/Examples.antt =====
-- The theorems at a list with two entries.
use source.Prelude.{◌≡◌, refl, false, true, some, none, [], ◌∷◌, inl, inr, arith}
use source.Skip.Create.Cleared.{Cleared, skip_clear-Cleared, Allocated, skip_alloc-Allocated}
use source.Skip.Create.{skip_alloc, skip_clear}
use source.Skip.Delete.Outcome.{
  Deletes, DeletesFirst, skip_delete-Deletes, skip_delete_first-DeletesFirst,
}
use source.Skip.Delete.{skip_delete, skip_delete_first}
use source.Skip.Insert.Absent.{skip_insert-Inserts}
use source.Skip.Insert.Placed.{Inserts}
use source.Skip.Insert.{skip_insert}
use source.Skip.Order.{compare_keys-IsOrder, compare_keys-lex, lex}
use source.Skip.Retrieve.View.{retrieved, skip_retrieve-lookup}
use source.Skip.Retrieve.Walk.{item_reply, walk, walk-entries}
use source.Skip.Retrieve.{skip_retrieve, skip_first}
use source.Skip.Search.{compare_keys, find_node}
use source.Skip.Tests.Data.{answers, answers-fresh, head, first, second, entries, two, two-IsValid}
use source.Skip.Valid.Split.{find_node-Finds}
use source.Skip.Valid.{lookup, before}
use source.Table.Entry.{bytes, counted, sized, memcmp}
use source.Table.Insert.{data_arg}
use source.Table.Memory.{done}

find_node-Finds_example : find_node two (40 ∷ 0 ∷ []) true ≡ done (some 20, 10 ∷ 1 ∷ [])
unfolding lookup before compare_keys memcmp
find_node-Finds_example =
    find_node-Finds two head entries (40 ∷ 0 ∷ []) true two-IsValid (omega arith)

skip_retrieve-lookup_example :
    skip_retrieve (some two) (40 ∷ 0 ∷ []) (counted 2) ≡ done (retrieved (some second), some two)
unfolding sized lookup compare_keys memcmp
skip_retrieve-lookup_example =
    skip_retrieve-lookup two head entries (40 ∷ 0 ∷ []) (counted 2) two-IsValid refl (omega arith)

walk-entries_example :
    walk 3 (skip_first (some two)) ≡ done (item_reply first ∷ item_reply second ∷ [])
walk-entries_example = walk-entries 3 two head entries two-IsValid (omega arith)

skip_delete-Deletes_example :
    Deletes two entries (some first) (skip_delete (some 90) (some two) (30 ∷ []) (counted 1))
unfolding sized lookup compare_keys memcmp
skip_delete-Deletes_example =
    skip_delete-Deletes two head (some 90) 90 refl (inl refl) entries (30 ∷ []) (counted 1)
      two-IsValid refl (omega arith)

skip_delete_first-DeletesFirst_example :
    DeletesFirst two entries (skip_delete_first (some 90) (some two))
skip_delete_first-DeletesFirst_example =
    skip_delete_first-DeletesFirst two head (some 90) 90 refl (inl refl) entries two-IsValid

compare_keys-lex_example : compare_keys (30 ∷ []) (30 ∷ 0 ∷ []) ≡ lex (30 ∷ []) (30 ∷ 0 ∷ [])
compare_keys-lex_example = compare_keys-lex (30 ∷ []) (30 ∷ 0 ∷ []) (omega arith) (omega arith)

skip_insert-Inserts_example :
    Inserts two entries
      (35 ∷ [])
      1
      (some (30, (31, record { addr = some 32; size = 1; bytes = some 9 ∷ [] })))
      (skip_insert answers
        (λ call. 0)
        (some two)
        (35 ∷ [])
        (counted 1)
        (bytes (9 ∷ []))
        (counted 1)
        false)
unfolding sized lookup compare_keys memcmp data_arg
skip_insert-Inserts_example =
    skip_insert-Inserts two head entries answers (λ call. 0) (35 ∷ []) (counted 1) (bytes (9 ∷ []))
      (counted 1) false 90 two-IsValid (omega arith) refl refl refl (omega arith) refl answers-fresh
      refl (inr (refl, λ e. cc))

skip_clear-Cleared_example : Cleared two (skip_clear (some 90) (some two))
skip_clear-Cleared_example = skip_clear-Cleared two head entries (some 90) 90 two-IsValid refl

skip_alloc-Allocated_example :
    Allocated none (some 1) (some 2) (skip_alloc none (some 1) (some 2) (λ p. none))
skip_alloc-Allocated_example =
    skip_alloc-Allocated none (some 1) (some 2) (λ p. none) compare_keys-IsOrder
