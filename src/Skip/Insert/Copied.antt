-- ===== src/Skip/Insert/Copied.antt =====
-- What `overwrite_node` makes of the data of a node.
use source.Prelude.{
  ℕ, ◌≡◌, ◌⊎◌, ◌==◌, refl, ap, true, false, Bool, Bool-cases, Option, none, some, List, [],
  replicate, if◌then◌else◌, inl, inr, arith,
}
use source.Skip.Insert.{Answers, copy_value, store_value, overwrite_node}
use source.Skip.State.{no_error, alloc_error, Datum, Node, write, SkipList, deref, Reply, status}
use source.Table.Entry.{fill}
use source.Table.Memory.{Run, done, fault}

-- The data after the copy.
abbrev pub copied : Datum → Option (List ℕ) → Datum
copied d none = record d { bytes = fill none d.bytes }
copied d (some src) =
    if d.size == 0
    then record d { bytes = fill none d.bytes }
    else record d { bytes = fill (some src) d.bytes }

abbrev pub no_value : Datum
no_value = record { addr = none; size = 0; bytes = [] }

-- The data of an entry when they are overwritten, and whether they are: a block of the same size is
-- kept; where a new one is refused, the pointer is `NULL` and the size stays.
abbrev pub new_data : Option ℕ → Datum → ℕ → Option (List ℕ) → Bool × Datum
new_data room old new_size src =
    if new_size == old.size
    then (true, copied old src)
    else if new_size == 0
    then (true, copied no_value src)
    else elim room [
      | none ↦ (false, record old { addr = none; bytes = [] })
      | some a ↦ (
        true,
        copied (record { addr = some a; size = new_size; bytes = replicate new_size none }) src,
      )
    ]

abbrev pub answer : Bool → Datum → Reply
answer true v = record { code = no_error; key = none; value = some v }
answer false v = status alloc_error

-- Data of some size have a block.
abbrev pub HasBlock : Datum → Type 0
HasBlock d = (d.size ≡ 0) ⊎ ((a : ℕ) × (d.addr ≡ some a))

module _ (s : SkipList) (p : ℕ) (node : Node) where
  abbrev pub with_data : Bool × Datum → Run (Reply × Option SkipList)
  with_data (b, v) =
      done
        (answer b v, some (record s { heap = write s.heap p (some (record node { value = v })) }))

  store_value-copied :
      (d : Datum) (src : Option (List ℕ))
      → HasBlock d
      → store_value s p node d src ≡ with_data (true, copied d src)
  unfolding store_value copy_value
  store_value-copied d none filled = refl
  store_value-copied d (some src) filled = elim (Bool-cases (d.size == 0)) [
    | inl empty ↦ rw empty
    | inr full ↦ by_block filled full
  ]
    where
      by_block :
          HasBlock d
          → (d.size == 0) ≡ false
          → store_value s p node d (some src) ≡ with_data (true, copied d (some src))
      by_block (inl e) full = absurd (ground arith)
      by_block (inr (a, e)) full = rw full (
          ap
            (λ (o : Option ℕ). elim o as (λ _. Run (Reply × Option SkipList)) [
              | none ↦ fault
              | some _ ↦ copy_value s p node d (some src)
            ])
            e)

  pub overwrite_node-new_data :
      (answers : Answers) (new_size : ℕ) (src : Option (List ℕ))
      → s.heap p ≡ some node
      → HasBlock node.value
      → overwrite_node answers s p new_size src true
        ≡ with_data (new_data answers.value node.value new_size src)
  unfolding overwrite_node
  overwrite_node-new_data answers new_size src at filled =
      let read : deref s.heap p ≡ done node = unfold deref in rw (at, deref) in
      elim (Bool-cases (new_size == node.value.size)) [
        | inl same ↦ rw (read, same) (store_value-copied node.value src filled)
        | inr other ↦ elim (Bool-cases (new_size == 0)) [
          | inl empty ↦ rw (read, other, empty) (store_value-copied no_value src (inl refl))
          | inr some_bytes ↦ rw (read, other, some_bytes) (by_room answers.value)
        ]
      ]
    where
      by_room :
          (room : Option ℕ)
          → elim room as (λ _. Run (Reply × Option SkipList)) [
            | none ↦
                let lost : Datum = record { addr = none; size = node.value.size; bytes = [] } in
                done (
                  status alloc_error,
                  some (record s { heap = write s.heap p (some (record node { value = lost })) }),
                )
            | some a ↦
                store_value s p node
                  (record { addr = some a; size = new_size; bytes = replicate new_size none })
                  src
          ]
            ≡ with_data (elim room as (λ _. Bool × Datum) [
              | none ↦ (false, record node.value { addr = none; bytes = [] })
              | some a ↦ (
                true,
                copied
                    (record { addr = some a; size = new_size; bytes = replicate new_size none })
                    src,
              )
            ])
      by_room none = refl
      by_room (some a) = store_value-copied _ src (inr (a, refl))
