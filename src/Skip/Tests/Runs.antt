-- ===== src/Skip/Tests/Runs.antt =====
-- Sessions that run to a value.
use source.Prelude.{
  ℕ, ◌+◌, ◌*◌, ◌≡◌, refl, true, Option, some, none, List, [], ◌∷◌, map, ltb, if◌then◌else◌,
}
use source.Skip.Create.{skip_alloc}
use source.Skip.Delete.{
  skip_delete, skip_delete_first, delete_key, delete_first, unlink_levels, step_off, finish,
  remove_node, free_node,
}
use source.Skip.Height.{random_level, level_from, increase_level}
use source.Skip.Insert.{
  Answers, copy_value, store_value, resize_value, overwrite_node, link_level, link_levels,
  raise_top, link_node, add_node, insert_key, skip_insert,
}
use source.Skip.Retrieve.Walk.{walk}
use source.Skip.Retrieve.{go_to, skip_first, next_from, skip_next}
use source.Skip.Search.{compare_keys, compare_next, turn, find_loop, find_node}
use source.Skip.State.{◌>>=◌, SkipList, write, deref, next_of, set_next, guarded, Reply}
use source.Table.Entry.{bytes, counted, sized, c_string, memcmp}
use source.Table.Insert.{data_arg}
use source.Table.Memory.{Run, done, fault}

-- The answers for the call number `n`.
abbrev at_call : ℕ → Answers
at_call n = record {
  node = some (n * 10);
  key = some (n * 10 + 1);
  value = some (n * 10 + 2);
  top = some (n * 10 + 3);
}

-- `random` answers that make a node of this height, if the head allows it.
abbrev height : ℕ → ℕ → ℕ
height n call = if ltb call n then 0 else 9999

abbrev put : ℕ → ℕ → ℕ → Option SkipList → Run (Reply × Option SkipList)
put n key tall sp =
    skip_insert (at_call n) (height tall) sp (key ∷ []) (counted 1) (bytes (n ∷ [])) (counted 1)
      true

abbrev some_keys : Run (Reply × Option SkipList)
some_keys = do
  (r, s) ← put 1 50 1 (skip_alloc none (some 1) (some 2) (λ _. none)).1
  (r, s) ← put 2 30 2 s
  (r, s) ← put 3 70 3 s
  (r, s) ← put 4 60 1 s
  (r, s) ← put 5 30 1 s
  put 6 40 2 s

abbrev keys_of : Run (List Reply) → List (Option (ℕ × List ℕ))
keys_of fault = []
keys_of (done rs) = map (λ r. r.key) rs

keys_run :
    keys_of (do (r, s) ← some_keys; walk 10 (skip_first s))
    ≡ some (21, 30 ∷ [])
      ∷ some (61, 40 ∷ [])
      ∷ some (11, 50 ∷ [])
      ∷ some (41, 60 ∷ [])
      ∷ some (31, 70 ∷ [])
      ∷ []
unfolding skip_alloc skip_insert insert_key add_node copy_value store_value resize_value
    overwrite_node link_level link_levels raise_top link_node random_level level_from increase_level
    skip_first walk go_to next_from skip_next compare_keys compare_next turn find_loop find_node
    write deref next_of set_next guarded sized c_string memcmp data_arg
keys_run = refl

delete_run :
    keys_of (do
      (r, s) ← some_keys
      (r, s) ← skip_delete (some 90) s (40 ∷ []) (counted 1)
      (r, s) ← skip_delete (some 90) s (70 ∷ []) (counted 1)
      (r, s) ← skip_delete_first (some 90) s
      (r, s) ← skip_delete_first (some 90) s
      walk 10 (skip_first s))
    ≡ some (41, 60 ∷ []) ∷ []
unfolding skip_alloc skip_insert insert_key add_node copy_value store_value resize_value
    overwrite_node link_level link_levels raise_top link_node random_level level_from increase_level
    skip_first walk go_to next_from skip_next compare_keys compare_next turn find_loop find_node
    write deref next_of set_next guarded sized c_string memcmp data_arg skip_delete
    skip_delete_first delete_key delete_first unlink_levels step_off finish remove_node free_node
delete_run = refl
