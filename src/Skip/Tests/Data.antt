-- ===== src/Skip/Tests/Data.antt =====
-- A list with two entries, of which the second stands on two levels.
use source.Prelude.{
  ℕ, ◌<◌, ◌==◌, ◌≡◌, refl, false, Option, none, some, List, [], ◌∷◌, if◌then◌else◌, inl, get_elem?,
  suc, zero, arith,
}
use mathlib.Core.Path.{subst}
use source.Skip.Insert.{Answers}
use source.Skip.Items.{Item, next, Linked}
use source.Skip.Order.{compare_keys-IsOrder}
use source.Skip.Search.{compare_keys}
use source.Skip.State.{Datum, Node, Heap, SkipList, skip_magic}
use source.Skip.Valid.{IsValid}

abbrev pub no_data : Datum
no_data = record { addr = none; size = 0; bytes = [] }

abbrev pub one_byte : ℕ → ℕ → Datum
one_byte addr b = record { addr = some addr; size = 1; bytes = some b ∷ [] }

abbrev pub head : Item
head = record { addr = 1; key_addr = 0; key = []; value = no_data; height = 2 }

abbrev pub first : Item
first = record { addr = 10; key_addr = 11; key = 30 ∷ []; value = one_byte 12 7; height = 1 }

abbrev pub second : Item
second = record { addr = 20; key_addr = 21; key = 40 ∷ 0 ∷ []; value = one_byte 22 8; height = 2 }

abbrev node_of : Item → List (Option ℕ) → Node
node_of x links = record { key_addr = x.key_addr; key = x.key; value = x.value; forward = links }

abbrev head_node : Node
head_node = node_of head (some 10 ∷ some 20 ∷ [])

abbrev first_node : Node
first_node = node_of first (some 20 ∷ [])

abbrev second_node : Node
second_node = node_of second (none ∷ none ∷ [])

abbrev pub heap : Heap
heap p =
    if p == 1
    then some head_node
    else if p == 10
    then some first_node
    else if p == 20
    then some second_node
    else none

abbrev pub two : SkipList
two = record {
  magic = skip_magic;
  entry_n = 2;
  compare = none;
  top = 1;
  this_p = some 10;
  mmapped = false;
  heap = heap;
}

abbrev pub entries : List Item
entries = first ∷ second ∷ []

links_head : (l : ℕ) → l < 2 → get_elem? head_node.forward l ≡ some (next l entries)
links_head zero lt = refl
links_head (suc zero) lt = refl
links_head (suc (suc l)) lt = absurd (omega arith)

links_first : (l : ℕ) → l < 1 → get_elem? first_node.forward l ≡ some (next l (second ∷ []))
links_first zero lt = refl
links_first (suc l) lt = absurd (omega arith)

links_second : (l : ℕ) → l < 2 → get_elem? second_node.forward l ≡ some (next l [])
links_second zero lt = refl
links_second (suc zero) lt = refl
links_second (suc (suc l)) lt = absurd (omega arith)

two-Linked : Linked heap (head ∷ entries)
two-Linked = (
  record {
    node = head_node;
    stored = record { at = refl; key_addr = refl; key = refl; value = refl; height = refl };
    links = links_head;
  },
  (
    record {
      node = first_node;
      stored = record { at = refl; key_addr = refl; key = refl; value = refl; height = refl };
      links = links_first;
    },
    (
      record {
        node = second_node;
        stored = record { at = refl; key_addr = refl; key = refl; value = refl; height = refl };
        links = links_second;
      },
      tt,
    ),
  ),
)

pub two-IsValid : IsValid two head entries
unfolding compare_keys source.Table.Entry.memcmp
two-IsValid = record {
  magic = refl;
  in_memory = refl;
  top = refl;
  linked = two-Linked;
  distinct = ((omega arith, (omega arith, tt)), ((omega arith, tt), (tt, tt)));
  low = (omega arith, (omega arith, tt));
  tall = (omega arith, (omega arith, tt));
  empty = λ e. absurd cc;
  counted = refl;
  few = omega arith;
  order = compare_keys-IsOrder;
  short = (omega arith, (omega arith, tt));
  sorted = ((refl, tt), (tt, tt));
  this = inl refl;
}

-- Answers that do not clash with these nodes.
abbrev pub answers : Answers
answers = record { node = some 30; key = some 31; value = some 32; top = some 90 }

pub answers-fresh : (p : ℕ) → answers.node ≡ some p → two.heap p ≡ none
answers-fresh p e = let same : 30 ≡ p = cc in subst (λ q. two.heap q ≡ none) same refl
