-- ===== src/Skip/Retrieve/Walk.antt =====
-- The linear access of skiplist/skip.c visits every entry once, in the order of the keys.
use source.Prelude.All.{All, All-right}
use mathlib.Core.Path.{subst}
use source.Prelude.{
  ℕ, zero, suc, ◌<◌, ◌≡◌, refl, sym, ap, ◌∙◌, true, false, Option, some, List, [], ◌∷◌, ◌++◌,
  length, ◌==◌, map, arith,
}
use source.Skip.Items.{
  Item, Stored, Points, deref-Stored, Linked, Linked-right, next_of-first, next-first,
}
use source.Skip.Retrieve.{entry_reply, go_to, skip_first, next_from, skip_next}
use source.Skip.Retrieve.View.{guarded-valid}
use source.Skip.State.{no_error, not_found, Node, SkipList, Heap, Reply, status}
use source.Skip.Valid.Split.{deref-top, this-IsValid, Among-append}
use mathlib.Core.List.{append_assoc}
use source.Skip.Valid.{IsValid, Stands}
use source.Table.Memory.{Run, done, fault, and_then}

abbrev pub item_reply : Item → Reply
item_reply x = record { code = no_error; key = some (x.key_addr, x.key); value = some x.value }

abbrev pub at_item : SkipList → Item → SkipList
at_item s x = record s { this_p = some x.addr }

entry_reply-Stored : {h : Heap} {x : Item} {n : Node} → Stored h x n → entry_reply n ≡ item_reply x
entry_reply-Stored p = ground (arith, p.key_addr, p.key, p.value)

-- Where the linear access goes from a node with `xs` behind it.
abbrev pub visited : SkipList → List Item → Reply × Option SkipList
visited s [] = (status not_found, some s)
visited s (x ∷ xs) = (item_reply x, some (at_item s x))

go_to-item :
    (s : SkipList) (x : Item) (xs : List Item)
    → Points s.heap x xs
    → go_to s (some x.addr) ≡ done (visited s (x ∷ xs))
unfolding go_to
go_to-item s x xs p = rw (deref-Stored s.heap x p.node p.stored, entry_reply-Stored p.stored)

-- The checks pass, and the head is read.
pub skip_first-visited :
    (s : SkipList) (t : Item) (xs : List Item)
    → IsValid s t xs
    → skip_first (some s) ≡ done (visited s xs)
unfolding skip_first
skip_first-visited s t [] valid =
    let (p, _) = valid.linked in
    let low : (length p.node.forward == 0) ≡ true =
      ground (arith, p.stored.height, valid.empty refl) in
    guarded-valid s t [] _ valid ∙ rw (deref-top s t [] valid, low)
skip_first-visited s t (x ∷ xs) valid =
    let (p, (q, _)) = valid.linked in
    let high : 0 < t.height = omega (arith, valid.tall.0, valid.low.0) in
    let not_empty : (length p.node.forward == 0) ≡ false = ground (arith, p.stored.height, high) in
    guarded-valid s t (x ∷ xs) _ valid
    ∙ rw
        (
          deref-top s t (x ∷ xs) valid,
          not_empty,
          next_of-first t (x ∷ xs) p high,
          next-first x xs valid.tall.0,
        )
        (go_to-item s x xs q)

next_from-visited :
    (s : SkipList) (x : Item) (xs : List Item)
    → Linked s.heap (x ∷ xs)
    → All Stands (x ∷ xs)
    → next_from s (some x.addr) ≡ done (visited s xs)
unfolding next_from
next_from-visited s x [] (p, l) tall =
    rw (deref-Stored s.heap x p.node p.stored, next_of-first x [] p tall.0)
next_from-visited s x (y ∷ ys) (p, l) tall =
    rw
      (
        deref-Stored s.heap x p.node p.stored,
        next_of-first x (y ∷ ys) p tall.0,
        next-first y ys tall.1.0,
      )
      (go_to-item s y ys l.0)

pub skip_next-visited :
    (s : SkipList) (t : Item) (pre : List Item) (x : Item) (post : List Item)
    → IsValid s t (pre ++ x ∷ post)
    → s.this_p ≡ some x.addr
    → skip_next (some s) ≡ done (visited s post)
unfolding skip_next
skip_next-visited s t pre x post valid here =
    guarded-valid s t (pre ++ x ∷ post) _ valid
    ∙ ap (next_from s) here
    ∙ next_from-visited s x post (Linked-right s.heap pre (x ∷ post) valid.linked.1)
        (All-right Stands pre (x ∷ post) valid.tall)

-- The loop of a program that goes through a list, with the number of calls that it may make: the
-- answers up to the first that is not `SKIP_ERROR_NONE`.
abbrev pub Session : Type 0
Session = Run (Reply × Option SkipList)

unfoldable pub walk : ℕ → Session → Run (List Reply)
walk zero r = fault
walk (suc calls) fault = fault
walk (suc calls) (done (r, sp)) =
    let rest = walk calls (skip_next sp) in
    elim r.code [ no_error ↦ and_then rest (λ rs. done (r ∷ rs)) | _ ↦ done [] ]

walk-visited :
    (calls : ℕ) (s : SkipList) (t : Item) (pre post : List Item)
    → IsValid s t (pre ++ post)
    → length post < calls
    → walk calls (done (visited s post)) ≡ done (map item_reply post)
unfolding walk
walk-visited zero s t pre post valid enough = absurd (omega arith)
walk-visited (suc calls) s t pre [] valid enough = refl
walk-visited (suc calls) s t pre (x ∷ post) valid enough =
    let valid' = this-IsValid s t (pre ++ x ∷ post) x.addr valid (Among-append pre x post) in
    let all : pre ++ x ∷ post ≡ (pre ++ x ∷ []) ++ post = sym (append_assoc pre (x ∷ []) post) in
    let later = subst (λ ys. IsValid (at_item s x) t ys) all valid' in
    let step = skip_next-visited (at_item s x) t pre x post valid' refl in
    let rest = walk-visited calls (at_item s x) t (pre ++ x ∷ []) post later (omega arith) in
    rw (step, rest)

-- On a valid list, `skip_first` and then `skip_next` until it finds no more give the key and the
-- data of every entry once, in the order of the keys; `entry_n + 1` calls are enough.
pub walk-entries :
    (calls : ℕ) (s : SkipList) (t : Item) (xs : List Item)
    → IsValid s t xs
    → s.entry_n < calls
    → walk calls (skip_first (some s)) ≡ done (map item_reply xs)
walk-entries calls s t xs valid enough =
    ap (walk calls) (skip_first-visited s t xs valid)
    ∙ walk-visited calls s t [] xs valid (omega (arith, valid.counted))
