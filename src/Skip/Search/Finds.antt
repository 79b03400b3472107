-- ===== src/Skip/Search/Finds.antt =====
-- The loop of `find_node` finds the entry of a key and notes the last node before it on each level.
use mathlib.Core.List.{append_assoc}
use mathlib.Core.Path.{subst}
use source.Prelude.All.{All, All-left, All-right}
use source.Prelude.{
  ℕ, zero, suc, ◌+◌, ◌≤◌, ◌<◌, ◌≡◌, ◌≢◌, refl, sym, ◌∙◌, ap, inl, inr, Bool, true, false, Option,
  none, some, List, ◌∷◌, ◌++◌, length, length-append, Bool-cases, Option-cases, ◌==◌, arith,
}
use source.Skip.Items.{
  Item, IsStored, Linked, Linked-IsStored, IsLow, above-low, above-tall, pred_of-low, Cut, low,
  tall, cut, Linked-right,
}
use source.Skip.Search.{turn_of, turn, track, find_loop}
use source.Skip.State.{Heap, Compare}
use source.Table.Memory.{done}
use source.Skip.Search.Turns.{
  IsLess, NotBefore, found_on, preds, preds-tall, verdict, turn-compared, turn-rest, found_on-fresh,
  found_on-down, found_on-up, preds-untracked,
}

module _ (h : Heap) (cmp : Compare) (k : List ℕ) where
  -- What the loop ends with, from a node that has only smaller entries up to `rest`.
  module _ (rest : List Item) (behind : NotBefore cmp k rest) where
    abbrev Finds : Bool → ℕ → ℕ → Item → List Item → Option ℕ → List ℕ → Type 0
    Finds tracked fuel levels a mid found update =
        find_loop h cmp k tracked fuel levels a.addr found update
        ≡ done (found_on cmp k 0 rest, preds tracked levels a mid update)

    module _ (fuel level : ℕ) (a : Item) (mid : List Item) (update : List ℕ)
        (l : Linked h (a ∷ (mid ++ rest))) (top : suc level ≤ a.height) where
      Finds-right :
          (tracked : Bool) (pre : List Item) (x : Item) (post : List Item)
          → mid ≡ pre ++ x ∷ post
          → All (IsLow level) pre
          → level < x.height
          → x.height ≤ suc level
          → IsLess cmp k x
          → Finds tracked fuel (suc level) x post (found_on cmp k (suc level) rest) update
          → Finds tracked (suc fuel) (suc level) a mid (found_on cmp k (suc level) rest) update
      unfolding find_loop
      Finds-right tracked pre x post e low_pre tall_x short less rec =
          let all = Linked-IsStored h (mid ++ rest) l.1 in
          let on_mid = subst (λ ms. All (IsStored h) ms) e (All-left (IsStored h) mid rest all) in
          let on_rest = All-right (IsStored h) mid rest all in
          let stored = (All-right (IsStored h) pre (x ∷ post) on_mid).0 in
          let first = above-tall level mid rest pre x post e low_pre tall_x in
          let fresh = found_on-fresh h cmp k x (suc level) rest stored less on_rest in
          let go =
            turn-compared h cmp k a x level (found_on cmp k (suc level) rest) (mid ++ rest) l.0
              first top fresh stored.0 stored.1 (omega arith)
            ∙ ap (λ o. done (turn_of x.addr o)) less in
          let noted = preds-tall tracked (suc level) a pre x post update tall_x in
          let noted_mid =
            ap (λ (ms : List Item). preds tracked (suc level) a ms update) e ∙ noted in
          rw (go, noted_mid) rec

      module _ (low_mid : All (IsLow level) mid) where
        turned :
            turn h cmp k a.addr level (found_on cmp k (suc level) rest)
            ≡ done (verdict (found_on cmp k level rest))
        turned =
            turn-rest h cmp k a level (mid ++ rest) rest l.0 (above-low level mid rest low_mid)
              (All-right (IsStored h) mid rest (Linked-IsStored h (mid ++ rest) l.1)) behind top

        Finds-down :
            (tracked : Bool)
            → found_on cmp k level rest ≡ none
            → Finds tracked fuel level a mid
                (found_on cmp k level rest)
                (track tracked a.addr update)
            → Finds tracked (suc fuel) (suc level) a mid (found_on cmp k (suc level) rest) update
        unfolding find_loop
        Finds-down tracked missing rec =
            let same : found_on cmp k (suc level) rest ≡ found_on cmp k level rest =
              found_on-up h cmp k level rest missing ∙ sym missing in
            rw (turned, pred_of-low level a mid low_mid, missing, same) rec

        Finds-hit :
            (tracked : Bool) (p : ℕ)
            → found_on cmp k level rest ≡ some p
            → (level ≢ 0
                → Finds true fuel level a mid (found_on cmp k level rest) (a.addr ∷ update))
            → Finds tracked (suc fuel) (suc level) a mid (found_on cmp k (suc level) rest) update
        unfolding find_loop
        Finds-hit false p found rec = rw (
          turned,
          found,
          found_on-down h cmp k level rest found,
          preds-untracked h cmp k level a mid update,
        )
        Finds-hit true p found rec = elim (Bool-cases (level == 0)) [
          | inl bottom ↦
              let none_left : level ≡ 0 = ground arith in
              rw (
                turned,
                pred_of-low level a mid low_mid,
                found,
                bottom,
                found_on-down h cmp k level rest found,
                none_left,
              )
          | inr more ↦
              rw (turned, pred_of-low level a mid low_mid, found, more, ← found)
                (rec (ground arith))
        ]

    abbrev Ends : ℕ → Type 0
    Ends fuel =
        (tracked : Bool) (levels : ℕ) (a : Item) (mid : List Item) (update : List ℕ)
        → Linked h (a ∷ (mid ++ rest))
        → levels ≤ a.height
        → All (IsLess cmp k) mid
        → All (IsLow levels) mid
        → levels + length mid < fuel
        → (levels ≡ 0 → found_on cmp k 0 rest ≡ none)
        → Finds tracked fuel levels a mid (found_on cmp k levels rest) update

    find_round :
        (fuel : ℕ) (tracked : Bool) (level : ℕ) (a : Item) (mid : List Item) (update : List ℕ)
        → Ends fuel
        → Linked h (a ∷ (mid ++ rest))
        → suc level ≤ a.height
        → All (IsLess cmp k) mid
        → All (IsLow (suc level)) mid
        → suc level + length mid < suc fuel
        → Cut level mid
        → Finds tracked (suc fuel) (suc level) a mid (found_on cmp k (suc level) rest) update
    find_round fuel tracked level a mid update ends l top less small enough
          (tall pre x post e low_pre tall_x) =
        let less' = subst (λ ms. All (IsLess cmp k) ms) e less in
        let small' = subst (λ ms. All (IsLow (suc level)) ms) e small in
        let less_x = All-right (IsLess cmp k) pre (x ∷ post) less' in
        let small_x = All-right (IsLow (suc level)) pre (x ∷ post) small' in
        let linked =
          Linked-right h pre (x ∷ (post ++ rest))
            (rw append_assoc at (subst (λ ms. Linked h (ms ++ rest)) e l.1)) in
        let shorter : suc (length post) ≤ length mid =
          omega (arith, ap (λ (ms : List Item). length ms) e, length-append pre (x ∷ post)) in
        Finds-right fuel level a mid update l top tracked pre x post e low_pre tall_x small_x.0
          less_x.0
          (ends tracked (suc level) x post update linked tall_x less_x.1 small_x.1 (omega arith)
            (λ z. absurd (omega arith)))
    find_round fuel tracked level a mid update ends l top less small enough (low low_mid) =
        elim (Option-cases (found_on cmp k level rest)) [
          | inl missing ↦ Finds-down fuel level a mid update l top low_mid tracked missing (
              ends tracked level a mid _ l (omega arith) less low_mid (omega arith)
                (λ z. rw z at missing))
          | inr (p, found) ↦
              Finds-hit fuel level a mid update l top low_mid tracked p found (λ nonzero.
                ends true level a mid _ l (omega arith) less low_mid (omega arith)
                  (λ z. absurd (nonzero z)))
        ]

    pub find_loop-Finds : (fuel : ℕ) → Ends fuel
    unfolding find_loop
    find_loop-Finds zero tracked levels a mid update l top less small enough ends =
        absurd (omega arith)
    find_loop-Finds (suc fuel) tracked zero a mid update l top less small enough ends =
        rw (ends refl)
    find_loop-Finds (suc fuel) tracked (suc level) a mid update l top less small enough ends =
        find_round fuel tracked level a mid update (find_loop-Finds fuel) l top less small enough
          (cut level mid)
