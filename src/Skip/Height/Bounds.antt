-- ===== src/Skip/Height/Bounds.antt =====
-- The height of a new node.
use source.Prelude.{ℕ, zero, suc, ◌+◌, ◌≤◌, Bool-cases, inl, inr, arith}
use source.Skip.Height.{increase_level, level_from, random_level}

level_from_bounds :
    (random : ℕ → ℕ) (rounds level : ℕ)
    → (level ≤ level_from random rounds level) × (level_from random rounds level ≤ level + rounds)
unfolding level_from
level_from_bounds random zero level = (omega arith, omega arith)
level_from_bounds random (suc rounds) level =
    let (least, most) = level_from_bounds random rounds (level + 1) in
    elim (Bool-cases (increase_level (random level))) [
      | inl higher ↦ rw higher (omega arith, omega arith)
      | inr stop ↦ rw stop (omega arith, omega arith)
    ]

-- A new node has a pointer, and at most one more than the head, whatever `random` answers.
pub random_level_bounds :
    (random : ℕ → ℕ) (forward_n : ℕ)
    → (1 ≤ random_level random forward_n) × (random_level random forward_n ≤ forward_n + 1)
unfolding random_level
random_level_bounds random forward_n =
    let (least, most) = level_from_bounds random forward_n 1 in (least, omega arith)
