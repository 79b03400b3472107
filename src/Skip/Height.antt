-- ===== src/Skip/Height.antt =====
-- `random_level` and `good_height` of skiplist/skip.c. The answers of `random` are a function of the
-- number of the call.
pub mod Bounds
use source.Prelude.{ℕ, zero, suc, ◌+◌, ◌-◌, ◌%◌, ◌^◌, Bool, ltb, ◌==◌, ◌||◌, if◌then◌else◌}

-- `INCREASE_LEVEL`
unfoldable pub increase_level : ℕ → Bool
increase_level rand = ltb (rand % 10000) 5000

-- The loop, for the rounds that `CACM_HACK` leaves.
unfoldable pub level_from : (ℕ → ℕ) → ℕ → ℕ → ℕ
unfolding increase_level
level_from random zero level = level
level_from random (suc rounds) level =
    let higher = level_from random rounds (level + 1) in
    if increase_level (random level) then higher else level

unfoldable pub random_level : (ℕ → ℕ) → ℕ → ℕ
unfolding level_from
random_level random forward_n = level_from random forward_n 1

-- `power_two`: the powers of two, 2 ^ 31 - 1, and a 0 that ends the array.
abbrev pub power_two : ℕ → ℕ
power_two i = if ltb i 31 then 2 ^ i else if i == 31 then 2147483647 else 0

-- The inner loop of `good_height`, from an index on: `two_c < 32` and the two tests that end it.
unfoldable pub highest : ℕ → ℕ → ℕ → ℕ
highest zero work two_c = two_c
highest (suc rounds) work two_c =
    let rest = highest rounds work (two_c + 1) in
    if ltb work (power_two (two_c + 1)) || (power_two (two_c + 1) == 0) then two_c else rest

-- The outer loop, with fuel: each round takes the highest power of two away.
unfoldable pub take_powers : ℕ → ℕ → ℕ → ℕ
unfolding highest
take_powers zero work two_c = two_c
take_powers (suc fuel) work two_c =
    let i = highest 32 work 0 in
    let rest = take_powers fuel (work - power_two i) i in if work == 0 then two_c else rest

-- A positive `int` has at most 31 binary digits.
unfoldable pub good_height : ℕ → ℕ
unfolding take_powers
good_height number = if number % 2 == 0 then take_powers 32 number 0 + 1 else 1
