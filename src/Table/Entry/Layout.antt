-- ===== src/Table/Entry/Layout.antt =====
-- How an entry is laid out: `entry_size` and `entry_data_buf` agree, and the data are aligned.
use native.Mathlib.Nat.{pow-suc}
use source.Prelude.Words.{u32, and_mask}
use Prim.Native.Nat.{bit_and}
use source.Prelude.{
  Bool-cases, inl, inr, true, leb, ℕ, zero, suc, false, ◌+◌, ◌-◌, ◌%◌, ◌^◌, ◌<◌, ◌≤◌, ◌≡◌, length,
  arith, ltb, ◌==◌, if◌then◌else◌, refl,
}
use source.Table.Entry.{entry_size, data_buf, data_offset, in_block}
use source.Table.State.{Entry, Table, shell_size}

-- The parts of `entry_size` and `data_buf`: `p + q` bytes, `left` of them past a multiple of the
-- alignment.
module _ (addr p q d left : ℕ) where
  Parts : ℕ → Type 0
  Parts a =
      (addr + p + q + (if ltb 0 left then a - left else 0) + d
        ≡ addr + u32 ((if ltb 0 left then u32 (p + q + (a - left)) else p + q) + d))
      × ((addr + p + q + (if ltb 0 left then a - left else 0) - addr) % a ≡ 0)
      × (addr + p + q ≤ addr + p + q + (if ltb 0 left then a - left else 0))

  parts : (k : ℕ) → k < 6 → left ≡ (p + q) % 2 ^ suc k → p + q + 64 + d < 2 ^ 32 → Parts (2 ^ suc k)
  unfolding Parts
  parts zero h e small = ground arith
  parts (suc zero) h e small = ground arith
  parts (suc (suc zero)) h e small = ground arith
  parts (suc (suc (suc zero))) h e small = ground arith
  parts (suc (suc (suc (suc zero)))) h e small = ground arith
  parts (suc (suc (suc (suc (suc zero))))) h e small = ground arith
  parts (suc (suc (suc (suc (suc (suc k)))))) h e small = absurd (omega arith)

positive : (k : ℕ) → (2 ^ suc k == 0) ≡ false
positive zero = refl
positive (suc k) = ground (arith, pow-suc 2 (suc k), positive k)

-- The data of an entry end where its block ends, and start at a multiple of the alignment from the
-- start of the block. The alignment is a power of two from 2 to 64, and the sum of the parts is
-- within 32 bits.
pub data_buf-entry_size :
    (t : Table) (e : Entry) (k : ℕ)
    → k < 6
    → t.data_align ≡ 2 ^ suc k
    → shell_size + length e.key + 64 + length e.bytes < 2 ^ 32
    → (data_buf t e + length e.bytes ≡ e.addr + entry_size t (length e.key) (length e.bytes))
      × ((data_buf t e - e.addr) % t.data_align ≡ 0)
      × (e.addr + shell_size + length e.key ≤ data_buf t e)
unfolding data_buf entry_size Parts
data_buf-entry_size t e k h align small =
    let whole : u32 (shell_size + length e.key) ≡ shell_size + length e.key = omega arith in
    rw (align, whole, positive k)
      (parts e.addr shell_size (length e.key) (length e.bytes) _ k h (and_mask k h _) small)

-- The sums of `entry_size` and `data_offset`, for a key that ends at `s`.
padded_fits :
    (s a d left : ℕ)
    → s + a + d < 2 ^ 32
    → leb
        (s + (if ltb 0 left then a - left else 0) + d)
        (u32 ((if ltb 0 left then u32 (s + (a - left)) else s) + d))
      ≡ true
padded_fits s a d left small = elim (Bool-cases (ltb 0 left)) [
  | inl some_left ↦
      let inner : u32 (s + (a - left)) ≡ s + (a - left) = omega arith in
      let outer : u32 (s + (a - left) + d) ≡ s + (a - left) + d = omega arith in
      rw (some_left, inner, outer) (ground arith)
  | inr none_left ↦
      let outer : u32 (s + d) ≡ s + d = omega arith in rw (none_left, outer) (ground arith)
]

-- An entry fits in a block of the size that is asked for it, if no sum is past 32 bits.
pub entry_size-in_block :
    (t : Table) (key_size data_size : ℕ)
    → shell_size + t.data_align + key_size + data_size < 2 ^ 32
    → in_block t key_size data_size (entry_size t key_size data_size) ≡ true
unfolding in_block data_offset entry_size
entry_size-in_block t key_size data_size small =
    let whole : u32 (shell_size + key_size) ≡ shell_size + key_size = omega arith in
    elim (Bool-cases (t.data_align == 0)) [
      | inl plain ↦
          let outer : u32 (shell_size + key_size + data_size) ≡ shell_size + key_size + data_size =
            omega arith in
          rw (plain, whole, outer) (ground arith)
      | inr aligned ↦
          rw (aligned, whole)
            (padded_fits (shell_size + key_size) t.data_align data_size
              (bit_and (shell_size + key_size) (t.data_align - 1)) (omega arith))
    ]
