-- ===== src/Ring/Copies.antt =====
-- One `memcpy` of `er__wr` and `er__rd`, cell by cell, and the arithmetic of frames and cells.
use r_compatible_driver_v.Base.{ℕ, ◌+◌, ◌-◌, ◌*◌, ◌≤◌, ◌<◌, ◌≡◌, arith, ◌⊎◌}
use r_compatible_driver_v.Ring.{Cells, slot, copy, first_part}

module _ {A : Type 0} (dst : Cells A) (at : ℕ) (src : Cells A) (from n j : ℕ) where
  pub copy_inside : at ≤ j → j < at + n → copy dst at src from n j ≡ src (from + (j - at))
  unfolding copy
  copy_inside h k = ground arith

  pub copy_outside : ((j < at) ⊎ (at + n ≤ j)) → copy dst at src from n j ≡ dst j
  unfolding copy
  copy_outside h = ground arith

-- Cells of frames: frame `i`, channel `c` stands before the cells of frame `m` exactly if `i < m`.
pub cell-lt : (i c m nch : ℕ) → i < m → c < nch → i * nch + c < m * nch
cell-lt i c m nch h k = grind arith

pub cell-ge : (i c m nch : ℕ) → m ≤ i → m * nch ≤ i * nch + c
cell-ge i c m nch h = grind arith

pub cell-sub : (i c m nch : ℕ) → m ≤ i → i * nch + c - m * nch ≡ (i - m) * nch + c
cell-sub i c m nch h = grind arith

pub mul_le : {a b : ℕ} (n : ℕ) → a ≤ b → a * n ≤ b * n
mul_le n h = grind arith

pub mul_split : {a b : ℕ} (n : ℕ) → a ≤ b → a * n + (b - a) * n ≡ b * n
mul_split n h = grind arith

pub first_part-le : (counter frames : ℕ) → first_part (slot counter) frames ≤ frames
first_part-le counter frames = ground arith
