-- ===== src/Base/Bits.antt =====
-- `|` on disjoint bit fields is a sum.
use Prim.Native.Nat.{
  ℕ, zero, suc, ◌+◌, ◌*◌, ◌/◌, ◌%◌, ◌^◌, ◌≤◌, ◌<◌, max, bit_or, digits, bit_or-bitwise,
}
use mathlib.Core.Path.{◌≡◌, refl, ap, ◌∙◌, subst}
use mathlib.Core.Logic.{◌⊎◌, inl, inr}
use native.Mathlib.Nat.{pow-suc}
use native.Mathlib.Omega.{arith}

-- The digits of `a | b`, on fuel
abbrev joined : ℕ → ℕ → ℕ → ℕ
joined fuel = digits (λ y. y) max fuel

one_more : (fuel a b : ℕ) → a ≤ fuel → joined (suc fuel) a b ≡ joined fuel a b
one_more zero zero b h = refl
one_more (suc fuel) zero b h = refl
one_more zero (suc a) b h = absurd (omega arith)
one_more (suc fuel) (suc a) b h = omega (arith, one_more fuel (suc a / 2) (b / 2) (omega arith))

settled : (fuel a b : ℕ) → a ≤ fuel → joined fuel a b ≡ joined a a b
settled zero a b h = subst (λ n. joined zero n b ≡ joined n n b) nothing refl
  where
    nothing : 0 ≡ a
    nothing = omega arith
settled (suc fuel) a b h = elim (top a fuel h) [
  | inl e ↦ subst (λ n. joined n a b ≡ joined a a b) e refl
  | inr below ↦ one_more fuel a b below ∙ settled fuel a b below
]
  where
    top : (a fuel : ℕ) → a ≤ suc fuel → (a ≡ suc fuel) ⊎ (a ≤ fuel)
    top a fuel h = ground arith

nothing_or : (b : ℕ) → bit_or 0 b ≡ b
nothing_or b = bit_or-bitwise 0 b

-- The lowest digit apart
pub or_by_halves : (x y : ℕ) → bit_or x y ≡ max (x % 2) (y % 2) + 2 * bit_or (x / 2) (y / 2)
or_by_halves zero b = omega (arith, nothing_or (b / 2), nothing_or b)
or_by_halves (suc a) b =
    let half = suc a / 2 in
    omega (
      arith,
      settled a half (b / 2) (omega arith),
      bit_or-bitwise half (b / 2),
      bit_or-bitwise (suc a) b,
    )

or_nothing : (bound a : ℕ) → a ≤ bound → bit_or a 0 ≡ a
or_nothing zero a h = subst (λ n. bit_or n 0 ≡ n) nothing refl
  where
    nothing : 0 ≡ a
    nothing = omega arith
or_nothing (suc bound) a h = elim (small a) [
  | inl e ↦ subst (λ n. bit_or n 0 ≡ n) e refl
  | inr big ↦ omega (arith, or_nothing bound (a / 2) (omega arith), or_by_halves a 0)
]
  where
    small : (a : ℕ) → (0 ≡ a) ⊎ (1 ≤ a)
    small a = ground arith

shifted : (q k : ℕ) → q * 2 ^ suc k ≡ q * 2 ^ k + q * 2 ^ k
shifted q k = omega (arith, ap (λ (p : ℕ). q * p) (pow-suc 2 k))

-- A field above `k` low bits, on either side
pub bit_or_low : (k q r : ℕ) → r < 2 ^ k → bit_or (q * 2 ^ k) r ≡ q * 2 ^ k + r
bit_or_low zero q r h = ground (or_nothing q q, arith)
bit_or_low (suc k) q r h =
    let half : r / 2 < 2 ^ k = omega (arith, pow-suc 2 k) in
    ground (bit_or_low k q (r / 2) half, shifted q k, or_by_halves (q * 2 ^ suc k) r, arith)

pub bit_or_high : (k q r : ℕ) → r < 2 ^ k → bit_or r (q * 2 ^ k) ≡ q * 2 ^ k + r
bit_or_high zero q r h =
    subst (λ n. bit_or n (q * 1) ≡ q * 1 + n) nothing (omega (arith, nothing_or (q * 1)))
  where
    nothing : 0 ≡ r
    nothing = omega arith
bit_or_high (suc k) q r h =
    let half : r / 2 < 2 ^ k = omega (arith, pow-suc 2 k) in
    ground (bit_or_high k q (r / 2) half, shifted q k, or_by_halves r (q * 2 ^ suc k), arith)
