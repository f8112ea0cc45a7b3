-- ===== src/Rig/Codes.antt =====
-- The two codes that the device has for an amplifier.
use mathlib.Core.Path.{subst}
use r_compatible_driver_v.Base.{
  ℕ, zero, suc, ◌+◌, ◌*◌, ◌^◌, ◌<◌, ◌≡◌, refl, arith, String, some, u32, ◌⊎◌, inl, inr, sym,
}
use r_compatible_driver_v.Rig.Names.{er_amp_names, named_code}

-- A predicate on every number below a bound, as a tuple.
abbrev AllBelow {ℓ} : (ℕ → Type ℓ) → ℕ → Type ℓ
AllBelow P zero = Unit
AllBelow P (suc n) = AllBelow P n × P n

AllBelow-get {ℓ} : (P : ℕ → Type ℓ) (n i : ℕ) → AllBelow P n → i < n → P i
AllBelow-get P zero i h lt = absurd (omega arith)
AllBelow-get P (suc n) i h lt = elim (last-or-below i n lt) [
  | inl e ↦ subst P (sym e) h.1
  | inr lt' ↦ AllBelow-get P n i h.0 lt'
]
  where
    last-or-below : (i n : ℕ) → i < suc n → (i ≡ n) ⊎ (i < n)
    last-or-below i n lt = ground arith

-- The list position `i` on the scale of the full signed range, as the knobs are sent.
abbrev pub on_scale : ℕ → ℕ
on_scale i = u32 (2 ^ 31 + i * 286331153)

abbrev pub OneAmp : ℕ → Type 0
OneAmp i =
    (name : String) × (named_code er_amp_names i ≡ some name)
    × (named_code er_amp_names (on_scale i) ≡ some name)

amp_table : AllBelow OneAmp 16
unfolding er_amp_names named_code
amp_table = (
  (
    (
      (
        (
          (
            (
              (
                (
                  (
                    (
                      (
                        (
                          (((tt, (_, refl, refl)), (_, refl, refl)), (_, refl, refl)),
                          (_, refl, refl),
                        ),
                        (_, refl, refl),
                      ),
                      (_, refl, refl),
                    ),
                    (_, refl, refl),
                  ),
                  (_, refl, refl),
                ),
                (_, refl, refl),
              ),
              (_, refl, refl),
            ),
            (_, refl, refl),
          ),
          (_, refl, refl),
        ),
        (_, refl, refl),
      ),
      (_, refl, refl),
    ),
    (_, refl, refl),
  ),
  (_, refl, refl),
)

-- Each of the first sixteen amplifiers has the same name under its index and under its place on the
-- signed range, which they divide evenly.
pub amp_codes_agree : (i : ℕ) → i < 16 → OneAmp i
amp_codes_agree i lt = AllBelow-get OneAmp 16 i amp_table lt
