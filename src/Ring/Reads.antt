-- ===== src/Ring/Reads.antt =====
-- What `er__rd` delivers.
use r_compatible_driver_v.Base.{
  ℕ, ◌+◌, ◌-◌, ◌*◌, ◌≤◌, ◌<◌, ◌≡◌, ap, ◌∙◌, arith, ltb, if◌then◌else◌, Bool-cases, lt→ltb,
  le→ltb-false, inl, inr,
}
use native.Mathlib.Decide.{dec_lt}
use r_compatible_driver_v.Ring.{Cells, ring_frames, slot, copy, first_part, er__rd}
use r_compatible_driver_v.Ring.Copies.{
  copy_inside, copy_outside, cell-lt, cell-ge, cell-sub, mul_le, mul_split, first_part-le,
}

-- The slot of a frame, by the part of the copy that moves it.
abbrev part_slot : ℕ → ℕ → ℕ → ℕ
part_slot idx first i = if ltb i first then idx + i else i - first

slot-add :
    (counter frames i : ℕ)
    → frames ≤ ring_frames
    → i < frames
    → part_slot (slot counter) (first_part (slot counter) frames) i ≡ slot (counter + i)
slot-add counter frames i h k = ground arith

cell_early :
    (i c idx first nch : ℕ)
    → i < first
    → idx * nch + (i * nch + c - 0) ≡ part_slot idx first i * nch + c
cell_early i c idx first nch h = rw (lt→ltb i first h) (omega arith)

cell_late :
    (i c idx first nch : ℕ)
    → first ≤ i
    → 0 + (i * nch + c - first * nch) ≡ part_slot idx first i * nch + c
cell_late i c idx first nch h =
    rw (le→ltb-false i first h) (omega (arith, cell-sub i c first nch h))

module _ {A : Type 0} (buf dst : Cells A) (nch idx first frames i c : ℕ) where
  abbrev moved : Cells A
  moved =
      if ltb first frames
      then copy (copy dst 0 buf (idx * nch) (first * nch)) (first * nch) buf 0
          ((frames - first) * nch)
      else copy dst 0 buf (idx * nch) (first * nch)

  abbrev wanted : A
  wanted = buf (part_slot idx first i * nch + c)

  rd_early : i < first → c < nch → moved (i * nch + c) ≡ wanted
  rd_early h hc = elim (Bool-cases (ltb first frames)) [
    | inl e ↦ rw e (copy_outside _ _ _ _ _ _ (inl lt) ∙ head)
    | inr e ↦ rw e head
  ]
    where
      lt : i * nch + c < first * nch
      lt = cell-lt i c first nch h hc

      head : copy dst 0 buf (idx * nch) (first * nch) (i * nch + c) ≡ wanted
      head =
          copy_inside dst 0 buf (idx * nch) (first * nch) (i * nch + c) (omega arith)
            (omega (arith, lt))
          ∙ ap buf (cell_early i c idx first nch h)

  rd_late : first ≤ i → i < frames → c < nch → moved (i * nch + c) ≡ wanted
  rd_late h hi hc = rw (lt→ltb first frames (omega arith)) (
      copy_inside _ (first * nch) buf 0 ((frames - first) * nch) (i * nch + c) ge below
      ∙ ap buf (cell_late i c idx first nch h))
    where
      ge : first * nch ≤ i * nch + c
      ge = cell-ge i c first nch h

      below : i * nch + c < first * nch + (frames - first) * nch
      below = omega (
        arith,
        cell-sub i c first nch h,
        cell-lt (i - first) c (frames - first) nch (omega arith) hc,
      )

-- `er__rd` delivers frame `counter + i` as frame `i` of the destination.
pub er__rd_lem :
    {A : Type 0} (buf dst : Cells A) (nch counter frames i c : ℕ)
    → frames ≤ ring_frames
    → i < frames
    → c < nch
    → er__rd buf nch counter dst frames (i * nch + c) ≡ buf (slot (counter + i) * nch + c)
unfolding er__rd
er__rd_lem buf dst nch counter frames i c h hi hc =
    elim (dec_lt i (first_part (slot counter) frames)) [
      | yes p ↦
          rd_early buf dst nch (slot counter) (first_part (slot counter) frames) frames i c p hc
          ∙ ap (λ k. buf (k * nch + c)) (slot-add counter frames i h hi)
      | no p ↦
          rd_late buf dst nch (slot counter) (first_part (slot counter) frames) frames i c
            (omega arith) hi hc
          ∙ ap (λ k. buf (k * nch + c)) (slot-add counter frames i h hi)
    ]

-- `er__rd` leaves the destination past the frames that it delivers.
pub er__rd_rest :
    {A : Type 0} (buf dst : Cells A) (nch counter frames j : ℕ)
    → frames * nch ≤ j
    → er__rd buf nch counter dst frames j ≡ dst j
unfolding er__rd
er__rd_rest buf dst nch counter frames j hj =
    elim (Bool-cases (ltb (first_part (slot counter) frames) frames)) [
      | inl e ↦ rw e (
          copy_outside _ _ _ _ _ _
            (inr (omega (arith, mul_split nch (first_part-le counter frames))))
          ∙ head)
      | inr e ↦ rw e head
    ]
  where
    le : first_part (slot counter) frames * nch ≤ frames * nch
    le = mul_le nch (first_part-le counter frames)

    head : copy dst 0 buf (slot counter * nch) (first_part (slot counter) frames * nch) j ≡ dst j
    head = copy_outside _ _ _ _ _ _ (inr (omega (arith, le)))
