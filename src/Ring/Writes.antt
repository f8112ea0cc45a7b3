-- ===== src/Ring/Writes.antt =====
-- Where `er__wr` puts the frames, and what it leaves.
use r_compatible_driver_v.Base.{
  ℕ, ◌+◌, ◌-◌, ◌*◌, ◌≤◌, ◌<◌, ◌≡◌, refl, ap, ◌∙◌, arith, ltb, if◌then◌else◌, Bool-cases, lt→ltb,
  inl, inr, ◌⊎◌,
}
use native.Mathlib.Decide.{dec_lt}
use r_compatible_driver_v.Ring.{Cells, ring_frames, slot, copy, first_part, er__wr}
use r_compatible_driver_v.Ring.Copies.{
  copy_inside, copy_outside, cell-lt, cell-ge, cell-sub, mul_le,
}

-- Where the two copies of `er__wr` put the frames: slot `s`, channel `c`.
module _ {A : Type 0} (buf src : Cells A) (nch idx first frames s c : ℕ) (hc : c < nch) where
  abbrev head_copy : Cells A
  head_copy = copy buf (idx * nch) src 0 (first * nch)

  abbrev written : Cells A
  written =
      if ltb first frames
      then copy head_copy 0 src (first * nch) ((frames - first) * nch)
      else head_copy

  wr_tail :
      first < frames → s < frames - first → written (s * nch + c) ≡ src ((first + s) * nch + c)
  wr_tail lt hs = rw (lt→ltb first frames lt) (
      copy_inside _ 0 src (first * nch) ((frames - first) * nch) (s * nch + c) (omega arith)
        (omega (arith, cell-lt s c (frames - first) nch hs hc))
      ∙ ap src (omega arith))

  -- Beyond the second copy the cells are those of the first.
  past_tail : frames - first ≤ s → written (s * nch + c) ≡ head_copy (s * nch + c)
  past_tail ge = elim (Bool-cases (ltb first frames)) [
    | inl e ↦
        rw e (copy_outside _ _ _ _ _ _ (inr (omega (arith, cell-ge s c (frames - first) nch ge))))
    | inr e ↦ rw e refl
  ]

  wr_head :
      frames - first ≤ s
      → idx ≤ s
      → s < idx + first
      → written (s * nch + c) ≡ src ((s - idx) * nch + c)
  wr_head ge lo hi =
      past_tail ge
      ∙ copy_inside buf (idx * nch) src 0 (first * nch) (s * nch + c) (cell-ge s c idx nch lo)
          (omega (arith, cell-lt s c (idx + first) nch hi hc))
      ∙ ap src (omega (arith, cell-sub s c idx nch lo))

  wr_none :
      frames - first ≤ s → (s < idx) ⊎ (idx + first ≤ s) → written (s * nch + c) ≡ buf (s * nch + c)
  wr_none ge (inl lt) = past_tail ge ∙ copy_outside _ _ _ _ _ _ (inl (cell-lt s c idx nch lt hc))
  wr_none ge (inr le) =
      past_tail ge
      ∙ copy_outside _ _ _ _ _ _ (inr (omega (arith, cell-ge s c (idx + first) nch le)))

-- How the slots of the frames lie about the end of the array.
module _ (counter frames : ℕ) where
  abbrev idx : ℕ
  idx = slot counter

  abbrev first : ℕ
  first = first_part idx frames

  slots_early :
      (i : ℕ)
      → frames ≤ ring_frames
      → i < first
      → (frames - first ≤ slot (counter + i))
        × (idx ≤ slot (counter + i))
        × (slot (counter + i) < idx + first)
        × (slot (counter + i) - idx ≡ i)
  slots_early i h p = ground arith

  slots_late :
      (i : ℕ)
      → frames ≤ ring_frames
      → first ≤ i
      → i < frames
      → (first < frames) × (slot (counter + i) < frames - first) × (first + slot (counter + i) ≡ i)
  slots_late i h p q = ground arith

  slots_kept :
      (t : ℕ)
      → counter + frames ≤ t + ring_frames
      → t < counter
      → (frames - first ≤ slot t) × ((slot t < idx) ⊎ (idx + first ≤ slot t))
  slots_kept t h p = ground arith

-- `er__wr` puts frame `i` of the source into the slot of frame `counter + i`.
pub er__wr_lem :
    {A : Type 0} (buf src : Cells A) (nch counter frames i c : ℕ)
    → frames ≤ ring_frames
    → i < frames
    → c < nch
    → er__wr buf nch counter src frames (slot (counter + i) * nch + c) ≡ src (i * nch + c)
unfolding er__wr
er__wr_lem buf src nch counter frames i c h hi hc = elim (dec_lt i (first counter frames)) [
  | yes p ↦
      let (ge, lo, hi', e) = slots_early counter frames i h p in
      wr_head buf src nch _ (first counter frames) frames _ c hc ge lo hi'
      ∙ ap (λ k. src (k * nch + c)) e
  | no p ↦
      let (lt, hs, e) = slots_late counter frames i h (omega arith) hi in
      wr_tail buf src nch _ (first counter frames) frames _ c hc lt hs
      ∙ ap (λ k. src (k * nch + c)) e
]

-- It leaves the frames before `counter` that the ring still has room for.
pub er__wr_kept :
    {A : Type 0} (buf src : Cells A) (nch counter frames t c : ℕ)
    → counter + frames ≤ t + ring_frames
    → t < counter
    → c < nch
    → er__wr buf nch counter src frames (slot t * nch + c) ≡ buf (slot t * nch + c)
unfolding er__wr
er__wr_kept buf src nch counter frames t c h p hc =
    let (ge, out) = slots_kept counter frames t h p in
    wr_none buf src nch _ (first counter frames) frames _ c hc ge out

parts_within :
    (counter frames : ℕ)
    → frames ≤ ring_frames
    → (slot counter + first counter frames ≤ ring_frames)
      × (frames - first counter frames ≤ ring_frames)
parts_within counter frames h = ground arith

-- It writes no cell past the end of the array.
pub er__wr_bounds :
    {A : Type 0} (buf src : Cells A) (nch counter frames j : ℕ)
    → frames ≤ ring_frames
    → ring_frames * nch ≤ j
    → er__wr buf nch counter src frames j ≡ buf j
unfolding er__wr
er__wr_bounds {A} buf src nch counter frames j h hj =
    elim (Bool-cases (ltb (first counter frames) frames)) [
      | inl e ↦ rw e (
          copy_outside _ _ _ _ _ _
            (inr (omega (arith, mul_le nch (parts_within counter frames h).1)))
          ∙ head)
      | inr e ↦ rw e head
    ]
  where
    head : copy buf (slot counter * nch) src 0 (first counter frames * nch) j ≡ buf j
    head =
        copy_outside _ _ _ _ _ _ (inr (omega (arith, mul_le nch (parts_within counter frames h).0)))
