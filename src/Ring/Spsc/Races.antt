-- ===== src/Ring/Spsc/Races.antt =====
-- What every interleaving of the two sides guarantees.
use mathlib.Core.Path.{subst}
use r_compatible_driver_v.Base.{
  ℕ, ◌+◌, ◌≤◌, ◌<◌, ◌≡◌, ◌≢◌, refl, sym, ◌∙◌, ◌*◌, arith, u64, lt→leb-false,
}
use r_compatible_driver_v.Ring.{
  Cells, ErRing, ring_frames, in_ch, slot, er__wr, er__rd, er_in_write, er_in_read,
}
use r_compatible_driver_v.Ring.Spsc.{
  Consumer, Shared, write_count, read_start, read_count, Step, begin_write, copy_in, publish_write,
  begin_read, copy_out, publish_read, Reach, claimed, wanted, Delivered, Reading, Fits, Inv,
}
use r_compatible_driver_v.Ring.Spsc.Safety.{Reach-Inv, Step-Inv}

wanted-Fits :
    {A : Type 0} (written consumed next : ℕ) (k : Consumer A) (j : ℕ)
    → Fits written consumed next k
    → j < wanted k
    → (consumed ≤ next + j) × (next + j < written)
wanted-Fits written consumed next Consumer.resting j f p = absurd (omega arith)
wanted-Fits written consumed next (Consumer.loaded rd n) j f p = omega arith
wanted-Fits written consumed next (Consumer.copied rd n dst) j f p = omega arith

abbrev Forward : {A : Type 0} → Shared A → Shared A → Type 0
Forward s t =
    ((k c : ℕ) → k < s.written → t.history k c ≡ s.history k c)
    × (s.written ≤ t.written)
    × (s.consumed ≤ t.consumed)

Step-Forward : {A : Type 0} {nch : ℕ} {s t : Shared A} → Step nch s t → Inv nch s → Forward s t
Step-Forward (begin_write src frames e) v = (λ k c h. refl, omega arith, omega arith)
Step-Forward {s} (copy_in e) v =
    (λ k c h. rw (lt→leb-false s.written k h), omega arith, omega arith)
Step-Forward (publish_write e) v = (λ k c h. refl, omega arith, omega arith)
Step-Forward (begin_read frames small e) v = (λ k c h. refl, omega arith, omega arith)
Step-Forward (copy_out dst e) v = (λ k c h. refl, omega arith, omega arith)
Step-Forward {s} (publish_read e) v =
    let f = subst (Fits s.written s.consumed s.next) e v.fits in
    (λ k c h. refl, omega arith, omega (arith, f.0))

module _ {A : Type 0} {nch : ℕ} {s : Shared A} (r : Reach nch s) where
  -- However the two sides interleave, in steps of which one loads both counters and one copies all
  -- the frames, with reads of fewer than 2^32 - 2048 frames: what a consumer has copied when it is about to
  -- publish its read are the frames that the producer wrote under these numbers, in order, and each of
  -- them was published before and not yet consumed.
  pub spsc_delivers :
      {rd n : ℕ} {dst : Cells A}
      → s.consumer ≡ Consumer.copied rd n dst
      → Delivered nch s.next n dst s.history × (s.consumed ≤ s.next) × (s.next + n ≤ s.written)
  spsc_delivers e =
      let v = Reach-Inv r in
      let f = subst (Fits s.written s.consumed s.next) e v.fits in
      let d = subst (Reading nch s.next s.history) e v.reading in (d.1, f.0, f.1)

  -- However the two sides interleave, in steps of which one loads both counters and one copies all
  -- the frames, with reads of fewer than 2^32 - 2048 frames: no slot that the running write copies into is
  -- one that the running read copies from, from the moment each has loaded the counters.
  pub spsc_disjoint :
      (i j : ℕ)
      → i < claimed s.producer
      → j < wanted s.consumer
      → slot (s.written + i) ≢ slot (s.next + j)
  spsc_disjoint i j p q =
      let v = Reach-Inv r in
      let (lo, hi) = wanted-Fits s.written s.consumed s.next s.consumer j v.fits q in
      omega (arith, v.room)

  -- However the two sides interleave, in steps of which one loads both counters and one copies all
  -- the frames, with reads of fewer than 2^32 - 2048 frames:
  -- a step moves the counters only forward, with at most a full ring between them, and the cells of
  -- every frame that is published and not consumed after the step hold what was written under its
  -- number, before the step, if it was published then, and after it.
  pub spsc_monotone :
      {t : Shared A}
      → Step nch s t
      → ((k c : ℕ)
          → t.consumed ≤ k
          → k < s.written
          → c < nch
          → (s.cells (slot k * nch + c) ≡ s.history k c)
            × (t.cells (slot k * nch + c) ≡ s.cells (slot k * nch + c)))
        × ((k c : ℕ)
            → t.consumed ≤ k
            → k < t.written
            → c < nch
            → t.cells (slot k * nch + c) ≡ t.history k c)
        × ((k c : ℕ) → k < s.written → t.history k c ≡ s.history k c)
        × (s.written ≤ t.written)
        × (s.consumed ≤ t.consumed)
        × (t.consumed ≤ t.written)
        × (t.written ≤ t.consumed + ring_frames)
  spsc_monotone st =
      let v = Reach-Inv r in
      let f = Step-Forward st v in
      let w = Step-Inv st v in
      (
        λ k c lo hi hc.
            let before = v.held k c (omega (arith, f.2)) (omega arith) hc in
            (before, w.held k c lo (omega (arith, f.1)) hc ∙ f.0 k c hi ∙ sym before),
        λ k c lo hi hc. w.held k c lo (omega arith) hc,
        f.0,
        f.1,
        f.2,
        w.order,
        omega (arith, w.room),
      )

-- The three steps of a side, with nothing between them, are the whole call.
pub er_in_write_steps :
    {A : Type 0} (r : ErRing A) (src : Cells A) (frames : ℕ)
    → let (n, r') = er_in_write r src frames in
      (n ≡ write_count r.in_write r.in_read frames)
      × (r'.in_cells ≡ er__wr r.in_cells in_ch r.in_write src n)
      × (r'.in_write ≡ u64 (r.in_write + n))
unfolding er_in_write
er_in_write_steps r src frames = (refl, refl, refl)

pub er_in_read_steps :
    {A : Type 0} (r : ErRing A) (dst : Cells A) (frames : ℕ)
    → let (n, dst', r') = er_in_read r dst frames in
      let rd = read_start r.in_write r.in_read frames in
      (n ≡ read_count r.in_write r.in_read frames)
      × (dst' ≡ er__rd r.in_cells in_ch rd dst n)
      × (r'.in_read ≡ u64 (rd + n))
unfolding er_in_read
er_in_read_steps r dst frames = (refl, refl, refl)
