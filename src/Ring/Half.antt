-- ===== src/Ring/Half.antt =====
-- One direction of the ring against the history of all frames ever written: which frames the array
-- holds between the two counters, and what one call of `er__wr` or `er__rd` does to that.
use native.Mathlib.Decide.{dec_lt}
use r_compatible_driver_v.Base.{
  ℕ, ◌+◌, ◌-◌, ◌*◌, ◌≤◌, ◌<◌, ◌≡◌, ap, ◌∙◌, arith, leb, le→leb, lt→leb-false, if◌then◌else◌, u64,
}
use r_compatible_driver_v.Ring.{Cells, ring_frames, slot, er__space, er__avail, er__wr, er__rd}
use r_compatible_driver_v.Ring.Reads.{er__rd_lem}
use r_compatible_driver_v.Ring.Writes.{er__wr_lem, er__wr_kept}

-- Frame `t`, channel `c` of all that the producer ever wrote.
abbrev pub History : Type 0 → Type 0
History A = ℕ → ℕ → A

-- `er__space` and `er__avail` through the wrap of the counters at 2 ^ 64 and of the result at 2 ^ 32.
module _ (w rd written consumed : ℕ) (wi : w ≡ u64 written) (ri : rd ≡ u64 consumed)
    (order : consumed ≤ written) (room : written ≤ consumed + ring_frames) where
  pub er__space_counters : er__space w rd ≡ ring_frames - (written - consumed)
  unfolding er__space
  er__space_counters = omega arith

  pub er__avail_counters : er__avail w rd ≡ written - consumed
  unfolding er__avail
  er__avail_counters = omega arith

-- The counters are `written` and `consumed` modulo 2 ^ 64, and the array holds the last
-- `ring_frames` frames, those between the counters among them.
pub record Holds {A : Type 0} (nch : ℕ) (cells : Cells A) (w rd written consumed : ℕ)
    (h : History A) : Type 0 where
  pub write_is : w ≡ u64 written
  pub read_is : rd ≡ u64 consumed
  pub order : consumed ≤ written
  pub room : written ≤ consumed + ring_frames
  pub held :
      (t c : ℕ)
      → written ≤ t + ring_frames
      → t < written
      → c < nch
      → cells (slot t * nch + c) ≡ h t c

-- The history with the frames of `src` from number `written` on.
abbrev pub extend : {A : Type 0} → ℕ → History A → ℕ → Cells A → History A
extend nch h written src t c = if leb written t then src ((t - written) * nch + c) else h t c

-- A counter matters only by its slot, so its wrap at 2 ^ 64 changes nothing.
pub er__wr-slot :
    {A : Type 0} (buf src : Cells A) (nch a b n : ℕ)
    → slot a ≡ slot b
    → er__wr buf nch a src n ≡ er__wr buf nch b src n
unfolding er__wr
er__wr-slot buf src nch a b n e = rw e

pub er__rd-slot :
    {A : Type 0} (buf dst : Cells A) (nch a b n : ℕ)
    → slot a ≡ slot b
    → er__rd buf nch a dst n ≡ er__rd buf nch b dst n
unfolding er__rd
er__rd-slot buf dst nch a b n e = rw e

module _ {A : Type 0} {nch : ℕ} {cells : Cells A} {w rd written consumed : ℕ} {h : History A}
    (v : Holds nch cells w rd written consumed h) where
  pub er__space_lem : er__space w rd ≡ ring_frames - (written - consumed)
  er__space_lem = er__space_counters w rd written consumed v.write_is v.read_is v.order v.room

  pub er__avail_lem : er__avail w rd ≡ written - consumed
  er__avail_lem = er__avail_counters w rd written consumed v.write_is v.read_is v.order v.room

  -- Frames that fit go behind the history.
  pub write_held :
      (src : Cells A) (n : ℕ)
      → n ≤ ring_frames - (written - consumed)
      → Holds nch
          (er__wr cells nch w src n)
          (u64 (w + n))
          rd
          (written + n)
          consumed
          (extend nch h written src)
  write_held src n fits = record {
    write_is = omega (arith, v.write_is);
    read_is = v.read_is;
    order = omega (arith, v.order);
    room = omega (arith, v.room, v.order);
    held = λ t c lo hi hc. elim (dec_lt t written) [
      | yes old ↦
          rw (er__wr-slot cells src nch w written n same, lt→leb-false written t old)
            (er__wr_kept cells src nch written n t c lo old hc ∙ v.held t c (omega arith) old hc)
      | no new ↦
          rw (er__wr-slot cells src nch w written n same, le→leb written t (omega arith))
            (ap (λ k. er__wr cells nch written src n (slot k * nch + c)) (omega arith)
              ∙ er__wr_lem cells src nch written n (t - written) c (omega arith) (omega arith) hc)
    ];
  }
    where
      same : slot w ≡ slot written
      same = omega (arith, v.write_is)

  -- Frames before `next` are given up.
  pub read_held :
      (next n : ℕ)
      → consumed ≤ next
      → next + n ≤ written
      → Holds nch cells w (u64 (u64 next + n)) written (next + n) h
  read_held next n lo hi = record {
    write_is = v.write_is;
    read_is = omega arith;
    order = hi;
    room = omega (arith, v.room);
    held = λ t c p q hc. v.held t c (omega arith) q hc;
  }

  -- The frames delivered are those of the history from number `next` on.
  pub delivers :
      (dst : Cells A) (next n : ℕ)
      → consumed ≤ next
      → next + n ≤ written
      → (i c : ℕ) → i < n
      → c < nch
      → er__rd cells nch (u64 next) dst n (i * nch + c) ≡ h (next + i) c
  delivers dst next n lo hi i c p hc =
      rw (er__rd-slot cells dst nch (u64 next) next n (omega arith)) (
        er__rd_lem cells dst nch next n i c (omega (arith, v.room)) p hc
        ∙ v.held (next + i) c (omega (arith, v.room)) (omega arith) hc)
