-- ===== src/Ring/Fifo.antt =====
-- The four operations of the ring as a FIFO of frames in each direction that may skip a stale
-- backlog: what they return, deliver, keep and lose.
use r_compatible_driver_v.Base.{
  ℕ, ◌+◌, ◌-◌, ◌*◌, ◌^◌, ◌≤◌, ◌<◌, ◌≡◌, ap, ◌∙◌, arith, ltb, if◌then◌else◌, min, u32, u64,
}
use r_compatible_driver_v.Ring.{
  Cells, ErRing, ring_frames, in_ch, out_ch, target_fill, surplus, er__rd, er_in_write, er_in_read,
  er_out_write, er_out_read, er__avail,
}
use r_compatible_driver_v.Ring.Half.{
  History, Holds, extend, er__space_lem, er__avail_lem, write_held, read_held, delivers,
}
use r_compatible_driver_v.Ring.Reads.{er__rd_rest}

-- The unbounded frame numbers and the histories that a ring stands for.
pub record View (A : Type 0) : Type 0 where
  pub in_written : ℕ
  pub in_consumed : ℕ
  pub in_history : History A
  pub out_written : ℕ
  pub out_consumed : ℕ
  pub out_history : History A

pub record IsSound {A : Type 0} (r : ErRing A) (v : View A) : Type 0 where
  pub input : Holds in_ch r.in_cells r.in_write r.in_read v.in_written v.in_consumed v.in_history
  pub output :
      Holds out_ch r.out_cells r.out_write r.out_read v.out_written v.out_consumed v.out_history

-- The first frame that a read of `frames` keeps.
abbrev pub next_frame : ℕ → ℕ → ℕ → ℕ
next_frame written consumed frames = written - min (written - consumed) (frames + target_fill)

pub surplus_lem :
    (avail frames : ℕ)
    → frames + target_fill < 2 ^ 32
    → surplus avail frames ≡ avail - (frames + target_fill)
surplus_lem avail frames h = ground arith

-- What a read computes from its counters, for either direction.
module _ {A : Type 0} {nch : ℕ} {cells : Cells A} {w rd written consumed : ℕ} {h : History A}
    (v : Holds nch cells w rd written consumed h) (frames : ℕ)
    (small : frames + target_fill < 2 ^ 32) where
  abbrev next : ℕ
  next = next_frame written consumed frames

  abbrev drop : ℕ
  drop = surplus (er__avail w rd) frames

  abbrev left : ℕ
  left = er__avail w rd - drop

  abbrev count : ℕ
  count = if ltb left frames then left else frames

  drop_lem : drop ≡ written - consumed - (frames + target_fill)
  drop_lem =
      surplus_lem (er__avail w rd) frames small
      ∙ ap (λ a. a - (frames + target_fill)) (er__avail_lem v)

  start_lem : u64 (rd + drop) ≡ u64 next
  start_lem = omega (arith, drop_lem, v.read_is, v.order)

  next_bounds : (consumed ≤ next) × (next ≤ written)
  next_bounds = omega (arith, v.order)

  count_lem : count ≡ min frames (written - next)
  count_lem = ground (arith, er__avail_lem v, drop_lem, v.order)

  count_fits : next + count ≤ written
  count_fits = omega (arith, count_lem, next_bounds.1)

  backlog : written - (next + count) ≤ target_fill
  backlog = omega (arith, count_lem, v.order)

  advanced : Holds nch cells w (u64 (u64 (rd + drop) + count)) written (next + count) h
  advanced = rw start_lem (read_held v next count next_bounds.0 count_fits)

  delivered :
      (dst : Cells A) (i c : ℕ)
      → i < count
      → c < nch
      → er__rd cells nch (u64 (rd + drop)) dst count (i * nch + c) ≡ h (next + i) c
  delivered dst i c p hc =
      rw start_lem (delivers v dst next count next_bounds.0 count_fits i c p hc)

module _ {A : Type 0} (r : ErRing A) (v : View A) (sound : IsSound r v) where
  -- `er_in_write` writes as many frames as there is room for, behind all earlier ones, and counts
  -- an overrun exactly if some did not fit; the other direction is untouched.
  pub er_in_write_lem :
      (src : Cells A) (frames : ℕ)
      → let (n, r') = er_in_write r src frames in
        (n ≡ min frames (ring_frames - (v.in_written - v.in_consumed)))
        × IsSound r' (record v {
          in_written = v.in_written + n;
          in_history = extend in_ch v.in_history v.in_written src;
        })
        × (r'.xrun_count ≡ (if ltb n frames then u32 (r.xrun_count + 1) else r.xrun_count))
  unfolding er_in_write
  er_in_write_lem src frames = (
    count,
    record { input = write_held sound.input src n (omega (arith, count)); output = sound.output },
    ground arith,
  )
    where
      n : ℕ
      n = (er_in_write r src frames).0

      count : n ≡ min frames (ring_frames - (v.in_written - v.in_consumed))
      count = rw (er__space_lem sound.input) (ground arith)

  -- On a sound ring, a playback write takes as many frames as there is room for, appends them to the
  -- history, keeps the ring sound in both directions, and counts an overrun exactly if some did not fit.
  pub er_out_write_lem :
      (src : Cells A) (frames : ℕ)
      → let (n, r') = er_out_write r src frames in
        (n ≡ min frames (ring_frames - (v.out_written - v.out_consumed)))
        × IsSound r' (record v {
          out_written = v.out_written + n;
          out_history = extend out_ch v.out_history v.out_written src;
        })
        × (r'.xrun_count ≡ (if ltb n frames then u32 (r.xrun_count + 1) else r.xrun_count))
  unfolding er_out_write
  er_out_write_lem src frames = (
    count,
    record { input = sound.input; output = write_held sound.output src n (omega (arith, count)) },
    ground arith,
  )
    where
      n : ℕ
      n = (er_out_write r src frames).0

      count : n ≡ min frames (ring_frames - (v.out_written - v.out_consumed))
      count = rw (er__space_lem sound.output) (ground arith)

  -- `er_in_read` skips what exceeds the request and the target fill, delivers the oldest frames that
  -- are left in order, leaves the rest of the destination and a backlog of at most the target fill.
  pub er_in_read_lem :
      (dst : Cells A) (frames : ℕ)
      → frames + target_fill < 2 ^ 32
      → let (n, dst', r') = er_in_read r dst frames in
        let next = next_frame v.in_written v.in_consumed frames in
        (n ≡ min frames (v.in_written - next))
        × IsSound r' (record v { in_consumed = next + n })
        × ((i c : ℕ) → i < n → c < in_ch → dst' (i * in_ch + c) ≡ v.in_history (next + i) c)
        × ((j : ℕ) → n * in_ch ≤ j → dst' j ≡ dst j)
        × (v.in_written - (next + n) ≤ target_fill)
  unfolding er_in_read
  er_in_read_lem dst frames small = (
    count_lem sound.input frames small,
    record { input = advanced sound.input frames small; output = sound.output },
    λ i c p hc. delivered sound.input frames small dst i c p hc,
    λ j h. er__rd_rest _ _ _ _ _ j h,
    backlog sound.input frames small,
  )

  -- On a sound ring, a read of less than 2^32 - 2048 playback frames skips what exceeds the request plus
  -- the target fill, delivers the next frames of the history in order, leaves the rest of the
  -- destination, keeps the ring sound and leaves a backlog of at most 2048 frames.
  pub er_out_read_lem :
      (dst : Cells A) (frames : ℕ)
      → frames + target_fill < 2 ^ 32
      → let (n, dst', r') = er_out_read r dst frames in
        let next = next_frame v.out_written v.out_consumed frames in
        (n ≡ min frames (v.out_written - next))
        × IsSound r' (record v { out_consumed = next + n })
        × ((i c : ℕ) → i < n → c < out_ch → dst' (i * out_ch + c) ≡ v.out_history (next + i) c)
        × ((j : ℕ) → n * out_ch ≤ j → dst' j ≡ dst j)
        × (v.out_written - (next + n) ≤ target_fill)
  unfolding er_out_read
  er_out_read_lem dst frames small = (
    count_lem sound.output frames small,
    record { input = sound.input; output = advanced sound.output frames small },
    λ i c p hc. delivered sound.output frames small dst i c p hc,
    λ j h. er__rd_rest _ _ _ _ _ j h,
    backlog sound.output frames small,
  )
