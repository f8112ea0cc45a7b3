-- ===== src/Ring/Tests.antt =====
-- Runs of the ring, and its theorems at concrete inputs.
use r_compatible_driver_v.Base.{
  ℕ, ◌+◌, ◌-◌, ◌*◌, ◌≤◌, ◌<◌, ◌≡◌, ◌≢◌, refl, arith, ltb, if◌then◌else◌, u32, true, false, some, [],
  ◌∷◌, ◌⊎◌,
}
use r_compatible_driver_v.Ring.{
  Cells, ErRing, in_ch, out_ch, slot, target_fill, ring_frames, er__space, er__avail, er__wr,
  er__rd, copy, er_in_write, er_in_read,
}
use r_compatible_driver_v.Ring.Half.{History, extend}
use r_compatible_driver_v.Ring.Fifo.{View, IsSound, er_in_write_lem, er_in_read_lem}
use r_compatible_driver_v.Ring.Peek.{
  Float, er_in_peek_levels, er_out_peek_levels, er_peek_levels, peek_levels_lem, IsPeak, IsOrdered,
  clear_peaks, peek_scan, peek_channels,
}
use r_compatible_driver_v.Ring.Shm.{
  Answers, er_ring_create, er_ring_attach, er_ring_create_lem, initial_ring, ring_magic, close,
  empty_view, size_ring, map_ring,
}
use r_compatible_driver_v.Ring.Spsc.{
  Producer, Consumer, Shared, begin_write, copy_in, publish_write, begin_read, copy_out, Reach,
  start, later, Delivered,
}
use r_compatible_driver_v.Ring.Spsc.Races.{spsc_delivers, spsc_disjoint, spsc_monotone}

-- Sample `8 * t + c` of the input, `6 * t + c` of the output, is the cell's own number.
abbrev tone : Cells ℕ
tone j = j

abbrev in_tone : History ℕ
in_tone t c = t * 8 + c

abbrev out_tone : History ℕ
out_tone t c = t * 6 + c

-- Three frames in each direction, none read.
abbrev filled : ErRing ℕ
filled = record {
  magic = ring_magic;
  version = 3;
  sample_rate = 48000;
  streaming_requested = 0;
  engine_running = 1;
  xrun_count = 0;
  in_channels = 8;
  out_channels = 6;
  in_write = 3;
  in_read = 0;
  out_write = 3;
  out_read = 0;
  in_cells = tone;
  out_cells = tone;
  in_level = tone;
  out_level = tone;
}

abbrev filled_view : View ℕ
filled_view = record {
  in_written = 3;
  in_consumed = 0;
  in_history = in_tone;
  out_written = 3;
  out_consumed = 0;
  out_history = out_tone;
}

filled-IsSound : IsSound filled filled_view
filled-IsSound = record {
  input = record {
    write_is = refl;
    read_is = refl;
    order = omega arith;
    room = omega arith;
    held = λ t c lo hi hc. omega arith;
  };
  output = record {
    write_is = refl;
    read_is = refl;
    order = omega arith;
    room = omega arith;
    held = λ t c lo hi hc. omega arith;
  };
}

er_in_write_lem_example :
    let (n, r') = er_in_write filled tone 2 in
    (n ≡ 2)
    × IsSound r'
        (record filled_view { in_written = 3 + n; in_history = extend in_ch in_tone 3 tone })
    × (r'.xrun_count ≡ (if ltb n 2 then u32 (0 + 1) else 0))
er_in_write_lem_example = er_in_write_lem filled filled_view filled-IsSound tone 2

-- More than fits: 32765 frames are taken, and the overrun is counted.
overrun : (er_in_write filled tone 40000).0 ≡ 32765
unfolding er_in_write er__space
overrun = refl

er_in_read_lem_example :
    let (n, dst', r') = er_in_read filled (λ _. 0) 2 in
    (n ≡ 2)
    × IsSound r' (record filled_view { in_consumed = 0 + n })
    × ((i c : ℕ) → i < n → c < in_ch → dst' (i * in_ch + c) ≡ in_tone (0 + i) c)
    × ((j : ℕ) → n * in_ch ≤ j → dst' j ≡ 0)
    × (3 - (0 + n) ≤ target_fill)
er_in_read_lem_example = er_in_read_lem filled filled_view filled-IsSound (λ _. 0) 2 (omega arith)

-- Frame 2, channel 5 of the input comes out of a read that wraps round the array's end.
wrapped_read : er__rd (er__wr (λ _. 0) 8 32767 tone 2) 8 32767 (λ _. 0) 2 13 ≡ 13
unfolding er__rd er__wr copy
wrapped_read = refl

numbers : Float ℕ
numbers = record { nought = 0; is_negative = λ _. false; negate = λ v. v; greater = λ a b. ltb b a }

loud : er_in_peek_levels numbers filled (λ _. 99) 5 ≡ 21
unfolding er_in_peek_levels er_peek_levels clear_peaks peek_scan peek_channels numbers
loud = refl

numbers-IsOrdered : IsOrdered numbers (λ _. true)
unfolding numbers
numbers-IsOrdered = record {
  nought_number = refl;
  irreflexive = λ a. ground arith;
  transitive = λ a b c h k. ground arith;
  number = λ a b h. refl;
  cotransitive = λ a b c n h k. ground arith;
  negative = λ v x h k. k;
  positive = λ v x h k. k;
}

peek_levels_lem_example :
    ((c : ℕ)
      → c < in_ch
      → IsPeak numbers in_tone c 3 0 (er_in_peek_levels numbers filled (λ _. 99) c))
    × ((c : ℕ)
        → c < out_ch
        → IsPeak numbers out_tone c 3 0 (er_out_peek_levels numbers filled (λ _. 99) c))
peek_levels_lem_example =
    peek_levels_lem numbers (λ _. true) numbers-IsOrdered filled filled_view (λ _. 99)
      filled-IsSound (omega arith) (omega arith)

-- The object is there, and large enough, with a stale magic.
abbrev stale : ErRing ℕ
stale = record filled { magic = 7 }

abbrev fresh : ErRing ℕ
fresh = initial_ring 0

abbrev there : Answers
there = record {
  opened = true;
  made = false;
  opened_again = false;
  sized = true;
  size = 1835128;
  grown = false;
  mapped = true;
}

er_ring_create_lem_example :
    (er_ring_attach true true fresh ≡ (some fresh, close ∷ []))
    × (((er_ring_create 0 there stale).first_time ≡ true) ⊎ (7 ≢ ring_magic)
        → (fresh ≡ fresh) × ((h k : History ℕ) → IsSound fresh (empty_view h k)))
    × ((er_ring_create 0 there stale).first_time ≡ false → 7 ≡ ring_magic → fresh ≡ stale)
unfolding er_ring_create size_ring map_ring
er_ring_create_lem_example = er_ring_create_lem 0 there stale fresh refl

-- The producer has published three frames and claimed two more; the consumer has copied two.
abbrev begun : Shared ℕ
begun = record {
  cells = λ _. 0;
  write = 0;
  read = 0;
  producer = Producer.resting;
  consumer = Consumer.resting;
  written = 0;
  consumed = 0;
  next = 0;
  history = λ _ _. 0;
}

abbrev busy : Shared ℕ
busy = record {
  cells = er__wr (λ _. 0) 8 0 tone 3;
  write = 3;
  read = 0;
  producer = Producer.loaded tone 2;
  consumer = Consumer.copied 0 2 (er__rd (er__wr (λ _. 0) 8 0 tone 3) 8 0 (λ _. 0) 2);
  written = 3;
  consumed = 0;
  next = 0;
  history = extend 8 (λ _ _. 0) 0 tone;
}

busy-Reach : Reach 8 busy
unfolding er__space er__avail
busy-Reach =
    later
      (later
        (later
          (later
            (later (later (start (λ _. 0) (λ _ _. 0)) (begin_write tone 3 refl)) (copy_in refl))
            (publish_write refl))
          (begin_read 2 (omega arith) refl))
        (copy_out (λ _. 0) refl))
      (begin_write tone 2 refl)

spsc_delivers_example :
    Delivered 8 0 2
      (er__rd (er__wr (λ _. 0) 8 0 tone 3) 8 0 (λ _. 0) 2)
      (extend 8 (λ _ _. 0) 0 tone)
    × (0 ≤ 0)
    × (0 + 2 ≤ 3)
spsc_delivers_example = spsc_delivers busy-Reach refl

spsc_disjoint_example : slot (3 + 1) ≢ slot (0 + 1)
spsc_disjoint_example = spsc_disjoint busy-Reach 1 1 (omega arith) (omega arith)

abbrev copied_busy : Shared ℕ
copied_busy = record busy {
  cells = er__wr busy.cells 8 3 tone 2;
  producer = Producer.copied 2;
  history = extend 8 busy.history 3 tone;
}

spsc_monotone_example :
    ((k c : ℕ)
      → 0 ≤ k
      → k < 3
      → c < 8
      → (busy.cells (slot k * 8 + c) ≡ busy.history k c)
        × (copied_busy.cells (slot k * 8 + c) ≡ busy.cells (slot k * 8 + c)))
    × ((k c : ℕ)
        → 0 ≤ k
        → k < 3
        → c < 8
        → copied_busy.cells (slot k * 8 + c) ≡ copied_busy.history k c)
    × ((k c : ℕ) → k < 3 → copied_busy.history k c ≡ busy.history k c)
    × (3 ≤ 3)
    × (0 ≤ 0)
    × (0 ≤ 3)
    × (3 ≤ 0 + ring_frames)
spsc_monotone_example = spsc_monotone busy-Reach {t = copied_busy} (copy_in refl)
