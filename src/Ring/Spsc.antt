-- ===== src/Ring/Spsc.antt =====
-- One direction of the ring under an interleaved producer and consumer: `er_in_write` and
-- `er_in_read` of Tools/ERAudioRing.h (and their twins) cut at their accesses to shared memory. Each
-- call loads both counters, copies, and stores its own counter; the other side may take any steps
-- between these.
pub mod Safety
pub mod Races
use r_compatible_driver_v.Base.{ℕ, ◌+◌, ◌-◌, ◌*◌, ◌^◌, ◌≤◌, ◌<◌, ◌≡◌, ltb, if◌then◌else◌, u64}
use r_compatible_driver_v.Ring.{
  Cells, ring_frames, target_fill, slot, surplus, er__space, er__avail, er__wr, er__rd,
}
use r_compatible_driver_v.Ring.Half.{History, extend}

-- Where a producer stands in its call: nowhere, with the frames that it will copy, or with the
-- frames copied and not yet published.
pub data Producer (A : Type 0) : Type 0 where
  resting : Producer A
  loaded : (src : Cells A) (n : ℕ) → Producer A
  copied : (n : ℕ) → Producer A

-- The consumer: nowhere, with the first frame and the number that it will copy, or with these
-- copied into `dst`.
pub data Consumer (A : Type 0) : Type 0 where
  resting : Consumer A
  loaded : (rd n : ℕ) → Consumer A
  copied : (rd n : ℕ) (dst : Cells A) → Consumer A

pub record Shared (A : Type 0) : Type 0 where
  pub cells : Cells A
  pub write : ℕ
  pub read : ℕ
  pub producer : Producer A
  pub consumer : Consumer A
  -- Auxiliary: the counters without their wrap, the frame at which the running read starts, and all
  -- frames written.
  pub written : ℕ
  pub consumed : ℕ
  pub next : ℕ
  pub history : History A

-- How many frames a write of `frames` moves.
abbrev pub write_count : ℕ → ℕ → ℕ → ℕ
write_count w rd frames = let space = er__space w rd in if ltb space frames then space else frames

-- Where a read of `frames` starts, and how many it moves.
abbrev pub read_start : ℕ → ℕ → ℕ → ℕ
read_start w rd frames = u64 (rd + surplus (er__avail w rd) frames)

abbrev pub read_count : ℕ → ℕ → ℕ → ℕ
read_count w rd frames =
    let left = er__avail w rd - surplus (er__avail w rd) frames in
    if ltb left frames then left else frames

module _ {A : Type 0} (nch : ℕ) where
  pub data Step : Shared A → Shared A → Type 0 where
    begin_write :
        {s : Shared A} (src : Cells A) (frames : ℕ)
        → s.producer ≡ Producer.resting
        → Step s (record s { producer = Producer.loaded src (write_count s.write s.read frames) })
    copy_in :
        {s : Shared A} {src : Cells A} {n : ℕ}
        → s.producer ≡ Producer.loaded src n
        → Step s (record s {
          cells = er__wr s.cells nch s.write src n;
          producer = Producer.copied n;
          history = extend nch s.history s.written src;
        })
    publish_write :
        {s : Shared A} {n : ℕ}
        → s.producer ≡ Producer.copied n
        → Step s (record s {
          write = u64 (s.write + n);
          producer = Producer.resting;
          written = s.written + n;
        })
    begin_read :
        {s : Shared A} (frames : ℕ)
        → frames + target_fill < 2 ^ 32
        → s.consumer ≡ Consumer.resting
        → Step s (record s {
          consumer =
              Consumer.loaded (read_start s.write s.read frames) (read_count s.write s.read frames);
          next = s.consumed + surplus (er__avail s.write s.read) frames;
        })
    copy_out :
        {s : Shared A} {rd n : ℕ} (dst : Cells A)
        → s.consumer ≡ Consumer.loaded rd n
        → Step s (record s { consumer = Consumer.copied rd n (er__rd s.cells nch rd dst n) })
    publish_read :
        {s : Shared A} {rd n : ℕ} {dst : Cells A}
        → s.consumer ≡ Consumer.copied rd n dst
        → Step s
            (record s { read = u64 (rd + n); consumer = Consumer.resting; consumed = s.next + n })

  pub data Reach : Shared A → Type 0 where
    start :
        (cells : Cells A) (history : History A)
        → Reach (record {
          cells = cells;
          write = 0;
          read = 0;
          producer = Producer.resting;
          consumer = Consumer.resting;
          written = 0;
          consumed = 0;
          next = 0;
          history = history;
        })
    later : {s t : Shared A} → Reach s → Step s t → Reach t

-- Frames that the running write has decided on, and those of them already copied.
abbrev pub claimed : {A : Type 0} → Producer A → ℕ
claimed Producer.resting = 0
claimed (Producer.loaded _ n) = n
claimed (Producer.copied n) = n

abbrev pub pending : {A : Type 0} → Producer A → ℕ
pending Producer.resting = 0
pending (Producer.loaded _ _) = 0
pending (Producer.copied n) = n

-- The frames that the running read has decided on.
abbrev pub wanted : {A : Type 0} → Consumer A → ℕ
wanted Consumer.resting = 0
wanted (Consumer.loaded _ n) = n
wanted (Consumer.copied _ n _) = n

abbrev pub Delivered : {A : Type 0} → ℕ → ℕ → ℕ → Cells A → History A → Type 0
Delivered nch next n dst h = (i c : ℕ) → i < n → c < nch → dst (i * nch + c) ≡ h (next + i) c

abbrev pub Reading : {A : Type 0} → ℕ → ℕ → History A → Consumer A → Type 0
Reading nch next h Consumer.resting = Unit
Reading nch next h (Consumer.loaded rd n) = rd ≡ u64 next
Reading nch next h (Consumer.copied rd n dst) = (rd ≡ u64 next) × Delivered nch next n dst h

abbrev pub Fits : {A : Type 0} → ℕ → ℕ → ℕ → Consumer A → Type 0
Fits written consumed next Consumer.resting = Unit
Fits written consumed next (Consumer.loaded rd n) = (consumed ≤ next) × (next + n ≤ written)
Fits written consumed next (Consumer.copied rd n _) = (consumed ≤ next) × (next + n ≤ written)

pub record Inv {A : Type 0} (nch : ℕ) (s : Shared A) : Type 0 where
  pub write_is : s.write ≡ u64 s.written
  pub read_is : s.read ≡ u64 s.consumed
  pub order : s.consumed ≤ s.written
  pub room : s.written + claimed s.producer ≤ s.consumed + ring_frames
  pub held :
      (t c : ℕ)
      → s.consumed ≤ t
      → t < s.written + pending s.producer
      → c < nch
      → s.cells (slot t * nch + c) ≡ s.history t c
  pub fits : Fits s.written s.consumed s.next s.consumer
  pub reading : Reading nch s.next s.history s.consumer
