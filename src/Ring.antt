-- ===== src/Ring.antt =====
-- The shared-memory audio ring of Tools/ERAudioRing.h: its layout and its operations on frames.
-- Lifecycle (create, attach, close) is in Ring/Shm, meters are in Ring/Peek.
mod Copies
pub mod Reads
pub mod Writes
pub mod Half
pub mod Fifo
pub mod Peek
pub mod Spsc
pub mod Shm
mod Tests
use r_compatible_driver_v.Base.{ℕ, ◌+◌, ◌-◌, ◌*◌, ◌%◌, ◌^◌, ltb, leb, if◌then◌else◌, ◌&&◌, u32, u64}

-- ER_RING_FRAMES, ER_IN_CH, ER_OUT_CH, ER_TARGET_FILL
abbrev pub ring_frames : ℕ
ring_frames = 32768

abbrev pub in_ch : ℕ
in_ch = 8

abbrev pub out_ch : ℕ
out_ch = 6

abbrev pub target_fill : ℕ
target_fill = 2048

-- A float array, by index. `A` stands for `float`: the transport moves samples and never computes
-- with them.
abbrev pub Cells : Type 0 → Type 0
Cells A = ℕ → A

-- `ERRing`. `inLevel` and `outLevel` are the meters.
pub record ErRing (A : Type 0) : Type 0 where
  pub magic : ℕ
  pub version : ℕ
  pub sample_rate : ℕ
  pub streaming_requested : ℕ
  pub engine_running : ℕ
  pub xrun_count : ℕ
  pub in_channels : ℕ
  pub out_channels : ℕ
  pub in_write : ℕ
  pub in_read : ℕ
  pub out_write : ℕ
  pub out_read : ℕ
  pub in_cells : Cells A
  pub out_cells : Cells A
  pub in_level : Cells A
  pub out_level : Cells A

-- `(uint32_t)(w - rd)`: the subtraction is one of uint64_t.
abbrev pub distance : ℕ → ℕ → ℕ
distance w rd = u32 (u64 (w + 2 ^ 64 - rd))

pub er__space : ℕ → ℕ → ℕ
er__space w rd = (ring_frames + 2 ^ 32 - distance w rd) % 2 ^ 32

pub er__avail : ℕ → ℕ → ℕ
er__avail w rd = distance w rd

-- `counter & ER_RING_MASK`; the mask is 32767.
abbrev pub slot : ℕ → ℕ
slot counter = counter % ring_frames

-- The frames that fit before the end of the array.
abbrev pub first_part : ℕ → ℕ → ℕ
first_part idx frames = let first = ring_frames - idx in if ltb frames first then frames else first

-- The surplus that a consumer skips: `avail - (frames + ER_TARGET_FILL)` if that is positive. The
-- sum is one of uint32_t.
abbrev pub surplus : ℕ → ℕ → ℕ
surplus avail frames =
    let kept = u32 (frames + target_fill) in if ltb kept avail then avail - kept else 0

module _ {A : Type 0} where
  -- `memcpy(dst + at, src + from, n * sizeof(float))`
  pub copy : Cells A → ℕ → Cells A → ℕ → ℕ → Cells A
  copy dst at src from n j = if leb at j && ltb j (at + n) then src (from + (j - at)) else dst j

  pub er__wr : Cells A → ℕ → ℕ → Cells A → ℕ → Cells A
  er__wr buf nch counter src frames =
      let idx = slot counter in
      let first = first_part idx frames in
      let head = copy buf (idx * nch) src 0 (first * nch) in
      if ltb first frames then copy head 0 src (first * nch) ((frames - first) * nch) else head

  pub er__rd : Cells A → ℕ → ℕ → Cells A → ℕ → Cells A
  er__rd buf nch counter dst frames =
      let idx = slot counter in
      let first = first_part idx frames in
      let head = copy dst 0 buf (idx * nch) (first * nch) in
      if ltb first frames then copy head (first * nch) buf 0 ((frames - first) * nch) else head

  -- The frames written, and the ring.
  pub er_in_write : ErRing A → Cells A → ℕ → ℕ × ErRing A
  er_in_write r src frames =
      let w = r.in_write in
      let space = er__space w r.in_read in
      let over = ltb space frames in
      let n = if over then space else frames in
      (
        n,
        record r {
          xrun_count = if over then u32 (r.xrun_count + 1) else r.xrun_count;
          in_cells = er__wr r.in_cells in_ch w src n;
          in_write = u64 (w + n);
        },
      )

  -- The frames read, the destination, and the ring.
  pub er_in_read : ErRing A → Cells A → ℕ → ℕ × Cells A × ErRing A
  er_in_read r dst frames =
      let avail = er__avail r.in_write r.in_read in
      let drop = surplus avail frames in
      let rd = u64 (r.in_read + drop) in
      let left = avail - drop in
      let n = if ltb left frames then left else frames in
      (n, er__rd r.in_cells in_ch rd dst n, record r { in_read = u64 (rd + n) })

  pub er_out_write : ErRing A → Cells A → ℕ → ℕ × ErRing A
  er_out_write r src frames =
      let w = r.out_write in
      let space = er__space w r.out_read in
      let over = ltb space frames in
      let n = if over then space else frames in
      (
        n,
        record r {
          xrun_count = if over then u32 (r.xrun_count + 1) else r.xrun_count;
          out_cells = er__wr r.out_cells out_ch w src n;
          out_write = u64 (w + n);
        },
      )

  pub er_out_read : ErRing A → Cells A → ℕ → ℕ × Cells A × ErRing A
  er_out_read r dst frames =
      let avail = er__avail r.out_write r.out_read in
      let drop = surplus avail frames in
      let rd = u64 (r.out_read + drop) in
      let left = avail - drop in
      let n = if ltb left frames then left else frames in
      (n, er__rd r.out_cells out_ch rd dst n, record r { out_read = u64 (rd + n) })
