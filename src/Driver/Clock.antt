-- ===== src/Driver/Clock.antt =====
-- ElevenRackDriverExtension/ElevenRackDevice.cpp: the clock entities of the Eleven Rack
-- (SetUSBHardwareRate, SetUSBClockSource, ReadUSBClockStatus, SetClockSource, GetAudioStatus), and
-- the enumerations of ElevenRackDriverKeys.h.
pub mod Frames
use r_compatible_driver_v.Base.{
  ℕ, ◌+◌, ◌*◌, not, ◌&&◌, ◌||◌, Option, some, none, ltb, ◌==◌, if◌then◌else◌, u8, u32,
}
use r_compatible_driver_v.Driver.Host.{
  Call, Answer, Platform, M, ◌>>=◌, ◌>>◌, pure, get, modify, unless, when, attempt, call, try,
  create_io_buffer, create_mapping, device_request, not_ready, not_permitted, bad_argument, busy,
  underrun,
}

-- ElevenRackClockSource
abbrev pub internal : ℕ
internal = 1

abbrev pub aes_ebu : ℕ
aes_ebu = 2

abbrev pub spdif : ℕ
spdif = 3

-- ElevenRackClockValidity
abbrev pub unlocked : ℕ
unlocked = 0

abbrev pub locked : ℕ
locked = 1

abbrev pub unknown : ℕ
unknown = 2

-- The class requests on interface 1: SET_CUR and GET_CUR of entity 0x80 (source) and 0x81 (rate)
abbrev pub set_cur : ℕ → ℕ → ℕ → Call
set_cur entity length payload = device_request 0x21 0x01 0x0100 (entity * 256 + 1) length payload

abbrev pub get_cur : ℕ → ℕ → ℕ → Call
get_cur control entity length = device_request 0xa1 0x01 (control * 256) (entity * 256 + 1) length 0

pub record ClockStatus : Type 0 where
  pub source : ℕ
  pub rate : ℕ
  pub valid : ℕ

pub record AudioStatus : Type 0 where
  pub clock : ClockStatus
  pub streaming : ℕ

-- The optional read of the clock's validity; without it the internal clock counts as locked.
abbrev pub validity : Answer → ℕ → ℕ
validity a source =
    if a.status == 0 && a.count == 1
    then (if u8 a.value == 0 then unlocked else locked)
    else if source == internal
    then locked
    else unknown

module _ {W S : Type 0} (p : Platform W) where
  unfoldable pub set_usb_hardware_rate : ℕ → M W S (Unit {0})
  set_usb_hardware_rate rate = do
    d ← get
    unless d.usb_device not_ready
    unless (d.usb_clock_source == internal) not_permitted
    try p (create_io_buffer 4)
    try p create_mapping
    try p (set_cur 0x80 1 1)
    try p (set_cur 0x81 4 (u32 rate))
    pure tt

  unfoldable pub set_usb_clock_source : ℕ → M W S (Unit {0})
  set_usb_clock_source source = do
    d ← get
    unless d.usb_device not_ready
    unless (not (ltb source internal || ltb spdif source)) bad_argument
    unless (not d.usb_running) busy
    try p (create_io_buffer 1)
    try p create_mapping
    a ← try p (set_cur 0x80 1 source)
    unless (a.count == 1) underrun
    modify (λ e. record e { usb_clock_source = source })

  unfoldable pub read_usb_clock_status : M W S ClockStatus
  read_usb_clock_status = do
    d ← get
    unless d.usb_device not_ready
    try p (create_io_buffer 4)
    try p create_mapping
    a ← try p (get_cur 1 0x80 1)
    unless (a.count == 1) underrun
    b ← try p (get_cur 1 0x81 4)
    unless (b.count == 4) underrun
    modify (λ e. record e { usb_clock_source = u8 a.value })
    c ← call p (get_cur 2 0x81 1)
    modify (λ e. record e { usb_clock_valid = validity c (u8 a.value) })
    pure (record { source = u8 a.value; rate = u32 b.value; valid = validity c (u8 a.value) })

  -- The status read after a change of the source; its failure is ignored.
  abbrev pub note_validity : Option ClockStatus → M W S (Unit {0})
  note_validity none = pure tt
  note_validity (some s) = modify (λ e. record e { usb_clock_valid = u8 s.valid })

  -- `source` is a uint32_t: the cast to uint8_t comes before the test of the range.
  unfoldable pub set_clock_source : ℕ → M W S (Unit {0})
  set_clock_source source = do
    set_usb_clock_source (u8 source)
    d ← get
    when (source == internal) (set_usb_hardware_rate (u32 d.sample_rate))
    s ← attempt read_usb_clock_status
    note_validity s

  unfoldable pub get_audio_status : M W S AudioStatus
  get_audio_status = do
    s ← read_usb_clock_status
    d ← get
    pure (record { clock = s; streaming = if d.usb_running then 1 else 0 })
