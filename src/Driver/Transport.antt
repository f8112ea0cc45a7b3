-- ===== src/Driver/Transport.antt =====
-- ElevenRackDriverExtension/ElevenRackDevice.cpp: StartUSBTransport and StopUSBTransport.
pub mod Walk
use r_compatible_driver_v.Base.{
  ℕ, zero, suc, ◌+◌, ◌*◌, ◌/◌, Bool, true, false, not, ◌&&◌, Option, some, none, ◌==◌,
  if◌then◌else◌, u32, u64,
}
use r_compatible_driver_v.Driver.Host.{
  Direction, input, output, Answer, Platform, Request, Do, ◌>>=◌, ◌>>◌, pure, get, modify, unless,
  when, choose, on_failure, call, try, create_mapping, create_interface_iterator, copy_interface,
  destroy_interface_iterator, open_interface, close_interface, select_alternate, copy_pipe,
  abort_pipe, create_transfer_buffer, create_frame_list, create_action, get_frame_number,
  absolute_time, timebase_info, not_ready, not_found,
}
use r_compatible_driver_v.Driver.Clock.{internal, set_usb_hardware_rate, set_usb_clock_source}
use r_compatible_driver_v.Driver.Samples.{Float32}
use r_compatible_driver_v.Driver.Packets.{store, frames_per_request}
use r_compatible_driver_v.Driver.Completions.{
  completed, Dev, input_isoch_complete, output_isoch_complete,
}

-- kUSBRequestCount
abbrev pub request_count : ℕ
request_count = 8

abbrev pub is_some : {A : Type 0} → Option A → Bool
is_some none = false
is_some (some _) = true

-- The objects of a transfer
pub data Part : Type 0 where
  the_data the_frames the_data_map the_frame_map the_action : Part

abbrev pub set_part : {X : Type 0} → Part → Request X → Request X
set_part the_data r = record r { data_descriptor = true }
set_part the_frames r = record r { frame_descriptor = true }
set_part the_data_map r = record r { data_map = true }
set_part the_frame_map r = record r { frame_map = true }
set_part the_action r = record r { action = true }

module _ {W : Type 0} (p : Platform W) where
  abbrev D : Type 0
  D = Dev W

  -- StopUSBTransport; releasing an object that is not there does nothing.
  abbrev pub stop_pipe : Direction → Bool → Do W Float32
  stop_pipe direction there = when there (call p (abort_pipe direction) >> pure tt)

  abbrev pub stop_interface : Direction → Bool → Do W Float32
  stop_interface direction there =
      when there
        (do call p (select_alternate direction 0); call p (close_interface direction); pure tt)

  unfoldable pub stop_usb_transport : Do W Float32
  stop_usb_transport = do
    modify (λ d. record d { usb_running = false })
    d ← get
    stop_pipe input d.usb_input_pipe
    stop_pipe output d.usb_output_pipe
    modify (λ e. record e { usb_input_pipe = false; usb_output_pipe = false })
    stop_interface input d.usb_input_interface
    stop_interface output d.usb_output_interface
    modify (λ e. record e { usb_input_interface = false; usb_output_interface = false })

  -- The walk over the configuration's interfaces, of which there are at most 255: `count` tells
  -- whether there is one, `value` its number.
  abbrev pub keep_interface : ℕ → Do W Float32
  keep_interface number = modify (λ d.
      if number == 4
      then record d { usb_input_interface = true }
      else if number == 3
      then record d { usb_output_interface = true }
      else d)

  unfoldable pub find_interfaces : ℕ → Do W Float32
  find_interfaces zero = pure tt
  find_interfaces (suc n) =
      let rest = find_interfaces n in
      do
        a ← call p copy_interface
        when (a.status == 0 && not (a.count == 0)) (keep_interface a.value >> rest)

  -- What a transfer is made of, in the order of its making
  abbrev pub mark : Direction → ℕ → Part → Do W Float32
  mark input i part = modify (λ d. record d {
    usb_input_requests = store d.usb_input_requests i (set_part part (d.usb_input_requests i));
  })
  mark output i part = modify (λ d. record d {
    usb_output_requests = store d.usb_output_requests i (set_part part (d.usb_output_requests i));
  })

  abbrev pub has_data : Direction → ℕ → D → Bool
  has_data input i d = (d.usb_input_requests i).data_descriptor
  has_data output i d = (d.usb_output_requests i).data_descriptor

  -- The objects of one transfer, unless it has a data descriptor already
  unfoldable pub create_request : Direction → ℕ → Do W Float32
  create_request direction i = do
    d ← get
    when (not (has_data direction i d)) do
      try p (create_transfer_buffer direction (frames_per_request * 416))
      mark direction i the_data
      try p create_frame_list
      mark direction i the_frames
      try p create_mapping
      mark direction i the_data_map
      try p create_mapping
      mark direction i the_frame_map
      try p (create_action direction)
      mark direction i the_action

  unfoldable pub create_requests : Direction → ℕ → ℕ → Do W Float32
  create_requests direction zero i = pure tt
  create_requests direction (suc n) i =
      create_request direction i >> create_requests direction n (i + 1)

  -- The first completion of each transfer, capture and playback in turn
  unfoldable pub prime : ℕ → ℕ → Do W Float32
  prime zero i = pure tt
  prime (suc n) i = do
    input_isoch_complete p i completed
    output_isoch_complete p i completed
    prime n (i + 1)

  -- The clock is set again: by its rate if it is the internal one.
  unfoldable pub assert_clock : Do W Float32
  assert_clock = do
    d ← get
    choose (d.usb_clock_source == internal) (set_usb_hardware_rate p (u32 d.sample_rate))
        (set_usb_clock_source p d.usb_clock_source)

  -- The counters of a fresh stream: transfers begin 25 USB frames from now. The ticks of a USB
  -- frame (a millisecond) are exact for every timebase below 2 ^ 20 ticks.
  abbrev pub anchor : Answer → D → D
  anchor a d = record d {
    usb_next_input_frame = u64 (a.value + 25);
    usb_next_output_frame = u64 (a.value + 25);
    usb_anchor_frame = a.value;
    usb_anchor_host_time = a.count;
    usb_input_sample_frame = 0;
    usb_output_sample_frame = 0;
    usb_output_accumulator = 0;
  }

  abbrev pub begin : Answer → Answer → D → D
  begin base now d = record d {
    host_ticks_per_usb_frame = 1000000 * base.value / base.count;
    last_input_completion_time = now.value;
    last_output_completion_time = now.value;
    usb_running = true;
  }

  -- Both interfaces are opened and set to stream, and their pipes are taken.
  unfoldable pub open_pipes : Do W Float32
  open_pipes = do
    try p (open_interface input)
    try p (open_interface output)
    try p (select_alternate input 1)
    try p (select_alternate output 1)
    try p (copy_pipe input 0x83)
    modify (λ d. record d { usb_input_pipe = true })
    try p (copy_pipe output 0x03)
    modify (λ d. record d { usb_output_pipe = true })

  -- The transfers are made and begin.
  unfoldable pub launch : Do W Float32
  launch = do
    create_requests input request_count 0
    create_requests output request_count 0
    assert_clock
    a ← try p get_frame_number
    modify (anchor a)
    base ← call p timebase_info
    now ← call p absolute_time
    modify (begin base now)
    prime request_count 0

  unfoldable pub start_usb_transport : Do W Float32
  start_usb_transport = do
    d ← get
    unless (d.usb_device && is_some d.input_memory_map && is_some d.output_memory_map) not_ready
    try p create_interface_iterator
    find_interfaces 256
    call p destroy_interface_iterator
    e ← get
    unless (e.usb_input_interface && e.usb_output_interface) not_found
    on_failure (open_pipes >> launch) stop_usb_transport
