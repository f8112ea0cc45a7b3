-- ===== src/Driver/Host.antt =====
-- ElevenRackDriverExtension/ElevenRackDevice.cpp: the state of the device object (ElevenRackDevice_IVars),
-- the calls it makes of DriverKit, USBDriverKit and AudioDriverKit, whose answers are an argument
-- (a Platform), and the codes its methods return.
use r_compatible_driver_v.Base.{
  ℕ, Bool, true, false, List, String, ◌∷◌, Option, some, none, ◌==◌, if◌then◌else◌,
}

-- The two isochronous directions: capture is input, playback is output.
pub data Direction : Type 0 where
  input output : Direction

-- The methods of the frameworks that the code calls, with the arguments that matter.
pub data Call : Type 0 where
  create_io_buffer : ℕ → Call
  create_mapping : Call
  device_request : (kind request value index length payload : ℕ) → Call
  create_interface_iterator : Call
  copy_interface : Call
  destroy_interface_iterator : Call
  open_interface : Direction → Call
  close_interface : Direction → Call
  select_alternate : Direction → ℕ → Call
  copy_pipe : Direction → ℕ → Call
  abort_pipe : Direction → Call
  create_transfer_buffer : Direction → ℕ → Call
  create_frame_list : Call
  create_action : Direction → Call
  get_frame_number : Call
  absolute_time : Call
  timebase_info : Call
  isoch_io : Direction → (index frame : ℕ) → Call
  update_zero_timestamp : (sample host : ℕ) → Call
  super_start_io : Call
  super_stop_io : Call
  stream_memory : Direction → Call
  map_stream : Direction → Call
  set_sample_rate : ℕ → Call
  stream_rate_changed : Direction → ℕ → Call
  set_latency : Direction → ℕ → Call
  set_safety_offset : Direction → ℕ → Call
  set_stream_latency : Direction → Call
  request_config_change : ℕ → Call
  super_config_change : ℕ → Call
  super_abort_change : ℕ → Call
  wake_at : ℕ → Call
  set_timer_enabled : Bool → Call
  super_init : Call
  allocate : Call
  create_ring : Direction → ℕ → Call
  create_stream : Direction → Call
  name_element : Direction → ℕ → String → Call
  add_stream : Direction → Call
  create_custom_property : Call
  set_custom_property : ℕ → Call
  add_custom_property : Call
  create_timer : Call
  create_timer_action : Call
  super_start : Call
  super_stop : Call
  cast_provider : Call
  open_device : Call
  close_device : Call
  get_work_queue : Call
  add_object : Call
  register_service : Call
  super_new_user_client : Call
  create_user_client : Call
  cast_user_client : Call
  get_object_id : Call
  super_start_device : ℕ → Call
  super_stop_device : ℕ → Call
  super_external_method : ℕ → Call

-- The call that every attempt to start the transport begins with
abbrev pub is_start : Call → Bool
is_start create_interface_iterator = true
is_start c = false

-- What a call answers: its kern_return_t (0 is kIOReturnSuccess) and up to two results, such as
-- the bytes transferred and the value read, or the frame number and its host time.
pub record Answer : Type 0 where
  pub status : ℕ
  pub count : ℕ
  pub value : ℕ

-- The frameworks and the hardware, on a state of their own
abbrev pub Platform : Type 0 → Type 0
Platform W = Call → W → Answer × W

-- The kern_return_t codes that the code itself returns, and one handed on from a call.
pub data Code : Type 0 where
  not_ready not_permitted bad_argument busy underrun unsupported not_found no_memory : Code
  no_resources not_attached no_space invalid : Code
  refused : ℕ → Code

-- `crash` is the use of a null object.
pub data Reply (A : Type 0) : Type 0 where
  ok : A → Reply A
  err : Code → Reply A
  crash : Reply A

-- ERUSBRequest: which of its objects exist, its scheduled frame, the frames' completeCount and
-- requestCount, and the data as the int32 at each multiple of four bytes (none in a playback buffer
-- is what a conversion that C++ leaves undefined stores).
pub record Request (X : Type 0) : Type 0 where
  pub data_descriptor : Bool
  pub frame_descriptor : Bool
  pub data_map : Bool
  pub frame_map : Bool
  pub action : Bool
  pub scheduled_frame : ℕ
  pub complete_counts : List ℕ
  pub request_counts : List ℕ
  pub words : ℕ → X

-- A mapped stream buffer: its length in bytes and its samples.
pub record AudioMap (S : Type 0) : Type 0 where
  pub bytes : ℕ
  pub samples : ℕ → S

-- The state of the extension: ElevenRackDevice_IVars, over samples S, and the few objects that the
-- other two classes hold; the rate and the stream format are the base class's. The
-- world is the platform's state, and `calls` lists the calls made, the latest first.
pub record Device (W S : Type 0) : Type 0 where
  pub world : W
  pub calls : List Call
  pub monitor_interval_ticks : ℕ
  pub sample_rate : ℕ
  pub output_memory_map : Option (AudioMap S)
  pub input_memory_map : Option (AudioMap S)
  pub timer_event_source : Bool
  pub usb_device : Bool
  pub usb_input_interface : Bool
  pub usb_output_interface : Bool
  pub usb_input_pipe : Bool
  pub usb_output_pipe : Bool
  pub usb_input_requests : ℕ → Request ℕ
  pub usb_output_requests : ℕ → Request (Option ℕ)
  pub usb_next_input_frame : ℕ
  pub usb_next_output_frame : ℕ
  pub usb_input_sample_frame : ℕ
  pub usb_output_sample_frame : ℕ
  pub usb_anchor_frame : ℕ
  pub usb_anchor_host_time : ℕ
  pub host_ticks_per_usb_frame : ℕ
  pub last_input_completion_time : ℕ
  pub last_output_completion_time : ℕ
  pub next_recovery_time : ℕ
  pub usb_output_accumulator : ℕ
  pub usb_running : Bool
  pub io_active : Bool
  pub usb_clock_source : ℕ
  pub usb_clock_valid : ℕ
  pub pending_external_rate : ℕ
  pub output_stream : Bool
  pub input_stream : Bool
  pub timer_action : Bool
  -- ElevenRackDriver_IVars
  pub driver_work_queue : Bool
  pub driver_device : Bool
  pub driver_usb_device : Bool
  -- ElevenRackDriverUserClient_IVars
  pub client_provider : Bool
  -- Whether ElevenRackDriverUserClient_IVars itself is there
  pub client_ivars : Bool

-- A method that may fail
abbrev pub M : Type 0 → Type 0 → Type 0 → Type 0
M W S A = Device W S → Reply A × Device W S

abbrev pub Do : Type 0 → Type 0 → Type 0
Do W S = M W S (Unit {0})

module _ {W S : Type 0} where
  unfoldable pub pure : {A : Type 0} → A → M W S A
  pure a d = (ok a, d)

  unfoldable pub fail : {A : Type 0} → Code → M W S A
  fail c d = (err c, d)

  -- The use of a null object
  unfoldable pub crashed : {A : Type 0} → M W S A
  crashed d = (crash, d)

  unfoldable pub get : M W S (Device W S)
  get d = (ok d, d)

  unfoldable pub modify : (Device W S → Device W S) → M W S (Unit {0})
  modify f d = (ok tt, f d)

  unfoldable pub unless : Bool → Code → M W S (Unit {0})
  unless b c d = if b then (ok tt, d) else (err c, d)

  unfoldable pub when : Bool → M W S (Unit {0}) → M W S (Unit {0})
  when b m d = if b then m d else (ok tt, d)

  -- An object that must not be null
  unfoldable pub needs : Bool → M W S (Unit {0})
  needs b d = if b then (ok tt, d) else (crash, d)

  unfoldable pub choose : {A : Type 0} → Bool → M W S A → M W S A → M W S A
  choose b m n d = if b then m d else n d

  -- An error or a crash ends a method. The combinators are shut, so that the rules about them apply
  -- by their form; to unfold this one unfolds all.
  abbrev pub continue : {A B : Type 0} → (A → M W S B) → Reply A × Device W S → Reply B × Device W S
  continue f (ok a, d) = f a d
  continue f (err c, d) = (err c, d)
  continue f (crash, d) = (crash, d)

  -- The outcome of a method whose error the caller looks at: none stands for any error.
  abbrev pub outcome : {A : Type 0} → Reply A × Device W S → Reply (Option A) × Device W S
  outcome (ok a, d) = (ok (some a), d)
  outcome (err c, d) = (ok none, d)
  outcome (crash, d) = (crash, d)

  unfoldable pub attempt : {A : Type 0} → M W S A → M W S (Option A)
  attempt m d = outcome (m d)

  -- `goto Failure`: an error goes on after the clean-up.
  abbrev pub cleaned : {A : Type 0} → M W S (Unit {0}) → Reply A × Device W S → Reply A × Device W S
  cleaned k (ok a, d) = (ok a, d)
  cleaned k (err c, d) = (err c, (k d).1)
  cleaned k (crash, d) = (crash, d)

  unfoldable pub on_failure : {A : Type 0} → M W S A → M W S (Unit {0}) → M W S A
  on_failure m k d = cleaned k (m d)

  -- The status of an answer
  unfoldable pub accept : Answer → M W S Answer
  accept a d = if a.status == 0 then (ok a, d) else (err (refused a.status), d)

  infixl 5 ◌>>=◌ ◌>>◌
  unfoldable pub ◌>>=◌ : {A B : Type 0} → M W S A → (A → M W S B) → M W S B
  unfolding pure fail crashed get modify unless when needs choose attempt on_failure accept
  ◌>>=◌ m f d = continue f (m d)

  abbrev pub ◌>>◌ : {A B : Type 0} → M W S A → M W S B → M W S B
  m >> k = m >>= λ _. k

  module _ (p : Platform W) where
    -- A call whose status is not looked at
    unfoldable pub call : Call → M W S Answer
    call c d = let (a, w) = p c d.world in (ok a, record d { world = w; calls = c ∷ d.calls })

    -- A call whose failure is the caller's
    unfoldable pub try : Call → M W S Answer
    try c = call c >>= accept
