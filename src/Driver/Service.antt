-- ===== src/Driver/Service.antt =====
-- ElevenRackDriverExtension: the life of the driver. ElevenRackDevice::init of ElevenRackDevice.cpp;
-- Start_Impl, Stop_Impl, NewUserClient_Impl, StartDevice, StopDevice and the handlers of
-- ElevenRackDriver.cpp.
pub mod Handle
use r_compatible_driver_v.Base.{
  ℕ, ◌+◌, ◌*◌, Bool, true, false, not, List, [], ◌∷◌, String, Option, some, none, ◌==◌, u32,
}
use r_compatible_driver_v.Driver.Host.{
  Direction, input, output, Call, Answer, Platform, M, Do, ◌>>=◌, ◌>>◌, pure, fail, get, modify,
  unless, when, needs, choose, attempt, on_failure, call, try, set_sample_rate,
  request_config_change, super_init, allocate, create_ring, create_stream, create_custom_property,
  set_custom_property, add_custom_property, name_element, add_stream, create_timer,
  create_timer_action, super_start, super_stop, cast_provider, open_device, close_device,
  get_work_queue, add_object, register_service, super_new_user_client, create_user_client,
  cast_user_client, get_object_id, super_start_device, super_stop_device, bad_argument, unsupported,
  no_memory, invalid,
}
use r_compatible_driver_v.Driver.Clock.{
  internal, unknown, AudioStatus, set_clock_source, get_audio_status,
}
use r_compatible_driver_v.Driver.Rates.{custom_change, update_latency_properties}

-- kInputChannelNames and kOutputChannelNames
abbrev pub input_channel_names : List String
input_channel_names =
    "Guitar Input" ∷ "Mic Input" ∷ "Eleven Rig L" ∷ "Eleven Rig R" ∷ "Digital Input L"
    ∷ "Digital Input R" ∷ "Line Input L" ∷ "Line Input R" ∷ []

abbrev pub output_channel_names : List String
output_channel_names =
    "Main Output L" ∷ "Main Output R" ∷ "Re-Amp L" ∷ "Re-Amp R" ∷ "Digital Out L" ∷ "Digital Out R"
    ∷ []

-- k_zero_time_stamp_period
abbrev pub zero_time_stamp_period : ℕ
zero_time_stamp_period = 32768

abbrev is_some : {A : Type 0} → Option A → Bool
is_some none = false
is_some (some _) = true

-- The object that a creating call answers, if there is one
abbrev pub is_object : Answer → Bool
is_object a = not (a.count == 0)

module _ {W S : Type 0} (p : Platform W) where
  -- Core Audio numbers elements from 1.
  unfoldable pub name_elements : Direction → ℕ → List String → Do W S
  name_elements direction channel [] = pure tt
  name_elements direction channel (name ∷ names) =
      try p (name_element direction (channel + 1) name)
      >> name_elements direction (channel + 1) names

  -- The part of ElevenRackDevice::init after its allocation, up to the Failure label. Its two pairs of a
  -- qualifier and a value are set on the custom property without a look at whether there is one.
  unfoldable pub init_device : ℕ → Do W S
  init_device period = do
    r ← call p (set_sample_rate 48000)
    when (r.status == 0) (modify (λ d. record d { sample_rate = 48000 }))
    c ← call p create_custom_property
    needs (is_object c)
    call p (set_custom_property 0)
    call p (set_custom_property 1)
    call p add_custom_property
    try p (create_ring output (u32 (period * 4 * 6)))
    try p (create_ring input (u32 (period * 4 * 8)))
    o ← call p (create_stream output)
    modify (λ d. record d { output_stream = is_object o })
    unless (is_object o) no_memory
    i ← call p (create_stream input)
    modify (λ d. record d { input_stream = is_object i })
    unless (is_object i) no_memory
    name_elements input 0 input_channel_names
    name_elements output 0 output_channel_names
    try p (add_stream output)
    try p (add_stream input)
    update_latency_properties p 48000
    try p create_timer
    modify (λ d. record d { timer_event_source = true })
    try p create_timer_action
    modify (λ d. record d { timer_action = true })

  abbrev pub drop_device : Do W S
  drop_device = modify (λ d. record d {
    output_stream = false;
    output_memory_map = none;
    input_stream = false;
    input_memory_map = none;
    timer_event_source = false;
    timer_action = false;
  })

  -- A device is made with the internal clock and no knowledge of its lock.
  abbrev pub prepare_device : Do W S
  prepare_device = do
    a ← call p super_init
    unless (is_object a) no_memory
    b ← call p allocate
    unless (is_object b) no_memory
    modify (λ d. record d { usb_clock_source = internal; usb_clock_valid = unknown })

  -- ElevenRackDevice::init, whose answer is a truth value
  unfoldable pub init : ℕ → M W S Bool
  init period = do
    s ← attempt (prepare_device >> on_failure (init_device period) drop_device)
    pure (is_some s)

  -- Start_Impl once the USB device is open
  abbrev pub start_opened : Do W S
  start_opened = do
    q ← call p get_work_queue
    modify (λ d. record d { driver_work_queue = is_object q })
    unless (is_object q) invalid
    a ← call p allocate
    modify (λ d. record d { driver_device = is_object a })
    unless (is_object a) no_memory
    done ← init zero_time_stamp_period
    unless done no_memory
    modify (λ d. record d { usb_device = true })
    call p add_object
    try p register_service
    pure tt

  abbrev pub drop_driver : Do W S
  drop_driver = modify (λ d. record d {
    driver_device = false;
    driver_work_queue = false;
    driver_usb_device = false;
  })

  abbrev pub start_provided : Do W S
  start_provided = do
    try p super_start
    c ← call p cast_provider
    unless (is_object c) unsupported
    modify (λ d. record d { driver_usb_device = true })
    try p open_device
    on_failure start_opened (call p close_device >> pure tt)

  unfoldable pub start_driver : Do W S
  start_driver = on_failure start_provided drop_driver

  unfoldable pub stop_driver : Do W S
  stop_driver = do
    d ← get
    when d.driver_usb_device (call p close_device >> pure tt)
    on_failure (try p super_stop >> pure tt) drop_driver
    drop_driver

  -- Whether there is a user client to hand out
  unfoldable pub new_user_client : Bool → M W S Bool
  new_user_client audio =
      choose audio (do a ← try p super_new_user_client; unless (is_object a) no_memory; pure true)
        (do
          try p create_user_client
          c ← call p cast_user_client
          unless (is_object c) bad_argument
          pure true)

  -- StartDevice and StopDevice act on the one object the driver has.
  abbrev for_object : ℕ → Call → Do W S
  for_object id act = do
    d ← get
    needs d.driver_device
    o ← call p get_object_id
    unless (id == o.value) bad_argument
    try p act
    pure tt

  unfoldable pub start_device : ℕ → Do W S
  start_device id = for_object id (super_start_device id)

  unfoldable pub stop_device : ℕ → Do W S
  stop_device id = for_object id (super_stop_device id)

  unfoldable pub handle_toggle_data_source : Do W S
  handle_toggle_data_source = fail unsupported

  unfoldable pub handle_test_config_change : Do W S
  handle_test_config_change = do
    d ← get
    needs d.driver_device
    try p (request_config_change custom_change)
    pure tt

  unfoldable pub handle_set_clock_source : ℕ → Do W S
  handle_set_clock_source source = do d ← get; needs d.driver_device; set_clock_source p source

  unfoldable pub handle_get_audio_status : M W S AudioStatus
  handle_get_audio_status = do d ← get; needs d.driver_device; get_audio_status p
