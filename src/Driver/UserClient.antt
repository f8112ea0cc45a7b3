-- ===== src/Driver/UserClient.antt =====
-- ElevenRackDriverExtension/ElevenRackDriverUserClient.cpp: the user client, and the selectors of
-- ElevenRackDriverKeys.h.
pub mod Refusals
use r_compatible_driver_v.Base.{
  ℕ, Bool, false, not, ◌||◌, List, [], ◌∷◌, Option, some, none, ltb, ◌==◌, if◌then◌else◌, u32,
}
use r_compatible_driver_v.Driver.Host.{
  Platform, M, Do, ◌>>=◌, ◌>>◌, pure, fail, get, modify, unless, on_failure, call, try, super_start,
  super_stop, cast_provider, super_external_method, bad_argument, not_attached, no_resources,
  no_space, refused,
}
use r_compatible_driver_v.Driver.Clock.{AudioStatus}
use r_compatible_driver_v.Driver.Service.{
  handle_toggle_data_source, handle_test_config_change, handle_set_clock_source,
  handle_get_audio_status,
}

-- ElevenRackDriverExternalMethod
abbrev pub open_client : ℕ
open_client = 0

abbrev pub close_client : ℕ
close_client = 1

abbrev pub toggle_data_source : ℕ
toggle_data_source = 2

abbrev pub test_config_change : ℕ
test_config_change = 3

abbrev pub set_clock_source_method : ℕ
set_clock_source_method = 4

abbrev pub get_audio_status_method : ℕ
get_audio_status_method = 5

-- IOUserClientMethodArguments: the scalars in, and the room for scalars out
pub record Arguments : Type 0 where
  pub scalar_input : Option (List ℕ)
  pub scalar_output : Option ℕ

-- scalarInput, if it is one scalar
abbrev pub single : Option Arguments → Option ℕ
single none = none
single (some a) = elim (a.scalar_input) [
  | none ↦ none
  | some [] ↦ none
  | some (x ∷ []) ↦ some x
  | some (x ∷ y ∷ xs) ↦ none
]

abbrev pub output_room : Option Arguments → ℕ
output_room none = 0
output_room (some a) = elim (a.scalar_output) [ none ↦ 0 | some n ↦ n ]

abbrev status_scalars : AudioStatus → List ℕ
status_scalars s = s.clock.source ∷ s.clock.rate ∷ s.clock.valid ∷ s.streaming ∷ []

module _ {W S : Type 0} (p : Platform W) where
  abbrev set_source : Option ℕ → M W S (List ℕ)
  set_source none = fail bad_argument
  set_source (some source) = do handle_set_clock_source p (u32 source); pure []

  abbrev get_status : ℕ → M W S (List ℕ)
  get_status room = do
    unless (not (ltb room 4)) no_space
    s ← handle_get_audio_status p
    pure (status_scalars s)

  -- The switch: the answer is the scalars put out.
  abbrev dispatch : ℕ → ℕ → Option Arguments → M W S (List ℕ)
  dispatch method selector arguments =
      if method == open_client || method == close_client
      then pure []
      else if method == toggle_data_source
      then (handle_toggle_data_source p >> pure [])
      else if method == test_config_change
      then (handle_test_config_change p >> pure [])
      else if method == set_clock_source_method
      then set_source (single arguments)
      else if method == get_audio_status_method
      then get_status (output_room arguments)
      else (try p (super_external_method selector) >> pure [])

  unfoldable pub external_method : ℕ → Option Arguments → M W S (List ℕ)
  external_method selector arguments = do
    d ← get
    unless d.client_ivars no_resources
    unless d.client_provider not_attached
    dispatch (u32 selector) selector arguments

  -- Start_Impl and Stop_Impl; `provider` tells whether there is one.
  unfoldable pub start_client : Bool → Do W S
  start_client provider =
      on_failure
        (do
          unless provider bad_argument
          try p super_start
          c ← call p cast_provider
          modify (λ d. record d { client_provider = not (c.count == 0) }))
        (modify (λ d. record d { client_provider = false }))

  unfoldable pub stop_client : Do W S
  stop_client = do
    a ← call p super_stop
    modify (λ d. record d { client_provider = false })
    unless (a.status == 0) (refused a.status)
