-- ===== src/Midi/Sysex.antt =====
-- `read_sysex` of Tools/errig_read.c: one SysEx message put together from the event packets of cable
-- 0, over at most 4096 transfers. What the bounded read of the pipe answers is an argument.
pub mod Stream
pub mod Shape
use r_compatible_driver_v.Base.{
  ℕ, zero, suc, ◌+◌, ◌/◌, Bytes, [], ◌∷◌, ◌++◌, take, length, ◌==◌, not, if◌then◌else◌, Bool, true,
  false, ◌&&◌,
}
use r_compatible_driver_v.Midi.{cin_length}

-- The result of `read_pipe_bounded`: success, one of the three results that end a stream without
-- data, or another error; and the bytes transferred.
pub data PipeResult : Type 0 where
  success timeout failure : PipeResult

pub record PipeRead : Type 0 where
  pub result : PipeResult
  pub bytes : Bytes

-- What the caller sees: the message, or why there is none.
pub data Outcome : Type 0 where
  complete : Bytes → Outcome
  read_failed overflow no_response : Outcome
  incomplete : Bytes → Outcome

-- `in_sysex` and `output[0 .. used)`; a round ends the call, or goes on.
pub data Progress : Type 0 where
  more : Bool → Bytes → Progress
  done : Outcome → Progress

abbrev pub attempts_max : ℕ
attempts_max = 4096

abbrev pub is_timeout : PipeResult → Bool
is_timeout timeout = true
is_timeout _ = false

abbrev pub is_success : PipeResult → Bool
is_success success = true
is_success _ = false

module _ (capacity : ℕ) where
  -- The body of the innermost loop.
  pub take_byte : Bool → Bytes → ℕ → Progress
  take_byte in_sysex used byte =
      if not in_sysex && not (byte == 0xf0)
      then more false used
      else if length used == capacity
      then done overflow
      else if byte == 0xf7
      then done (complete (used ++ (byte ∷ [])))
      else more true (used ++ (byte ∷ []))

  -- The loop over the bytes of an event.
  pub take_bytes : Bytes → Progress → Progress
  take_bytes bytes (done o) = done o
  take_bytes [] (more in_sysex used) = more in_sysex used
  take_bytes (b ∷ bytes) (more in_sysex used) = take_bytes bytes (take_byte in_sysex used b)

  -- The loop over the events of a transfer. Events of other cables are skipped.
  pub take_events : Bytes → Progress → Progress
  take_events (h ∷ x ∷ y ∷ z ∷ rest) p =
      take_events rest
        (if h / 16 == 0 then take_bytes (take (cin_length h) (x ∷ y ∷ z ∷ [])) p else p)
  take_events _ p = p

  finish : Bool → Bytes → Outcome
  finish in_sysex used = if in_sysex then incomplete used else no_response

  -- The loop over the transfers, on the attempts left; `answers` are those of the pipe, by attempt.
  pub read_from : ℕ → ℕ → (ℕ → PipeRead) → Bool → Bytes → Outcome
  read_from zero k answers in_sysex used = finish in_sysex used
  read_from (suc attempts) k answers in_sysex used =
      let usb = (answers k).bytes in
      let next : Outcome = elim (take_events usb (more in_sysex used)) [
        | done o ↦ o
        | more in_sysex' used' ↦ read_from attempts (k + 1) answers in_sysex' used'
      ] in
      if is_timeout (answers k).result && length usb == 0
      then finish in_sysex used
      else if not (is_success (answers k).result) && length usb == 0
      then read_failed
      else next

  pub read_sysex : (ℕ → PipeRead) → Outcome
  read_sysex answers = read_from attempts_max 0 answers false []
