-- ===== src/Midi/Sysex/Shape.antt =====
-- What `read_sysex` returns is always one whole message that fits in the buffer.
use r_compatible_driver_v.Base.{
  ℕ, zero, suc, ◌+◌, ◌/◌, ◌≤◌, ◌≡◌, ◌≢◌, refl, ap, arith, Bool, true, false, not, Bool-cases, inl,
  inr, [], ◌∷◌, ◌++◌, Bytes, All, All-append, length, length-append, take, ◌==◌, ◌&&◌,
}
use r_compatible_driver_v.Midi.{cin_length}
use r_compatible_driver_v.Midi.Sysex.{
  PipeRead, Outcome, complete, incomplete, Progress, more, done, take_byte, take_bytes, take_events,
  read_from, read_sysex, finish, attempts_max, is_success, is_timeout,
}

-- The bytes from a 0xF0 on, before the 0xF7.
abbrev pub IsOpen : ℕ → Bytes → Type 0
IsOpen capacity u =
    (body : Bytes) × (u ≡ 0xf0 ∷ body) × All (λ b. b ≢ 0xf7) body × (length u ≤ capacity)

-- One whole message: 0xF0, its body without a 0xF7, and the 0xF7.
abbrev pub IsMessage : ℕ → Bytes → Type 0
IsMessage capacity u =
    (body : Bytes) × (u ≡ 0xf0 ∷ (body ++ 0xf7 ∷ []))
    × All (λ b. b ≢ 0xf7) body
    × (length u ≤ capacity)

abbrev pub OutcomeFits : ℕ → Outcome → Type 0
OutcomeFits capacity (complete u) = IsMessage capacity u
OutcomeFits capacity (incomplete u) = IsOpen capacity u
OutcomeFits capacity _ = Unit

abbrev ProgressFits : ℕ → Progress → Type 0
ProgressFits capacity (done o) = OutcomeFits capacity o
ProgressFits capacity (more true u) = IsOpen capacity u
ProgressFits capacity (more false u) = u ≡ []

==_true_to : {a b : ℕ} → (a == b) ≡ true → a ≡ b
==_true_to {a} {b} h = ground arith

==_false_to : {a b : ℕ} → (a == b) ≡ false → a ≢ b
==_false_to {a} {b} h = ground arith

module _ (capacity : ℕ) where
  room-IsOpen :
      (u : Bytes) (b : ℕ)
      → IsOpen capacity u
      → length u ≢ capacity
      → b ≢ 0xf7
      → IsOpen capacity (u ++ b ∷ [])
  room-IsOpen u b (body, e, h, fits) ne nb = (
    body ++ b ∷ [],
    ap (λ l. l ++ b ∷ []) e,
    All-append (λ b. b ≢ 0xf7) body (b ∷ []) h (nb, tt),
    omega (arith, length-append u (b ∷ [])),
  )

  room-IsMessage :
      (u : Bytes) → IsOpen capacity u → length u ≢ capacity → IsMessage capacity (u ++ 0xf7 ∷ [])
  room-IsMessage u (body, e, h, fits) ne =
      (body, ap (λ l. l ++ 0xf7 ∷ []) e, h, omega (arith, length-append u (0xf7 ∷ [])))

  take_byte-Fits :
      (s : Bool) (u : Bytes) (b : ℕ)
      → ProgressFits capacity (more s u)
      → ProgressFits capacity (take_byte capacity s u b)
  unfolding take_byte
  take_byte-Fits true u b h = elim (Bool-cases (length u == capacity)) [
    | inl e ↦ rw e tt
    | inr e ↦ rw e (elim (Bool-cases (b == 0xf7)) [
      | inl e' ↦ rw e' (rw (==_true_to e') (room-IsMessage u h (==_false_to e)))
      | inr e' ↦ rw e' (room-IsOpen u b h (==_false_to e) (==_false_to e'))
    ])
  ]
  take_byte-Fits false u b h = elim (Bool-cases (b == 0xf0)) [
    | inl e ↦
        rw (e, h)
          (elim (Bool-cases (0 == capacity)) [
            | inl e' ↦ rw e' tt
            | inr e' ↦ rw (e', ==_true_to e) ([], refl, tt, omega (arith, ==_false_to e'))
          ])
    | inr e ↦ rw e h
  ]

  take_bytes-Fits :
      (bytes : Bytes) (p : Progress)
      → ProgressFits capacity p
      → ProgressFits capacity (take_bytes capacity bytes p)
  unfolding take_bytes
  take_bytes-Fits [] (done o) h = h
  take_bytes-Fits (b ∷ bytes) (done o) h = h
  take_bytes-Fits [] (more s u) h = h
  take_bytes-Fits (b ∷ bytes) (more s u) h =
      take_bytes-Fits bytes (take_byte capacity s u b) (take_byte-Fits s u b h)

  take_events-Fits :
      (usb : Bytes) (p : Progress)
      → ProgressFits capacity p
      → ProgressFits capacity (take_events capacity usb p)
  unfolding take_events
  take_events-Fits [] p h = h
  take_events-Fits (a ∷ []) p h = h
  take_events-Fits (a ∷ b ∷ []) p h = h
  take_events-Fits (a ∷ b ∷ c ∷ []) p h = h
  take_events-Fits (a ∷ x ∷ y ∷ z ∷ rest) p h = elim (Bool-cases (a / 16 == 0)) [
    | inl e ↦
        rw e (take_events-Fits rest _ (take_bytes-Fits (take (cin_length a) (x ∷ y ∷ z ∷ [])) p h))
    | inr e ↦ rw e (take_events-Fits rest p h)
  ]

  finish-Fits :
      (s : Bool) (u : Bytes)
      → ProgressFits capacity (more s u)
      → OutcomeFits capacity (finish capacity s u)
  unfolding finish
  finish-Fits true u h = h
  finish-Fits false u h = tt

  next-Fits :
      (p : Progress) (rest : Bool → Bytes → Outcome)
      → ProgressFits capacity p
      → ((s : Bool) (u : Bytes)
          → ProgressFits capacity (more s u)
          → OutcomeFits capacity (rest s u))
      → OutcomeFits capacity (elim p [ done o ↦ o | more s u ↦ rest s u ])
  next-Fits (done o) rest h k = h
  next-Fits (more s u) rest h k = k s u h

  read_from-Fits :
      (attempts k : ℕ) (answers : ℕ → PipeRead) (s : Bool) (u : Bytes)
      → ProgressFits capacity (more s u)
      → OutcomeFits capacity (read_from capacity attempts k answers s u)
  unfolding read_from
  read_from-Fits zero k answers s u h = finish-Fits s u h
  read_from-Fits (suc attempts) k answers s u h =
      elim (Bool-cases (is_timeout (answers k).result && length (answers k).bytes == 0)) [
        | inl e ↦ rw e (finish-Fits s u h)
        | inr e ↦
            rw e
              (elim (Bool-cases
                (not (is_success (answers k).result) && length (answers k).bytes == 0)) [
                  | inl e' ↦ rw e' tt
                  | inr e' ↦ rw e' (
                      next-Fits (take_events capacity (answers k).bytes (more s u))
                        (read_from capacity attempts (k + 1) answers)
                        (take_events-Fits (answers k).bytes (more s u) h)
                        (read_from-Fits attempts (k + 1) answers))
                ])
      ]

  -- Whatever the pipe answers, a message that `read_sysex` returns is 0xF0, bytes other than 0xF7, and
  -- one 0xF7, and fits in the buffer; an incomplete one starts with 0xF0 and fits too.
  pub read_sysex-Fits :
      (answers : ℕ → PipeRead) → OutcomeFits capacity (read_sysex capacity answers)
  unfolding read_sysex
  read_sysex-Fits answers = read_from-Fits attempts_max 0 answers false [] refl
