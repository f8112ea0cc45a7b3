-- ===== src/Midi/Sysex/Stream.antt =====
-- `read_sysex` finds the message in the bytes of cable 0, however the transfers cut it.
use r_compatible_driver_v.Base.{
  ℕ, zero, suc, ◌+◌, ◌/◌, ◌≤◌, ◌<◌, ◌≡◌, ◌≢◌, ◌⊎◌, refl, sym, ap, ◌∙◌, arith, Bool, true, false,
  Bool-cases, inl, inr, [], ◌∷◌, ◌++◌, append-nil, append_assoc, Bytes, All, length, length-append,
  take, ◌==◌, ==_false, if◌then◌else◌,
}
use r_compatible_driver_v.Midi.{cin_length}
use r_compatible_driver_v.Midi.Sysex.{
  success, PipeRead, Outcome, complete, Progress, more, done, take_byte, take_bytes, take_events,
  read_from, read_sysex, attempts_max,
}

-- The bytes that a transfer holds for cable 0.
abbrev pub cable_zero : Bytes → Bytes
cable_zero (h ∷ x ∷ y ∷ z ∷ rest) =
    (if h / 16 == 0 then take (cin_length h) (x ∷ y ∷ z ∷ []) else []) ++ cable_zero rest
cable_zero _ = []

-- Those of `n` transfers from attempt `k` on.
abbrev pub stream : (ℕ → PipeRead) → ℕ → ℕ → Bytes
stream answers k zero = []
stream answers k (suc n) = cable_zero (answers k).bytes ++ stream answers (k + 1) n

module _ (capacity : ℕ) where
  take_bytes-done : (bytes : Bytes) (o : Outcome) → take_bytes capacity bytes (done o) ≡ done o
  unfolding take_bytes
  take_bytes-done [] o = refl
  take_bytes-done (b ∷ bytes) o = refl

  take_bytes-append :
      (xs ys : Bytes) (p : Progress)
      → take_bytes capacity (xs ++ ys) p ≡ take_bytes capacity ys (take_bytes capacity xs p)
  unfolding take_bytes
  take_bytes-append [] ys (done o) = refl
  take_bytes-append [] ys (more s u) = refl
  take_bytes-append (x ∷ xs) ys (done o) = sym (take_bytes-done ys o)
  take_bytes-append (x ∷ xs) ys (more s u) = take_bytes-append xs ys (take_byte capacity s u x)

  take_bytes-nil : (p : Progress) → take_bytes capacity [] p ≡ p
  unfolding take_bytes
  take_bytes-nil (done o) = refl
  take_bytes-nil (more s u) = refl

  pub take_events_lem :
      (usb : Bytes) (p : Progress)
      → take_events capacity usb p ≡ take_bytes capacity (cable_zero usb) p
  unfolding take_events
  take_events_lem [] p = sym (take_bytes-nil p)
  take_events_lem (a ∷ []) p = sym (take_bytes-nil p)
  take_events_lem (a ∷ b ∷ []) p = sym (take_bytes-nil p)
  take_events_lem (a ∷ b ∷ c ∷ []) p = sym (take_bytes-nil p)
  take_events_lem (h ∷ x ∷ y ∷ z ∷ rest) p = elim (Bool-cases (h / 16 == 0)) [
    | inl e ↦ rw e (
        take_events_lem rest _
        ∙ sym (take_bytes-append (take (cin_length h) (x ∷ y ∷ z ∷ [])) (cable_zero rest) p))
    | inr e ↦ rw e (take_events_lem rest p)
  ]

  Progress-cases :
      (p : Progress) → ((o : Outcome) × (p ≡ done o)) ⊎ ((s : Bool) × (u : Bytes) × (p ≡ more s u))
  Progress-cases (done o) = inl (o, refl)
  Progress-cases (more s u) = inr (s, u, refl)

  more-done : {s : Bool} {u : Bytes} {o : Outcome} → more s u ≢ done o
  more-done e = cc

  done-injective : {o o' : Outcome} → done o ≡ done o' → o ≡ o'
  done-injective e = cc

  -- A successful transfer, then the others.
  read_from-suc :
      (attempts k : ℕ) (answers : ℕ → PipeRead) (s : Bool) (u : Bytes)
      → (answers k).result ≡ success
      → read_from capacity (suc attempts) k answers s u
        ≡ elim (take_bytes capacity (cable_zero (answers k).bytes) (more s u)) [
          | done o ↦ o
          | more s' u' ↦ read_from capacity attempts (k + 1) answers s' u'
        ]
  unfolding read_from
  read_from-suc attempts k answers s u h =
      rw h (rw (take_events_lem (answers k).bytes (more s u)) refl)

  -- The transfers as one stream.
  pub read_from_lem :
      (n attempts k : ℕ) (answers : ℕ → PipeRead) (s : Bool) (u : Bytes) {o : Outcome}
      → n ≤ attempts
      → ((i : ℕ) → i < n → (answers (k + i)).result ≡ success)
      → take_bytes capacity (stream answers k n) (more s u) ≡ done o
      → read_from capacity attempts k answers s u ≡ o
  read_from_lem zero attempts k answers s u h ok e =
      absurd (more-done (sym (take_bytes-nil (more s u)) ∙ e))
  read_from_lem (suc n) zero k answers s u h ok e = absurd (omega arith)
  read_from_lem (suc n) (suc attempts) k answers s u {o} h ok e =
      let here = cable_zero (answers k).bytes in
      let here_index : k + 0 ≡ k = omega arith in
      let index : (i : ℕ) → (k + 1) + i ≡ k + suc i = λ i. omega arith in
      let e' = sym (take_bytes-append here (stream answers (k + 1) n) (more s u)) ∙ e in
      read_from-suc attempts k answers s u
        (sym (ap (λ j. (answers j).result) here_index) ∙ ok 0 (omega arith))
      ∙ elim (Progress-cases (take_bytes capacity here (more s u))) [
        | inl (o', d) ↦ rw d (
            done-injective (
              sym (take_bytes-done (stream answers (k + 1) n) o')
              ∙ sym (ap (take_bytes capacity (stream answers (k + 1) n)) d)
              ∙ e'))
        | inr (s', u', d) ↦ rw d (
            read_from_lem n attempts (k + 1) answers s' u' (omega arith)
              (λ i lt. ap (λ j. (answers j).result) (index i) ∙ ok (suc i) (omega arith))
              (sym (ap (take_bytes capacity (stream answers (k + 1) n)) d) ∙ e'))
      ]

  take_byte-junk : (b : ℕ) → b ≢ 0xf0 → take_byte capacity false [] b ≡ more false []
  unfolding take_byte
  take_byte-junk b h = rw (==_false b 0xf0 h) refl

  -- Bytes before a message are passed over.
  take_bytes-junk :
      (junk : Bytes)
      → All (λ b. b ≢ 0xf0) junk
      → take_bytes capacity junk (more false []) ≡ more false []
  unfolding take_bytes
  take_bytes-junk [] h = refl
  take_bytes-junk (b ∷ junk) h =
      ap (take_bytes capacity junk) (take_byte-junk b h.0) ∙ take_bytes-junk junk h.1

  take_byte-body :
      (b : ℕ) (used : Bytes)
      → b ≢ 0xf7
      → length used < capacity
      → take_byte capacity true used b ≡ more true (used ++ b ∷ [])
  unfolding take_byte
  take_byte-body b used h lt =
      rw (==_false (length used) capacity (omega arith)) (rw (==_false b 0xf7 h) refl)

  take_byte-end :
      (used : Bytes)
      → length used < capacity
      → take_byte capacity true used 0xf7 ≡ done (complete (used ++ 0xf7 ∷ []))
  unfolding take_byte
  take_byte-end used lt = rw (==_false (length used) capacity (omega arith)) refl

  take_bytes-body :
      (body used : Bytes)
      → All (λ b. b ≢ 0xf7) body
      → length used + length body < capacity
      → take_bytes capacity (body ++ 0xf7 ∷ []) (more true used)
        ≡ done (complete ((used ++ body) ++ 0xf7 ∷ []))
  unfolding take_bytes
  take_bytes-body [] used h lt =
      ap (take_bytes capacity []) (take_byte-end used (omega arith)) ∙ rw (append-nil used) refl
  take_bytes-body (b ∷ body) used h lt =
      ap (take_bytes capacity (body ++ 0xf7 ∷ [])) (take_byte-body b used h.0 (omega arith))
      ∙ take_bytes-body body (used ++ b ∷ []) h.1 (omega (arith, length-append used (b ∷ [])))
      ∙ ap (λ l. done (complete (l ++ 0xf7 ∷ []))) (append_assoc used (b ∷ []) body)

  start_byte : 0 < capacity → take_byte capacity false [] 0xf0 ≡ more true (0xf0 ∷ [])
  unfolding take_byte
  start_byte h = rw (==_false 0 capacity (omega arith)) refl

  start_message :
      (rest : Bytes)
      → 0 < capacity
      → take_bytes capacity (0xf0 ∷ rest) (more false [])
        ≡ take_bytes capacity rest (more true (0xf0 ∷ []))
  unfolding take_bytes
  start_message rest h = ap (take_bytes capacity rest) (start_byte h)

  take_bytes-message :
      (junk body rest : Bytes)
      → All (λ b. b ≢ 0xf0) junk
      → All (λ b. b ≢ 0xf7) body
      → length body + 2 ≤ capacity
      → take_bytes capacity (junk ++ 0xf0 ∷ ((body ++ 0xf7 ∷ []) ++ rest)) (more false [])
        ≡ done (complete (0xf0 ∷ (body ++ 0xf7 ∷ [])))
  take_bytes-message junk body rest hj hb h =
      take_bytes-append junk (0xf0 ∷ ((body ++ 0xf7 ∷ []) ++ rest)) (more false [])
      ∙ ap (take_bytes capacity (0xf0 ∷ ((body ++ 0xf7 ∷ []) ++ rest))) (take_bytes-junk junk hj)
      ∙ start_message ((body ++ 0xf7 ∷ []) ++ rest) (omega arith)
      ∙ take_bytes-append (body ++ 0xf7 ∷ []) rest (more true (0xf0 ∷ []))
      ∙ ap (take_bytes capacity rest) (take_bytes-body body (0xf0 ∷ []) hb (omega arith))
      ∙ take_bytes-done rest (complete (0xf0 ∷ (body ++ 0xf7 ∷ [])))

  -- If `n` successful transfers, at most 4096, hold for cable 0 some bytes that start no message, a
  -- message that fits, and anything behind it, then `read_sysex` returns that message.
  pub read_sysex_lem :
      (n : ℕ) (answers : ℕ → PipeRead) (junk body rest : Bytes)
      → n ≤ attempts_max
      → ((i : ℕ) → i < n → (answers i).result ≡ success)
      → stream answers 0 n ≡ junk ++ 0xf0 ∷ ((body ++ 0xf7 ∷ []) ++ rest)
      → All (λ b. b ≢ 0xf0) junk
      → All (λ b. b ≢ 0xf7) body
      → length body + 2 ≤ capacity
      → read_sysex capacity answers ≡ complete (0xf0 ∷ (body ++ 0xf7 ∷ []))
  unfolding read_sysex
  read_sysex_lem n answers junk body rest h ok e hj hb fits =
      let index : (i : ℕ) → 0 + i ≡ i = λ i. omega arith in
      read_from_lem n attempts_max 0 answers false [] h
        (λ i lt. ap (λ j. (answers j).result) (index i) ∙ ok i lt)
        (ap (λ l. take_bytes capacity l (more false [])) e
          ∙ take_bytes-message junk body rest hj hb fits)
