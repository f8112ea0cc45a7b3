-- ===== src/Engine/Capture.antt =====
-- However the stream is cut into packets, the capture parser hands out its units.
use r_compatible_driver_v.Base.{
  ℕ, zero, suc, ◌+◌, ◌%◌, ◌≤◌, ◌<◌, ◌≡◌, ◌≢◌, refl, sym, ap, ◌∙◌, arith, Bytes, List, [], ◌∷◌, ◌++◌,
  append-nil, append_assoc, take, set, length, length-append, length-set, ◌==◌, ==_false,
  if◌then◌else◌, u32, inl, inr, true, false, Bool-cases,
}
use r_compatible_driver_v.Engine.{Units, word, take_word, take_words, feed_bytes, feed_packets}

-- The bytes of all packets
abbrev pub stream : List Bytes → Bytes
stream [] = []
stream (p ∷ ps) = p ++ stream ps

take_words-append :
    (xs ys : Bytes) (u : Units) → take_words (xs ++ ys) u ≡ feed_bytes ys (take_words xs u)
unfolding take_words feed_bytes
take_words-append [] ys u = refl
take_words-append (a ∷ []) ys u = refl
take_words-append (a ∷ b ∷ []) ys u = refl
take_words-append (a ∷ b ∷ c ∷ []) ys u = refl
take_words-append (a ∷ b ∷ c ∷ d ∷ xs) ys u = take_words-append xs ys (take_word (word a b c d) u)

feed_bytes-append :
    (xs ys : Bytes) (s : Units × Bytes) → feed_bytes (xs ++ ys) s ≡ feed_bytes ys (feed_bytes xs s)
unfolding feed_bytes
feed_bytes-append xs ys (u, carry) =
    ap (λ l. take_words l u) (sym (append_assoc carry xs ys)) ∙ take_words-append (carry ++ xs) ys u

-- Less than a word is carried over.
length-carry : (bytes : Bytes) (u : Units) → length (take_words bytes u).1 < 4
unfolding take_words
length-carry [] u = omega arith
length-carry (a ∷ []) u = omega arith
length-carry (a ∷ b ∷ []) u = omega arith
length-carry (a ∷ b ∷ c ∷ []) u = omega arith
length-carry (a ∷ b ∷ c ∷ d ∷ xs) u = length-carry xs (take_word (word a b c d) u)

length-carry_bytes : (p : Bytes) (s : Units × Bytes) → length (feed_bytes p s).1 < 4
unfolding feed_bytes
length-carry_bytes p (u, carry) = length-carry (carry ++ p) u

feed_nothing : (u : Units) (c : Bytes) → length c < 4 → feed_bytes [] (u, c) ≡ (u, c)
unfolding feed_bytes take_words
feed_nothing u [] h = refl
feed_nothing u (a ∷ []) h = refl
feed_nothing u (a ∷ b ∷ []) h = refl
feed_nothing u (a ∷ b ∷ c ∷ []) h = refl
feed_nothing u (a ∷ b ∷ c ∷ d ∷ l) h = absurd (omega arith)

feed_packets-stream :
    (ps : List Bytes) (s : Units × Bytes)
    → length s.1 < 4
    → feed_packets ps s ≡ feed_bytes (stream ps) s
feed_packets-stream [] s h = sym (feed_nothing s.0 s.1 h)
feed_packets-stream (p ∷ ps) s h =
    feed_packets-stream ps (feed_bytes p s) (length-carry_bytes p s)
    ∙ sym (feed_bytes-append p (stream ps) s)

-- The words of a stream, and their groups of eight behind the words `pending` of a started one.
abbrev pub words : Bytes → List ℕ
words (a ∷ b ∷ c ∷ d ∷ rest) = word a b c d ∷ words rest
words rest = []

abbrev pub groups : List ℕ → List ℕ → List (List ℕ)
groups pending [] = []
groups pending (w ∷ ws) =
    let full = groups [] ws in
    let more = groups (pending ++ (w ∷ [])) ws in
    if length pending == 7 then (pending ++ (w ∷ [])) ∷ full else more

-- `gSF` holds the pending words in its first lanes.
pub record IsPending (pending : List ℕ) (u : Units) : Type 0 where
  pub lanes : 8 ≤ length u.sf
  pub lane : u.phase % 8 ≡ length pending
  pub held : take (length pending) u.sf ≡ pending

take-suc-set :
    (i : ℕ) (l : List ℕ) (w : ℕ) → i < length l → take (suc i) (set l i w) ≡ take i l ++ (w ∷ [])
take-suc-set i [] w h = absurd (omega arith)
take-suc-set zero (x ∷ l) w h = refl
take-suc-set (suc i) (x ∷ l) w h = ap (◌∷◌ x) (take-suc-set i l w (omega arith))

module _ (w : ℕ) (pending : List ℕ) (u : Units) (h : IsPending pending u) where
  held_more :
      length pending < 8
      → take (suc (length pending)) (set u.sf (u.phase % 8) w) ≡ pending ++ (w ∷ [])
  held_more lt =
      ap (λ i. take (suc (length pending)) (set u.sf i w)) h.lane
      ∙ take-suc-set (length pending) u.sf w (omega (arith, h.lanes))
      ∙ ap (λ l. l ++ (w ∷ [])) h.held

  phase_more : u32 (u.phase + 1) % 8 ≡ (length pending + 1) % 8
  phase_more = omega (arith, h.lane)

  take_word-IsPending : length pending < 7 → IsPending (pending ++ (w ∷ [])) (take_word w u)
  unfolding take_word
  take_word-IsPending lt = record {
    lanes = omega (arith, length-set u.sf (u.phase % 8) w, h.lanes);
    lane = omega (arith, phase_more, length-append pending (w ∷ []));
    held =
        ap (λ n. take n (set u.sf (u.phase % 8) w)) {y = suc (length pending)}
          (omega (arith, length-append pending (w ∷ [])))
        ∙ held_more (omega arith);
  }

  take_word-emitted : length pending < 7 → (take_word w u).emitted ≡ u.emitted
  unfolding take_word
  take_word-emitted lt = rw (==_false (u.phase % 8) 7 (omega (arith, h.lane))) refl

  take_word-Full : length pending ≡ 7 → IsPending [] (take_word w u)
  unfolding take_word
  take_word-Full e = record {
    lanes = omega (arith, length-set u.sf (u.phase % 8) w, h.lanes);
    lane = omega (arith, phase_more);
    held = refl;
  }

  take_word-full :
      length pending ≡ 7 → (take_word w u).emitted ≡ u.emitted ++ ((pending ++ (w ∷ [])) ∷ [])
  unfolding take_word
  take_word-full e = rw (==_true (omega (arith, h.lane))) (
      ap (λ l. u.emitted ++ (l ∷ []))
        (ap (λ n. take n (set u.sf (u.phase % 8) w)) {x = 8} {y = suc (length pending)}
            (omega arith)
          ∙ held_more (omega arith)))
    where
      ==_true : u.phase % 8 ≡ 7 → (u.phase % 8 == 7) ≡ true
      ==_true e' = ground arith

take_words-groups :
    (bytes : Bytes) (pending : List ℕ) (u : Units)
    → IsPending pending u
    → length pending < 8
    → (take_words bytes u).0.emitted ≡ u.emitted ++ groups pending (words bytes)
unfolding take_words
take_words-groups [] pending u h lt = sym (append-nil u.emitted)
take_words-groups (a ∷ []) pending u h lt = sym (append-nil u.emitted)
take_words-groups (a ∷ b ∷ []) pending u h lt = sym (append-nil u.emitted)
take_words-groups (a ∷ b ∷ c ∷ []) pending u h lt = sym (append-nil u.emitted)
take_words-groups (a ∷ b ∷ c ∷ d ∷ bytes) pending u h lt =
    let w = word a b c d in
    elim (Bool-cases (length pending == 7)) [
      | inl e ↦ rw e (
          take_words-groups bytes [] (take_word w u) (take_word-Full w pending u h (==_true_to e))
            (omega arith)
          ∙ ap (λ l. l ++ groups [] (words bytes)) (take_word-full w pending u h (==_true_to e))
          ∙ append_assoc u.emitted ((pending ++ (w ∷ [])) ∷ []) (groups [] (words bytes)))
      | inr e ↦ rw e (
          take_words-groups bytes (pending ++ (w ∷ [])) (take_word w u)
            (take_word-IsPending w pending u h (omega (arith, ==_false_to e)))
            (omega (arith, ==_false_to e, length-append pending (w ∷ [])))
          ∙ ap (λ l. l ++ groups (pending ++ (w ∷ [])) (words bytes))
              (take_word-emitted w pending u h (omega (arith, ==_false_to e))))
    ]
  where
    ==_true_to : {m n : ℕ} → (m == n) ≡ true → m ≡ n
    ==_true_to {m} {n} e = ground arith

    ==_false_to : {m n : ℕ} → (m == n) ≡ false → m ≢ n
    ==_false_to {m} {n} e = ground arith

-- The state behind `reconfigure` and at the start: no bytes carried, lane 0, whatever `gSF` holds in
-- its lanes. Then, however the stream is cut into packets, the units handed out are its words in
-- groups of eight, in order, with no word lost or repeated, and less than a word is carried over.
pub feed_packets-groups :
    (ps : List Bytes) (sf : List ℕ) (emitted : List (List ℕ))
    → 8 ≤ length sf
    → ((feed_packets ps (record { phase = 0; sf = sf; emitted = emitted }, [])).0.emitted
        ≡ emitted ++ groups [] (words (stream ps)))
      × (length (feed_packets ps (record { phase = 0; sf = sf; emitted = emitted }, [])).1 < 4)
unfolding feed_bytes
feed_packets-groups ps sf emitted h =
    rw (feed_packets-stream ps (start, []) (omega arith))
      (take_words-groups (stream ps) [] start pending (omega arith), length-carry (stream ps) start)
  where
    start : Units
    start = record { phase = 0; sf = sf; emitted = emitted }

    pending : IsPending [] start
    pending = record { lanes = h; lane = refl; held = refl }
