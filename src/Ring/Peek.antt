-- ===== src/Ring/Peek.antt =====
-- The level meters of Tools/ERAudioRing.h: peaks over the last frames behind the write counter, and
-- the levels that the engine publishes.
use mathlib.Core.Path.{ap₂}
use native.Mathlib.Decide.{ℕ_discrete}
use r_compatible_driver_v.Base.{
  ℕ, zero, suc, ◌+◌, ◌-◌, ◌*◌, ◌^◌, ◌<◌, ◌≡◌, refl, ap, ◌∙◌, arith, le→leb, lt→ltb, ==_false, ltb,
  leb, ◌==◌, if◌then◌else◌, min, Bool, true, false, Bool-cases, inl, inr, ◌⊎◌, u32,
}
use r_compatible_driver_v.Ring.{Cells, ErRing, ring_frames, in_ch, out_ch, slot}
use r_compatible_driver_v.Ring.Half.{History, Holds}
use r_compatible_driver_v.Ring.Fifo.{View, IsSound}

-- ER_PEEK_FRAMES
abbrev pub peek_frames : ℕ
peek_frames = 1024

-- What the meters use of `float`.
pub record Float (A : Type 0) : Type 0 where
  pub nought : A
  pub is_negative : A → Bool
  pub negate : A → A
  pub greater : A → A → Bool

-- `dst[i] = v`
abbrev pub store {ℓ} : {A : Type ℓ} → (ℕ → A) → ℕ → A → ℕ → A
store dst i v j = if j == i then v else dst j

module _ {A : Type 0} (fl : Float A) where
  abbrev pub magnitude : A → A
  magnitude v = if fl.is_negative v then fl.negate v else v

  -- `if (v > outPeak[c]) outPeak[c] = v`
  abbrev pub louder : A → A → A
  louder peak v = if fl.greater (magnitude v) peak then magnitude v else peak

  -- The first loop, from channel `c` on.
  unfoldable pub clear_peaks : ℕ → ℕ → Cells A → Cells A
  clear_peaks zero c out = out
  clear_peaks (suc n) c out = clear_peaks n (c + 1) (store out c fl.nought)

  -- The loop over the channels of one frame, from channel `c` on.
  unfoldable pub peek_channels : ℕ → ℕ → Cells A → ℕ → Cells A → Cells A
  peek_channels zero c buf base out = out
  peek_channels (suc n) c buf base out =
      peek_channels n (c + 1) buf base (store out c (louder (out c) (buf (base + c))))

  -- The loop over the frames, from frame `f` on.
  unfoldable pub peek_scan : ℕ → ℕ → Cells A → ℕ → ℕ → Cells A → Cells A
  peek_scan zero f buf nch start out = out
  peek_scan (suc n) f buf nch start out =
      peek_scan n (f + 1) buf nch start (peek_channels nch 0 buf (slot (start + f) * nch) out)

  unfoldable pub er_peek_levels : Cells A → ℕ → ℕ → ℕ → Cells A → Cells A
  er_peek_levels buf nch write_counter lookback out =
      let cleared = clear_peaks nch 0 out in
      if write_counter == 0
      then cleared
      else (let back = if ltb write_counter lookback then u32 write_counter else lookback in
          let n = if ltb ring_frames back then ring_frames else back in
          peek_scan n 0 buf nch (write_counter - n) cleared)

  unfoldable pub er_in_peek_levels : ErRing A → Cells A → Cells A
  er_in_peek_levels r out = er_peek_levels r.in_cells in_ch r.in_write peek_frames out

  pub er_out_peek_levels : ErRing A → Cells A → Cells A
  er_out_peek_levels r out = er_peek_levels r.out_cells out_ch r.out_write peek_frames out

  -- The peak of one channel over `n` frames of a history from number `start` on.
  abbrev pub loudest : History A → ℕ → ℕ → ℕ → A → A
  loudest h c zero start peak = peak
  loudest h c (suc n) start peak = loudest h c n (start + 1) (louder peak (h start c))

-- The copies of the published levels.
copy_levels : {A : Type 0} → ℕ → ℕ → Cells A → Cells A → Cells A
copy_levels zero c level out = out
copy_levels (suc n) c level out = copy_levels n (c + 1) level (store out c (level c))

pub er_read_in_meters : {A : Type 0} → ErRing A → Cells A → Cells A
er_read_in_meters r out = copy_levels in_ch 0 r.in_level out

pub er_read_out_meters : {A : Type 0} → ErRing A → Cells A → Cells A
er_read_out_meters r out = copy_levels out_ch 0 r.out_level out

module _ {A : Type 0} (fl : Float A) where
  clear_peaks_lem :
      (n c : ℕ) (out : Cells A) (j : ℕ)
      → clear_peaks fl n c out j
        ≡ (if leb c j then (if ltb j (c + n) then fl.nought else out j) else out j)
  unfolding clear_peaks
  clear_peaks_lem zero c out j = ground arith
  clear_peaks_lem (suc n) c out j =
      ground (arith, clear_peaks_lem n (c + 1) (store out c fl.nought) j)

  peek_channels_lem :
      (n c : ℕ) (buf : Cells A) (base : ℕ) (out : Cells A) (j : ℕ)
      → peek_channels fl n c buf base out j ≡ (
          if leb c j
          then (if ltb j (c + n) then louder fl (out j) (buf (base + j)) else out j)
          else out j)
  unfolding peek_channels
  peek_channels_lem zero c buf base out j = ground arith
  peek_channels_lem (suc n) c buf base out j = ground (
    arith,
    peek_channels_lem n (c + 1) buf base (store out c (louder fl (out c) (buf (base + c)))) j,
    ap (λ k. louder fl (out k) (buf (base + k))) {x = c} {y = j},
  )

  -- One frame of the scan, then the rest: channel `c` of the peaks.
  peek_scan_lem :
      (h : History A) (buf : Cells A) (nch c : ℕ)
      → c < nch
      → (n f start : ℕ) (out : Cells A)
      → ((i : ℕ) → i < n → buf (slot (start + (f + i)) * nch + c) ≡ h (start + (f + i)) c)
      → peek_scan fl n f buf nch start out c ≡ loudest fl h c n (start + f) (out c)
  unfolding peek_scan
  peek_scan_lem h buf nch c hc zero f start out same = refl
  peek_scan_lem h buf nch c hc (suc n) f start out same =
      peek_scan_lem h buf nch c hc n (f + 1) start _ (λ i p. later i p)
      ∙ ap₂ (λ a b. loudest fl h c n a b) (omega arith) here
    where
      later :
          (i : ℕ) → i < n → buf (slot (start + (f + 1 + i)) * nch + c) ≡ h (start + (f + 1 + i)) c
      later i p =
          let e : start + (f + suc i) ≡ start + (f + 1 + i) = omega arith in
          rw e at (same (suc i) (omega arith))

      now : buf (slot (start + f) * nch + c) ≡ h (start + f) c
      now = let e : start + (f + 0) ≡ start + f = omega arith in rw e at (same 0 (omega arith))

      here :
          peek_channels fl nch 0 buf (slot (start + f) * nch) out c
          ≡ louder fl (out c) (h (start + f) c)
      here =
          peek_channels_lem nch 0 buf (slot (start + f) * nch) out c
          ∙ rw (le→leb 0 c (omega arith), lt→ltb c (0 + nch) (omega arith))
              (ap (louder fl (out c)) now)

-- The frames that a meter looks at.
abbrev pub lookback_frames : ℕ → ℕ
lookback_frames written = min written peek_frames

-- What a meter of `lookback` frames shows of a history.
abbrev pub shown : {A : Type 0} → Float A → History A → ℕ → ℕ → A
shown fl h written c =
    loudest fl h c (lookback_frames written) (written - lookback_frames written) fl.nought

module _ {A : Type 0} (fl : Float A) {nch : ℕ} {cells : Cells A} {w rd written consumed : ℕ}
    {h : History A} (v : Holds nch cells w rd written consumed h) (small : written < 2 ^ 64) where
  cleared_lem : (out : Cells A) (c : ℕ) → c < nch → clear_peaks fl nch 0 out c ≡ fl.nought
  cleared_lem out c hc =
      clear_peaks_lem fl nch 0 out c
      ∙ rw (le→leb 0 c (omega arith), lt→ltb c (0 + nch) (omega arith))

  scanned :
      (out : Cells A) (c : ℕ)
      → c < nch
      → peek_scan fl
          (lookback_frames written)
          0
          cells
          nch
          (written - lookback_frames written)
          (clear_peaks fl nch 0 out)
          c
        ≡ shown fl h written c
  scanned out c hc =
      peek_scan_lem fl h cells nch c hc (lookback_frames written) 0
        (written - lookback_frames written) (clear_peaks fl nch 0 out)
        (λ i p. v.held _ c (omega arith) (omega arith) hc)
      ∙ ap₂ (λ a b. loudest fl h c (lookback_frames written) a b) (omega arith)
          (cleared_lem out c hc)

  back_lem :
      (let back = if ltb written peek_frames then u32 written else peek_frames in
        if ltb ring_frames back then ring_frames else back)
      ≡ lookback_frames written
  back_lem = ground arith

  pub er_peek_levels_lem :
      (out : Cells A) (c : ℕ)
      → c < nch
      → er_peek_levels fl cells nch w peek_frames out c ≡ shown fl h written c
  unfolding er_peek_levels
  er_peek_levels_lem out c hc = rw same (elim (ℕ_discrete written 0) [
    | yes e ↦ rw e (cleared_lem out c hc)
    | no ne ↦ rw ((==_false written 0 ne), back_lem) (scanned out c hc)
  ])
    where
      same : w ≡ written
      same = omega (arith, v.write_is, small)

-- What holds of the order of `float`: NaN is no number, and greater than nothing.
pub record IsOrdered {A : Type 0} (fl : Float A) (is_number : A → Bool) : Type 0 where
  pub nought_number : is_number fl.nought ≡ true
  pub irreflexive : (a : A) → fl.greater a a ≡ false
  pub transitive :
      (a b c : A) → fl.greater a b ≡ true → fl.greater b c ≡ true → fl.greater a c ≡ true
  pub number : (a b : A) → fl.greater a b ≡ true → is_number a ≡ true
  pub cotransitive :
      (a b c : A)
      → is_number b ≡ true
      → fl.greater a b ≡ false
      → fl.greater a c ≡ true
      → fl.greater b c ≡ true
  pub negative :
      (v x : A)
      → fl.is_negative v ≡ true
      → fl.greater v x ≡ true
      → fl.greater (fl.negate v) x ≡ true
  pub positive :
      (v x : A)
      → fl.is_negative v ≡ false
      → fl.greater (fl.negate v) x ≡ true
      → fl.greater v x ≡ true

-- The peak of one channel over `n` frames of a history from number `start` on: neither a sample nor its
-- opposite is greater, nor is zero, and it is zero, or a sample or its opposite.
pub record IsPeak {A : Type 0} (fl : Float A) (h : History A) (c n start : ℕ) (p : A) : Type 0 where
  pub not_negative : fl.greater fl.nought p ≡ false
  pub bounds :
      (i : ℕ)
      → i < n
      → (fl.greater (h (start + i) c) p ≡ false)
        × (fl.greater (fl.negate (h (start + i) c)) p ≡ false)
  pub attained :
      (p ≡ fl.nought)
      ⊎ ((i : ℕ) × (i < n) × ((p ≡ h (start + i) c) ⊎ (p ≡ fl.negate (h (start + i) c))))

refuted : (b : Bool) → (b ≡ true → ⊥) → b ≡ false
refuted true h = absurd (h refl)
refuted false h = refl

opposed : (b : Bool) → b ≡ true → b ≡ false → ⊥
opposed true e f = cc
opposed false e f = cc

module _ {A : Type 0} (fl : Float A) (is_number : A → Bool) (o : IsOrdered fl is_number) where
  -- A magnitude is a sample or its opposite, and greater than all that either is greater than.
  magnitude-either : (v : A) → (magnitude fl v ≡ v) ⊎ (magnitude fl v ≡ fl.negate v)
  magnitude-either v = elim (Bool-cases (fl.is_negative v)) [
    | inl e ↦ inr (rw e refl)
    | inr e ↦ inl (rw e refl)
  ]

  magnitude-above : (v x : A) → fl.greater v x ≡ true → fl.greater (magnitude fl v) x ≡ true
  magnitude-above v x h = elim (Bool-cases (fl.is_negative v)) [
    | inl e ↦ rw e (o.negative v x e h)
    | inr e ↦ rw e h
  ]

  magnitude-above_negated :
      (v x : A) → fl.greater (fl.negate v) x ≡ true → fl.greater (magnitude fl v) x ≡ true
  magnitude-above_negated v x h = elim (Bool-cases (fl.is_negative v)) [
    | inl e ↦ rw e h
    | inr e ↦ rw e (o.positive v x e h)
  ]

  -- What the louder one does not exceed, neither of the two exceeds.
  louder-peak : (peak v p : A) → fl.greater (louder fl peak v) p ≡ false → fl.greater peak p ≡ false
  louder-peak peak v p h = elim (Bool-cases (fl.greater (magnitude fl v) peak)) [
    | inl e ↦ refuted (fl.greater peak p) (λ k.
        opposed (fl.greater (magnitude fl v) p) (o.transitive (magnitude fl v) peak p e k)
          (rw e at h))
    | inr e ↦ rw e at h
  ]

  louder-magnitude :
      (peak v p : A)
      → is_number peak ≡ true
      → fl.greater (louder fl peak v) p ≡ false
      → fl.greater (magnitude fl v) p ≡ false
  louder-magnitude peak v p n h = elim (Bool-cases (fl.greater (magnitude fl v) peak)) [
    | inl e ↦ rw e at h
    | inr e ↦ refuted (fl.greater (magnitude fl v) p) (λ k.
        opposed (fl.greater peak p) (o.cotransitive (magnitude fl v) peak p n e k) (rw e at h))
  ]

  louder-number : (peak v : A) → is_number peak ≡ true → is_number (louder fl peak v) ≡ true
  louder-number peak v n = elim (Bool-cases (fl.greater (magnitude fl v) peak)) [
    | inl e ↦ rw e (o.number (magnitude fl v) peak e)
    | inr e ↦ rw e n
  ]

  louder-either : (peak v : A) → (louder fl peak v ≡ peak) ⊎ (louder fl peak v ≡ magnitude fl v)
  louder-either peak v = elim (Bool-cases (fl.greater (magnitude fl v) peak)) [
    | inl e ↦ inr (rw e refl)
    | inr e ↦ inl (rw e refl)
  ]

  abbrev Below : History A → ℕ → ℕ → ℕ → A → Type 0
  Below h c n start p =
      (i : ℕ)
      → i < n
      → (fl.greater (h (start + i) c) p ≡ false)
        × (fl.greater (fl.negate (h (start + i) c)) p ≡ false)

  abbrev Attained : History A → ℕ → ℕ → ℕ → A → A → Type 0
  Attained h c n start peak p =
      (p ≡ peak) ⊎ ((i : ℕ) × (i < n) × ((p ≡ h (start + i) c) ⊎ (p ≡ fl.negate (h (start + i) c))))

  -- The first frame, and the frames behind it
  Below-first :
      (h : History A) (c n start : ℕ) (p : A)
      → fl.greater (magnitude fl (h start c)) p ≡ false
      → Below h c n (start + 1) p
      → Below h c (suc n) start p
  Below-first h c n start p m rest zero lt =
      let e : start + 0 ≡ start = omega arith in
      rw e (
        refuted (fl.greater (h start c) p) (λ k.
            opposed (fl.greater (magnitude fl (h start c)) p) (magnitude-above (h start c) p k) m),
        refuted (fl.greater (fl.negate (h start c)) p) (λ k.
            opposed (fl.greater (magnitude fl (h start c)) p)
              (magnitude-above_negated (h start c) p k) m),
      )
  Below-first h c n start p m rest (suc i) lt =
      let e : start + 1 + i ≡ start + suc i = omega arith in rw e at (rest i (omega arith))

  Attained-later :
      (h : History A) (c n start : ℕ) (peak p : A)
      → Attained h c n (start + 1) (louder fl peak (h start c)) p
      → Attained h c (suc n) start peak p
  Attained-later h c n start peak p (inr (i, lt, x)) =
      let e : start + 1 + i ≡ start + suc i = omega arith in inr (suc i, omega arith, rw e at x)
  Attained-later h c n start peak p (inl q) = elim (louder-either peak (h start c)) [
    | inl e ↦ inl (q ∙ e)
    | inr e ↦
        let z : start + 0 ≡ start = omega arith in
        inr (
          0,
          omega arith,
          rw z (elim (magnitude-either (h start c)) [
            | inl m ↦ inl (q ∙ e ∙ m)
            | inr m ↦ inr (q ∙ e ∙ m)
          ]),
        )
  ]

  loudest_lem :
      (h : History A) (c n start : ℕ) (peak : A)
      → is_number peak ≡ true
      → let p = loudest fl h c n start peak in
        (fl.greater peak p ≡ false) × Below h c n start p × Attained h c n start peak p
  loudest_lem h c zero start peak num = (o.irreflexive peak, λ i lt. absurd (omega arith), inl refl)
  loudest_lem h c (suc n) start peak num =
      let next = louder fl peak (h start c) in
      let p = loudest fl h c n (start + 1) next in
      let (above, below, attained) =
        loudest_lem h c n (start + 1) next (louder-number peak (h start c) num) in
      (
        louder-peak peak (h start c) p above,
        Below-first h c n start p (louder-magnitude peak (h start c) p num above) below,
        Attained-later h c n start peak p attained,
      )

  shown-IsPeak :
      (h : History A) (written c : ℕ)
      → IsPeak fl h c
          (lookback_frames written)
          (written - lookback_frames written)
          (shown fl h written c)
  shown-IsPeak h written c =
      let l =
        loudest_lem h c (lookback_frames written) (written - lookback_frames written) fl.nought
          o.nought_number in
      record { not_negative = l.0; bounds = l.1; attained = l.2 }

  -- As long as the counters have not wrapped at 2 ^ 64, the meters show for each channel the loudest
  -- magnitude of the last frames written (1024, or all if there are fewer), whether or not they have
  -- been read: neither a sample of them nor its opposite is greater, nor is zero, and the value is zero, or a
  -- sample or its opposite. Samples that are no numbers, which are greater than nothing, do not count.
  pub peek_levels_lem :
      (r : ErRing A) (v : View A) (out : Cells A)
      → IsSound r v
      → v.in_written < 2 ^ 64
      → v.out_written < 2 ^ 64
      → ((c : ℕ)
          → c < in_ch
          → IsPeak fl v.in_history c
              (min v.in_written 1024)
              (v.in_written - min v.in_written 1024)
              (er_in_peek_levels fl r out c))
        × ((c : ℕ)
            → c < out_ch
            → IsPeak fl v.out_history c
                (min v.out_written 1024)
                (v.out_written - min v.out_written 1024)
                (er_out_peek_levels fl r out c))
  unfolding er_in_peek_levels er_out_peek_levels
  peek_levels_lem r v out sound hi ho = (
    λ c hc.
        rw (er_peek_levels_lem fl sound.input hi out c hc)
          (shown-IsPeak v.in_history v.in_written c),
    λ c hc.
        rw (er_peek_levels_lem fl sound.output ho out c hc)
          (shown-IsPeak v.out_history v.out_written c),
  )

-- The peaks leave what lies behind the channels.
copy_levels_lem :
    {A : Type 0} (n c : ℕ) (level out : Cells A) (j : ℕ)
    → copy_levels n c level out j
      ≡ (if leb c j then (if ltb j (c + n) then level j else out j) else out j)
unfolding copy_levels
copy_levels_lem zero c level out j = ground arith
copy_levels_lem (suc n) c level out j =
    ground
      (arith, copy_levels_lem n (c + 1) level (store out c (level c)) j, ap level {x = c} {y = j})
