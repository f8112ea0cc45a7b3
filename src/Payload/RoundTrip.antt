-- ===== src/Payload/RoundTrip.antt =====
-- `unpack_7bit` inverts the packing of the device.
use native.Mathlib.Nat.{one-le-pow}
use r_compatible_driver_v.Base.{
  ℕ, zero, suc, ◌+◌, ◌-◌, ◌*◌, ◌/◌, ◌%◌, ◌^◌, ◌≤◌, ◌<◌, ◌≡◌, refl, ap, ◌∙◌, arith, Bytes, [], ◌∷◌,
  ◌++◌, length, take, drop, ltb, lt→ltb, u8, bit_or, bit_or_low, AreBytes, true, length-append,
  all_below, all_below_sound, ltb→lt, length-take, length-drop, take-append-drop, min,
}
use r_compatible_driver_v.Payload.{
  unpack_block, unpack_from, unpack_7bit, pack_block, pack_from, pack_7bit,
}

-- The two septets of a byte give it back: the carry `k` has the bits of the byte before, `t` those of
-- the byte behind.
phase_step :
    (p k b t : ℕ)
    → 1 ≤ p
    → p ≤ 7
    → b < 256
    → t < 2 ^ (7 - p)
    → u8 (
        bit_or
          ((k * 2 ^ (8 - p) + b / 2 ^ p) * 2 ^ p)
          ((b % 2 ^ p * 2 ^ (7 - p) + t) / 2 ^ (7 - p)))
      ≡ b
phase_step zero k b t lo hi lt lt' = absurd (omega arith)
phase_step (suc zero) k b t lo hi lt lt' =
    omega (arith, bit_or_low 1 (k * 128 + b / 2) ((b % 2 * 64 + t) / 64))
phase_step (suc (suc zero)) k b t lo hi lt lt' =
    omega (arith, bit_or_low 2 (k * 64 + b / 4) ((b % 4 * 32 + t) / 32))
phase_step (suc (suc (suc zero))) k b t lo hi lt lt' =
    omega (arith, bit_or_low 3 (k * 32 + b / 8) ((b % 8 * 16 + t) / 16))
phase_step (suc (suc (suc (suc zero)))) k b t lo hi lt lt' =
    omega (arith, bit_or_low 4 (k * 16 + b / 16) ((b % 16 * 8 + t) / 8))
phase_step (suc (suc (suc (suc (suc zero))))) k b t lo hi lt lt' =
    omega (arith, bit_or_low 5 (k * 8 + b / 32) ((b % 32 * 4 + t) / 4))
phase_step (suc (suc (suc (suc (suc (suc zero)))))) k b t lo hi lt lt' =
    omega (arith, bit_or_low 6 (k * 4 + b / 64) ((b % 64 * 2 + t) / 2))
phase_step (suc (suc (suc (suc (suc (suc (suc zero))))))) k b t lo hi lt lt' =
    omega (arith, bit_or_low 7 (k * 2 + b / 128) ((b % 128 * 1 + t) / 1))
phase_step (suc (suc (suc (suc (suc (suc (suc (suc p)))))))) k b t lo hi lt lt' =
    absurd (omega arith)

tail_table : all_below 8 (λ p. all_below 256 (λ b. ltb (b / 2 ^ (p + 1)) (2 ^ (7 - p)))) ≡ true
unfolding all_below
tail_table = refl

tail_bound : (p b : ℕ) → p ≤ 7 → b < 256 → b / 2 ^ (p + 1) < 2 ^ (7 - p)
tail_bound p b h lt =
    ltb→lt _ _ (all_below_sound 256 _ (all_below_sound 8 _ tail_table p (omega arith)) b lt)

unpack_block-one : (p room c : ℕ) → unpack_block p room (c ∷ []) ≡ []
unfolding unpack_block
unpack_block-one p zero c = refl
unpack_block-one p (suc room) c = refl

cons_path : {a b : ℕ} {l m : Bytes} → a ≡ b → l ≡ m → a ∷ l ≡ b ∷ m
cons_path e e' = cc

unpack_block-pack_block :
    (block : Bytes) (p k room : ℕ)
    → 1 ≤ p
    → length block + p ≤ 8
    → AreBytes block
    → length block ≤ room
    → unpack_block p room (pack_block p (k * 2 ^ (8 - p)) block) ≡ block
unfolding unpack_block pack_block
unpack_block-pack_block [] p k zero lo hi h fits = refl
unpack_block-pack_block [] p k (suc room) lo hi h fits = refl
unpack_block-pack_block (b ∷ block) p k zero lo hi h fits = absurd (omega arith)
unpack_block-pack_block (b ∷ []) p k (suc room) lo hi h fits =
    cons_path
      (ap (λ t. u8 (bit_or ((k * 2 ^ (8 - p) + b / 2 ^ p) * 2 ^ p) (t / 2 ^ (7 - p)))) plus_zero
        ∙ phase_step p k b 0 lo (omega arith) h.0 (one-le-pow (7 - p) 2 (omega arith)))
      (unpack_block-one (p + 1) room (b % 2 ^ p * 2 ^ (7 - p)))
  where
    plus_zero : b % 2 ^ p * 2 ^ (7 - p) ≡ b % 2 ^ p * 2 ^ (7 - p) + 0
    plus_zero = omega arith
unpack_block-pack_block (b ∷ b' ∷ block) p k (suc room) lo hi h fits =
    cons_path
      (phase_step p k b (b' / 2 ^ (p + 1)) lo (omega arith) h.0
        (tail_bound p b' (omega arith) h.1.0))
      (ap (λ e. unpack_block (p + 1) room (pack_block (p + 1) (b % 2 ^ p * 2 ^ e) (b' ∷ block)))
          next
        ∙ unpack_block-pack_block (b' ∷ block) (p + 1) (b % 2 ^ p) room (omega arith) (omega arith)
            h.1 (omega arith))
  where
    next : 7 - p ≡ 8 - (p + 1)
    next = omega arith

-- A front of exactly `n`, or a shorter one with nothing behind it.
cut :
    (n : ℕ) (xs ys : Bytes)
    → length xs ≤ n
    → (length xs < n → ys ≡ [])
    → (take n (xs ++ ys) ≡ xs) × (drop n (xs ++ ys) ≡ ys)
cut zero [] ys h e = (refl, refl)
cut zero (x ∷ xs) ys h e = absurd (omega arith)
cut (suc n) [] ys h e = rw (e (omega arith)) (refl, refl)
cut (suc n) (x ∷ xs) ys h e =
    let rest = cut n xs ys (omega arith) (λ lt. e (omega arith)) in (ap (◌∷◌ x) rest.0, rest.1)

length-pack_block : (block : Bytes) (p c : ℕ) → length (pack_block p c block) ≡ suc (length block)
unfolding pack_block
length-pack_block [] p c = refl
length-pack_block (b ∷ block) p c =
    ap suc (length-pack_block block (p + 1) (b % 2 ^ p * 2 ^ (7 - p)))

nil_of_length : (xs : Bytes) → length xs ≡ 0 → xs ≡ []
nil_of_length [] e = refl
nil_of_length (x ∷ xs) e = absurd (omega arith)

All-take : (n : ℕ) (xs : Bytes) → AreBytes xs → AreBytes (take n xs)
All-take zero xs h = tt
All-take (suc n) [] h = tt
All-take (suc n) (x ∷ xs) h = (h.0, All-take n xs h.1)

All-drop : (n : ℕ) (xs : Bytes) → AreBytes xs → AreBytes (drop n xs)
All-drop zero xs h = h
All-drop (suc n) [] h = tt
All-drop (suc n) (x ∷ xs) h = All-drop n xs h.1

pack_from-nil : (f : ℕ) → pack_from f [] ≡ []
unfolding pack_from
pack_from-nil zero = refl
pack_from-nil (suc f) = refl

unpack_from-nil : (fuel room : ℕ) → unpack_from fuel room [] ≡ []
unfolding unpack_from
unpack_from-nil zero room = refl
unpack_from-nil (suc fuel) room = refl

-- One round of the outer loop on a packed block and what is behind it.
unpack_from-block :
    (fuel room : ℕ) (block rest : Bytes)
    → 1 ≤ length block
    → length block ≤ 7
    → AreBytes block
    → length block ≤ room
    → (length block < 7 → rest ≡ [])
    → unpack_from (suc fuel) room (pack_block 1 0 block ++ rest)
      ≡ block ++ unpack_from fuel (room - length block) rest
unfolding unpack_from
unpack_from-block fuel room block rest lo hi h fits e =
    rw
      (
        parts.0,
        parts.1,
        test,
        unpack_block-pack_block block 1 0 room (omega arith) (omega arith) h fits,
      )
      refl
  where
    packed : Bytes
    packed = pack_block 1 0 block

    parts :
        (take 8 (pack_block 1 0 block ++ rest) ≡ pack_block 1 0 block)
        × (drop 8 (pack_block 1 0 block ++ rest) ≡ rest)
    parts =
        cut 8 (pack_block 1 0 block) rest (omega (arith, length-pack_block block 1 0))
          (λ lt. e (omega (arith, length-pack_block block 1 0)))

    test : ltb 1 (length (pack_block 1 0 block ++ rest)) ≡ true
    test =
        lt→ltb _ _
          (omega (arith, length-append (pack_block 1 0 block) rest, length-pack_block block 1 0))

unpack_from-pack_from :
    (f fuel room : ℕ) (raw : Bytes)
    → length raw ≤ f
    → length (pack_from f raw) ≤ fuel
    → AreBytes raw
    → length raw ≤ room
    → unpack_from fuel room (pack_from f raw) ≡ raw
unfolding pack_from
unpack_from-pack_from zero fuel room [] hf hfuel h fits = unpack_from-nil fuel room
unpack_from-pack_from zero fuel room (b ∷ raw) hf hfuel h fits = absurd (omega arith)
unpack_from-pack_from (suc f) fuel room [] hf hfuel h fits = unpack_from-nil fuel room
unpack_from-pack_from (suc f) zero room (b ∷ raw) hf hfuel h fits = absurd (
    omega (
      arith,
      length-append (pack_block 1 0 (take 7 (b ∷ raw))) (pack_from f (drop 7 (b ∷ raw))),
      length-pack_block (take 7 (b ∷ raw)) 1 0,
    ))
unpack_from-pack_from (suc f) (suc fuel) room (b ∷ raw) hf hfuel h fits =
    unpack_from-block fuel room block rest (omega (arith, len)) (omega (arith, len))
      (All-take 7 (b ∷ raw) h) (omega (arith, len))
      (λ lt.
        ap (pack_from f) (nil_of_length (drop 7 (b ∷ raw)) (omega (arith, len, left)))
        ∙ pack_from-nil f)
    ∙ ap (λ l. block ++ l)
        (unpack_from-pack_from f fuel (room - length block) (drop 7 (b ∷ raw)) (omega (arith, left))
          (omega (arith, length-append (pack_block 1 0 block) rest, length-pack_block block 1 0))
          (All-drop 7 (b ∷ raw) h) (omega (arith, len, left)))
    ∙ take-append-drop 7 (b ∷ raw)
  where
    block : Bytes
    block = take 7 (b ∷ raw)

    rest : Bytes
    rest = pack_from f (drop 7 (b ∷ raw))

    len : length (take 7 (b ∷ raw)) ≡ min 7 (length (b ∷ raw))
    len = length-take 7 (b ∷ raw)

    left : length (drop 7 (b ∷ raw)) ≡ length (b ∷ raw) - 7
    left = length-drop 7 (b ∷ raw)

-- Whatever bytes the device packs, `unpack_7bit` gives them back, if they fit in the buffer.
pub unpack_7bit-pack_7bit :
    (raw : Bytes) (capacity : ℕ)
    → AreBytes raw
    → length raw ≤ capacity
    → unpack_7bit (pack_7bit raw) capacity ≡ raw
unfolding unpack_7bit pack_7bit
unpack_7bit-pack_7bit raw capacity h fits =
    unpack_from-pack_from (length raw) (length (pack_from (length raw) raw)) capacity raw
      (omega arith) (omega arith) h fits
