-- ===== src/Driver/Transport/Walk.antt =====
-- The walk over the interfaces of the configuration finds the two that the transport needs.
use native.Mathlib.Nat.{suc-add}
use r_compatible_driver_v.Base.{
  ℕ, zero, suc, ◌+◌, Bool, true, false, not, ◌&&◌, ◌||◌, List, [], ◌∷◌, ◌==◌, if◌then◌else◌, arith,
  sym, ◌∙◌, ◌≡◌, inl, inr, refl, Bool-cases,
}
use r_compatible_driver_v.Driver.Host.{Platform, Reply, ok, ◌>>=◌, call, copy_interface}
use r_compatible_driver_v.Driver.Completions.{Dev}
use r_compatible_driver_v.Driver.Transport.{find_interfaces, keep_interface}

-- Whether a number is in a list
abbrev pub has : ℕ → List ℕ → Bool
has n [] = false
has n (m ∷ ms) = m == n || has n ms

not-true : (b : Bool) → not b ≡ true → b ≡ false
not-true true h = cc
not-true false h = refl

chosen : (b : Bool) {r : Bool} → b ≡ true → (if b then r else true) ≡ true → r ≡ true
chosen true e h = h
chosen false e h = cc

module _ {W : Type 0} (p : Platform W) where
  abbrev found : W → Bool
  found w = let a = (p copy_interface w).0 in a.status == 0 && not (a.count == 0)

  -- The interface numbers that the iterator gives out, if it ends within so many.
  unfoldable pub listed : ℕ → W → List ℕ
  listed zero w = []
  listed (suc n) w =
      let rest = listed n (p copy_interface w).1 in
      if found w then (p copy_interface w).0.value ∷ rest else []

  unfoldable pub ends_within : ℕ → W → Bool
  ends_within zero w = not (found w)
  ends_within (suc n) w =
      let rest = ends_within n (p copy_interface w).1 in if found w then rest else true

  -- Every interface of the list has been looked at, and no other.
  pub record IsFound (numbers : List ℕ) (d : Dev W) (x : Reply (Unit {0}) × Dev W) : Type 0 where
    pub succeeds : x.0 ≡ ok tt
    pub found_input : x.1.usb_input_interface ≡ (d.usb_input_interface || has 4 numbers)
    pub found_output : x.1.usb_output_interface ≡ (d.usb_output_interface || has 3 numbers)

  abbrev looked : Dev W → Dev W
  looked d = (call p copy_interface d).1

  abbrev kept : Dev W → Dev W
  kept d = (keep_interface p (p copy_interface d.world).0.value (looked d)).1

  round :
      (m : ℕ) (d : Dev W)
      → find_interfaces p (suc m) d
        ≡ (if found d.world then find_interfaces p m (kept d) else (ok tt, looked d))
  unfolding find_interfaces ◌>>=◌ call
  round m d = elim (Bool-cases (found d.world)) [ inl e ↦ rw e refl | inr e ↦ rw e refl ]

  kept-input :
      (d : Dev W) (numbers : List ℕ)
      → ((kept d).usb_input_interface || has 4 numbers)
        ≡ (d.usb_input_interface || has 4 ((p copy_interface d.world).0.value ∷ numbers))
  unfolding call ◌>>=◌
  kept-input d numbers = ground arith

  kept-output :
      (d : Dev W) (numbers : List ℕ)
      → ((kept d).usb_output_interface || has 3 numbers)
        ≡ (d.usb_output_interface || has 3 ((p copy_interface d.world).0.value ∷ numbers))
  unfolding call ◌>>=◌
  kept-output d numbers = ground arith

  kept-world : (d : Dev W) → (kept d).world ≡ (p copy_interface d.world).1
  unfolding call ◌>>=◌
  kept-world d = ground arith

  done : (d : Dev W) → IsFound [] d (ok tt, looked d)
  unfolding call
  done d = record { succeeds = refl; found_input = ground arith; found_output = ground arith }

  then_found :
      (d : Dev W) (numbers : List ℕ) (x : Reply (Unit {0}) × Dev W)
      → IsFound numbers (kept d) x
      → IsFound ((p copy_interface d.world).0.value ∷ numbers) d x
  then_found d numbers x f = record {
    succeeds = f.succeeds;
    found_input = f.found_input ∙ kept-input d numbers;
    found_output = f.found_output ∙ kept-output d numbers;
  }

  -- If the iterator ends within n interfaces, n + 1 rounds or more of the walk succeed and have looked at
  -- all of them: the input interface is there if it was before or one of them has number 4, and the
  -- output interface with number 3.
  pub find_interfaces_lem :
      (n k : ℕ) (d : Dev W)
      → ends_within n d.world ≡ true
      → IsFound (listed n d.world) d (find_interfaces p (suc n + k) d)
  unfolding ends_within listed
  find_interfaces_lem zero k d h =
      rw (suc-add, round (0 + k) d, not-true (found d.world) h) (done d)
  find_interfaces_lem (suc n) k d h = elim (Bool-cases (found d.world)) [
    | inl e ↦
        rw (suc-add, round (suc n + k) d, e)
          (then_found d (listed n (p copy_interface d.world).1) _ (
            rw (sym (kept-world d))
              (find_interfaces_lem n k (kept d) (rw (kept-world d) (chosen (found d.world) e h)))))
    | inr e ↦ rw (suc-add, round (suc n + k) d, e) (done d)
  ]
