-- ===== src/Ring/Shm.antt =====
-- Life of the shared-memory object: `er_ring_create`, `er_ring_attach`, `er_ring_close` of
-- Tools/ERAudioRing.h, and the reset of the counters in `main` of Tools/erengine.c. The system calls
-- are not modelled: what they answer, and what the object holds, are arguments.
use mathlib.Core.Path.{subst}
use r_compatible_driver_v.Base.{
  ℕ, ◌≡◌, ◌≢◌, refl, sym, ap, ◌∙◌, arith, ltb, ◌==◌, if◌then◌else◌, Bool, true, false, not, ◌||◌,
  ◌&&◌, Option, none, some, List, [], ◌∷◌, ◌⊎◌,
}
use r_compatible_driver_v.Ring.{ErRing, in_ch, out_ch}
use r_compatible_driver_v.Ring.Half.{History}
use r_compatible_driver_v.Ring.Fifo.{View, IsSound}

-- ER_RING_MAGIC, ER_RING_VERSION, sizeof(ERRing)
abbrev pub ring_magic : ℕ
ring_magic = 0x33314552

abbrev pub ring_version : ℕ
ring_version = 3

abbrev pub ring_size : ℕ
ring_size = 1835128

-- What the system answers to one call of `er_ring_create`, in its order.
pub record Answers : Type 0 where
  pub opened : Bool
  pub made : Bool
  pub opened_again : Bool
  pub sized : Bool
  pub size : ℕ
  pub grown : Bool
  pub mapped : Bool

pub data Release : Type 0 where
  close unlink unmap : Release

-- The ring or NULL, whether this call made the object, and what was released, in order.
pub record Created (A : Type 0) : Type 0 where
  pub ring : Option (ErRing A)
  pub first_time : Bool
  pub released : List Release

module _ {A : Type 0} (nought : A) where
  -- `memset` to zero, the four fields, the magic.
  pub initial_ring : ErRing A
  initial_ring = record {
    magic = ring_magic;
    version = ring_version;
    sample_rate = 48000;
    streaming_requested = 0;
    engine_running = 0;
    xrun_count = 0;
    in_channels = in_ch;
    out_channels = out_ch;
    in_write = 0;
    in_read = 0;
    out_write = 0;
    out_read = 0;
    in_cells = λ _. nought;
    out_cells = λ _. nought;
    in_level = λ _. nought;
    out_level = λ _. nought;
  }

  abbrev failed : Bool → List Release → Created A
  failed first released = record { ring = none; first_time = first; released = released }

  -- From `mmap` on.
  unfoldable pub map_ring : Answers → ErRing A → Bool → Created A
  map_ring os held first = if not os.mapped then failed first (close ∷ []) else record {
    ring = some (if first || not (held.magic == ring_magic) then initial_ring else held);
    first_time = first;
    released = close ∷ [];
  }

  -- From `fstat` on.
  unfoldable pub size_ring : Answers → ErRing A → Bool → Created A
  size_ring os held first =
      let given_up = failed first (close ∷ (if first then unlink ∷ [] else [])) in
      if not os.sized
      then given_up
      else if ltb os.size ring_size && not os.grown
      then given_up
      else map_ring os held first

  unfoldable pub er_ring_create : Answers → ErRing A → Created A
  er_ring_create os held =
      if os.opened
      then size_ring os held false
      else if os.made
      then size_ring os held true
      else if os.opened_again
      then size_ring os held false
      else failed false []

-- The two answers are those of `shm_open` and `mmap`.
pub er_ring_attach : {A : Type 0} → Bool → Bool → ErRing A → Option (ErRing A) × List Release
er_ring_attach opened mapped held =
    if not opened
    then (none, [])
    else if not mapped
    then (none, close ∷ [])
    else if not (held.magic == ring_magic)
    then (none, close ∷ unmap ∷ [])
    else (some held, close ∷ [])

pub er_ring_close : Bool → Bool → List Release
er_ring_close given unlink_it =
    let rest = if unlink_it then unlink ∷ [] else [] in if given then unmap ∷ rest else rest

-- What `main` of the engine does with the ring that it got.
pub start_bridge : {A : Type 0} → ErRing A → ℕ → ErRing A
start_bridge r rate = record r {
  in_write = 0;
  in_read = 0;
  out_write = 0;
  out_read = 0;
  engine_running = 1;
  sample_rate = rate;
}

-- Nothing written, nothing read.
abbrev pub empty_view : {A : Type 0} → History A → History A → View A
empty_view h k = record {
  in_written = 0;
  in_consumed = 0;
  in_history = h;
  out_written = 0;
  out_consumed = 0;
  out_history = k;
}

empty-IsSound :
    {A : Type 0} (r : ErRing A) (h k : History A)
    → r.in_write ≡ 0
    → r.in_read ≡ 0
    → r.out_write ≡ 0
    → r.out_read ≡ 0
    → IsSound r (empty_view h k)
empty-IsSound r h k a b c d = record {
  input = record {
    write_is = a;
    read_is = b;
    order = omega arith;
    room = omega arith;
    held = λ t e lo hi hc. absurd (omega arith);
  };
  output = record {
    write_is = c;
    read_is = d;
    order = omega arith;
    room = omega arith;
    held = λ t e lo hi hc. absurd (omega arith);
  };
}

-- The ring that a call returns, by whether it made the object.
abbrev settled : {A : Type 0} → A → ErRing A → Bool → ErRing A
settled nought held first =
    if first || not (held.magic == ring_magic) then initial_ring nought else held

abbrev Settles : {A : Type 0} → A → ErRing A → Created A → ErRing A → Type 0
Settles nought held made r = r ≡ settled nought held made.first_time

module _ {A : Type 0} (nought : A) (os : Answers) (held r : ErRing A) where
  map_ring_lem :
      (first : Bool)
      → (map_ring nought os held first).ring ≡ some r
      → Settles nought held (map_ring nought os held first) r
  unfolding map_ring
  map_ring_lem first e = ground arith

  size_ring_lem :
      (first : Bool)
      → (size_ring nought os held first).ring ≡ some r
      → Settles nought held (size_ring nought os held first) r
  unfolding size_ring
  size_ring_lem first e = ground (arith, map_ring_lem first)

  create_lem :
      (er_ring_create nought os held).ring ≡ some r
      → Settles nought held (er_ring_create nought os held) r
  unfolding er_ring_create
  create_lem e = ground (arith, size_ring_lem true, size_ring_lem false)

settled-magic :
    {A : Type 0} (nought : A) (held : ErRing A) (first : Bool)
    → (settled nought held first).magic ≡ ring_magic
unfolding initial_ring
settled-magic nought held first = ground arith

attach_lem :
    {A : Type 0} (r : ErRing A)
    → r.magic ≡ ring_magic
    → er_ring_attach true true r ≡ (some r, close ∷ [])
unfolding er_ring_attach
attach_lem r e = rw e

initial-IsSound :
    {A : Type 0} (nought : A) (h k : History A) → IsSound (initial_ring nought) (empty_view h k)
unfolding initial_ring
initial-IsSound nought h k = empty-IsSound _ h k refl refl refl refl

-- Whatever the system answers and whatever the object held, a ring that `er_ring_create` returns is
-- accepted by `er_ring_attach`; if this call made the object, or its magic was stale, the ring is the
-- initial one, which stands for two empty directions; otherwise it is left as it was.
pub er_ring_create_lem :
    {A : Type 0} (nought : A) (os : Answers) (held r : ErRing A)
    → (er_ring_create nought os held).ring ≡ some r
    → (er_ring_attach true true r ≡ (some r, close ∷ []))
      × (((er_ring_create nought os held).first_time ≡ true) ⊎ (held.magic ≢ ring_magic)
          → (r ≡ initial_ring nought) × ((h k : History A) → IsSound r (empty_view h k)))
      × ((er_ring_create nought os held).first_time ≡ false → held.magic ≡ ring_magic → r ≡ held)
er_ring_create_lem {A} nought os held r e =
    let made = create_lem nought os held r e in
    (
      attach_lem r (ap (λ (x : ErRing A). x.magic) made ∙ settled-magic nought held _),
      λ c.
          let fresh : r ≡ initial_ring nought = ground arith in
          (
            fresh,
            λ h k. subst (λ x. IsSound x (empty_view h k)) (sym fresh) (initial-IsSound nought h k),
          ),
      λ f m. ground arith,
    )

-- After `start_bridge` both directions are empty, whatever the ring held.
pub start_bridge-IsSound :
    {A : Type 0} (r : ErRing A) (rate : ℕ) (h k : History A)
    → IsSound (start_bridge r rate) (empty_view h k)
unfolding start_bridge
start_bridge-IsSound r rate h k = empty-IsSound _ h k refl refl refl refl
