-- ===== src/Ring/Spsc/Safety.antt =====
-- The invariant of the interleaved ring, kept by every step, and what follows in reachable states.
use native.Mathlib.Decide.{dec_lt}
use mathlib.Core.Path.{subst}
use r_compatible_driver_v.Base.{
  ℕ, ◌+◌, ◌-◌, ◌*◌, ◌^◌, ◌≤◌, ◌<◌, ◌≡◌, refl, ap, ◌∙◌, arith, u64, le→leb, lt→leb-false,
}
use r_compatible_driver_v.Ring.{
  Cells, ring_frames, target_fill, slot, surplus, er__avail, er__wr, er__rd,
}
use r_compatible_driver_v.Ring.Fifo.{surplus_lem}
use r_compatible_driver_v.Ring.Half.{
  History, extend, er__space_counters, er__avail_counters, er__wr-slot, er__rd-slot,
}
use r_compatible_driver_v.Ring.Reads.{er__rd_lem}
use r_compatible_driver_v.Ring.Writes.{er__wr_lem, er__wr_kept}
use r_compatible_driver_v.Ring.Spsc.{
  Producer, Consumer, Shared, write_count, read_start, read_count, Step, begin_write, copy_in,
  publish_write, begin_read, copy_out, publish_read, Reach, start, later, claimed, pending,
  Delivered, Reading, Fits, Inv,
}

-- New frames lie behind what a reader has copied.
Reading-extend :
    {A : Type 0} (nch written consumed next : ℕ) (h : History A) (src : Cells A) (k : Consumer A)
    → Fits written consumed next k
    → Reading nch next h k
    → Reading nch next (extend nch h written src) k
Reading-extend nch written consumed next h src Consumer.resting f r = tt
Reading-extend nch written consumed next h src (Consumer.loaded rd n) f r = r
Reading-extend nch written consumed next h src (Consumer.copied rd n dst) f r =
    (r.0, λ i c p hc. rw (lt→leb-false written (next + i) (omega (arith, f.1))) (r.1 i c p hc))

Fits-grow :
    {A : Type 0} (written consumed next n : ℕ) (k : Consumer A)
    → Fits written consumed next k
    → Fits (written + n) consumed next k
Fits-grow written consumed next n Consumer.resting f = tt
Fits-grow written consumed next n (Consumer.loaded rd m) f = (f.0, omega (arith, f.1))
Fits-grow written consumed next n (Consumer.copied rd m dst) f = (f.0, omega (arith, f.1))

-- What a read decides on lies between the counters.
plan_read :
    (w rd written consumed frames : ℕ)
    → w ≡ u64 written
    → rd ≡ u64 consumed
    → consumed ≤ written
    → written ≤ consumed + ring_frames
    → frames + target_fill < 2 ^ 32
    → (read_start w rd frames ≡ u64 (consumed + surplus (er__avail w rd) frames))
      × (consumed + surplus (er__avail w rd) frames + read_count w rd frames ≤ written)
plan_read w rd written consumed frames wi ri order room small =
    let avail = er__avail_counters w rd written consumed wi ri order room in
    let drop = surplus_lem (er__avail w rd) frames small in
    (omega (arith, ri), ground (arith, avail, drop))

module _ {A : Type 0} {nch : ℕ} where
  module _ {s : Shared A} (v : Inv nch s) where
    write-Inv :
        (src : Cells A) (frames : ℕ)
        → s.producer ≡ Producer.resting
        → Inv nch (record s { producer = Producer.loaded src (write_count s.write s.read frames) })
    write-Inv src frames e = record {
      write_is = v.write_is;
      read_is = v.read_is;
      order = v.order;
      room = ground (
        arith,
        v.order,
        ap claimed e,
        v.room,
        er__space_counters s.write s.read s.written s.consumed v.write_is v.read_is v.order
            (omega (arith, v.room)),
      );
      held = λ t c lo hi hc. v.held t c lo (omega arith) hc;
      fits = v.fits;
      reading = v.reading;
    }

    copy_in-Inv :
        {src : Cells A} {n : ℕ}
        → s.producer ≡ Producer.loaded src n
        → Inv nch (record s {
          cells = er__wr s.cells nch s.write src n;
          producer = Producer.copied n;
          history = extend nch s.history s.written src;
        })
    copy_in-Inv {src} {n} e = record {
      write_is = v.write_is;
      read_is = v.read_is;
      order = v.order;
      room = room;
      held = λ t c lo hi hc. elim (dec_lt t s.written) [
        | yes old ↦
            rw (er__wr-slot s.cells src nch s.write s.written n same, lt→leb-false s.written t old)
              (er__wr_kept s.cells src nch s.written n t c (omega (arith, room)) old hc
                ∙ v.held t c lo (omega arith) hc)
        | no new ↦
            rw
              (
                er__wr-slot s.cells src nch s.write s.written n same,
                le→leb s.written t (omega arith),
              )
              (ap (λ k. er__wr s.cells nch s.written src n (slot k * nch + c)) (omega arith)
                ∙ er__wr_lem s.cells src nch s.written n (t - s.written) c
                    (omega (arith, room, v.order)) (omega arith) hc)
      ];
      fits = v.fits;
      reading =
          Reading-extend nch s.written s.consumed s.next s.history src s.consumer v.fits v.reading;
    }
      where
        room : s.written + n ≤ s.consumed + ring_frames
        room = omega (arith, ap claimed e, v.room)

        same : slot s.write ≡ slot s.written
        same = omega (arith, v.write_is)

    publish_write-Inv :
        {n : ℕ}
        → s.producer ≡ Producer.copied n
        → Inv nch (record s {
          write = u64 (s.write + n);
          producer = Producer.resting;
          written = s.written + n;
        })
    publish_write-Inv {n} e = record {
      write_is = omega (arith, v.write_is);
      read_is = v.read_is;
      order = omega (arith, v.order);
      room = omega (arith, ap claimed e, v.room);
      held = λ t c lo hi hc. v.held t c lo (omega (arith, ap pending e)) hc;
      fits = Fits-grow s.written s.consumed s.next n s.consumer v.fits;
      reading = v.reading;
    }

    begin_read-Inv :
        (frames : ℕ)
        → frames + target_fill < 2 ^ 32
        → Inv nch (record s {
          consumer =
              Consumer.loaded (read_start s.write s.read frames) (read_count s.write s.read frames);
          next = s.consumed + surplus (er__avail s.write s.read) frames;
        })
    begin_read-Inv frames small =
        let (from, upto) =
          plan_read s.write s.read s.written s.consumed frames v.write_is v.read_is v.order
            (omega (arith, v.room)) small in
        record {
          write_is = v.write_is;
          read_is = v.read_is;
          order = v.order;
          room = v.room;
          held = v.held;
          fits = (omega arith, upto);
          reading = from;
        }

    copy_out-Inv :
        {rd n : ℕ} (dst : Cells A)
        → s.consumer ≡ Consumer.loaded rd n
        → Inv nch (record s { consumer = Consumer.copied rd n (er__rd s.cells nch rd dst n) })
    copy_out-Inv {rd} {n} dst e = record {
      write_is = v.write_is;
      read_is = v.read_is;
      order = v.order;
      room = v.room;
      held = v.held;
      fits = f;
      reading = (
        r,
        λ i c p hc. rw (er__rd-slot s.cells dst nch rd s.next n (omega (arith, r))) (
            er__rd_lem s.cells dst nch s.next n i c (omega (arith, f.0, f.1, v.room)) p hc
            ∙ v.held (s.next + i) c (omega (arith, f.0)) (omega (arith, f.1)) hc),
      );
    }
      where
        f : (s.consumed ≤ s.next) × (s.next + n ≤ s.written)
        f = subst (Fits s.written s.consumed s.next) e v.fits

        r : rd ≡ u64 s.next
        r = subst (Reading nch s.next s.history) e v.reading

    publish_read-Inv :
        {rd n : ℕ} {dst : Cells A}
        → s.consumer ≡ Consumer.copied rd n dst
        → Inv nch
            (record s { read = u64 (rd + n); consumer = Consumer.resting; consumed = s.next + n })
    publish_read-Inv {rd} {n} {dst} e =
        let f : (s.consumed ≤ s.next) × (s.next + n ≤ s.written) =
          subst (Fits s.written s.consumed s.next) e v.fits in
        let r : (rd ≡ u64 s.next) × Delivered nch s.next n dst s.history =
          subst (Reading nch s.next s.history) e v.reading in
        record {
          write_is = v.write_is;
          read_is = omega (arith, r.0);
          order = f.1;
          room = omega (arith, v.room, f.0);
          held = λ t c lo hi hc. v.held t c (omega (arith, f.0)) hi hc;
          fits = tt;
          reading = tt;
        }

  -- Every step of either side keeps the invariant.
  pub Step-Inv : {s t : Shared A} → Step nch s t → Inv nch s → Inv nch t
  Step-Inv (begin_write src frames e) v = write-Inv v src frames e
  Step-Inv (copy_in e) v = copy_in-Inv v e
  Step-Inv (publish_write e) v = publish_write-Inv v e
  Step-Inv (begin_read frames small e) v = begin_read-Inv v frames small
  Step-Inv (copy_out dst e) v = copy_out-Inv v dst e
  Step-Inv (publish_read e) v = publish_read-Inv v e

  pub Reach-Inv : {s : Shared A} → Reach nch s → Inv nch s
  Reach-Inv (start cells h) = record {
    write_is = refl;
    read_is = refl;
    order = omega arith;
    room = omega arith;
    held = λ t c lo hi hc. absurd (omega arith);
    fits = tt;
    reading = tt;
  }
  Reach-Inv (later r st) = Step-Inv st (Reach-Inv r)
