-- ===== src/Usb/Receive.antt =====
-- The bytes of a bulk read of classic/usb_driver.c, on their way into the ring.
use mathlib.Core.Path.{subst}
use usbmidi.Prelude.{
  ltb, ◌==◌, if◌then◌else◌, length, take, ℕ, ◌-◌, ◌≤◌, ◌<◌, min, ◌≡◌, refl, sym, ap, ◌∙◌, ◌≢◌, true,
  false, ◌&&◌, none, some, List, [], ◌∷◌, ◌++◌, arith,
}
use usbmidi.Ring.{Ring, ring_enqueue}
use usbmidi.Ring.Window.{IsValid, contents, used}
use usbmidi.Ring.Fifo.{ring_enqueue_appends}
use usbmidi.Usb.{World, read_bulk_in_pipe_state, no_err, ring_size}
use usbmidi.Usb.Completion.{
  after_read, taken_in, completed, read_completed, received, Callback, advance, is_ok, memory_at,
}

-- a bulk read has succeeded, and its bytes are in memory
pub record IsRead (w : World) : Type 0 where
  pub reading : w.inst.pb.usb_refcon.stage ≡ read_bulk_in_pipe_state
  pub succeeded : w.inst.pb.usb_status ≡ no_err
  pub some_bytes : 0 < w.inst.pb.usb_act_count
  pub in_memory : w.inst.pb.usb_act_count ≤ length w.inst.pb.usb_buffer.bytes
  pub not_nil : w.inst.pb.usb_buffer.address ≢ 0

abbrev noted : World → World
noted w = record w {
  inst = record w.inst {
    call_in_flight = 0;
    last_read_status = w.inst.pb.usb_status;
    last_read_count = w.inst.pb.usb_act_count;
  };
}

after_read-ring : (w : World) → (after_read w).inst.ring ≡ w.inst.ring
unfolding after_read
after_read-ring w = ground arith

completed_reading :
    (callback : Callback) (index : ℕ) (w : World)
    → IsRead w
    → (completed callback index w).1.inst.ring ≡ (received callback index (noted w)).inst.ring
unfolding completed read_completed taken_in
completed_reading callback index w h =
    let w' = record w { inst = record w.inst { call_in_flight = 0 } } in
    let some_data : is_ok w.inst.pb.usb_status && ltb 0 w.inst.pb.usb_act_count ≡ true =
      ground (arith, h.succeeded, h.some_bytes) in
    ap (λ s. (advance callback index w' s).inst.ring) h.reading
    ∙ after_read-ring (taken_in callback index w')
    ∙ ap (λ b. (if b then received callback index (noted w) else noted w).inst.ring) some_data

-- the ring behind the copy, before the client hears of it
abbrev pub filled_ring : World → Ring
filled_ring w =
    (ring_enqueue w.inst.ring ring_size (some w.inst.pb.usb_buffer.bytes) w.inst.pb.usb_act_count).1

received-ring :
    (callback : Callback) (index : ℕ) (w : World)
    → w.inst.pb.usb_buffer.address ≢ 0
    → w.inst.event_callback ≡ none
    → (received callback index w).inst.ring ≡ filled_ring w
unfolding received
received-ring callback index w a e =
    let in_memory : (w.inst.pb.usb_buffer.address == 0) ≡ false = ground (arith, a) in
    let mem : memory_at w.inst.pb.usb_buffer ≡ some w.inst.pb.usb_buffer.bytes =
      ap (λ b. if b then none else some w.inst.pb.usb_buffer.bytes) in_memory in
    rw e (ap (λ m. (ring_enqueue w.inst.ring ring_size m w.inst.pb.usb_act_count).1) mem)

after_read-events : (w : World) → (after_read w).events ≡ w.events
unfolding after_read
after_read-events w = ground arith

completed_events :
    (callback : Callback) (index : ℕ) (w : World)
    → IsRead w
    → (completed callback index w).1.events ≡ (received callback index (noted w)).events
unfolding completed read_completed taken_in
completed_events callback index w h =
    let w' = record w { inst = record w.inst { call_in_flight = 0 } } in
    let some_data : is_ok w.inst.pb.usb_status && ltb 0 w.inst.pb.usb_act_count ≡ true =
      ground (arith, h.succeeded, h.some_bytes) in
    ap (λ s. (advance callback index w' s).events) h.reading
    ∙ after_read-events (taken_in callback index w')
    ∙ ap (λ b. (if b then received callback index (noted w) else noted w).events) some_data

-- The client is called once, when the bytes of the read are in the ring.
pub completed-calls :
    (callback : Callback) (index f : ℕ) (w : World)
    → IsRead w
    → w.inst.event_callback ≡ some f
    → let w' = (completed callback index w).1 in
      (w'.events ≡ w.events ++ (f, index, w.inst.event_refcon) ∷ [])
      × (w'.inst.ring ≡ callback f index w.inst.event_refcon (filled_ring w))
unfolding received
completed-calls callback index f w h e =
    let in_memory : (w.inst.pb.usb_buffer.address == 0) ≡ false = ground (arith, h.not_nil) in
    let mem : memory_at w.inst.pb.usb_buffer ≡ some w.inst.pb.usb_buffer.bytes =
      ap (λ b. if b then none else some w.inst.pb.usb_buffer.bytes) in_memory in
    let refcon = w.inst.event_refcon in
    (
      completed_events callback index w h ∙ rw e refl,
      completed_reading callback index w h
          ∙ rw e (
              ap
                (λ m.
                  callback f index refcon
                    (ring_enqueue w.inst.ring ring_size m w.inst.pb.usb_act_count).1)
                mem),
    )

-- The completion of a bulk read that has brought bytes, in an instance with a well-formed ring and no
-- event callback, appends to the ring as many of these bytes as it has room for, in order, and
-- loses nothing that the ring held.
completed_appends :
    (callback : Callback) (index : ℕ) (w : World) {mem : List ℕ}
    → IsRead w
    → IsValid w.inst.ring ring_size mem
    → w.inst.event_callback ≡ none
    → let ring' = (completed callback index w).1.inst.ring in
      let n = min w.inst.pb.usb_act_count (ring_size - used w.inst.ring) in
      (mem' : List ℕ) × IsValid ring' ring_size mem'
      × (contents ring' ring_size mem'
          ≡ contents w.inst.ring ring_size mem ++ take n w.inst.pb.usb_buffer.bytes)
completed_appends callback index w {mem} h v quiet =
    let bytes = w.inst.pb.usb_buffer.bytes in
    let (n, mem', v', c) = ring_enqueue_appends v bytes w.inst.pb.usb_act_count h.in_memory in
    let same : (completed callback index w).1.inst.ring ≡ filled_ring w =
      completed_reading callback index w h
      ∙ received-ring callback index (noted w) h.not_nil quiet in
    subst
      (λ r.
        (mem' : List ℕ) × IsValid r ring_size mem'
        × (contents r ring_size mem'
            ≡ contents w.inst.ring ring_size mem
              ++ take (min w.inst.pb.usb_act_count (ring_size - used w.inst.ring)) bytes))
      (sym same) (mem', v', c ∙ ap (λ k. contents w.inst.ring ring_size mem ++ take k bytes) n)
