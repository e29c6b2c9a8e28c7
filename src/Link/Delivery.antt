-- ===== src/Link/Delivery.antt =====
-- From a bulk read of classic/usb_driver.c to the streams of oms/oms_rx.c.
use usbmidi.Prelude.{inc, take, ℕ, ◌-◌, ◌<◌, min, ◌≡◌, ap, ◌∙◌, inr, List, ◌++◌, arith}
use usbmidi.Ring.Window.{IsValid, contents, used}
use usbmidi.Ring.Fifo.{ring_enqueue_appends}
use usbmidi.Usb.{ring_size, World}
use usbmidi.Usb.Receive.{IsRead, filled_ring}
use usbmidi.Usb.Registry.{Driver, world_of, put_world, instance_at}
use usbmidi.Usb.Registry.Slots.{IsRegistry, instance_at-put_world}
use usbmidi.Oms.{Shim}
use usbmidi.Link.Served.{
  held_bytes, ring_bytes, valid_bytes, held_bytes_live, put_world-IsServed, IsServed,
}

-- the world of the instance when the event callback is called: the bytes of the read are in its ring
abbrev pub read_in : World → World
read_in w = record w {
  inst = record w.inst {
    ring = filled_ring w;
    call_in_flight = 0;
    last_read_status = w.inst.pb.usb_status;
    last_read_count = w.inst.pb.usb_act_count;
  };
}

-- the driver at that time
abbrev pub notifying : Driver → ℕ → Driver
notifying d index = put_world d index (read_in (world_of d index))

-- the bytes of the read that the ring has room for, behind those that it holds
abbrev pub arrived : World → List ℕ → List ℕ
arrived w mem =
    contents w.inst.ring ring_size mem
    ++ take (min w.inst.pb.usb_act_count (ring_size - used w.inst.ring)) w.inst.pb.usb_buffer.bytes

filled :
    (w : World) {mem : List ℕ}
    → IsRead w
    → IsValid w.inst.ring ring_size mem
    → ring_bytes (filled_ring w) ≡ arrived w mem
filled w {mem} h v =
    let bytes = w.inst.pb.usb_buffer.bytes in
    let (n, mem', v', c) = ring_enqueue_appends v bytes w.inst.pb.usb_act_count h.in_memory in
    valid_bytes v' ∙ c ∙ ap (λ k. contents w.inst.ring ring_size mem ++ take k bytes) n

pub notifying-held :
    (d : Driver) (index : ℕ) {mem : List ℕ}
    → IsRegistry d
    → index < d.count
    → IsRead (world_of d index)
    → IsValid (instance_at d index).ring ring_size mem
    → held_bytes (notifying d index) index ≡ arrived (world_of d index) mem
notifying-held d index r lt h v =
    let w = read_in (world_of d index) in
    let self = instance_at-put_world d index w r (omega (arith, r.live, lt)) in
    held_bytes_live (notifying d index) index lt
    ∙ ap (λ x. ring_bytes x.ring) self
    ∙ filled (world_of d index) h v

pub notifying-IsServed :
    (d : Driver) (index : ℕ) {mem : List ℕ}
    → IsServed d
    → index < d.count
    → IsRead (world_of d index)
    → IsValid (instance_at d index).ring ring_size mem
    → IsServed (notifying d index)
notifying-IsServed d index s lt h v =
    let pb = (instance_at d index).pb in
    let (n, mem', v', c) =
      ring_enqueue_appends v pb.usb_buffer.bytes pb.usb_act_count h.in_memory in
    put_world-IsServed d index (read_in (world_of d index)) s lt (inr (mem', v'))

abbrev heard : {D : Type 0} → Shim D → Shim D
heard s = record s { oms = record s.oms { events = inc s.oms.events } }
