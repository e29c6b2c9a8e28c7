-- ===== src/Lib.antt =====
-- The USB-MIDI driver for Mac OS 9: its portable core, its USB class driver and its OMS driver.
--
-- Parts and files (paths from the root of the repository):
--   Packets, Packets/*      core/packets.h, core/packets.c: four-byte Event Packets.
--     um9_packet_decode is packet_decode, um9_cin_for_status is cin_for_status, and so on: names
--     lose the prefix um9.
--   Rx, Rx/*                the receive half of core/midi_stream.c: packets to MIDI messages. Rx/Spec
--     is the abstract queue and flag that the stream implements.
--   Tx, Tx/*                the transmit half of core/midi_stream.c: messages to packets.
--   Stream, Stream/*        both halves, joined by the loop of oms/oms_rx.c that feeds each packet and
--     reads the stream until it is empty.
--   Ring, Ring/*            classic/ring.c: the bounded ring between the read completion and its
--     clients.
--   Descriptors, Descriptors/*  core/descriptors.c: the walker over a USB descriptor buffer.
--   Ports, Ports/*          core/ports.c: the parser of MIDIStreaming descriptors and the logical ports.
--     The arrays of um9_ms_info and um9_ports are lists of their used entries.
--   Oms, Oms/*              the OMS driver. Oms: oms/oms_driver.h, the state g_oms, and the dispatch
--     table of the class driver as a record of operations over a state of its own.
--     Oms/Send/*            oms/oms_tx.c: the send hook, with the carry of a port. The transport is a
--       function pointer of the source; its calls are recorded in order.
--     Oms/Receive/*         oms/oms_rx.c: the drain and the event callback. IsSource in
--       Oms/Receive/Drained is what it relies on in dequeueBytes.
--     Oms/Lifecycle/*       oms/oms_driver.c: attach, detach, locate and the device notifications.
--     Oms/Devices           oms/oms_driver.c: omdvAddDevices.
--     Oms/Messages/*        oms/oms_driver.c: the other messages, and the switch over them.
--   Usb, Usb/*              the class driver. Usb: classic/usb_driver.h, the instance of an interface,
--     and the USB services, whose answers are a list, one for each call to come.
--     Usb/Completion, Usb/Machine/*  classic/usb_driver.c: USBMIDI9CompletionProc and
--       USBMIDI9InitiateTransaction, which call each other.
--     Usb/Receive           the bytes of a read on their way into the ring.
--     Usb/Registry/*        classic/usb_driver.c: the registry of instances, the procs of the dispatch
--       table (Usb/Registry) and of the plug-in table (Usb/Registry/Attach), and the entries of the
--       driver in any order as a step relation (Usb/Registry/Steps).
--   Link, Link/*            the dispatch table that classic/usb_driver.c exports (Link), as the source
--     of bytes that oms/oms_rx.c relies on (Link/Source), as what omdvAddDevices asks for its devices
--     (Link/Hooked, Link/Announced), as what the OMS driver binds (Link/Backlog), and the way of the
--     bytes of a read to the streams of the OMS driver (Link/Delivery).
--   Probe, Probe/*          probe/probe.c: the console application that polls the class driver. Calls of
--     printf are lines (Line in Probe), and Probe/Text gives their characters.
--   Prelude, Prelude/*      shared notation and lemmas on lists, numbers and masks.
--   Tests, Tests/*          every theorem below at concrete values.
--
-- Conventions. A pointer that may be NULL is an Option. Memory is a list of bytes. A 32-bit counter
-- is a number with its wrap-around written out. Functions return the C result together with the
-- state. In Descriptors and Ports a read outside of the memory is `none`, so that its absence can be stated.
--
-- Bounds and fuel. The SysEx loop of um9_tx_message runs on as many rounds as the message has bytes;
-- each round takes three. A stream holds sixteen messages, so seventeen rounds empty it. The walk
-- over descriptors has one round more than the buffer has bytes; each descriptor takes two or more.
-- The carry and a chunk of the send hook have at most six bytes, so its loops go round at most twice.
-- The machine of the class driver stops itself at a depth of sixteen calls, so seventeen levels are
-- enough. A drain has one round more than the ring has bytes; each round takes one at least.
--
-- The surroundings. A service of USB either completes inside of its call or later; both are answers
-- of the list. The field awaited of an instance belongs to the services: the slot from which a call was
-- made that a service has accepted and not completed. A completion that comes later is a step of its
-- own, and comes only to an instance that is still in that slot; what a completion does to a slot that
-- its instance has left is not modelled. What OMS, the USB Manager and the Code Fragment Manager
-- answer are arguments of the messages; what the driver calls them for is counted or recorded.
--
-- Not modelled: the switch to the secondary interrupt level around the bulk read, and an interrupt
-- inside of a message of OMS; the trace code and the diagnostic entry of oms/oms_driver.c, which the
-- production build leaves out; the stubs in freemidi/ and classic/usb_service.c; the tools;
-- and the interleaving of a producer and a consumer inside one call of the ring.
pub mod Prelude
pub mod Packets
pub mod Rx
pub mod Tx
pub mod Stream
pub mod Ring
pub mod Descriptors
pub mod Ports
pub mod Oms
pub mod Usb
pub mod Link
pub mod Probe
pub mod Tests
