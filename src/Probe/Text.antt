-- ===== src/Probe/Text.antt =====
-- The characters that probe/probe.c prints.
use Prim.Native.Char.{code}
use Prim.Native.String.{String}
use usbmidi.Prelude.{
  ltb, ◌==◌, if◌then◌else◌, length, replicate, ℕ, zero, suc, ◌+◌, ◌-◌, ◌/◌, ◌%◌, ◌||◌, List, [],
  ◌∷◌, ◌++◌,
}
use usbmidi.Probe.{Line}

-- the characters of a text
abbrev pub codes : String → List ℕ
codes String.[] = []
codes (String.◌∷◌ c s) = code c ∷ codes s

-- of 0 to 15, in upper case
abbrev pub digit : ℕ → ℕ
digit d = if ltb d 10 then d + 48 else d + 55

-- The digits of a number to a base; `fuel` is more than their number less one.
unfoldable pub digits : ℕ → ℕ → ℕ → List ℕ
digits base zero n = []
digits base (suc fuel) n =
    let rest = digits base fuel (n / base) in
    if ltb n base then digit n ∷ [] else rest ++ digit (n % base) ∷ []

-- `%lu`; a number of 32 bits has at most ten digits.
unfoldable pub decimal : ℕ → List ℕ
unfolding digits
decimal n = digits 10 10 n

-- `%02X` and the like, for a number of 32 bits
unfoldable pub hex : ℕ → ℕ → List ℕ
unfolding digits
hex width n = let ds = digits 16 8 n in replicate (width - length ds) 48 ++ ds

abbrev pub newline : ℕ
newline = 10

abbrev pub space : ℕ
space = 32

-- the loop of `ProbePrintHex` from index `i` on, over the bytes that are left
unfoldable pub hex_from : ℕ → ℕ → List ℕ → List ℕ
unfolding hex
hex_from count i [] = []
hex_from count i (b ∷ bs) =
    hex 2 b
    ++ (if i % 16 == 15 || i + 1 == count then newline else space) ∷ hex_from count (i + 1) bs

unfoldable pub print_hex : List ℕ → List ℕ
unfolding hex_from
print_hex bytes = hex_from (length bytes) 0 bytes

unfoldable pub render : Line → List ℕ
unfolding decimal hex print_hex
render Line.title =
    codes "USBMIDI9 Probe - USB-MIDI diagnostic for Classic Mac OS 9" ++ newline ∷ []
render Line.hint = codes "Press 'q' to quit." ++ newline ∷ []
render Line.farewell = codes "USBMIDI9 Probe: done." ++ newline ∷ []
render Line.no_driver = codes "(no USBMIDI9 driver loaded)" ++ newline ∷ []
render (Line.too_old version) =
    codes "USBMIDI9 driver dispatch table version "
    ++ decimal version
    ++ codes " is too old"
    ++ newline ∷ []
render (Line.attached count) =
    codes "Attached USB-MIDI interfaces: " ++ decimal count ++ newline ∷ []
render (Line.unavailable i) =
    codes "  [" ++ decimal i ++ codes "] (info unavailable)" ++ newline ∷ []
render (Line.interface info) =
    codes "  ["
    ++ decimal info.index
    ++ codes "] vid="
    ++ hex 4 info.vendor_id
    ++ codes " pid="
    ++ hex 4 info.product_id
    ++ codes " iface="
    ++ decimal info.interface_num
    ++ codes " class="
    ++ hex 2 info.interface_class
    ++ codes " subclass="
    ++ hex 2 info.interface_sub_class
    ++ codes " protocol="
    ++ hex 2 info.interface_protocol
    ++ codes " maxPacket="
    ++ decimal info.max_packet_size
    ++ codes " queued="
    ++ decimal info.available_bytes
    ++ newline ∷ []
render (Line.bytes_received i bytes) = codes "[iface " ++ decimal i ++ codes "] " ++ print_hex bytes
