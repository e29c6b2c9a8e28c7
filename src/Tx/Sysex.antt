-- ===== src/Tx/Sysex.antt =====
-- What `um9_tx_message` of core/midi_stream.c writes for a SysEx run.
use usbmidi.Prelude.{
  lt→ltb, length, get_or, set, drop, length-append, ℕ, zero, suc, ◌+◌, ◌-◌, ◌*◌, ◌/◌, ◌≤◌, ◌<◌, ◌≡◌,
  refl, sym, ap, ap₂, ◌∙◌, some, List, [], ◌∷◌, ◌++◌, append_assoc, arith,
}
use usbmidi.Packets.{max_cable}
use usbmidi.Packets.Cin
use usbmidi.Tx.{
  TxStream, tx_end_cin, tx_packet_build, tx_sysex_packet_count, tx_middle, accepted, tx_sysex,
  tx_message,
}

-- The packets of a SysEx run: three bytes each, and an end packet with the last one to three.
abbrev pub packets_of : ℕ → List ℕ → List (List ℕ)
packets_of cable (a ∷ b ∷ c ∷ d ∷ rest) =
    tx_packet_build cable Cin.sysex_start (a ∷ b ∷ c ∷ []) 3 ∷ packets_of cable (d ∷ rest)
packets_of cable msg = tx_packet_build cable (tx_end_cin (length msg)) msg (length msg) ∷ []

pub length-packets_of :
    (cable : ℕ) (msg : List ℕ)
    → 0 < length msg
    → length (packets_of cable msg) ≡ (length msg + 2) / 3
length-packets_of cable (a ∷ b ∷ c ∷ d ∷ rest) h =
    omega (arith, length-packets_of cable (d ∷ rest) (omega arith))
length-packets_of cable (a ∷ b ∷ c ∷ []) h = omega arith
length-packets_of cable (a ∷ b ∷ []) h = omega arith
length-packets_of cable (a ∷ []) h = omega arith
length-packets_of cable [] h = absurd (omega arith)

drop-nil {ℓ} : (A : Type ℓ) (n : ℕ) → drop {A = A} n [] ≡ []
drop-nil A zero = refl
drop-nil A (suc n) = refl

pub drop-drop {ℓ} : {A : Type ℓ} (n m : ℕ) (xs : List A) → drop m (drop n xs) ≡ drop (n + m) xs
drop-drop zero m xs = let e : m ≡ zero + m = omega arith in ap (λ k. drop k xs) e
drop-drop {A} (suc n) m [] = rw (drop-nil A m, drop-nil A (suc n + m))
drop-drop (suc n) m (x ∷ xs) =
    let e : suc (n + m) ≡ suc n + m = omega arith in drop-drop n m xs ∙ ap (λ k. drop k (x ∷ xs)) e

pub set-append {ℓ} :
    {A : Type ℓ} (xs : List A) (y v : A) (ys : List A)
    → set (xs ++ y ∷ ys) (length xs) v ≡ xs ++ v ∷ ys
set-append [] y v ys = refl
set-append (x ∷ xs) y v ys = ap (◌∷◌ x) (set-append xs y v ys)

abbrev Bytes : Type 0
Bytes = List ℕ

-- `out` behind the loop and the end packet
abbrev finish_run : ℕ → Bytes → ℕ → ℕ → ℕ × List Bytes → List Bytes
finish_run cable msg len needed (pos, filled) =
    set filled (needed - 1)
      (tx_packet_build cable (tx_end_cin (len - pos)) (drop pos msg) (len - pos))

tx_middle_stop :
    (fuel cable len pos : ℕ) (msg : Bytes) (out : List Bytes)
    → len ≤ pos + 3
    → tx_middle fuel cable msg len pos out ≡ (pos, out)
unfolding tx_middle
tx_middle_stop zero cable len pos msg out h = refl
tx_middle_stop (suc fuel) cable len pos msg out h = ground arith

tx_middle_step :
    (fuel cable len pos : ℕ) (msg : Bytes) (out : List Bytes)
    → pos + 3 < len
    → tx_middle (suc fuel) cable msg len pos out
      ≡ tx_middle fuel cable msg len
          (pos + 3)
          (set out (1 + (pos - 3) / 3) (tx_packet_build cable Cin.sysex_start (drop pos msg) 3))
unfolding tx_middle
tx_middle_step fuel cable len pos msg out h = rw (lt→ltb 3 (len - pos) (omega arith))

-- The write behind the packets that are done.
set-done :
    (i : ℕ) (done room : List Bytes) (y v : Bytes)
    → i ≡ length done
    → set (done ++ y ∷ room) i v ≡ done ++ v ∷ room
set-done i done room y v e = rw e (set-append done y v room)

-- The end packet, where the one to three bytes `rest` are left.
end_packet :
    (fuel cable pos len needed : ℕ) (msg rest : Bytes) (done room : List Bytes) (y : Bytes)
    → drop pos msg ≡ rest
    → len ≡ pos + length rest
    → length rest ≤ 3
    → needed ≡ length done + 1
    → finish_run cable msg len needed (tx_middle fuel cable msg len pos (done ++ y ∷ room))
      ≡ done ++ tx_packet_build cable (tx_end_cin (length rest)) rest (length rest) ∷ room
end_packet fuel cable pos len needed msg rest done room y e e₂ le e₄ =
    let left : len - pos ≡ length rest = omega arith in
    rw (tx_middle_stop fuel cable len pos msg (done ++ y ∷ room) (omega arith))
      (rw (left, e) (set-done (needed - 1) done room y _ (omega arith)))

append-cons {ℓ} :
    {A : Type ℓ} (xs : List A) (y : A) (ys : List A) → xs ++ y ∷ ys ≡ (xs ++ y ∷ []) ++ ys
append-cons xs y ys = rw append_assoc

-- The loop started behind the first `k` packets, which are `done`, with `rest` still to send.
tx_middle-packets_of :
    (fuel cable k pos len needed : ℕ) (msg rest : Bytes) (done room : List Bytes)
    → drop pos msg ≡ rest
    → pos ≡ 3 * k
    → len ≡ pos + length rest
    → length rest ≤ fuel
    → k ≡ length done
    → 0 < k
    → needed ≡ k + length (packets_of cable rest)
    → length (packets_of cable rest) ≤ length room
    → finish_run cable msg len needed (tx_middle fuel cable msg len pos (done ++ room))
      ≡ done ++ (packets_of cable rest ++ drop (length (packets_of cable rest)) room)
unfolding tx_packet_build
tx_middle-packets_of (suc fuel) cable k pos len needed msg (a ∷ b ∷ c ∷ d ∷ rest) done (y ∷ room) e
      e₁ e₂ le e₃ pos₂ e₄ fits =
    let p : Bytes = tx_packet_build cable Cin.sysex_start (a ∷ b ∷ c ∷ []) 3 in
    let ih =
      tx_middle-packets_of fuel cable (k + 1) (pos + 3) len needed msg (d ∷ rest) (done ++ p ∷ [])
        room (sym (drop-drop pos 3 msg) ∙ ap (drop 3) e) (omega arith) (omega arith) (omega arith)
        (omega (arith, length-append done (p ∷ []))) (omega arith) (omega arith) (omega arith) in
    rw (tx_middle_step fuel cable len pos msg (done ++ y ∷ room) (omega arith)) (
      rw e (
        rw (set-done (1 + (pos - 3) / 3) done room y p (omega arith))
          (rw (append-cons done p room) (ih ∙ append_assoc done (p ∷ []) _))))
tx_middle-packets_of fuel cable k pos len needed msg (a ∷ b ∷ c ∷ []) done (y ∷ room) e e₁ e₂ le e₃
      pos₂ e₄ fits =
    end_packet fuel cable pos len needed msg _ done room y e e₂ (omega arith) (omega arith)
tx_middle-packets_of fuel cable k pos len needed msg (a ∷ b ∷ []) done (y ∷ room) e e₁ e₂ le e₃ pos₂
      e₄ fits =
    end_packet fuel cable pos len needed msg _ done room y e e₂ (omega arith) (omega arith)
tx_middle-packets_of fuel cable k pos len needed msg (a ∷ []) done (y ∷ room) e e₁ e₂ le e₃ pos₂ e₄
      fits =
    end_packet fuel cable pos len needed msg _ done room y e e₂ (omega arith) (omega arith)
tx_middle-packets_of fuel cable k pos len needed msg [] done (y ∷ room) e e₁ e₂ le e₃ pos₂ e₄ fits =
    end_packet fuel cable pos len needed msg [] done room y e e₂ (omega arith) (omega arith)
tx_middle-packets_of _ cable k pos len needed msg _ done room e e₁ e₂ le e₃ pos₂ e₄ fits =
    absurd (omega arith)

-- A SysEx run: from F0 to F7.
pub record IsSysex (msg : Bytes) : Type 0 where
  pub starts : get_or msg 0 0 ≡ 0xf0
  pub two : 2 ≤ length msg
  pub ends : get_or msg (length msg - 1) 0 ≡ 0xf7

abbrev pub packet_count : Bytes → ℕ
packet_count msg = (length msg + 2) / 3

-- The branch of runs that need a start packet.
tx_sysex_long :
    (s : TxStream) (cable max_packets len : ℕ) (msg : Bytes) (out : List Bytes)
    → 3 < len
    → get_or msg (len - 1) 0 ≡ 0xf7
    → tx_sysex_packet_count len ≤ max_packets
    → tx_sysex s cable msg len out max_packets ≡ (
      tx_sysex_packet_count len,
      accepted s,
      finish_run cable msg len
          (tx_sysex_packet_count len)
          (tx_middle len cable msg len 3 (set out 0 (tx_packet_build cable Cin.sysex_start msg 3))),
    )
unfolding tx_sysex
tx_sysex_long s cable max_packets len msg out h e n = ground arith

tx_sysex-packets_of :
    (s : TxStream) (cable max_packets : ℕ) (msg : Bytes) (out : List Bytes)
    → IsSysex msg
    → packet_count msg ≤ max_packets
    → max_packets ≤ length out
    → tx_sysex s cable msg (length msg) out max_packets
      ≡ (packet_count msg, accepted s, packets_of cable msg ++ drop (packet_count msg) out)
unfolding tx_sysex
tx_sysex-packets_of s cable max_packets [] out h n m = absurd (omega (arith, h.two))
tx_sysex-packets_of s cable max_packets msg [] h n m = absurd (omega (arith, h.two))
tx_sysex-packets_of s cable max_packets (a ∷ []) out h n m = absurd (omega (arith, h.two))
tx_sysex-packets_of s cable max_packets (a ∷ b ∷ []) (y ∷ room) h n m = ground (arith, h.ends)
tx_sysex-packets_of s cable max_packets (a ∷ b ∷ c ∷ []) (y ∷ room) h n m = ground (arith, h.ends)
tx_sysex-packets_of s cable max_packets (a ∷ b ∷ c ∷ d ∷ rest) (y ∷ room) h n m =
    let msg : Bytes = a ∷ b ∷ c ∷ d ∷ rest in
    let count : tx_sysex_packet_count (length msg) ≡ packet_count msg = omega arith in
    let sent : length (packets_of cable (d ∷ rest)) + 1 ≡ packet_count msg =
      omega (arith, length-packets_of cable msg (omega arith)) in
    let less : packet_count msg ≡ suc (length (packets_of cable (d ∷ rest))) = omega arith in
    rw
      (tx_sysex_long s cable max_packets (length msg) msg (y ∷ room) (omega arith) h.ends
        (omega arith))
      (ap₂ (λ n o. (n, accepted s, o)) count
        (tx_middle-packets_of (length msg) cable 1 3 (length msg)
            (tx_sysex_packet_count (length msg)) msg (d ∷ rest)
            (tx_packet_build cable Cin.sysex_start msg 3 ∷ []) room refl refl (omega arith)
            (omega arith) refl (omega arith) (omega arith) (omega arith)
          ∙ rw less))

-- `um9_tx_message` sends a SysEx message F0 ... F7, on a cable of at most 15, as its chunks of
-- three bytes, if `max_packets` allows and `out` has that room: it returns their number, writes
-- exactly their packets to the front of `out`, and counts one message.
pub tx_message-packets_of :
    (s : TxStream) (cable max_packets : ℕ) (msg : Bytes) (out : List Bytes)
    → cable ≤ max_cable
    → IsSysex msg
    → packet_count msg ≤ max_packets
    → max_packets ≤ length out
    → tx_message s cable (some msg) (length msg) out max_packets
      ≡ (packet_count msg, accepted s, packets_of cable msg ++ drop (packet_count msg) out)
unfolding tx_message
tx_message-packets_of s cable max_packets msg out c h n m =
    ground (arith, h.starts, h.two, tx_sysex-packets_of s cable max_packets msg out h n m)
