-- ===== src/Usb/Uhci/Port/Laws.antt =====
-- What the registers of the controller are written with.
use stream_os.Base.{
  ℕ, ◌+◌, ◌^◌, ◌<◌, ◌≤◌, ◌≡◌, refl, ap, arith, List, [], ◌∷◌, some, Bool, true, false, ◌&&◌, ◌||◌,
  leb, if◌then◌else◌, ok,
}
use stream_os.BitManipulation.{set_bit, get_bits, get_bit}
use stream_os.BitManipulation.Laws.{
  bit_fields, Fits, get_bit-set_bit, get_bit-set_bit_ne, get_bit-zero,
}
use stream_os.Io.{out_port, in_port, IoRange, verify_offset, write_16, read_16}
use stream_os.Io.Ports.{Logged, accessed, waited, log_ports}
use stream_os.Usb.Uhci.Port.{
  UsbCmdReg, to_u16, released, reset_port, set_reset, set_connected_changed, set_port_enabled,
  set_port_enable_changed, set_resume_detected, set_low_speed, port_enabled, connected,
}

module _ (s : ℕ) (b : Bool) (x : ℕ) (h : Fits 16 s 1) where
  get_bit-if : get_bit 16 s (if b then set_bit 16 s true x else x) ≡ b || get_bit 16 s x
  get_bit-if = by_case b
    where
      by_case :
          (b : Bool) → get_bit 16 s (if b then set_bit 16 s true x else x) ≡ b || get_bit 16 s x
      by_case true = get_bit-set_bit 16 s true x h
      by_case false = refl

  get_bit-if_ne :
      (s' : ℕ)
      → Fits 16 s' 1
      → (leb (s + 1) s' || leb (s' + 1) s) ≡ true
      → get_bit 16 s' (if b then set_bit 16 s true x else x) ≡ get_bit 16 s' x
  get_bit-if_ne s' h' apart = by_case b
    where
      by_case : (b : Bool) → get_bit 16 s' (if b then set_bit 16 s true x else x) ≡ get_bit 16 s' x
      by_case true = get_bit-set_bit_ne 16 s true x h s' h' apart
      by_case false = refl

or_false : (b : Bool) → b || false ≡ b
or_false true = refl
or_false false = refl

ruleset flags = (get_bit-if, get_bit-if_ne, get_bit-zero, or_false)

-- Each part of a command stands in its bit.
pub to_u16_fields :
    (cmd : UsbCmdReg)
    → (get_bit 16 7 (to_u16 cmd) ≡ cmd.max_packet)
      × (get_bit 16 6 (to_u16 cmd) ≡ cmd.configure)
      × (get_bit 16 5 (to_u16 cmd) ≡ cmd.software_debug)
      × (get_bit 16 4 (to_u16 cmd) ≡ cmd.global_resume)
      × (get_bit 16 3 (to_u16 cmd) ≡ cmd.global_suspend)
      × (get_bit 16 2 (to_u16 cmd) ≡ cmd.global_reset)
      × (get_bit 16 1 (to_u16 cmd) ≡ cmd.host_controller_reset)
      × (get_bit 16 0 (to_u16 cmd) ≡ cmd.run)
unfolding to_u16
to_u16_fields cmd =
    (simp flags, simp flags, simp flags, simp flags, simp flags, simp flags, simp flags, simp flags)

-- What is written to release a port from its reset, over what was read: no reset, no speed, and none
-- of the bits that a write of one clears; the other bits are as they were.
abbrev pub Releases : ℕ → ℕ → Type 0
Releases reg val =
    (get_bit 16 1 val ≡ false)
    × (get_bit 16 2 val ≡ false)
    × (get_bit 16 3 val ≡ false)
    × (get_bit 16 6 val ≡ false)
    × (get_bit 16 8 val ≡ false)
    × (get_bit 16 9 val ≡ false)
    × (get_bit 16 0 val ≡ get_bit 16 0 reg)
    × (get_bits 16 4 2 val ≡ get_bits 16 4 2 reg)
    × (get_bit 16 7 val ≡ get_bit 16 7 reg)
    × (get_bits 16 10 6 val ≡ get_bits 16 10 6 reg)

released-Releases : (reg : ℕ) → Releases reg (released reg)
unfolding set_reset set_connected_changed set_port_enabled set_port_enable_changed
    set_resume_detected set_low_speed
released-Releases reg = (
  simp bit_fields,
  simp bit_fields,
  simp bit_fields,
  simp bit_fields,
  simp bit_fields,
  simp bit_fields,
  simp bit_fields,
  simp bit_fields,
  simp bit_fields,
  simp bit_fields,
)

-- The accesses and waits of a reset, the last one first, if the port reads `r1`, `r2` and `r3`.
abbrev pub reset_entries : ℕ → ℕ → ℕ → ℕ → List Logged
reset_entries port r1 r2 r3 =
    accessed (in_port 2 port)
    ∷ waited 5000
    ∷ accessed (out_port 2 port (set_port_enabled true (set_connected_changed true r3)))
    ∷ accessed (out_port 2 port (set_connected_changed true r3))
    ∷ accessed (in_port 2 port)
    ∷ waited 5000
    ∷ accessed (out_port 2 port (released r2))
    ∷ accessed (in_port 2 port)
    ∷ waited 50000
    ∷ accessed (out_port 2 port (set_reset true r1))
    ∷ accessed (in_port 2 port)
    ∷ []

within :
    (io : IoRange) (offset : ℕ)
    → offset + 2 ≤ io.length
    → io.addr + io.length < 2 ^ 16
    → verify_offset io offset 2 ≡ ok tt
unfolding verify_offset
within io offset h k = ground arith

read_16-within :
    (io : IoRange) (offset : ℕ)
    → offset + 2 ≤ io.length
    → io.addr + io.length < 2 ^ 16
    → read_16 io offset ≡ ok (in_port 2 (io.addr + offset))
unfolding read_16
read_16-within io offset h k = rw (within io offset h k) (ap (λ p. ok (in_port 2 p)) (omega arith))

write_16-within :
    (io : IoRange) (offset v : ℕ)
    → offset + 2 ≤ io.length
    → io.addr + io.length < 2 ^ 16
    → write_16 io offset v ≡ ok (out_port 2 (io.addr + offset) v)
unfolding write_16
write_16-within io offset v h k =
    rw (within io offset h k) (ap (λ p. ok (out_port 2 p v)) (omega arith))

-- On a port within its range, a reset makes exactly the accesses and waits listed: it raises the
-- reset, releases it after 50 ms without clearing a change, and after 5 ms clears the connection
-- change and then enables the port. It succeeds exactly if the port then reads enabled and connected.
pub reset_port-log :
    (io : IoRange) (offset r1 r2 r3 r4 : ℕ)
    → offset + 2 ≤ io.length
    → io.addr + io.length < 2 ^ 16
    → (reset_port log_ports io offset (record { reads = r1 ∷ r2 ∷ r3 ∷ r4 ∷ []; entries = [] })
        ≡ some (
          record { reads = []; entries = reset_entries (io.addr + offset) r1 r2 r3 },
          port_enabled r4 && connected r4,
        ))
      × Releases r2 (released r2)
unfolding reset_port
reset_port-log io offset r1 r2 r3 r4 h k =
    rw
      (
        read_16-within io offset h k,
        write_16-within io offset (set_reset true r1) h k,
        write_16-within io offset (released r2) h k,
        write_16-within io offset (set_connected_changed true r3) h k,
        write_16-within io offset (set_port_enabled true (set_connected_changed true r3)) h k,
      )
      (refl, released-Releases r2)
