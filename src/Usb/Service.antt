-- ===== src/Usb/Service.antt =====
-- src/usb/mod.rs: the task that serves the bus. What it does with the controller and its channels is
-- a list of events; whether the reset of a port succeeds is an input.
use stream_os.Base.{
  ℕ, ◌+◌, ◌≡◌, refl, List, [], ◌∷◌, ◌++◌, Bool, true, false, if◌then◌else◌, replicate,
}
use stream_os.Usb.Packet.{UsbPacket, set_address_work, set_configuration_work}

pub record UsbDevice : Type 0 where
  pub address : ℕ

pub data Event : Type 0 where
  initializes : Event
  resets : (port_offset : ℕ) → Event
  appends : List UsbPacket → Event
  announces : UsbDevice → Event
  replies : (request : ℕ) → Event

-- `Usb`, without its channels and its controller.
pub record Usb : Type 0 where
  pub next_usb_addr : ℕ

unfoldable pub new : Usb
new = record { next_usb_addr = 1 }

-- One turn of the loop over the ports.
unfoldable pub serve_port : ℕ → Bool → Usb → Usb × List Event
serve_port port_offset enabled usb =
    let address = usb.next_usb_addr in
    if enabled
    then (
      usb,
      resets port_offset
          ∷ appends (set_address_work address)
          ∷ appends (set_configuration_work address 1)
          ∷ announces (record { address = address })
          ∷ [],
    )
    else (usb, resets port_offset ∷ [])

-- The loop over the ports, each with the success of its reset.
unfoldable pub serve_ports : List (ℕ × Bool) → Usb → Usb × List Event
serve_ports [] usb = (usb, [])
serve_ports ((port_offset, enabled) ∷ ports) usb =
    let (after, events) = serve_port port_offset enabled usb in
    let (last, later) = serve_ports ports after in (last, events ++ later)

-- The loop over the requests, each a number for its reply and its packets.
unfoldable pub serve_requests : List (ℕ × List UsbPacket) → List Event
serve_requests [] = []
serve_requests ((request, work) ∷ requests) =
    appends work ∷ replies request ∷ serve_requests requests

-- `Usb::service`, up to the last of some requests.
unfoldable pub service : Bool → Bool → List (ℕ × List UsbPacket) → Usb → Usb × List Event
service first second requests usb =
    let (after, events) = serve_ports ((0x10, first) ∷ (0x12, second) ∷ []) usb in
    (after, initializes ∷ (events ++ serve_requests requests))

-- The devices that some events announce.
abbrev pub announced : List Event → List UsbDevice
announced [] = []
announced (announces device ∷ events) = device ∷ announced events
announced (initializes ∷ events) = announced events
announced (resets port ∷ events) = announced events
announced (appends work ∷ events) = announced events
announced (replies request ∷ events) = announced events

-- How many ports are enabled.
abbrev pub enabled_ports : List (ℕ × Bool) → ℕ
enabled_ports [] = 0
enabled_ports ((port, enabled) ∷ ports) =
    if enabled then enabled_ports ports + 1 else enabled_ports ports

announced-requests :
    (requests : List (ℕ × List UsbPacket)) → announced (serve_requests requests) ≡ []
unfolding serve_requests
announced-requests [] = refl
announced-requests ((request, work) ∷ requests) = announced-requests requests

-- Every enabled port is announced under one and the same address, which is not advanced: with both
-- ports enabled, two devices share it. Requests announce nothing.
announced-service :
    (first second : Bool) (requests : List (ℕ × List UsbPacket)) (usb : Usb)
    → (announced (service first second requests usb).1
        ≡ replicate
            (enabled_ports ((0x10, first) ∷ (0x12, second) ∷ []))
            (record { address = usb.next_usb_addr }))
      × ((service first second requests usb).0 ≡ usb)
unfolding service serve_ports serve_port
announced-service false false requests usb = rw (announced-requests requests) (refl, refl)
announced-service false true requests usb = rw (announced-requests requests) (refl, refl)
announced-service true false requests usb = rw (announced-requests requests) (refl, refl)
announced-service true true requests usb = rw (announced-requests requests) (refl, refl)
