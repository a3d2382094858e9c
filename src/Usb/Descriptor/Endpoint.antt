-- ===== src/Usb/Descriptor/Endpoint.antt =====
-- src/usb/mod.rs: `UsbEndpointDescriptor`, which is its bytes.
use stream_os.BitManipulation.{get_bits, get_bit}
use stream_os.Base.{ℕ, List, Option, get_elem?, u16_le_at, some, ◌>>=◌, if◌then◌else◌, ◌==◌}

unfoldable pub length : List ℕ → Option ℕ
length bytes = get_elem? bytes 0

unfoldable pub descriptor_type : List ℕ → Option ℕ
descriptor_type bytes = get_elem? bytes 1

unfoldable pub attributes : List ℕ → Option ℕ
attributes bytes = get_elem? bytes 3

unfoldable pub max_packet_size : List ℕ → Option ℕ
max_packet_size bytes = u16_le_at bytes 4

unfoldable pub interval : List ℕ → Option ℕ
interval bytes = get_elem? bytes 6

pub data EndpointAddress : Type 0 where
  to_host : ℕ → EndpointAddress
  to_device : ℕ → EndpointAddress

-- The direction is the highest bit.
abbrev pub address_of : ℕ → EndpointAddress
address_of val =
    let address = get_bits 8 0 4 val in
    if get_bit 8 7 val then to_host address else to_device address

unfoldable pub endpoint_address : List ℕ → Option EndpointAddress
endpoint_address bytes = get_elem? bytes 2 >>= λ val. some (address_of val)

pub data TransferType : Type 0 where
  control isochronus bulk interrupt unknown : TransferType

abbrev pub transfer_type_of : ℕ → TransferType
transfer_type_of bits =
    if bits == 0
    then control
    else if bits == 1
    then isochronus
    else if bits == 2
    then bulk
    else if bits == 3
    then interrupt
    else unknown

unfoldable pub transfer_type : List ℕ → Option TransferType
unfolding attributes
transfer_type bytes = attributes bytes >>= λ val. some (transfer_type_of (get_bits 8 0 2 val))
