-- ===== src/Usb/Descriptor/Device.antt =====
-- src/usb/mod.rs: `UsbDeviceDescriptor`, which is its bytes.
use stream_os.Base.{ℕ, List, Option, get_elem?, u16_le_at}

unfoldable pub length : List ℕ → Option ℕ
length bytes = get_elem? bytes 0

unfoldable pub descriptor_type : List ℕ → Option ℕ
descriptor_type bytes = get_elem? bytes 1

unfoldable pub bcd_usb_version : List ℕ → Option ℕ
bcd_usb_version bytes = u16_le_at bytes 2

unfoldable pub device_class : List ℕ → Option ℕ
device_class bytes = get_elem? bytes 4

unfoldable pub device_sublcass : List ℕ → Option ℕ
device_sublcass bytes = get_elem? bytes 5

unfoldable pub device_protocol : List ℕ → Option ℕ
device_protocol bytes = get_elem? bytes 6

unfoldable pub max_packet_size_endpoint_zero : List ℕ → Option ℕ
max_packet_size_endpoint_zero bytes = get_elem? bytes 7

unfoldable pub vendor_id : List ℕ → Option ℕ
vendor_id bytes = u16_le_at bytes 8

unfoldable pub product_id : List ℕ → Option ℕ
product_id bytes = u16_le_at bytes 10

unfoldable pub device_version : List ℕ → Option ℕ
device_version bytes = u16_le_at bytes 12

unfoldable pub manufacturer_string_id : List ℕ → Option ℕ
manufacturer_string_id bytes = get_elem? bytes 14

unfoldable pub product_string_id : List ℕ → Option ℕ
product_string_id bytes = get_elem? bytes 15

unfoldable pub serial_number_id : List ℕ → Option ℕ
serial_number_id bytes = get_elem? bytes 16

unfoldable pub num_configurations : List ℕ → Option ℕ
num_configurations bytes = get_elem? bytes 17
