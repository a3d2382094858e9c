-- ===== src/Usb/Descriptor/Configuration.antt =====
-- src/usb/mod.rs: `UsbConfigurationDescriptor`, which is its bytes.
use stream_os.Base.{ℕ, List, Option, get_elem?, u16_le_at}

unfoldable pub legnth : List ℕ → Option ℕ
legnth bytes = get_elem? bytes 0

unfoldable pub descriptor_type : List ℕ → Option ℕ
descriptor_type bytes = get_elem? bytes 1

unfoldable pub total_length : List ℕ → Option ℕ
total_length bytes = u16_le_at bytes 2

unfoldable pub num_interfaces : List ℕ → Option ℕ
num_interfaces bytes = get_elem? bytes 4

unfoldable pub configuration_value : List ℕ → Option ℕ
configuration_value bytes = get_elem? bytes 5

unfoldable pub configuration_string_index : List ℕ → Option ℕ
configuration_string_index bytes = get_elem? bytes 6

unfoldable pub attributes : List ℕ → Option ℕ
attributes bytes = get_elem? bytes 7

unfoldable pub max_power : List ℕ → Option ℕ
max_power bytes = get_elem? bytes 8
