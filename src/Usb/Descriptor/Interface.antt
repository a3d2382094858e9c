-- ===== src/Usb/Descriptor/Interface.antt =====
-- src/usb/mod.rs: `UsbInterfaceDescriptor`, which is its bytes.
use stream_os.Base.{ℕ, List, Option, get_elem?}

unfoldable pub length : List ℕ → Option ℕ
length bytes = get_elem? bytes 0

unfoldable pub descriptor_type : List ℕ → Option ℕ
descriptor_type bytes = get_elem? bytes 1

unfoldable pub interface_number : List ℕ → Option ℕ
interface_number bytes = get_elem? bytes 2

unfoldable pub alternate_setting : List ℕ → Option ℕ
alternate_setting bytes = get_elem? bytes 3

unfoldable pub num_endpoints : List ℕ → Option ℕ
num_endpoints bytes = get_elem? bytes 4

unfoldable pub interface_class : List ℕ → Option ℕ
interface_class bytes = get_elem? bytes 5

unfoldable pub interface_subclass : List ℕ → Option ℕ
interface_subclass bytes = get_elem? bytes 6

unfoldable pub interface_protocol : List ℕ → Option ℕ
interface_protocol bytes = get_elem? bytes 7

unfoldable pub interface_string_index : List ℕ → Option ℕ
interface_string_index bytes = get_elem? bytes 8
