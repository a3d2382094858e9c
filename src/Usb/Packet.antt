-- ===== src/Usb/Packet.antt =====
-- src/usb/mod.rs: packets, setup requests, and the packets that a request for a descriptor sends.
pub mod Laws
use stream_os.Base.{
  ℕ, ◌*◌, ◌+◌, ◌^◌, List, [], ◌∷◌, ◌++◌, Option, none, some, ◌>>=◌, Bool, true, false, take, drop,
  replicate, set, get_elem?, u16, u16_to_le_bytes, u16_le_at,
}

pub data Pid : Type 0 where
  setup input output : Pid

pub record UsbPacket : Type 0 where
  pub pid : Pid
  pub address : ℕ
  pub endpoint : ℕ
  pub data_toggle : Bool
  pub data_bytes : List ℕ

pub data UsbSetupRequestValue : Type 0 where
  get_status clear_feature set_feature set_address get_descriptor : UsbSetupRequestValue
  set_descriptor get_configuration set_configuration get_interface : UsbSetupRequestValue
  set_interface sync_frame : UsbSetupRequestValue

abbrev pub request_value : UsbSetupRequestValue → ℕ
request_value get_status = 0
request_value clear_feature = 1
request_value set_feature = 3
request_value set_address = 5
request_value get_descriptor = 6
request_value set_descriptor = 7
request_value get_configuration = 8
request_value set_configuration = 9
request_value get_interface = 10
request_value set_interface = 11
request_value sync_frame = 12

pub data UsbDescriptorType : Type 0 where
  device configuration string interface endpoint : UsbDescriptorType
  device_qualifier other_speed_configuration interface_power : UsbDescriptorType

abbrev pub descriptor_value : UsbDescriptorType → ℕ
descriptor_value device = 1
descriptor_value configuration = 2
descriptor_value string = 3
descriptor_value interface = 4
descriptor_value endpoint = 5
descriptor_value device_qualifier = 6
descriptor_value other_speed_configuration = 7
descriptor_value interface_power = 8

pub record UsbSetupRequestParams : Type 0 where
  pub pid : Pid
  pub address : ℕ
  pub endpoint : ℕ
  pub data_toggle : Bool
  pub request_type : ℕ
  pub request : UsbSetupRequestValue
  pub value : ℕ
  pub index : ℕ
  pub length : ℕ

abbrev pub request_size : ℕ
request_size = 8

-- `UsbSetupRequest` is its eight bytes. The getters panic if the bytes are missing.
unfoldable pub request_type : List ℕ → Option ℕ
request_type bytes = get_elem? bytes 0

unfoldable pub request : List ℕ → Option ℕ
request bytes = get_elem? bytes 1

unfoldable pub value : List ℕ → Option ℕ
value bytes = u16_le_at bytes 2

unfoldable pub index : List ℕ → Option ℕ
index bytes = u16_le_at bytes 4

unfoldable pub request_length : List ℕ → Option ℕ
request_length bytes = u16_le_at bytes 6

abbrev pub set_two : ℕ → ℕ → List ℕ → List ℕ
set_two at val bytes = take at bytes ++ u16_to_le_bytes val ++ drop (at + 2) bytes

unfoldable pub set_request_type : ℕ → List ℕ → List ℕ
set_request_type val bytes = set bytes 0 val

unfoldable pub set_request : UsbSetupRequestValue → List ℕ → List ℕ
set_request val bytes = set bytes 1 (request_value val)

unfoldable pub set_value : ℕ → List ℕ → List ℕ
set_value val bytes = set_two 2 val bytes

unfoldable pub set_index : ℕ → List ℕ → List ℕ
set_index val bytes = set_two 4 val bytes

unfoldable pub set_length : ℕ → List ℕ → List ℕ
set_length val bytes = set_two 6 val bytes

-- `UsbPacket::setup`.
unfoldable pub setup_packet : UsbSetupRequestParams → UsbPacket
unfolding set_request_type set_request set_value set_index set_length
setup_packet params =
    let d0 = replicate request_size 0 in
    let d1 = set_request_type params.request_type d0 in
    let d2 = set_request params.request d1 in
    let d3 = set_value params.value d2 in
    let d4 = set_index params.index d3 in
    let d5 = set_length params.length d4 in
    record {
      pid = params.pid;
      address = params.address;
      endpoint = params.endpoint;
      data_toggle = params.data_toggle;
      data_bytes = d5;
    }

-- The packets that read `size` bytes of a descriptor of a device: the request, the read, and the
-- acknowledgement.
abbrev pub descriptor_request : UsbDescriptorType → ℕ → ℕ → UsbSetupRequestParams
descriptor_request kind address size = record {
  pid = setup;
  address = address;
  endpoint = 0;
  data_toggle = false;
  request_type = 0x80;
  request = get_descriptor;
  value = u16 (descriptor_value kind * 2 ^ 8);
  index = 0;
  length = size;
}

abbrev pub read_packet : ℕ → ℕ → UsbPacket
read_packet address size = record {
  pid = input;
  address = address;
  endpoint = 0;
  data_toggle = false;
  data_bytes = replicate size 0;
}

abbrev pub ack_packet : ℕ → UsbPacket
ack_packet address = record {
  pid = output;
  address = address;
  endpoint = 0;
  data_toggle = false;
  data_bytes = [];
}

unfoldable pub generate_get_configuration_descriptor : ℕ → ℕ → List UsbPacket
unfolding setup_packet
generate_get_configuration_descriptor address size =
    setup_packet (descriptor_request configuration address size)
    ∷ read_packet address size
    ∷ ack_packet address
    ∷ []

-- The packets of `UsbServiceHandle::get_device_descriptor`.
unfoldable pub generate_get_device_descriptor : ℕ → List UsbPacket
unfolding setup_packet
generate_get_device_descriptor address =
    setup_packet (descriptor_request device address 18)
    ∷ read_packet address 18
    ∷ ack_packet address
    ∷ []

-- The acknowledgement of `Usb::set_address` and `Usb::set_configuration`.
abbrev pub status_packet : UsbPacket
status_packet = record {
  pid = input;
  address = 0;
  endpoint = 0;
  data_toggle = true;
  data_bytes = [];
}

abbrev pub control_request : ℕ → UsbSetupRequestValue → ℕ → UsbSetupRequestParams
control_request address request value = record {
  pid = setup;
  address = address;
  endpoint = 0;
  data_toggle = false;
  request_type = 0;
  request = request;
  value = value;
  index = 0;
  length = 0;
}

unfoldable pub set_address_work : ℕ → List UsbPacket
unfolding setup_packet
set_address_work address = setup_packet (control_request 0 set_address address) ∷ status_packet ∷ []

unfoldable pub set_configuration_work : ℕ → ℕ → List UsbPacket
unfolding setup_packet
set_configuration_work address config =
    setup_packet (control_request address set_configuration config) ∷ status_packet ∷ []
