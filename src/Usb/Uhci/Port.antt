-- ===== src/Usb/Uhci/Port.antt =====
-- src/usb/uhci.rs: the registers of the controller and of its ports, and the resets.
pub mod Laws
use stream_os.Base.{
  ℕ, ◌*◌, ◌^◌, List, [], ◌∷◌, Option, none, some, ◌>>=◌, ◌>>◌, assert, Bool, true, false, ◌&&◌,
  if◌then◌else◌, leb, u8, u16, u32, Result, ok, err,
}
use stream_os.BitManipulation.{set_bits, set_bit, get_bits, get_bit}
use stream_os.Io.{IoRange, write_16, read_16, write_32}
use stream_os.Io.Ports.{Ports, access, write_access}

abbrev pub usb_cmd_offset : ℕ
usb_cmd_offset = 0

abbrev pub usb_status_offset : ℕ
usb_status_offset = 0x02

abbrev pub frame_number_offset : ℕ
frame_number_offset = 0x06

abbrev pub frame_list_offset : ℕ
frame_list_offset = 0x08

pub record UsbCmdReg : Type 0 where
  pub max_packet : Bool
  pub configure : Bool
  pub software_debug : Bool
  pub global_resume : Bool
  pub global_suspend : Bool
  pub global_reset : Bool
  pub host_controller_reset : Bool
  pub run : Bool

unfoldable pub to_u16 : UsbCmdReg → ℕ
to_u16 cmd =
    let r0 : ℕ = 0 in
    let r1 = if cmd.max_packet then set_bit 16 7 true r0 else r0 in
    let r2 = if cmd.configure then set_bit 16 6 true r1 else r1 in
    let r3 = if cmd.software_debug then set_bit 16 5 true r2 else r2 in
    let r4 = if cmd.global_resume then set_bit 16 4 true r3 else r3 in
    let r5 = if cmd.global_suspend then set_bit 16 3 true r4 else r4 in
    let r6 = if cmd.global_reset then set_bit 16 2 true r5 else r5 in
    let r7 = if cmd.host_controller_reset then set_bit 16 1 true r6 else r6 in
    if cmd.run then set_bit 16 0 true r7 else r7

-- `UsbPortStatus` is its 16 bits.
unfoldable pub suspend : ℕ → Bool
suspend reg = get_bit 16 12 reg

unfoldable pub set_suspend : Bool → ℕ → ℕ
set_suspend val reg = set_bit 16 12 val reg

unfoldable pub reset : ℕ → Bool
reset reg = get_bit 16 9 reg

unfoldable pub set_reset : Bool → ℕ → ℕ
set_reset val reg = set_bit 16 9 val reg

unfoldable pub low_speed : ℕ → Bool
low_speed reg = get_bit 16 8 reg

unfoldable pub set_low_speed : Bool → ℕ → ℕ
set_low_speed val reg = set_bit 16 8 val reg

unfoldable pub resume_detected : ℕ → Bool
resume_detected reg = get_bit 16 6 reg

unfoldable pub set_resume_detected : Bool → ℕ → ℕ
set_resume_detected val reg = set_bit 16 6 val reg

unfoldable pub port_enable_changed : ℕ → Bool
port_enable_changed reg = get_bit 16 3 reg

unfoldable pub set_port_enable_changed : Bool → ℕ → ℕ
set_port_enable_changed val reg = set_bit 16 3 val reg

unfoldable pub port_enabled : ℕ → Bool
port_enabled reg = get_bit 16 2 reg

unfoldable pub set_port_enabled : Bool → ℕ → ℕ
set_port_enabled val reg = set_bit 16 2 val reg

unfoldable pub connected_changed : ℕ → Bool
connected_changed reg = get_bit 16 1 reg

unfoldable pub set_connected_changed : Bool → ℕ → ℕ
set_connected_changed val reg = set_bit 16 1 val reg

unfoldable pub connected : ℕ → Bool
connected reg = get_bit 16 0 reg

unfoldable pub set_connected : Bool → ℕ → ℕ
set_connected val reg = set_bit 16 0 val reg

unfoldable pub line_status : ℕ → ℕ
line_status reg = u8 (get_bits 16 4 2 reg)

unfoldable pub set_line_status : ℕ → ℕ → Option ℕ
set_line_status val reg = assert (leb val 0x3) >> some (set_bits 16 4 2 val reg)

abbrev pub no_command : UsbCmdReg
no_command = record {
  max_packet = false;
  configure = false;
  software_debug = false;
  global_resume = false;
  global_suspend = false;
  global_reset = false;
  host_controller_reset = false;
  run = false;
}

-- The value of the second write: nothing that a write of one would clear, and no reset.
abbrev pub released : ℕ → ℕ
released reg =
    let v1 = set_connected_changed false reg in
    let v2 = set_port_enabled false v1 in
    let v3 = set_port_enable_changed false v2 in
    let v4 = set_resume_detected false v3 in let v5 = set_low_speed false v4 in set_reset false v5

module _ (P : Ports) (io_range : IoRange) where
  abbrev pub write_cmd : UsbCmdReg → P.State → Option P.State
  write_cmd cmd s = write_access P (write_16 io_range usb_cmd_offset (to_u16 cmd)) s

  unfoldable pub reset_controller : P.State → Option P.State
  reset_controller s = do
    s1 ← write_cmd (record no_command { global_reset = true }) s
    let s2 = P.sleep 10000 s1
    s3 ← write_cmd no_command s2
    let s4 = P.sleep 50000 s3
    s5 ← write_cmd (record no_command { host_controller_reset = true }) s4
    some (P.sleep 10000 s5)

  -- `frame_list` is the address of the list of frames.
  unfoldable pub set_frame_list_offset : ℕ → P.State → Option P.State
  set_frame_list_offset frame_list s =
      write_access P (write_32 io_range frame_list_offset frame_list) s

  unfoldable pub set_frame_number : ℕ → P.State → Option P.State
  set_frame_number val s = write_access P (write_16 io_range frame_number_offset val) s

  unfoldable pub clear_usb_status : P.State → Option P.State
  clear_usb_status s = write_access P (write_16 io_range usb_status_offset 0x1f) s

  unfoldable pub enable_uhci_card : P.State → Option P.State
  enable_uhci_card s =
      write_cmd (record no_command { max_packet = true; configure = true; run = true }) s

  unfoldable pub enable_interrupts : P.State → Option P.State
  enable_interrupts s = write_access P (write_16 io_range 4 (2 ^ 2)) s

  unfoldable pub init : ℕ → P.State → Option P.State
  init frame_list s = do
    s1 ← reset_controller s
    s2 ← set_frame_list_offset frame_list s1
    s3 ← set_frame_number 0 s2
    s4 ← clear_usb_status s3
    s5 ← enable_uhci_card s4
    enable_interrupts s5

  unfoldable pub reset_port : ℕ → P.State → Option (P.State × Bool)
  reset_port port_offset s = do
    (s1, val1) ← access P (read_16 io_range port_offset) s
    s2 ← write_access P (write_16 io_range port_offset (set_reset true val1)) s1
    let s3 = P.sleep 50000 s2
    (s4, val2) ← access P (read_16 io_range port_offset) s3
    s5 ← write_access P (write_16 io_range port_offset (released val2)) s4
    let s6 = P.sleep 5000 s5
    (s7, val3) ← access P (read_16 io_range port_offset) s6
    let val4 = set_connected_changed true val3
    s8 ← write_access P (write_16 io_range port_offset val4) s7
    let val5 = set_port_enabled true val4
    s9 ← write_access P (write_16 io_range port_offset val5) s8
    let s10 = P.sleep 5000 s9
    (s11, val6) ← access P (read_16 io_range port_offset) s10
    some (s11, port_enabled val6 && connected val6)
