-- ===== src/Tests/Rtl8139.antt =====
-- The network card, and the handlers of interrupts.
use stream_os.Base.{
  ℕ, ◌≡◌, refl, arith, List, [], ◌∷◌, ◌++◌, some, true, false, ok, if◌then◌else◌, ◌==◌, map,
}
use stream_os.Rtl8139.Registers.{Card}
use stream_os.Rtl8139.Registers.Laws.{Keeping}
use stream_os.Rtl8139.Packets.Laws.{ReadPosition, read_all, after_all, read_all-AreLaid}
use stream_os.Interrupts.{pic2, interrupt_num}
use stream_os.Interrupts.Controller.{
  register, run_all, generic_interrupt_handler, runs, apic_eoi, get_handlers, Handlers,
}
use stream_os.Interrupts.Controller.Laws.{pics, or_none, ended, register-handled}
use stream_os.Io.Ports.{Ports, Log, log_ports}

-- A card that is a memory of registers.
abbrev memory_card : Card
memory_card = record {
  State = ℕ → ℕ;
  read = λ n a s. (s, s a);
  write = λ n a v s. λ b. if b == a then v else s b;
}

abbrev keeping : Keeping memory_card
keeping = record {
  value = λ s a. s a;
  read_value = λ s n a. refl;
  read_keeps = λ s n a b. refl;
  write_value = λ s n a v b. refl;
}

abbrev position : ReadPosition memory_card 0
position = record {
  capr = λ s. s 0x38;
  reads_capr = λ s. refl;
  keeps_capr = λ s n a. refl;
  sets_capr = λ s v h. refl;
}

-- Two packets of one and two bytes.
abbrev ring : ℕ → ℕ
ring a =
    if a == 2
    then 1
    else if a == 4
    then 7
    else if a == 10
    then 2
    else if a == 12
    then 8
    else if a == 13
    then 9
    else 0

abbrev packets : List (List ℕ)
packets = (7 ∷ []) ∷ (8 ∷ 9 ∷ []) ∷ []

read_all-AreLaid_example :
    ((read_all memory_card 0 ring 2 (λ a. 0xfff0)).1 ≡ packets)
    × ((read_all memory_card 0 ring 2 (λ a. 0xfff0)).0 0x38 ≡ after_all 0xfff0 packets)
read_all-AreLaid_example =
    read_all-AreLaid memory_card 0 position ring packets (λ a. 0xfff0) (omega arith) (omega arith)
      (refl, refl, omega arith, (refl, refl, omega arith, tt))

abbrev handlers : Handlers
handlers = (0x48, 1 ∷ []) ∷ []

abbrev no_log : Log
no_log = record { reads = []; entries = [] }

-- Each handler writes its number to a port.
abbrev run : ℕ → Log → Log
run f s = Ports.output log_ports 1 0x60 f s

register-handled_example :
    let tables =
      (register log_ports
        (pic2 0)
        5
        (record { handlers = some handlers; pic_io = some pics })
        no_log).0 in
    let earlier = or_none (get_handlers 0x48 handlers) in
    let ran = run 5 (run_all log_ports run earlier no_log) in
    (generic_interrupt_handler log_ports run 0x48 true tables no_log
      ≡ some (ended log_ports 0x48 ran, map runs (earlier ++ (5 ∷ [])), ok tt))
    × (generic_interrupt_handler log_ports run 0x48 false tables no_log
        ≡ some (ran, map runs (earlier ++ (5 ∷ [])) ++ (apic_eoi ∷ []), ok tt))
unfolding interrupt_num
register-handled_example = register-handled log_ports run (pic2 0) 5 handlers no_log no_log
