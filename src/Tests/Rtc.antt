-- ===== src/Tests/Rtc.antt =====
-- The clock, on a device that is a memory of registers.
use stream_os.Base.{ℕ, ◌≡◌, refl, ok, if◌then◌else◌, ◌==◌}
use stream_os.Io.Ports.{Ports}
use stream_os.Rtc.{DateTime, in_progress_set, finished, write, read}
use stream_os.Rtc.Laws.{Cmos, cmos, write-read}

pub record Memory : Type 0 where
  pub selected : ℕ
  pub registers : ℕ → ℕ

abbrev output_byte : ℕ → ℕ → Memory → Memory
output_byte port val m =
    if port == 0x70
    then record m { selected = val }
    else record m { registers = λ q. if q == m.selected then val else m.registers q }

abbrev clock_ports : Ports
clock_ports = record {
  State = Memory;
  input = λ n port m. (m, m.registers m.selected);
  output = λ n port val m. output_byte port val m;
  sleep = λ microseconds m. m;
}

abbrev clock : Cmos clock_ports
clock = record {
  value = λ m r. m.registers r;
  read_value = λ s r. refl;
  read_keeps = λ s r q. refl;
  write_value = λ s r v q. refl;
}

abbrev new_year : DateTime
new_year = record {
  seconds = 0;
  minutes = 0;
  hours = 0;
  weekday = 4;
  day = 1;
  month = 1;
  year = 26;
  century = 20;
}

abbrev stopped : Memory
stopped = record { selected = 0; registers = λ r. 0 }

write-read_example :
    (written : Memory) × (last : Memory) × (write clock_ports cmos new_year 1 stopped
      ≡ finished written (ok tt))
    × (read clock_ports cmos 1 written ≡ finished last (ok new_year))
unfolding in_progress_set
write-read_example = write-read clock_ports clock new_year 0 0 stopped refl
