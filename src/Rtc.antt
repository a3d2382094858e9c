-- ===== src/Rtc.antt =====
-- src/io/rtc.rs: the clock behind two ports. An access that fails leaves the hardware as it was, and
-- its error is passed on.
pub mod Laws
use stream_os.Base.{
  ℕ, zero, suc, ◌+◌, ◌^◌, List, [], ◌∷◌, Option, none, some, Bool, true, false, if◌then◌else◌, ◌==◌,
  bit_and, bit_or, Result, ok, err,
}
use stream_os.Interrupts.{pic2}
use stream_os.Interrupts.Controller.{InterruptHandlerData, InterruptHandlerRegisterError, register}
use stream_os.Io.{IoRange, PortRange, OffsetOutOfRange, request_io_range, read_u8, write_u8}
use stream_os.Io.Ports.{Ports, try_access, and_then}

abbrev pub nmi_enable : Bool
nmi_enable = true

abbrev pub control_offset : ℕ
control_offset = 0

abbrev pub data_offset : ℕ
data_offset = 1

pub data ReadError : Type 0 where
  read_seconds read_minutes read_hours read_weekday : OffsetOutOfRange → ReadError
  read_day read_month read_year read_century : OffsetOutOfRange → ReadError

pub data WriteError : Type 0 where
  write_seconds write_minutes write_hours write_weekday : OffsetOutOfRange → WriteError
  write_day write_month write_year write_century : OffsetOutOfRange → WriteError

pub record DateTime : Type 0 where
  pub seconds : ℕ
  pub minutes : ℕ
  pub hours : ℕ
  pub weekday : ℕ
  pub day : ℕ
  pub month : ℕ
  pub year : ℕ
  pub century : ℕ

unfoldable pub get_nmi_mask : Bool → ℕ
get_nmi_mask enable = if enable then 0 else 2 ^ 7

unfoldable pub in_progress_set : ℕ → Bool
in_progress_set status_reg_a = bit_and status_reg_a (2 ^ 7) == 2 ^ 7

abbrev pub same_error : OffsetOutOfRange → OffsetOutOfRange
same_error e = e

module _ (P : Ports) (cmos_io : IoRange) where
  unfoldable pub select_reg : Bool → ℕ → P.State → P.State × Result ℕ OffsetOutOfRange
  select_reg enable register s =
      try_access P (write_u8 cmos_io control_offset (bit_or (get_nmi_mask enable) register)) s

  unfoldable pub read_cmos_reg : Bool → ℕ → P.State → P.State × Result ℕ OffsetOutOfRange
  read_cmos_reg enable register s =
      and_then P (select_reg enable register s) same_error
        λ s1 done. try_access P (read_u8 cmos_io data_offset) s1

  unfoldable pub write_cmos_reg : Bool → ℕ → ℕ → P.State → P.State × Result ℕ OffsetOutOfRange
  write_cmos_reg enable register val s =
      and_then P (select_reg enable register s) same_error
        λ s1 done. try_access P (write_u8 cmos_io data_offset val) s1

  unfoldable pub update_in_progress : Bool → P.State → P.State × Result Bool OffsetOutOfRange
  update_in_progress enable s = and_then P (select_reg enable 0x0a s) same_error λ s1 done.
      and_then P (try_access P (read_u8 cmos_io data_offset) s1) same_error
        λ s2 val. (s2, ok (in_progress_set val))

  unfoldable pub enable_interrupts : P.State → P.State × Result ℕ OffsetOutOfRange
  enable_interrupts s =
      and_then P (read_cmos_reg nmi_enable 0x8b s) same_error
        λ s1 prev. write_cmos_reg nmi_enable 0x8b (bit_or prev 0x40) s1

  unfoldable pub set_interrupt_rate : P.State → P.State × Result ℕ OffsetOutOfRange
  set_interrupt_rate s =
      and_then P (read_cmos_reg nmi_enable 0x0a s) same_error
        λ s1 val. write_cmos_reg nmi_enable 0x0a (bit_or (bit_and val 0xf0) 1) s1

  unfoldable pub set_data_format : Bool → P.State → P.State × Result ℕ OffsetOutOfRange
  set_data_format enable s =
      and_then P (read_cmos_reg enable 0x0b s) same_error
        λ s1 status_reg. write_cmos_reg enable 0x0b (bit_or (bit_or status_reg (2 ^ 1)) (2 ^ 2)) s1

  unfoldable pub clear_interrupt_mask : P.State → P.State × Result ℕ OffsetOutOfRange
  clear_interrupt_mask s = read_cmos_reg nmi_enable 0x0c s

  -- How `update_guarded_op` ends: with the result of an operation, with the panic of an access that
  -- fails, or not within the turns that it is given.
  pub data Guarded (R : Type 0) : Type 0 where
    finished : P.State → R → Guarded R
    panicked out_of_turns : Guarded R

  -- What follows the question whether an update is in progress.
  abbrev pub on_update :
      {R : Type 0}
      → P.State × Result Bool OffsetOutOfRange
      → (P.State → Guarded R)
      → (P.State → Guarded R)
      → Guarded R
  on_update (s, err e) busy idle = panicked
  on_update (s, ok true) busy idle = busy s
  on_update (s, ok false) busy idle = idle s

  -- Both loops of `update_guarded_op`: each turn asks whether an update is in progress, and if none
  -- is, does the operation and asks again.
  unfoldable pub update_guarded_op :
      {R : Type 0} → (P.State → P.State × R) → ℕ → P.State → Guarded R
  update_guarded_op f zero s = out_of_turns
  update_guarded_op f (suc turns) s =
      on_update (update_in_progress nmi_enable s) (λ s1. update_guarded_op f turns s1)
        λ s1.
          let (s2, ret) = f s1 in
          on_update (update_in_progress nmi_enable s2) (λ s3. update_guarded_op f turns s3)
            λ s3. finished s3 ret

  unfoldable pub write_time : DateTime → P.State → P.State × Result (Unit {0}) WriteError
  write_time date_time s0 =
      and_then P (write_cmos_reg nmi_enable 0x00 date_time.seconds s0) write_seconds λ s1 done0.
        and_then P (write_cmos_reg nmi_enable 0x02 date_time.minutes s1) write_minutes λ s2 done1.
          and_then P (write_cmos_reg nmi_enable 0x04 date_time.hours s2) write_hours λ s3 done2.
            and_then P (write_cmos_reg nmi_enable 0x06 date_time.weekday s3) write_weekday
              λ s4 done3.
                and_then P (write_cmos_reg nmi_enable 0x07 date_time.day s4) write_day λ s5 done4.
                  and_then P (write_cmos_reg nmi_enable 0x08 date_time.month s5) write_month
                    λ s6 done5.
                      and_then P (write_cmos_reg nmi_enable 0x09 date_time.year s6) write_year
                        λ s7 done6.
                          and_then P (write_cmos_reg nmi_enable 0x32 date_time.century s7)
                            write_century λ s8 done7. (s8, ok tt)

  unfoldable pub read_time : P.State → P.State × Result DateTime ReadError
  read_time s0 = and_then P (read_cmos_reg nmi_enable 0x00 s0) read_seconds λ s1 seconds.
      and_then P (read_cmos_reg nmi_enable 0x02 s1) read_minutes λ s2 minutes.
        and_then P (read_cmos_reg nmi_enable 0x04 s2) read_hours λ s3 hours.
          and_then P (read_cmos_reg nmi_enable 0x06 s3) read_weekday λ s4 weekday.
            and_then P (read_cmos_reg nmi_enable 0x07 s4) read_day λ s5 day.
              and_then P (read_cmos_reg nmi_enable 0x08 s5) read_month λ s6 month.
                and_then P (read_cmos_reg nmi_enable 0x09 s6) read_year λ s7 year.
                  and_then P (read_cmos_reg nmi_enable 0x32 s7) read_century λ s8 century. (
                    s8,
                    ok (record {
                      seconds = seconds;
                      minutes = minutes;
                      hours = hours;
                      weekday = weekday;
                      day = day;
                      month = month;
                      year = year;
                      century = century;
                    }),
                  )

  -- `Rtc::write` and `Rtc::read`.
  unfoldable pub write : DateTime → ℕ → P.State → Guarded (Result (Unit {0}) WriteError)
  write date_time turns s = update_guarded_op (write_time date_time) turns s

  unfoldable pub read : ℕ → P.State → Guarded (Result DateTime ReadError)
  read turns s = update_guarded_op read_time turns s

pub data RtcInitError : Type 0 where
  request_range : RtcInitError
  set_data_format_failed set_interrupt_rate_failed : OffsetOutOfRange → RtcInitError
  enable_interrupts_failed : OffsetOutOfRange → RtcInitError
  register_interrupt_handler : InterruptHandlerRegisterError → RtcInitError

module _ (P : Ports) where
  -- The set-up of the registers by `Rtc::new`.
  unfoldable pub set_up : IoRange → P.State → P.State × Result (Unit {0}) RtcInitError
  set_up cmos_io s =
      and_then P (set_data_format P cmos_io nmi_enable s) set_data_format_failed λ s1 done1.
        and_then P (set_interrupt_rate P cmos_io s1) set_interrupt_rate_failed λ s2 done2.
          and_then P (enable_interrupts P cmos_io s2) enable_interrupts_failed
            λ s3 done3. (s3, ok tt)

  abbrev pub registered :
      IoRange
      → InterruptHandlerData × P.State × Result (Unit {0}) InterruptHandlerRegisterError
      → InterruptHandlerData × P.State × Result IoRange RtcInitError
  registered cmos_io (tables, s, ok u) = (tables, s, ok cmos_io)
  registered cmos_io (tables, s, err e) = (tables, s, err (register_interrupt_handler e))

  abbrev pub register_if :
      IoRange
      → ℕ
      → InterruptHandlerData
      → P.State × Result (Unit {0}) RtcInitError
      → InterruptHandlerData × P.State × Result IoRange RtcInitError
  register_if cmos_io on_tick tables (s, ok u) =
      registered cmos_io (register P (pic2 0) on_tick tables s)
  register_if cmos_io on_tick tables (s, err e) = (tables, s, err e)

  abbrev pub new_in :
      Option IoRange
      → ℕ
      → InterruptHandlerData
      → P.State
      → InterruptHandlerData × P.State × Result IoRange RtcInitError
  new_in none on_tick tables s = (tables, s, err request_range)
  new_in (some cmos_io) on_tick tables s = register_if cmos_io on_tick tables (set_up cmos_io s)

  -- `Rtc::new`; `on_tick` is the handler that is registered, which ticks and then reads register 0x0c.
  unfoldable pub new :
      List PortRange
      → ℕ
      → InterruptHandlerData
      → P.State
      → List PortRange × InterruptHandlerData × P.State × Result IoRange RtcInitError
  new allocator on_tick tables s =
      let (after, cmos_io) = request_io_range allocator 0x70 2 in
      let (tables1, s1, result) = new_in cmos_io on_tick tables s in (after, tables1, s1, result)
