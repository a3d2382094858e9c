-- ===== src/Interrupts/Controller.antt =====
-- src/interrupts.rs: the handlers of interrupts, and the two controllers behind ports. A handler is a
-- number; what `generic_interrupt_handler` does besides port accesses is a list of events. The hash
-- map of handlers is a list of its entries.
pub mod Laws
use stream_os.Base.{
  ℕ, ◌+◌, List, [], ◌∷◌, ◌++◌, Option, none, some, Bool, true, false, not, ◌&&◌, if◌then◌else◌,
  ◌==◌, ltb, leb, bit_or, Result, ok, err, map,
}
use stream_os.BitManipulation.{set_bit}
use stream_os.Interrupts.{IrqId, internal, pic1, pic2, interrupt_num, pic1_offset, pic2_offset}
use stream_os.Io.{IoRange, PortRange, request_io_range, OffsetOutOfRange, read_u8, write_u8}
use stream_os.Io.Ports.{Ports, try_access, and_then}

abbrev pub pic_command_offset : ℕ
pic_command_offset = 0

abbrev pub pic_data_offset : ℕ
pic_data_offset = 1

pub data InterruptHandlerError : Type 0 where
  not_initialized : InterruptHandlerError
  pic1_eoi pic2_eoi : OffsetOutOfRange → InterruptHandlerError

pub data InterruptHandlerRegisterError : Type 0 where
  register_not_initialized : InterruptHandlerRegisterError
  read_pic1 read_pic2 write_pic1 write_pic2 : OffsetOutOfRange → InterruptHandlerRegisterError

pub record PicIo : Type 0 where
  pub pic1_io : IoRange
  pub pic2_io : IoRange

abbrev pub Handlers : Type 0
Handlers = List (ℕ × List ℕ)

pub record InterruptHandlerData : Type 0 where
  pub handlers : Option Handlers
  pub pic_io : Option PicIo

-- `InterruptHandlerData::new` and `init`.
abbrev pub uninitialized : InterruptHandlerData
uninitialized = record { handlers = none; pic_io = none }

abbrev pub initialized : PicIo → InterruptHandlerData
initialized pic_io = record { handlers = some []; pic_io = some pic_io }

-- `entry(num).or_default()`, and a push to it.
unfoldable pub push_handler : ℕ → ℕ → Handlers → Handlers
push_handler num f [] = (num, f ∷ []) ∷ []
push_handler num f ((n, fs) ∷ handlers) =
    let later = push_handler num f handlers in
    if n == num then (n, fs ++ (f ∷ [])) ∷ handlers else (n, fs) ∷ later

unfoldable pub get_handlers : ℕ → Handlers → Option (List ℕ)
get_handlers num [] = none
get_handlers num ((n, fs) ∷ handlers) =
    let later = get_handlers num handlers in if n == num then some fs else later

pub data Event : Type 0 where
  runs : ℕ → Event
  apic_eoi : Event

module _ (P : Ports) where
  -- How the mask of a controller lets interrupt `i` through.
  abbrev pub unmask :
      IoRange
      → ℕ
      → (OffsetOutOfRange → InterruptHandlerRegisterError)
      → (OffsetOutOfRange → InterruptHandlerRegisterError)
      → P.State
      → P.State × Result (Unit {0}) InterruptHandlerRegisterError
  unmask io i read_error write_error s =
      and_then P (try_access P (read_u8 io pic_data_offset) s) read_error λ s1 mask.
        and_then P (try_access P (write_u8 io pic_data_offset (set_bit 8 i false mask)) s1)
          write_error λ s2 done. (s2, ok tt)

  abbrev pub unmask_irq :
      IrqId → PicIo → P.State → P.State × Result (Unit {0}) InterruptHandlerRegisterError
  unmask_irq (internal i) pic_io s = (s, ok tt)
  unmask_irq (pic1 i) pic_io s = unmask pic_io.pic1_io i read_pic1 write_pic1 s
  unmask_irq (pic2 i) pic_io s = unmask pic_io.pic2_io i read_pic2 write_pic2 s

  -- `register`, once both tables are there.
  abbrev pub register_in :
      IrqId
      → ℕ
      → Option PicIo
      → Option Handlers
      → P.State
      → InterruptHandlerData × P.State × Result (Unit {0}) InterruptHandlerRegisterError
  register_in irq_id f none handlers s =
      (record { handlers = handlers; pic_io = none }, s, err register_not_initialized)
  register_in irq_id f (some pic_io) none s =
      (record { handlers = none; pic_io = some pic_io }, s, err register_not_initialized)
  register_in irq_id f (some pic_io) (some handlers) s =
      let (after, result) = unmask_irq irq_id pic_io s in
      (
        record {
          handlers = some (push_handler (interrupt_num irq_id) f handlers);
          pic_io = some pic_io;
        },
        after,
        result,
      )

  unfoldable pub register :
      IrqId
      → ℕ
      → InterruptHandlerData
      → P.State
      → InterruptHandlerData × P.State × Result (Unit {0}) InterruptHandlerRegisterError
  register irq_id f tables s = register_in irq_id f tables.pic_io tables.handlers s

  abbrev pub end_of_interrupt : ℕ
  end_of_interrupt = 0x20

  -- The two ends of the handler: an interrupt of the second controller is ended on both.
  unfoldable pub end_pic2 :
      Option PicIo → P.State → P.State × Result (Unit {0}) InterruptHandlerError
  end_pic2 none s = (s, err not_initialized)
  end_pic2 (some pic_io) s =
      and_then P (try_access P (write_u8 pic_io.pic2_io pic_command_offset end_of_interrupt) s)
        pic2_eoi
        λ s1 done.
          and_then P (try_access P (write_u8 pic_io.pic1_io pic_command_offset end_of_interrupt) s1)
            pic1_eoi λ s2 done. (s2, ok tt)

  unfoldable pub end_pic1 :
      Option PicIo → P.State → P.State × Result (Unit {0}) InterruptHandlerError
  end_pic1 none s = (s, err not_initialized)
  end_pic1 (some pic_io) s =
      and_then P (try_access P (write_u8 pic_io.pic1_io pic_command_offset end_of_interrupt) s)
        pic1_eoi λ s1 done. (s1, ok tt)

  abbrev pub is_of : ℕ → ℕ → Bool
  is_of offset num = leb offset num && ltb num (offset + 8)

  -- The rest of the handler on the first processor.
  unfoldable pub end_pic :
      ℕ → Option PicIo → P.State → P.State × Result (Unit {0}) InterruptHandlerError
  end_pic num pic_io s =
      let second = end_pic2 pic_io s in
      let first = end_pic1 pic_io s in
      if is_of pic2_offset num then second else if is_of pic1_offset num then first else (s, ok tt)

  -- The handlers that were found run in order, each with what it does to the hardware.
  unfoldable pub run_all : (ℕ → P.State → P.State) → List ℕ → P.State → P.State
  run_all run [] s = s
  run_all run (f ∷ fs) s = run_all run fs (run f s)

  -- What the handler gives for the handlers that were found; `none` is the panic for an interrupt
  -- without any. The controllers are told of the end in the state that the handlers leave.
  abbrev pub run_handlers :
      (ℕ → P.State → P.State)
      → ℕ
      → Bool
      → Option PicIo
      → Option (List ℕ)
      → P.State
      → Option (P.State × List Event × Result (Unit {0}) InterruptHandlerError)
  run_handlers run num is_first pic_io none s = none
  run_handlers run num is_first pic_io (some fs) s =
      let ran = run_all run fs s in
      let (after, result) = end_pic num pic_io ran in
      if is_first
      then some (after, map runs fs, result)
      else some (ran, map runs fs ++ (apic_eoi ∷ []), ok tt)

  abbrev pub handle_in :
      (ℕ → P.State → P.State)
      → ℕ
      → Bool
      → Option PicIo
      → Option Handlers
      → P.State
      → Option (P.State × List Event × Result (Unit {0}) InterruptHandlerError)
  handle_in run num is_first pic_io none s = some (s, [], err not_initialized)
  handle_in run num is_first pic_io (some handlers) s =
      run_handlers run num is_first pic_io (get_handlers num handlers) s

  -- The result is only logged. `run` says what each handler does to the hardware, and `is_first`
  -- whether this is the first processor.
  unfoldable pub generic_interrupt_handler :
      (ℕ → P.State → P.State)
      → ℕ
      → Bool
      → InterruptHandlerData
      → P.State
      → Option (P.State × List Event × Result (Unit {0}) InterruptHandlerError)
  unfolding run_all
  generic_interrupt_handler run num is_first tables s =
      handle_in run num is_first tables.pic_io tables.handlers s
