-- ===== src/Interrupts/Controller/Laws.antt =====
-- A registered handler is run by its interrupt, and the controllers are told of its end.
use stream_os.Base.{
  ℕ, ◌≡◌, refl, arith, List, [], ◌∷◌, ◌++◌, Option, none, some, true, false, ◌&&◌, if◌then◌else◌,
  ◌==◌, ltb, leb, Bool-cases, inl, inr, ok, map,
}
use stream_os.Interrupts.{IrqId, interrupt_num}
use stream_os.Io.{verify_offset, write_u8}
use stream_os.Io.Ports.{Ports}
use stream_os.Interrupts.Controller.{
  PicIo, Handlers, push_handler, get_handlers, runs, apic_eoi, register, run_all, end_pic, end_pic1,
  end_pic2, generic_interrupt_handler,
}

-- The handlers of a number, none if there is no entry.
abbrev pub or_none : Option (List ℕ) → List ℕ
or_none none = []
or_none (some fs) = fs

get-push :
    (num f : ℕ) (handlers : Handlers)
    → get_handlers num (push_handler num f handlers)
      ≡ some (or_none (get_handlers num handlers) ++ (f ∷ []))
unfolding get_handlers push_handler
get-push num f [] = ground arith
get-push num f ((n, fs) ∷ handlers) = elim (Bool-cases (n == num)) [
  | inl same ↦ rw (same, same) refl
  | inr other ↦ rw (other, other) (get-push num f handlers)
]

-- The ports of the two controllers.
abbrev pub pics : PicIo
pics = record {
  pic1_io = record { addr = 0x20; length = 2 };
  pic2_io = record { addr = 0xA0; length = 2 };
}

module _ (P : Ports) where
  -- How the end of an interrupt is told: to the second controller and then the first, to the first
  -- one alone, or to none, by the number.
  abbrev pub ended : ℕ → P.State → P.State
  ended num s =
      if leb 0x48 num && ltb num 0x50
      then P.output 1 0x20 0x20 (P.output 1 0xA0 0x20 s)
      else if leb 0x40 num && ltb num 0x48
      then P.output 1 0x20 0x20 s
      else s

  end_pic-ended : (num : ℕ) (s : P.State) → end_pic P num (some pics) s ≡ (ended num s, ok tt)
  unfolding end_pic end_pic1 end_pic2 write_u8 verify_offset
  end_pic-ended num s = elim (Bool-cases (leb 0x48 num && ltb num 0x50)) [
    | inl second ↦ rw second refl
    | inr not_second ↦ rw not_second (elim (Bool-cases (leb 0x40 num && ltb num 0x48)) [
      | inl first ↦ rw first refl
      | inr neither ↦ rw neither refl
    ])
  ]

  run_all-append :
      (run : ℕ → P.State → P.State) (fs : List ℕ) (f : ℕ) (s : P.State)
      → run_all P run (fs ++ (f ∷ [])) s ≡ run f (run_all P run fs s)
  unfolding run_all
  run_all-append run [] f s = refl
  run_all-append run (g ∷ fs) f s = run_all-append run fs f (run g s)

  -- With both tables there, and the controllers at the ports 0x20 and 0xA0, a handler that was registered for an interrupt, whatever the hardware said
  -- to its unmasking, is run by that interrupt after all handlers registered before it, on the hardware
  -- as they leave it. On the first processor the interrupt is then ended, in the state that the handler
  -- leaves, on the second controller and the first, on the first alone, or on none, by its number; on
  -- any other processor it is ended there after the handlers, and no port is accessed but by them.
  pub register-handled :
      (run : ℕ → P.State → P.State) (irq_id : IrqId) (f : ℕ) (handlers : Handlers)
      (before s : P.State)
      → let num = interrupt_num irq_id in
        let tables =
          (register P irq_id f
            (record { handlers = some handlers; pic_io = some pics })
            before).0 in
        let earlier = or_none (get_handlers num handlers) in
        let ran = run f (run_all P run earlier s) in
        (generic_interrupt_handler P run num true tables s
          ≡ some (ended num ran, map runs (earlier ++ (f ∷ [])), ok tt))
        × (generic_interrupt_handler P run num false tables s
            ≡ some (ran, map runs (earlier ++ (f ∷ [])) ++ (apic_eoi ∷ []), ok tt))
  unfolding register generic_interrupt_handler
  register-handled run irq_id f handlers before s =
      let num = interrupt_num irq_id in
      let earlier = or_none (get_handlers num handlers) in
      rw
        (
          get-push num f handlers,
          run_all-append run earlier f s,
          end_pic-ended num (run f (run_all P run earlier s)),
        )
        (refl, refl)
