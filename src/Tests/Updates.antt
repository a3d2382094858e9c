-- ===== src/Tests/Updates.antt =====
-- Updated values, and the task that serves the bus.
use stream_os.Base.{ℕ, ◌≡◌, refl, true, false, List, [], ◌∷◌, ◌++◌, none}
use stream_os.UpdatedVal
use stream_os.UpdatedVal.{Inner, Step, writes, polls, poll-Woken}
use stream_os.Usb.Service.{Usb}

abbrev value : Inner ℕ
value = record { val = 3; generation = 5; waker = 1 ∷ [] }

abbrev updates : List (Step ℕ)
updates = writes 4 ∷ polls true 5 2 ∷ writes 6 ∷ []

poll-Woken_example :
    ((UpdatedVal.poll ℕ true (UpdatedVal.wait ℕ value) 9 value).1 ≡ none)
    × ((before : List ℕ) × (after : List ℕ) × ((UpdatedVal.write ℕ 7 (
            UpdatedVal.run ℕ
              (polls true 5 2 ∷ [])
              (UpdatedVal.poll ℕ true (UpdatedVal.wait ℕ value) 9 value).0)).1
          ≡ before ++ (9 ∷ after)))
    × ((UpdatedVal.poll ℕ false (UpdatedVal.wait ℕ value) 9 value).1 ≡ none)
    × ((UpdatedVal.write ℕ 7 (
          UpdatedVal.run ℕ
            (polls true 5 2 ∷ [])
            (UpdatedVal.poll ℕ false (UpdatedVal.wait ℕ value) 9 value).0)).1
        ≡ (UpdatedVal.write ℕ 7 (UpdatedVal.run ℕ (polls true 5 2 ∷ []) value)).1)
poll-Woken_example = poll-Woken ℕ (polls true 5 2 ∷ []) value 9 7 refl

abbrev fresh_usb : Usb
fresh_usb = record { next_usb_addr = 1 }
