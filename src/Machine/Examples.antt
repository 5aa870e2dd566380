-- ===== src/Machine/Examples.antt =====
-- The theorems on the machine at the first key events of a session and an address space of functions.
use vx68k_v.Base.{
  ℕ, ◌≤◌, ◌<◌, ◌≡◌, ◌⊎◌, refl, false, List, [], ◌∷◌, ◌&&◌, leb, ltb, arith, if◌then◌else◌,
}
use vx68k_v.Machine.AddressMap.{
  Device, main_memory, PageMap, configure, first_address, last_address, configure-find,
}
use vx68k_v.Machine.Keyboard.{
  Keyboard, Event, press, release, shift_l, control_l, other, handle_all, iocs_b_sftsns, held,
  mask_of, typed, iocs_b_sftsns-held,
}

abbrev by_functions : PageMap
by_functions = record {
  State = ℕ → Device;
  find = λ a s. s a;
  fill = λ first last d s a. if leb first a && ltb a last then d else s a;
  find-fill = λ a first last d s h k. refl;
}

-- A machine of 4 MB.
configure-find_example :
    ((d : Device)
      → first_address d ≤ 0xe80024
      → 0xe80024 < last_address 0x400000 d
      → configure by_functions 0x400000 (λ a. main_memory) 0xe80024 ≡ d)
    × (((d : Device) → (0xe80024 < first_address d) ⊎ (last_address 0x400000 d ≤ 0xe80024))
        → configure by_functions 0x400000 (λ a. main_memory) 0xe80024 ≡ main_memory)
configure-find_example =
    configure-find by_functions 0x400000 0xe80024 (λ a. main_memory) (omega arith) (omega arith)

-- A shifted letter, and the control key held.
abbrev session : List Event
session = press [] shift_l ∷ press (65 ∷ []) other ∷ release shift_l ∷ press [] control_l ∷ []

iocs_b_sftsns-held_example :
    let k : Keyboard = handle_all session (record { queue = []; modifiers = 0 }) in
    (iocs_b_sftsns k ≡ mask_of (held session (false, false))) × (k.queue ≡ typed session)
iocs_b_sftsns-held_example = iocs_b_sftsns-held session

sftsns_session : iocs_b_sftsns (handle_all session (record { queue = []; modifiers = 0 })) ≡ 2
unfolding iocs_b_sftsns handle_all
sftsns_session = refl
