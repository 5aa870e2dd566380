-- ===== src/Iocs/Calls.antt =====
-- The IOCS calls of libvx68k/systemrom.cc that work on the registers and the vectors alone. Those that
-- are marked as not implemented in the source give a fixed answer.
use vx68k_v.Base.{
  ℕ, ◌+◌, ◌*◌, ◌/◌, ◌%◌, ◌≤◌, ◌<◌, ◌≡◌, ◌≢◌, ◌∙◌, refl, ap, Bool, true, false, ◌==◌, ◌&&◌, leb, ltb,
  if◌then◌else◌, add32, bits, minus, word_32, ==-true, ==-false, ltb-false,
}
use vx68k_v.Dos.Machine.{Regs}
use vx68k_v.Dos.Super.{SwitchesStack}
use vx68k_v.Iocs.{Apart, TrapMemory}

-- The registers that the calls use: those of Regs, %d1, %d2 and %a1.
pub record CallRegs : Type 0 where
  pub regs : Regs
  pub d1 : ℕ
  pub d2 : ℕ
  pub a1 : ℕ

abbrev pub result : ℕ → CallRegs → CallRegs
result v c = record c { regs = record c.regs { d0 = v } }

abbrev pub iocs_b_drvchk : CallRegs → CallRegs
iocs_b_drvchk c = if c.d2 % 0x10000 == 8 then result 1 c else result 2 c

abbrev pub iocs_b_eject : CallRegs → CallRegs
iocs_b_eject c = result 0 c

abbrev pub iocs_b_readid : CallRegs → CallRegs
iocs_b_readid c =
    let pda_mode : ℕ = c.d1 % 0x10000 in
    if (bits pda_mode 12 4 == 9) && leb (bits pda_mode 8 4) 1
    then result 0 c
    else result (minus 1) c

abbrev pub iocs_b_recali : CallRegs → CallRegs
iocs_b_recali c =
    if (bits c.d1 12 4 == 9) && ltb (bits c.d1 8 4) 2 then result 0 c else result (minus 1) c

abbrev pub iocs_bitsns : CallRegs → CallRegs
iocs_bitsns c = result 0 c

abbrev pub iocs_bootinf : CallRegs → CallRegs
iocs_bootinf c = result 0x90 c

abbrev pub iocs_contrast : CallRegs → CallRegs
iocs_contrast c = result 14 c

abbrev pub iocs_crtmod : CallRegs → CallRegs
iocs_crtmod c = result 16 c

abbrev pub iocs_init_prn : CallRegs → CallRegs
iocs_init_prn c = result 0 c

abbrev pub iocs_joyget : CallRegs → CallRegs
iocs_joyget c = result (c.regs.d0 / 256 * 256 + 0xff) c

abbrev pub iocs_ontime : CallRegs → CallRegs
iocs_ontime c = result 0 (record c { d1 = 0 })

abbrev pub iocs_romver : CallRegs → CallRegs
iocs_romver c = result (((0x13 * 256 + 0x00) * 256 + 0x01) * 256 + 0x01) c

abbrev pub iocs_skey_mod : CallRegs → CallRegs
iocs_skey_mod c = result 0 c

abbrev pub iocs_sys_stat : CallRegs → CallRegs
iocs_sys_stat c = if c.d1 == 0 then result (100 * 0x10000) c else result 0 c

abbrev pub iocs_tgusemd : CallRegs → CallRegs
iocs_tgusemd c = result 0 c

abbrev pub iocs_timerdst : CallRegs → CallRegs
iocs_timerdst c = result 0 c

abbrev pub iocs_x39 : CallRegs → CallRegs
iocs_x39 c = record c { d1 = 0; d2 = c.d2 / 0x10000 * 0x10000 }

module _ (mm : TrapMemory) where
  open mm use {State, get_32, put_32}

  unfoldable pub iocs_b_intvcs : CallRegs → State → CallRegs × State
  iocs_b_intvcs c s =
      let vecno : ℕ = c.d1 % 0x10000 in
      let vecaddr : ℕ = vecno * 4 in
      if ltb 0x1ff vecno then (c, s) else (result (get_32 vecaddr s) c, put_32 vecaddr c.a1 s)

  abbrev pub iocs_b_lpeek : CallRegs → State → CallRegs
  iocs_b_lpeek c s = record (result (get_32 c.a1 s) c) { a1 = add32 c.a1 4 }

  exchange :
      (c : CallRegs) (s : State)
      → c.d1 % 0x10000 ≤ 0x1ff
      → iocs_b_intvcs c s
        ≡ (result (get_32 (c.d1 % 0x10000 * 4) s) c, put_32 (c.d1 % 0x10000 * 4) c.a1 s)
  unfolding iocs_b_intvcs
  exchange c s h = rw (ltb-false 0x1ff (c.d1 % 0x10000) h) refl

  -- For a vector below 0x200: with the long word that the call has returned in %a1, a second call puts
  -- the vector back and returns what the first has set, and no long word that does not meet the
  -- vector is changed.
  iocs_b_intvcs-twice :
      (c : CallRegs) (s : State)
      → c.d1 % 0x10000 ≤ 0x1ff
      → get_32 (c.d1 % 0x10000 * 4) s < word_32
      → c.a1 < word_32
      → let (r, t) = iocs_b_intvcs c s in
        let (q, u) = iocs_b_intvcs (record r { a1 = r.regs.d0 }) t in
        (get_32 (c.d1 % 0x10000 * 4) u ≡ get_32 (c.d1 % 0x10000 * 4) s)
        × (q.regs.d0 ≡ c.a1)
        × ((a : ℕ) → Apart a 4 (c.d1 % 0x10000 * 4) 4 → get_32 a u ≡ get_32 a s)
  iocs_b_intvcs-twice c s h k l =
      let v : ℕ = c.d1 % 0x10000 * 4 in
      let t : State = put_32 v c.a1 s in
      rw (exchange c s h, exchange (record (result (get_32 v s) c) { a1 = get_32 v s }) t h)
        (
          mm.get_32-put_32 v (get_32 v s) t k,
          mm.get_32-put_32 v c.a1 s l,
          (λ a apart.
              mm.get_32-put_32-Apart a v (get_32 v s) t apart
              ∙ mm.get_32-put_32-Apart a v c.a1 s apart),
        )

module _ (set_state : Bool → Regs → Regs) where
  -- Whether the argument is 0, and the state of the processor.
  abbrev pub super_branch : (is_zero supervisor : Bool) → (ssp : ℕ) → Regs → Regs
  super_branch false true ssp r =
      let down : Regs = set_state false (record r { usp = r.a7; a7 = ssp }) in
      record down { d0 = 0 }
  super_branch false false ssp r = record r { d0 = 0 }
  super_branch true true ssp r = record r { d0 = 1 }
  super_branch true false ssp r =
      let up : Regs = set_state true r in record up { d0 = up.a7; a7 = up.usp }

  unfoldable pub iocs_b_super : CallRegs → CallRegs
  iocs_b_super c = record c { regs = super_branch (c.a1 == 0) c.regs.supervisor c.a1 c.regs }

  enter :
      (c : CallRegs)
      → c.a1 ≡ 0
      → c.regs.supervisor ≡ false
      → iocs_b_super c ≡ record c { regs = super_branch true false c.a1 c.regs }
  unfolding iocs_b_super
  enter c zero user = rw (==-true c.a1 0 zero, user) refl

  leave :
      (c : CallRegs)
      → c.a1 ≢ 0
      → c.regs.supervisor ≡ true
      → iocs_b_super c ≡ record c { regs = super_branch false true c.a1 c.regs }
  unfolding iocs_b_super
  leave c ne mode = rw (==-false c.a1 0 ne, mode) refl

  -- With a `set_supervisor_state` that exchanges the stack pointers: _B_SUPER with 0 in the user state
  -- enters the supervisor state on the stack of the program, and _B_SUPER with the stack pointer that
  -- it returned, which is not 0, comes back to the user state on the same stack with 0 in %d0.
  iocs_b_super-back :
      SwitchesStack set_state
      → (c : CallRegs) → c.regs.supervisor ≡ false
      → c.a1 ≡ 0
      → (iocs_b_super c).regs.d0 ≢ 0
      → let r : CallRegs = iocs_b_super c in
        let q : CallRegs = iocs_b_super (record r { a1 = r.regs.d0 }) in
        (r.regs.supervisor ≡ true)
        × (r.regs.a7 ≡ c.regs.a7)
        × (q.regs.supervisor ≡ false)
        × (q.regs.a7 ≡ c.regs.a7)
        × (q.regs.d0 ≡ 0)
  iocs_b_super-back set c user zero ne =
      let r : CallRegs = iocs_b_super c in
      let up = enter c zero user in
      let mode : r.regs.supervisor ≡ true =
        ap (λ i. i.regs.supervisor) up ∙ set.enters c.regs user in
      let stack : r.regs.a7 ≡ c.regs.a7 = ap (λ i. i.regs.a7) up ∙ set.enters_usp c.regs user in
      let back : CallRegs = record r { a1 = r.regs.d0 } in
      let down = leave back ne mode in
      let set_down : Regs = record r.regs { usp = r.regs.a7; a7 = r.regs.d0 } in
      (
        mode,
        stack,
        ap (λ i. i.regs.supervisor) down ∙ set.leaves set_down mode,
        ap (λ i. i.regs.a7) down ∙ set.leaves_a7 set_down mode ∙ stack,
        ap (λ i. i.regs.d0) down,
      )
