-- ===== src/Iocs/Table.antt =====
-- The table of the IOCS calls: `initialize_iocs_calls` of libvx68k/systemrom.cc and the functions
-- `install_iocs_calls` of the devices, in the order of the constructor of class machine. Those of
-- msm6258vmem.cc and fdcmem.cc install nothing.
pub mod Numbers
use mathlib.Core.Path.{fun_ext}
use vx68k_v.Base.{
  ℕ, ◌%◌, ◌≡◌, refl, sym, ap, ◌∙◌, inl, inr, Bool, true, false, List, [], ◌∷◌, ◌++◌, Option, none,
  some, ◌>>=◌, ◌==◌, ◌&&◌, ltb, leb, if◌then◌else◌, Bool-cases, arith, ==-eq, leb-false, ltb-lt,
}
use vx68k_v.Iocs.{TrapMemory, Processor, Handler, set_iocs_call, call_iocs}

-- The handlers that are installed.
pub data Call : Type 0 where
  b_keyinp b_keysns b_sftsns bitsns ledmod tgusemd crtmod contrast tpalet tcolor scroll b_putc
        b_print x37 x38 x39 x3a joyget init_prn b_write b_read b_recali b_readid b_drvchk b_eject
        dateget datebin timeget timebin dateasc timeasc opmset opmintst timerdst vdispst skey_mod
        ontime b_intvcs b_super b_lpeek bootinf romver g_clr_on sys_stat os_curon os_curof textput
        b_curon b_curoff b_color b_locate b_clr_st b_consol b_putmes txfill dmamove set232c ms_init
        ms_curon ms_curof ms_stat ms_getdt ms_curgt ms_curst ms_limit defchr fntadr fntget :
      Call

abbrev pub Entries : Type 0
Entries = List (ℕ × Call)

abbrev pub rom_calls : Entries
rom_calls =
    (0x00, b_keyinp)
    ∷ (0x01, b_keysns)
    ∷ (0x02, b_sftsns)
    ∷ (0x04, bitsns)
    ∷ (0x0d, ledmod)
    ∷ (0x0e, tgusemd)
    ∷ (0x10, crtmod)
    ∷ (0x11, contrast)
    ∷ (0x13, tpalet)
    ∷ (0x15, tcolor)
    ∷ (0x1d, scroll)
    ∷ (0x20, b_putc)
    ∷ (0x21, b_print)
    ∷ (0x37, x37)
    ∷ (0x38, x38)
    ∷ (0x39, x39)
    ∷ (0x3a, x3a)
    ∷ (0x3b, joyget)
    ∷ (0x3c, init_prn)
    ∷ (0x45, b_write)
    ∷ (0x46, b_read)
    ∷ (0x47, b_recali)
    ∷ (0x4a, b_readid)
    ∷ (0x4e, b_drvchk)
    ∷ (0x4f, b_eject)
    ∷ (0x54, dateget)
    ∷ (0x55, datebin)
    ∷ (0x56, timeget)
    ∷ (0x57, timebin)
    ∷ (0x5a, dateasc)
    ∷ (0x5b, timeasc)
    ∷ (0x68, opmset)
    ∷ (0x6a, opmintst)
    ∷ (0x6b, timerdst)
    ∷ (0x6c, vdispst)
    ∷ (0x7d, skey_mod)
    ∷ (0x7f, ontime)
    ∷ (0x80, b_intvcs)
    ∷ (0x81, b_super)
    ∷ (0x84, b_lpeek)
    ∷ (0x8e, bootinf)
    ∷ (0x8f, romver)
    ∷ (0x90, g_clr_on)
    ∷ (0xac, sys_stat)
    ∷ (0xae, os_curon)
    ∷ (0xaf, os_curof)
    ∷ []

abbrev pub tvram_calls : Entries
tvram_calls =
    (0x1b, textput)
    ∷ (0x1e, b_curon)
    ∷ (0x1f, b_curoff)
    ∷ (0x22, b_color)
    ∷ (0x23, b_locate)
    ∷ (0x2a, b_clr_st)
    ∷ (0x2e, b_consol)
    ∷ (0x2f, b_putmes)
    ∷ (0xd7, txfill)
    ∷ []

abbrev pub dmac_calls : Entries
dmac_calls = (0x8a, dmamove) ∷ []

abbrev pub scc_calls : Entries
scc_calls =
    (0x30, set232c)
    ∷ (0x70, ms_init)
    ∷ (0x71, ms_curon)
    ∷ (0x72, ms_curof)
    ∷ (0x73, ms_stat)
    ∷ (0x74, ms_getdt)
    ∷ (0x75, ms_curgt)
    ∷ (0x76, ms_curst)
    ∷ (0x77, ms_limit)
    ∷ []

abbrev pub font_calls : Entries
font_calls = (0x0f, defchr) ∷ (0x16, fntadr) ∷ (0x19, fntget) ∷ []

abbrev pub all_calls : Entries
all_calls = rom_calls ++ (tvram_calls ++ (dmac_calls ++ (scc_calls ++ font_calls)))

-- The handler for a number, if there is one.
unfoldable pub lookup : ℕ → Entries → Option Call
lookup n [] = none
lookup n ((m, c) ∷ es) = if n == m then some c else lookup n es

-- No number stands twice, and each is below 0x100.
distinct : Entries → Bool
unfolding lookup
distinct [] = true
distinct ((m, c) ∷ es) = elim (lookup m es) [ none ↦ ltb m 0x100 && distinct es | some d ↦ false ]

all_calls-distinct : distinct all_calls ≡ true
unfolding distinct lookup
all_calls-distinct = refl

module _ (mm : TrapMemory) (handler : Call → Handler mm) where
  abbrev pub Table : Type 0
  Table = ℕ → Handler mm

  -- The calls of `set_iocs_call` for some entries; none is its exception.
  unfoldable pub install : Entries → Table → Option Table
  install [] t = some t
  install ((n, c) ∷ es) t = set_iocs_call mm n (handler c) t >>= install es

  -- `invalid_iocs_call` throws.
  abbrev pub invalid_iocs_call : Handler mm
  invalid_iocs_call p = none

  -- The constructors of the ROM and of the machine.
  unfoldable pub install_iocs_calls : Option Table
  unfolding install
  install_iocs_calls = install rom_calls (λ n. invalid_iocs_call) >>= λ t1.
      install tvram_calls t1 >>= λ t2.
      install dmac_calls t2 >>= λ t3. install scc_calls t3 >>= λ t4. install font_calls t4

  -- A table with some entries laid over it.
  unfoldable pub choose : Option Call → Handler mm → Handler mm
  choose none f = f
  choose (some c) f = handler c

  abbrev overlay : Entries → Table → Table
  overlay es t n = choose (lookup n es) (t n)

  overlay-cons :
      (m : ℕ) (c : Call) (es : Entries) (t : Table) (n : ℕ)
      → lookup m es ≡ none
      → overlay es (λ k. if k == m then handler c else t k) n ≡ overlay ((m, c) ∷ es) t n
  unfolding choose lookup
  overlay-cons m c es t n free = elim (Bool-cases (n == m)) [
    | inl e ↦ rw (e, ==-eq n m e, free) refl
    | inr e ↦ rw e refl
  ]

  install_step :
      (m : ℕ) (c : Call) (es : Entries) (t : Table) (r : Option Call)
      → lookup m es ≡ r
      → elim r [ none ↦ ltb m 0x100 && distinct es | some d ↦ false ] ≡ true
      → (lookup m es ≡ none) × (ltb m 0x100 ≡ true) × (distinct es ≡ true)
  install_step m c es t none e h = (e, ground (arith, h), ground (arith, h))
  install_step m c es t (some d) e h = absurd (cc)

  install-overlay :
      (es : Entries) (t : Table) → distinct es ≡ true → install es t ≡ some (overlay es t)
  unfolding install set_iocs_call choose lookup distinct
  install-overlay [] t h = refl
  install-overlay ((m, c) ∷ es) t h =
      let (free, low, rest) = install_step m c es t (lookup m es) refl h in
      rw (leb-false 0x100 m (ltb-lt m 0x100 low)) (
        install-overlay es (λ k. if k == m then handler c else t k) rest
        ∙ ap some (fun_ext λ n. overlay-cons m c es t n free))

  install-append :
      (xs ys : Entries) (t : Table) → install (xs ++ ys) t ≡ (install xs t >>= install ys)
  unfolding install set_iocs_call
  install-append [] ys t = refl
  install-append ((m, c) ∷ xs) ys t = elim (Bool-cases (leb 0x100 m)) [
    | inl e ↦ rw e refl
    | inr e ↦ rw e (install-append xs ys (λ k. if k == m then handler c else t k))
  ]

  whole : install_iocs_calls ≡ install all_calls (λ n. invalid_iocs_call)
  unfolding install_iocs_calls
  whole =
      let last : (t : Table)
          → install (scc_calls ++ font_calls) t ≡ (install scc_calls t >>= install font_calls) =
        install-append scc_calls font_calls in
      let third : (t : Table)
          → install (dmac_calls ++ (scc_calls ++ font_calls)) t
            ≡ (install dmac_calls t >>= λ u. install scc_calls u >>= install font_calls) =
        λ t.
          install-append dmac_calls (scc_calls ++ font_calls) t
          ∙ ap (λ f. install dmac_calls t >>= f) (fun_ext last) in
      let second : (t : Table)
          → install (tvram_calls ++ (dmac_calls ++ (scc_calls ++ font_calls))) t ≡ (
              install tvram_calls t >>= λ v.
              install dmac_calls v >>= λ u. install scc_calls u >>= install font_calls) =
        λ t.
          install-append tvram_calls (dmac_calls ++ (scc_calls ++ font_calls)) t
          ∙ ap (λ f. install tvram_calls t >>= f) (fun_ext third) in
      sym (
        install-append rom_calls (tvram_calls ++ (dmac_calls ++ (scc_calls ++ font_calls)))
          (λ n. invalid_iocs_call)
        ∙ ap (λ f. install rom_calls (λ n. invalid_iocs_call) >>= f) (fun_ext second))
