-- ===== src/Iocs/Table/Numbers.antt =====
-- The numbers of the IOCS calls, against the table that the constructors of systemrom.cc and
-- machine.cc fill.
use vx68k_v.Base.{
  ◌⊎◌, ◌≢◌, ℕ, ◌%◌, ◌≡◌, refl, sym, ap, ◌∙◌, inl, inr, Bool, true, [], ◌∷◌, none, some, ◌==◌, ◌&&◌,
  Bool-cases, arith,
}
use vx68k_v.Iocs.{TrapMemory, Processor, Handler, call_iocs}
use vx68k_v.Iocs.Table.{
  Call, b_keyinp, b_keysns, b_sftsns, bitsns, ledmod, tgusemd, crtmod, contrast, tpalet, tcolor,
  scroll, b_putc, b_print, x37, x38, x39, x3a, joyget, init_prn, b_write, b_read, b_recali,
  b_readid, b_drvchk, b_eject, dateget, datebin, timeget, timebin, dateasc, timeasc, opmset,
  opmintst, timerdst, vdispst, skey_mod, ontime, b_intvcs, b_super, b_lpeek, bootinf, romver,
  g_clr_on, sys_stat, os_curon, os_curof, textput, b_curon, b_curoff, b_color, b_locate, b_clr_st,
  b_consol, b_putmes, txfill, dmamove, set232c, ms_init, ms_curon, ms_curof, ms_stat, ms_getdt,
  ms_curgt, ms_curst, ms_limit, defchr, fntadr, fntget, Entries, all_calls, all_calls-distinct,
  lookup, Table, invalid_iocs_call, install_iocs_calls, choose, overlay, install-overlay, whole,
}

-- The number of each IOCS call.
abbrev pub number : Call → ℕ
number b_keyinp = 0x00
number b_keysns = 0x01
number b_sftsns = 0x02
number bitsns = 0x04
number ledmod = 0x0d
number tgusemd = 0x0e
number crtmod = 0x10
number contrast = 0x11
number tpalet = 0x13
number tcolor = 0x15
number scroll = 0x1d
number b_putc = 0x20
number b_print = 0x21
number x37 = 0x37
number x38 = 0x38
number x39 = 0x39
number x3a = 0x3a
number joyget = 0x3b
number init_prn = 0x3c
number b_write = 0x45
number b_read = 0x46
number b_recali = 0x47
number b_readid = 0x4a
number b_drvchk = 0x4e
number b_eject = 0x4f
number dateget = 0x54
number datebin = 0x55
number timeget = 0x56
number timebin = 0x57
number dateasc = 0x5a
number timeasc = 0x5b
number opmset = 0x68
number opmintst = 0x6a
number timerdst = 0x6b
number vdispst = 0x6c
number skey_mod = 0x7d
number ontime = 0x7f
number b_intvcs = 0x80
number b_super = 0x81
number b_lpeek = 0x84
number bootinf = 0x8e
number romver = 0x8f
number g_clr_on = 0x90
number sys_stat = 0xac
number os_curon = 0xae
number os_curof = 0xaf
number textput = 0x1b
number b_curon = 0x1e
number b_curoff = 0x1f
number b_color = 0x22
number b_locate = 0x23
number b_clr_st = 0x2a
number b_consol = 0x2e
number b_putmes = 0x2f
number txfill = 0xd7
number dmamove = 0x8a
number set232c = 0x30
number ms_init = 0x70
number ms_curon = 0x71
number ms_curof = 0x72
number ms_stat = 0x73
number ms_getdt = 0x74
number ms_curgt = 0x75
number ms_curst = 0x76
number ms_limit = 0x77
number defchr = 0x0f
number fntadr = 0x16
number fntget = 0x19

lookup-number : (c : Call) → lookup (number c) all_calls ≡ some c
unfolding lookup
lookup-number b_keyinp = refl
lookup-number b_keysns = refl
lookup-number b_sftsns = refl
lookup-number bitsns = refl
lookup-number ledmod = refl
lookup-number tgusemd = refl
lookup-number crtmod = refl
lookup-number contrast = refl
lookup-number tpalet = refl
lookup-number tcolor = refl
lookup-number scroll = refl
lookup-number b_putc = refl
lookup-number b_print = refl
lookup-number x37 = refl
lookup-number x38 = refl
lookup-number x39 = refl
lookup-number x3a = refl
lookup-number joyget = refl
lookup-number init_prn = refl
lookup-number b_write = refl
lookup-number b_read = refl
lookup-number b_recali = refl
lookup-number b_readid = refl
lookup-number b_drvchk = refl
lookup-number b_eject = refl
lookup-number dateget = refl
lookup-number datebin = refl
lookup-number timeget = refl
lookup-number timebin = refl
lookup-number dateasc = refl
lookup-number timeasc = refl
lookup-number opmset = refl
lookup-number opmintst = refl
lookup-number timerdst = refl
lookup-number vdispst = refl
lookup-number skey_mod = refl
lookup-number ontime = refl
lookup-number b_intvcs = refl
lookup-number b_super = refl
lookup-number b_lpeek = refl
lookup-number bootinf = refl
lookup-number romver = refl
lookup-number g_clr_on = refl
lookup-number sys_stat = refl
lookup-number os_curon = refl
lookup-number os_curof = refl
lookup-number textput = refl
lookup-number b_curon = refl
lookup-number b_curoff = refl
lookup-number b_color = refl
lookup-number b_locate = refl
lookup-number b_clr_st = refl
lookup-number b_consol = refl
lookup-number b_putmes = refl
lookup-number txfill = refl
lookup-number dmamove = refl
lookup-number set232c = refl
lookup-number ms_init = refl
lookup-number ms_curon = refl
lookup-number ms_curof = refl
lookup-number ms_stat = refl
lookup-number ms_getdt = refl
lookup-number ms_curgt = refl
lookup-number ms_curst = refl
lookup-number ms_limit = refl
lookup-number defchr = refl
lookup-number fntadr = refl
lookup-number fntget = refl

-- Whether each entry has the number of its call.
numbered : Entries → Bool
numbered [] = true
numbered ((n, c) ∷ es) = (number c == n) && numbered es

all_calls-numbered : numbered all_calls ≡ true
unfolding numbered
all_calls-numbered = refl

numbered-lookup :
    (es : Entries) (n : ℕ)
    → numbered es ≡ true
    → (lookup n es ≡ none) ⊎ ((c : Call) × (lookup n es ≡ some c) × (number c ≡ n))
unfolding lookup numbered
numbered-lookup [] n h = inl refl
numbered-lookup ((m, c) ∷ es) n h = elim (Bool-cases (n == m)) [
  | inl e ↦ rw e (inr (c, refl, ground (arith, h, e)))
  | inr e ↦ rw e (numbered-lookup es n (ground (arith, h)))
]

-- What is found has the number, or no call has it.
lookup-cases :
    (n : ℕ)
    → ((c : Call) × (lookup n all_calls ≡ some c) × (number c ≡ n))
      ⊎ ((lookup n all_calls ≡ none) × ((c : Call) → number c ≢ n))
lookup-cases n = elim (numbered-lookup all_calls n all_calls-numbered) [
  | inl e ↦ inr (e, λ c k. some_none (sym (lookup-number c) ∙ ap (λ i. lookup i all_calls) k ∙ e))
  | inr (c, e, k) ↦ inl (c, e, k)
]
  where
    some_none : {c : Call} → some c ≡ none → ⊥
    some_none k = cc

module _ (mm : TrapMemory) (handler : Call → Handler mm) where
  -- The constructors return, and afterwards a call runs the handler of the IOCS call that has the low
  -- byte as its number; where no call has that number, it throws.
  pub install_iocs_calls-number :
      (t : Table mm handler) × (install_iocs_calls mm handler ≡ some t)
      × ((n : ℕ) (p : Processor mm)
          → ((c : Call) × (number c ≡ n % 0x100) × (call_iocs mm t n p ≡ handler c p))
            ⊎ (((c : Call) → number c ≢ n % 0x100) × (call_iocs mm t n p ≡ none)))
  unfolding call_iocs choose
  install_iocs_calls-number = (
    overlay mm handler all_calls (λ n. invalid_iocs_call mm handler),
    whole mm handler
        ∙ install-overlay mm handler all_calls (λ n. invalid_iocs_call mm handler)
            all_calls-distinct,
    λ n p. elim (lookup-cases (n % 0x100)) [
      | inl (c, e, k) ↦ inl (c, k, rw e refl)
      | inr (e, k) ↦ inr (k, rw e refl)
    ],
  )
