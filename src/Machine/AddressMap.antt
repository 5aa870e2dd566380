-- ===== src/Machine/AddressMap.antt =====
-- The address space of the machine, which `machine::configure` of libvx68k/machine.cc lays out for
-- class `x68k_address_space` of libvx68k/x68kaddr.cc.
use vx68k_v.Base.{
  ℕ, ◌%◌, ◌≤◌, ◌<◌, ◌≡◌, ◌⊎◌, refl, ◌∙◌, false, ◌&&◌, ltb, leb, if◌then◌else◌, arith,
}

-- The memories that the machine holds.
pub data Device : Type 0 where
  main_memory graphics_vram text_vram crtc palettes dmac area_set mfp system_ports opm adpcm fdc scc
        ppi sprites sram font rom :
      Device

-- What the machine relies on of `memory_map`, a class of libvm68k: `fill` puts a memory behind the
-- addresses from `first` to `last`, whole pages of 8 KB, and behind no other address.
pub record PageMap : Type 1 where
  pub State : Type 0
  pub find : ℕ → State → Device
  pub fill : (first last : ℕ) → Device → State → State
  pub find-fill :
      (a first last : ℕ) (d : Device) (s : State)
      → first % 0x2000 ≡ 0
      → last % 0x2000 ≡ 0
      → find a (fill first last d s) ≡ (if leb first a && ltb a last then d else find a s)

module _ (pages : PageMap) where
  open pages use {State, find, fill, find-fill}

  -- The calls of `fill`, for a machine of `size` bytes of memory.
  unfoldable pub configure : (size : ℕ) → State → State
  configure size s =
      let s1 = fill 0 size main_memory s in
      let s2 = fill 0xc00000 0xe00000 graphics_vram s1 in
      let s3 = fill 0xe00000 0xe80000 text_vram s2 in
      let s4 = fill 0xe80000 0xe82000 crtc s3 in
      let s5 = fill 0xe82000 0xe84000 palettes s4 in
      let s6 = fill 0xe84000 0xe86000 dmac s5 in
      let s7 = fill 0xe86000 0xe88000 area_set s6 in
      let s8 = fill 0xe88000 0xe8a000 mfp s7 in
      let s9 = fill 0xe8e000 0xe90000 system_ports s8 in
      let s10 = fill 0xe90000 0xe92000 opm s9 in
      let s11 = fill 0xe92000 0xe94000 adpcm s10 in
      let s12 = fill 0xe94000 0xe96000 fdc s11 in
      let s13 = fill 0xe98000 0xe9a000 scc s12 in
      let s14 = fill 0xe9a000 0xe9c000 ppi s13 in
      let s15 = fill 0xeb0000 0xeb8000 sprites s14 in
      let s16 = fill 0xed0000 0xed4000 sram s15 in
      let s17 = fill 0xf00000 0xfc0000 font s16 in let s18 = fill 0xfc0000 0x1000000 rom s17 in s18

-- The ranges that include/vx68k/memory.h gives for the memories; the main memory ends at its size.
abbrev pub first_address : Device → ℕ
first_address main_memory = 0
first_address graphics_vram = 0xc00000
first_address text_vram = 0xe00000
first_address crtc = 0xe80000
first_address palettes = 0xe82000
first_address dmac = 0xe84000
first_address area_set = 0xe86000
first_address mfp = 0xe88000
first_address system_ports = 0xe8e000
first_address opm = 0xe90000
first_address adpcm = 0xe92000
first_address fdc = 0xe94000
first_address scc = 0xe98000
first_address ppi = 0xe9a000
first_address sprites = 0xeb0000
first_address sram = 0xed0000
first_address font = 0xf00000
first_address rom = 0xfc0000

abbrev pub last_address : (size : ℕ) → Device → ℕ
last_address size main_memory = size
last_address size graphics_vram = 0xe00000
last_address size text_vram = 0xe80000
last_address size crtc = 0xe82000
last_address size palettes = 0xe84000
last_address size dmac = 0xe86000
last_address size area_set = 0xe88000
last_address size mfp = 0xe8a000
last_address size system_ports = 0xe90000
last_address size opm = 0xe92000
last_address size adpcm = 0xe94000
last_address size fdc = 0xe96000
last_address size scc = 0xe9a000
last_address size ppi = 0xe9c000
last_address size sprites = 0xeb8000
last_address size sram = 0xed4000
last_address size font = 0xfc0000
last_address size rom = 0x1000000

-- What the chain of ranges finds.
abbrev search_all : (size a : ℕ) → Device → Device
search_all size a d =
    if leb 0xfc0000 a && ltb a 0x1000000
    then rom
    else if leb 0xf00000 a && ltb a 0xfc0000
    then font
    else if leb 0xed0000 a && ltb a 0xed4000
    then sram
    else if leb 0xeb0000 a && ltb a 0xeb8000
    then sprites
    else if leb 0xe9a000 a && ltb a 0xe9c000
    then ppi
    else if leb 0xe98000 a && ltb a 0xe9a000
    then scc
    else if leb 0xe94000 a && ltb a 0xe96000
    then fdc
    else if leb 0xe92000 a && ltb a 0xe94000
    then adpcm
    else if leb 0xe90000 a && ltb a 0xe92000
    then opm
    else if leb 0xe8e000 a && ltb a 0xe90000
    then system_ports
    else if leb 0xe88000 a && ltb a 0xe8a000
    then mfp
    else if leb 0xe86000 a && ltb a 0xe88000
    then area_set
    else if leb 0xe84000 a && ltb a 0xe86000
    then dmac
    else if leb 0xe82000 a && ltb a 0xe84000
    then palettes
    else if leb 0xe80000 a && ltb a 0xe82000
    then crtc
    else if leb 0xe00000 a && ltb a 0xe80000
    then text_vram
    else if leb 0xc00000 a && ltb a 0xe00000
    then graphics_vram
    else if leb 0 a && ltb a size
    then main_memory
    else d

module _ (pages : PageMap) where
  find-configure :
      (size a : ℕ) (s : pages.State)
      → size % 0x2000 ≡ 0
      → pages.find a (configure pages size s) ≡ search_all size a (pages.find a s)
  unfolding configure
  find-configure size a s whole =
      rw
        (
          pages.find-fill a 0xfc0000 0x1000000 rom _ (omega (arith, whole)) (omega (arith, whole)),
          pages.find-fill a 0xf00000 0xfc0000 font _ (omega (arith, whole)) (omega (arith, whole)),
          pages.find-fill a 0xed0000 0xed4000 sram _ (omega (arith, whole)) (omega (arith, whole)),
          pages.find-fill a 0xeb0000 0xeb8000 sprites _ (omega (arith, whole))
              (omega (arith, whole)),
          pages.find-fill a 0xe9a000 0xe9c000 ppi _ (omega (arith, whole)) (omega (arith, whole)),
          pages.find-fill a 0xe98000 0xe9a000 scc _ (omega (arith, whole)) (omega (arith, whole)),
          pages.find-fill a 0xe94000 0xe96000 fdc _ (omega (arith, whole)) (omega (arith, whole)),
          pages.find-fill a 0xe92000 0xe94000 adpcm _ (omega (arith, whole)) (omega (arith, whole)),
          pages.find-fill a 0xe90000 0xe92000 opm _ (omega (arith, whole)) (omega (arith, whole)),
          pages.find-fill a 0xe8e000 0xe90000 system_ports _ (omega (arith, whole))
              (omega (arith, whole)),
          pages.find-fill a 0xe88000 0xe8a000 mfp _ (omega (arith, whole)) (omega (arith, whole)),
          pages.find-fill a 0xe86000 0xe88000 area_set _ (omega (arith, whole))
              (omega (arith, whole)),
          pages.find-fill a 0xe84000 0xe86000 dmac _ (omega (arith, whole)) (omega (arith, whole)),
          pages.find-fill a 0xe82000 0xe84000 palettes _ (omega (arith, whole))
              (omega (arith, whole)),
          pages.find-fill a 0xe80000 0xe82000 crtc _ (omega (arith, whole)) (omega (arith, whole)),
          pages.find-fill a 0xe00000 0xe80000 text_vram _ (omega (arith, whole))
              (omega (arith, whole)),
          pages.find-fill a 0xc00000 0xe00000 graphics_vram _ (omega (arith, whole))
              (omega (arith, whole)),
          pages.find-fill a 0 size main_memory _ (omega (arith, whole)) (omega (arith, whole)),
        )
        refl

-- In the chain each device has its range.
owner :
    (size a : ℕ) (d e : Device)
    → size ≤ 0xc00000
    → first_address d ≤ a
    → a < last_address size d
    → search_all size a e ≡ d
owner size a main_memory e small h k = ground arith
owner size a graphics_vram e small h k = ground arith
owner size a text_vram e small h k = ground arith
owner size a crtc e small h k = ground arith
owner size a palettes e small h k = ground arith
owner size a dmac e small h k = ground arith
owner size a area_set e small h k = ground arith
owner size a mfp e small h k = ground arith
owner size a system_ports e small h k = ground arith
owner size a opm e small h k = ground arith
owner size a adpcm e small h k = ground arith
owner size a fdc e small h k = ground arith
owner size a scc e small h k = ground arith
owner size a ppi e small h k = ground arith
owner size a sprites e small h k = ground arith
owner size a sram e small h k = ground arith
owner size a font e small h k = ground arith
owner size a rom e small h k = ground arith

outside_test : (a first last : ℕ) → (a < first) ⊎ (last ≤ a) → (leb first a && ltb a last) ≡ false
outside_test a first last h = ground arith

unowned :
    (size a : ℕ) (e : Device)
    → ((d : Device) → (a < first_address d) ⊎ (last_address size d ≤ a))
    → search_all size a e ≡ e
unowned size a e h =
    rw
      (
        outside_test a 0xfc0000 0x1000000 (h rom),
        outside_test a 0xf00000 0xfc0000 (h font),
        outside_test a 0xed0000 0xed4000 (h sram),
        outside_test a 0xeb0000 0xeb8000 (h sprites),
        outside_test a 0xe9a000 0xe9c000 (h ppi),
        outside_test a 0xe98000 0xe9a000 (h scc),
        outside_test a 0xe94000 0xe96000 (h fdc),
        outside_test a 0xe92000 0xe94000 (h adpcm),
        outside_test a 0xe90000 0xe92000 (h opm),
        outside_test a 0xe8e000 0xe90000 (h system_ports),
        outside_test a 0xe88000 0xe8a000 (h mfp),
        outside_test a 0xe86000 0xe88000 (h area_set),
        outside_test a 0xe84000 0xe86000 (h dmac),
        outside_test a 0xe82000 0xe84000 (h palettes),
        outside_test a 0xe80000 0xe82000 (h crtc),
        outside_test a 0xe00000 0xe80000 (h text_vram),
        outside_test a 0xc00000 0xe00000 (h graphics_vram),
        outside_test a 0 size (h main_memory),
      )
      refl

-- In a machine with at most 12 MB of memory, in whole pages of 8 KB: each address in the range of a
-- memory reaches that memory and no other, and an address in no range reaches what it reached before.
pub configure-find :
    (pages : PageMap) (size a : ℕ) (s : pages.State)
    → size % 0x2000 ≡ 0
    → size ≤ 0xc00000
    → ((d : Device)
        → first_address d ≤ a
        → a < last_address size d
        → pages.find a (configure pages size s) ≡ d)
      × (((d : Device) → (a < first_address d) ⊎ (last_address size d ≤ a))
          → pages.find a (configure pages size s) ≡ pages.find a s)
configure-find pages size a s whole small = (
  λ d h k. find-configure pages size a s whole ∙ owner size a d (pages.find a s) small h k,
  λ out. find-configure pages size a s whole ∙ unowned size a (pages.find a s) out,
)
