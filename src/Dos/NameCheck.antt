-- ===== src/Dos/NameCheck.antt =====
-- The DOS call _NAMECK of dos.cc, which splits a file name in the buffer that it is given.
use vx68k_v.Base.{
  ℕ, zero, suc, ◌≤◌, ◌≡◌, refl, ap, Bool, true, false, ◌||◌, List, [], ◌∷◌, Option, none, some,
  ◌==◌, eq_self, leb, Bool-cases, inl, inr, length, arith, if◌then◌else◌, add32,
}
use vx68k_v.Allocator.Memory.{MemoryMap}
use vx68k_v.FileName.{take, drop}
use vx68k_v.Files.Device.{Outside}
use vx68k_v.Dos.Machine.{Cpu, ExecContext, Outcome, returns}
use vx68k_v.Dos.{arg_32, string_at}

abbrev pub member : ℕ → List ℕ → Bool
member x [] = false
member x (y ∷ s) = (x == y) || member x s

-- `find_last_of(set, pos)`: the last position up to `pos` of a byte of `set`.
abbrev pub find_last_of : (set : List ℕ) → (pos : ℕ) → List ℕ → Option ℕ
find_last_of set pos [] = none
find_last_of set zero (x ∷ s) = if member x set then some 0 else none
find_last_of set (suc pos) (x ∷ s) = elim (find_last_of set pos s) [
  | some p ↦ some (suc p)
  | none ↦ if member x set then some 0 else none
]

-- The strings at offsets 0 and 67. The source gives the name itself as the set, and '/', 47, as
-- the position.
abbrev pub split_after : Option ℕ → List ℕ → List ℕ × List ℕ
split_after none buf = (0x2e ∷ 0x2f ∷ [], buf)
split_after (some p) buf = (take (suc p) buf, drop (suc p) buf)

unfoldable pub name_parts : List ℕ → List ℕ × List ℕ
name_parts buf = split_after (find_last_of buf 0x2f buf) buf

module _ (mm : MemoryMap) {Host : Type 0} (out : Outside mm.State Host)
    (cpu : Cpu mm.State Host) where
  unfoldable pub dos_nameck : ExecContext mm.State Host → Outcome mm.State Host
  dos_nameck m =
      let buffer : ℕ = arg_32 mm out cpu 4 m in
      string_at mm out cpu (arg_32 mm out cpu 0 m) m (λ buf. returns 0 (record m {
        heap = record m.heap {
          mem =
              cpu.put_string (add32 buffer 67) (name_parts buf).1
                (cpu.put_string (add32 buffer 0) (name_parts buf).0 m.heap.mem);
        };
      }))

-- `s` is made of bytes of `set`.
Within : (set : List ℕ) → List ℕ → Type 0
Within set [] = Unit {0}
Within set (x ∷ s) = (member x set ≡ true) × Within set s

Within-cons : (x : ℕ) (set s : List ℕ) → Within set s → Within (x ∷ set) s
unfolding Within
Within-cons x set [] w = w
Within-cons x set (y ∷ s) w = ((rw w.0 (ground arith)), Within-cons x set s w.1)

Within-self : (s : List ℕ) → Within s s
unfolding Within
Within-self [] = tt
Within-self (x ∷ s) = (rw (eq_self x) refl, Within-cons x s s (Within-self s))

-- Every byte is in the set, so the position found is 47, or the last.
find_last_of-all :
    (set : List ℕ) (pos x : ℕ) (s : List ℕ)
    → Within set (x ∷ s)
    → find_last_of set pos (x ∷ s) ≡ some (if leb pos (length s) then pos else length s)
unfolding Within
find_last_of-all set zero x s w = rw w.0 (ground arith)
find_last_of-all set (suc pos) x [] w = rw w.0 (ground arith)
find_last_of-all set (suc pos) x (y ∷ s) w = rw (find_last_of-all set pos y s w.1) (ground arith)

take-all : (n : ℕ) (s : List ℕ) → length s ≤ n → take n s ≡ s
take-all zero [] h = refl
take-all zero (x ∷ s) h = absurd (omega (arith, h))
take-all (suc n) [] h = refl
take-all (suc n) (x ∷ s) h = ap (λ l. x ∷ l) (take-all n s (omega (arith, h)))

drop-all : (n : ℕ) (s : List ℕ) → length s ≤ n → drop n s ≡ []
drop-all zero [] h = refl
drop-all zero (x ∷ s) h = absurd (omega (arith, h))
drop-all (suc n) [] h = refl
drop-all (suc n) (x ∷ s) h = drop-all n s (omega (arith, h))

split_after-all :
    (pos : ℕ) (s : List ℕ)
    → 1 ≤ length s
    → split_after (find_last_of s pos s) s ≡ (take (suc pos) s, drop (suc pos) s)
split_after-all pos [] h = absurd (omega (arith, h))
split_after-all pos (x ∷ s) h = elim (Bool-cases (leb pos (length s))) [
  | inl long ↦ rw (find_last_of-all (x ∷ s) pos x s (Within-self (x ∷ s)), long) refl
  | inr short ↦
      let k : length s ≤ pos = ground arith in
      rw
        (
          find_last_of-all (x ∷ s) pos x s (Within-self (x ∷ s)),
          short,
          take-all (length s) s (omega arith),
          drop-all (length s) s (omega arith),
          take-all pos s k,
          drop-all pos s k,
        )
        refl
]

-- The split does not depend on a slash: of a name that is not empty the first 48 bytes are the
-- path, and the rest is the file name.
name_parts-48 : (s : List ℕ) → 1 ≤ length s → name_parts s ≡ (take 48 s, drop 48 s)
unfolding name_parts
name_parts-48 s h = split_after-all 0x2f s h
