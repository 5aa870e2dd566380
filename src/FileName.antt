-- ===== src/FileName.antt =====
-- `export_file_name` of libvx68kdos/filesystem.cc. A string is the list of its bytes; a position is
-- a 64-bit `size_type`, whose largest value is `npos`. none is the exception `out_of_range`.
pub mod Plain
pub mod Bounds
pub mod Blank
mod Examples
use vx68k_v.Base.{
  ℕ, zero, suc, ◌+◌, ◌-◌, ◌%◌, Bool, true, false, ◌||◌, ◌&&◌, not, List, [], ◌∷◌, ◌++◌, Option,
  none, some, ◌>>=◌, length, get_or, ◌==◌, ltb, if◌then◌else◌,
}

abbrev pub npos : ℕ
npos = 18446744073709551615

-- Sum and difference of positions, in 64 bits.
abbrev pub add64 : ℕ → ℕ → ℕ
add64 a b = (a + b) % 18446744073709551616

abbrev pub sub64 : ℕ → ℕ → ℕ
sub64 a b = (a + (18446744073709551616 - b)) % 18446744073709551616

abbrev pub take : ℕ → List ℕ → List ℕ
take zero s = []
take (suc n) [] = []
take (suc n) (x ∷ s) = x ∷ take n s

abbrev pub drop : ℕ → List ℕ → List ℕ
drop zero s = s
drop (suc n) [] = []
drop (suc n) (x ∷ s) = drop n s

abbrev pub substr : (pos n : ℕ) → List ℕ → Option (List ℕ)
substr pos n s = if ltb (length s) pos then none else some (take n (drop pos s))

-- The first position from `i` of a byte that is not blank.
abbrev pub first_not_blank : (i : ℕ) → List ℕ → ℕ
first_not_blank i [] = npos
first_not_blank i (x ∷ s) = if x == 0x20 then first_not_blank (suc i) s else i

-- `find_last_not_of(' ', end)`, over the bytes from position `i`, with what was found before.
abbrev pub last_not_blank : (i found end : ℕ) → List ℕ → ℕ
last_not_blank i found end [] = found
last_not_blank i found end (x ∷ s) =
    let rest : ℕ = last_not_blank (suc i) (if x == 0x20 then found else i) end s in
    if ltb end i then found else rest

-- The bytes of ".\\/".
abbrev pub is_separator : ℕ → Bool
is_separator x = (x == 0x2e) || ((x == 0x5c) || (x == 0x2f))

-- The first position from `i` of a separator.
abbrev pub first_separator : (i : ℕ) → List ℕ → ℕ
first_separator i [] = npos
first_separator i (x ∷ s) = if is_separator x then i else first_separator (suc i) s

abbrev pub slash : ℕ → ℕ
slash c = if c == 0x5c then 0x2f else c

-- The end of the component before the separator at `next_pos`.
abbrev pub component_end : (pos next_pos : ℕ) → List ℕ → ℕ
component_end pos next_pos s =
    let last : ℕ = sub64 next_pos 1 in
    let end : ℕ = last_not_blank 0 npos last s in
    if next_pos == pos then last else if (end == npos) || ltb end (sub64 pos 1) then last else end

-- What one round of the loop appends.
unfoldable pub component : (pos next_pos : ℕ) → List ℕ → Option (List ℕ)
component pos next_pos s =
    if get_or s next_pos 0 == 0x2f
    then substr pos (sub64 (add64 next_pos 1) pos) s
    else substr pos (sub64 (add64 (component_end pos next_pos s) 1) pos) s >>= λ part.
        some (part ++ (slash (get_or s next_pos 0) ∷ []))

-- What is behind the loop.
unfoldable pub final : (pos : ℕ) → List ℕ → Option (List ℕ)
final pos s =
    let last : ℕ = sub64 (length s) 1 in
    let found : ℕ = last_not_blank 0 npos npos s in
    let end : ℕ =
      if length s == pos
      then last
      else if (found == npos) || ltb found (sub64 pos 1)
      then last
      else found in
    substr pos (sub64 (add64 end 1) pos) s

-- The loop, on fuel, and what is behind it.
unfoldable pub components : (fuel pos : ℕ) → List ℕ → Option (List ℕ)
components zero pos s = none
components (suc fuel) pos s =
    let next_pos : ℕ = first_separator pos (drop pos s) in
    let rest : Option (List ℕ) = components fuel (add64 next_pos 1) s in
    if (pos == npos) || (pos == length s)
    then final pos s
    else if next_pos == npos
    then final pos s
    else component pos next_pos s >>= λ part. (rest >>= λ tail. some (part ++ tail))

-- Each round takes a byte at least.
unfoldable pub export_file_name : List ℕ → Option (List ℕ)
export_file_name s =
    let pos : ℕ = first_not_blank 0 s in
    if not (pos == npos) && (get_or s pos 0 == 0x5c)
    then (components (suc (length s)) (suc pos) s >>= λ name. some (0x2f ∷ name))
    else components (suc (length s)) pos s
