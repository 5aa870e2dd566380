-- ===== src/FileName/Examples.antt =====
-- The theorems on `export_file_name` at a path, and what it makes of blanks before a separator.
use vx68k_v.Base.{◌≡◌, refl, List, [], ◌∷◌, ℕ, some, arith}
use vx68k_v.FileName.{export_file_name, components, component, final}
use vx68k_v.FileName.Plain.{export_file_name-plain}

-- "\A\B.X"
abbrev path : List ℕ
path = 0x5c ∷ 0x41 ∷ 0x5c ∷ 0x42 ∷ 0x2e ∷ 0x58 ∷ []

export_file_name-plain_example :
    export_file_name path ≡ some (0x2f ∷ 0x41 ∷ 0x2f ∷ 0x42 ∷ 0x2e ∷ 0x58 ∷ [])
export_file_name-plain_example =
    export_file_name-plain path (ground arith) (omega arith) (omega arith)

-- The blank of "A .B" stays, that of "\A .B" goes.
first_component :
    export_file_name (0x41 ∷ 0x20 ∷ 0x2e ∷ 0x42 ∷ []) ≡ some (0x41 ∷ 0x20 ∷ 0x2e ∷ 0x42 ∷ [])
unfolding export_file_name components component final
first_component = refl

second_component :
    export_file_name (0x5c ∷ 0x41 ∷ 0x20 ∷ 0x2e ∷ 0x42 ∷ []) ≡ some (0x2f ∷ 0x41 ∷ 0x2e ∷ 0x42 ∷ [])
unfolding export_file_name components component final
second_component = refl
