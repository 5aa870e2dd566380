-- ===== src/FileName/Blank.antt =====
-- `export_file_name` of filesystem.cc on a name that is empty or has only blanks.
use vx68k_v.Base.{ℕ, suc, ◌<◌, ◌≡◌, refl, List, [], ◌∷◌, none, length, ltb-true}
use vx68k_v.FileName.{npos, first_not_blank, final, components, export_file_name}

abbrev pub OnlyBlanks : List ℕ → Type 0
OnlyBlanks [] = Unit {0}
OnlyBlanks (x ∷ s) = (x ≡ 0x20) × OnlyBlanks s

first_not_blank-npos : (i : ℕ) (s : List ℕ) → OnlyBlanks s → first_not_blank i s ≡ npos
first_not_blank-npos i [] b = refl
first_not_blank-npos i (x ∷ s) b = rw b.0 (first_not_blank-npos (suc i) s b.1)

-- On a name that is empty or has only blanks, and is shorter than the largest position,
-- `export_file_name` throws `out_of_range`.
export_file_name-blank : (s : List ℕ) → OnlyBlanks s → length s < npos → export_file_name s ≡ none
unfolding export_file_name components final
export_file_name-blank s b k = rw (first_not_blank-npos 0 s b, ltb-true (length s) npos k) refl
