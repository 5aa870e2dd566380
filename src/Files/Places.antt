-- ===== src/Files/Places.antt =====
-- The list of the places that hold a file, as handles of doscontext.cc change it.
use vx68k_v.Base.{
  ℕ, zero, suc, ◌+◌, ◌≤◌, ◌<◌, ◌≡◌, ◌≢◌, refl, List, [], ◌∷◌, ◌++◌, false, arith, length, set,
  get_or, reverse, ◌==◌, ==-eq, ==-false, eq_self, Bool-cases, inl, inr, if◌then◌else◌,
}
use mathlib.Core.List.{reverse_aux}
use vx68k_v.Files.{find_null}
use vx68k_v.Files.Counts.{count, HoldsMore}

abbrev pub one_if : ℕ → ℕ → ℕ
one_if g f = if g == f then 1 else 0

pub count-append : (g : ℕ) (a b : List ℕ) → count g (a ++ b) ≡ count g a + count g b
count-append g [] b = omega arith
count-append g (x ∷ a) b = omega (arith, count-append g a b)

-- Reversing keeps the counts.
count-reverse_aux : (g : ℕ) (a b : List ℕ) → count g (reverse_aux a b) ≡ count g a + count g b
count-reverse_aux g [] b = omega arith
count-reverse_aux g (x ∷ a) b = omega (arith, count-reverse_aux g a (x ∷ b))

pub count-reverse : (g : ℕ) (a : List ℕ) → count g (reverse a) ≡ count g a
count-reverse g a = omega (arith, count-reverse_aux g a [])

-- An entry set loses what it held and gains what it is set to.
count-set :
    (g : ℕ) (l : List ℕ) (i v : ℕ)
    → i < length l
    → count g (set l i v) + one_if g (get_or l i 0) ≡ count g l + one_if g v
count-set g [] i v h = omega (arith, h)
count-set g (x ∷ l) zero v h = omega arith
count-set g (x ∷ l) (suc i) v h = omega (arith, count-set g l i v (omega (arith, h)))

-- The entry of a handle set to NULL: the places held its file once more.
pub set_null-HoldsMore :
    (l rest : List ℕ) (i : ℕ)
    → i < length l
    → HoldsMore (get_or l i 0) (l ++ rest) (set l i 0 ++ rest)
set_null-HoldsMore l rest i h g =
    rw (count-append (suc g) l rest, count-append (suc g) (set l i 0) rest)
      (let e = rw (==-false (suc g) 0 (omega arith)) at (count-set (suc g) l i 0 h) in
        omega (arith, e))

-- A free entry set to a file: the places hold the file once more.
pub set_file-HoldsMore :
    (l rest : List ℕ) (i v : ℕ)
    → i < length l
    → get_or l i 0 ≡ 0
    → HoldsMore v (set l i v ++ rest) (l ++ rest)
set_file-HoldsMore l rest i v h z g =
    rw (count-append (suc g) l rest, count-append (suc g) (set l i v) rest)
      (let e = rw (z, ==-false (suc g) 0 (omega arith)) at (count-set (suc g) l i v h) in
        omega (arith, e))

-- The file of an entry is held.
pub get_or-held : (l rest : List ℕ) (i : ℕ) → i < length l → 1 ≤ count (get_or l i 0) (l ++ rest)
get_or-held [] rest i h = omega (arith, h)
get_or-held (x ∷ l) rest zero h = rw (eq_self x) (omega arith)
get_or-held (x ∷ l) rest (suc i) h = omega (arith, get_or-held l rest i (omega (arith, h)))

-- `find` gives a free entry, or the end.
pub find_null-bound : (l : List ℕ) → find_null l ≤ length l
find_null-bound [] = omega arith
find_null-bound (f ∷ l) = elim (Bool-cases (f == 0)) [
  | inl e ↦ rw e (omega arith)
  | inr e ↦ rw e (omega (arith, find_null-bound l))
]

pub find_null-free : (l : List ℕ) → get_or l (find_null l) 0 ≡ 0
find_null-free [] = refl
find_null-free (f ∷ l) = elim (Bool-cases (f == 0)) [
  | inl e ↦ rw e (==-eq f 0 e)
  | inr e ↦ rw e (find_null-free l)
]

pub ==-ne : (a b : ℕ) → (a == b) ≡ false → a ≢ b
==-ne a b e = ground arith

-- No entry before the one that `find` gives is free.
pub find_null-first : (l : List ℕ) (i : ℕ) → i < find_null l → 1 ≤ get_or l i 0
find_null-first [] i h = omega (arith, h)
find_null-first (f ∷ l) zero h = elim (Bool-cases (f == 0)) [
  | inl e ↦ let k = rw e at h in omega (arith, k)
  | inr e ↦ (let n = ==-ne f 0 e in omega (arith, n))
]
find_null-first (f ∷ l) (suc i) h = elim (Bool-cases (f == 0)) [
  | inl e ↦ let k = rw e at h in omega (arith, k)
  | inr e ↦ let k = rw e at h in find_null-first l i (omega (arith, k))
]
