-- ===== src/FileName/Bounds.antt =====
-- Positions and substrings of filesystem.cc's `export_file_name`, over a string in two parts.
use vx68k_v.Base.{
  ℕ, suc, ◌+◌, ◌≤◌, ◌<◌, ◌≡◌, ◌≢◌, ◌∙◌, refl, ap, ◌⊎◌, inl, inr, true, false, List, [], ◌∷◌, ◌++◌,
  some, arith, length, length-append, get_or, ◌==◌, ==-false, ==-eq, ltb-false, ltb-true,
  Bool-cases, map,
}
use vx68k_v.FileName.{
  npos, take, drop, substr, last_not_blank, is_separator, first_separator, slash,
}

abbrev pub NoBlank : List ℕ → Type 0
NoBlank [] = Unit {0}
NoBlank (x ∷ s) = (x ≢ 0x20) × NoBlank s

abbrev pub NoSeparator : List ℕ → Type 0
NoSeparator [] = Unit {0}
NoSeparator (x ∷ s) = (is_separator x ≡ false) × NoSeparator s

pub drop-append : (a b : List ℕ) → drop (length a) (a ++ b) ≡ b
drop-append [] b = refl
drop-append (x ∷ a) b = drop-append a b

pub take-append : (a b : List ℕ) → take (length a) (a ++ b) ≡ a
take-append [] b = refl
take-append (x ∷ a) b = ap (λ l. x ∷ l) (take-append a b)

pub get_or-append : (a b : List ℕ) (x : ℕ) → get_or (a ++ (x ∷ b)) (length a) 0 ≡ x
get_or-append [] b x = refl
get_or-append (y ∷ a) b x = get_or-append a b x

-- The middle one of three parts.
pub substr-append : (a b c : List ℕ) → substr (length a) (length b) (a ++ (b ++ c)) ≡ some b
substr-append a b c =
    rw
      (
        ltb-false (length (a ++ (b ++ c))) (length a) (omega (arith, length-append a (b ++ c))),
        drop-append a (b ++ c),
        take-append b c,
      )
      refl

pub first_separator-none : (i : ℕ) (t : List ℕ) → NoSeparator t → first_separator i t ≡ npos
first_separator-none i [] h = refl
first_separator-none i (x ∷ t) h = rw h.0 (first_separator-none (suc i) t h.1)

pub first_separator-append :
    (i : ℕ) (a b : List ℕ) (x : ℕ)
    → NoSeparator a
    → is_separator x ≡ true
    → first_separator i (a ++ (x ∷ b)) ≡ i + length a
first_separator-append i [] b x h e = rw e (omega arith)
first_separator-append i (y ∷ a) b x h e =
    rw h.0 (first_separator-append (suc i) a b x h.1 e ∙ omega arith)

-- A string up to its first separator.
abbrev pub Parted : List ℕ → Type 0
Parted t =
    NoSeparator t
    ⊎ ((a : List ℕ) × (x : ℕ) × (b : List ℕ) × (t ≡ a ++ (x ∷ b))
        × NoSeparator a
        × (is_separator x ≡ true))

add-part : (x : ℕ) (t : List ℕ) → is_separator x ≡ false → Parted t → Parted (x ∷ t)
add-part x t e (inl h) = inl (e, h)
add-part x t e (inr (a, y, b, q, h, k)) = inr (x ∷ a, y, b, ap (λ l. x ∷ l) q, (e, h), k)

pub part : (t : List ℕ) → Parted t
part [] = inl tt
part (x ∷ t) = elim (Bool-cases (is_separator x)) [
  | inl e ↦ inr ([], x, t, refl, tt, e)
  | inr e ↦ add-part x t e (part t)
]

pub map-slash-NoSeparator : (t : List ℕ) → NoSeparator t → map slash t ≡ t
map-slash-NoSeparator [] h = refl
map-slash-NoSeparator (x ∷ t) h =
    let e : (is_separator x ≡ false) → slash x ≡ x = λ f. ground arith in
    rw (e h.0, map-slash-NoSeparator t h.1) refl

last_not_blank-past :
    (i found end : ℕ) (s : List ℕ) → end < i → last_not_blank i found end s ≡ found
last_not_blank-past i found end [] h = refl
last_not_blank-past i found end (x ∷ s) h = rw (ltb-true end i h) refl

-- In a string without a blank the last byte up to `end` that is not blank is at `end`, or the last.
pub last_not_blank-end :
    (i found end : ℕ) (s : List ℕ)
    → NoBlank s
    → i ≤ end
    → end < i + length s
    → last_not_blank i found end s ≡ end
last_not_blank-end i found end [] n h k = omega (arith, h, k)
last_not_blank-end i found end (x ∷ s) n h k =
    rw (ltb-false end i h, ==-false x 0x20 n.0)
      (elim (Bool-cases (i == end)) [
        | inl e ↦ last_not_blank-past (suc i) i end s (ground arith) ∙ ==-eq i end e
        | inr e ↦ last_not_blank-end (suc i) i end s n.1 (ground arith) (omega (arith, k))
      ])

pub last_not_blank-last :
    (i found end : ℕ) (x : ℕ) (s : List ℕ)
    → NoBlank (x ∷ s)
    → i + length s ≤ end
    → last_not_blank i found end (x ∷ s) ≡ i + length s
last_not_blank-last i found end x [] n h =
    rw (ltb-false end i (omega (arith, h)), ==-false x 0x20 n.0) (omega arith)
last_not_blank-last i found end x (y ∷ s) n h =
    rw (ltb-false end i (omega (arith, h)), ==-false x 0x20 n.0)
      (last_not_blank-last (suc i) i end y s n.1 (omega (arith, h)) ∙ omega arith)

pub map-slash-append : (a b : List ℕ) → map slash (a ++ b) ≡ map slash a ++ map slash b
map-slash-append [] b = refl
map-slash-append (x ∷ a) b = ap (λ l. slash x ∷ l) (map-slash-append a b)
