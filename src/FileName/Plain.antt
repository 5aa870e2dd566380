-- ===== src/FileName/Plain.antt =====
-- `export_file_name` of filesystem.cc on a name without a blank.
use vx68k_v.Base.{
  ℕ, zero, suc, ◌+◌, ◌-◌, ◌≤◌, ◌<◌, ◌≡◌, ◌∙◌, refl, ap, sym, inl, inr, true, List, [], ◌∷◌, ◌++◌,
  some, arith, length, length-append, get_or, ◌==◌, ==-false, ==-true, ltb, Bool-cases,
  if◌then◌else◌, append_assoc, append-nil, map, ◌||◌,
}
use mathlib.Core.Path.{subst}
use vx68k_v.FileName.{
  npos, add64, sub64, substr, last_not_blank, is_separator, slash, component_end, component, final,
  components, export_file_name,
}
use vx68k_v.FileName.Bounds.{
  NoBlank, NoSeparator, drop-append, get_or-append, substr-append, first_separator-none,
  first_separator-append, part, map-slash-NoSeparator, map-slash-append, last_not_blank-end,
  last_not_blank-last,
}

NoBlank-append : (a b : List ℕ) → NoBlank (a ++ b) → NoBlank b
NoBlank-append [] b h = h
NoBlank-append (x ∷ a) b h = NoBlank-append a b h.1

last-plain :
    (s : List ℕ)
    → NoBlank s
    → 1 ≤ length s
    → length s < npos
    → last_not_blank 0 npos npos s ≡ length s - 1
last-plain [] n h k = omega (arith, h)
last-plain (x ∷ s) n h k = last_not_blank-last 0 npos npos x s n (omega (arith, k)) ∙ omega arith

-- Behind the loop the rest of the name is taken as it is.
final-plain :
    (pre t : List ℕ)
    → NoBlank (pre ++ t)
    → 1 ≤ length (pre ++ t)
    → length (pre ++ t) < npos
    → final (length pre) (pre ++ t) ≡ some t
unfolding final
final-plain pre t n h k =
    let size = length-append pre t in
    let end : sub64
          (add64
            (if length (pre ++ t) == length pre
              then sub64 (length (pre ++ t)) 1
              else if (last_not_blank 0 npos npos (pre ++ t) == npos)
                  || ltb (last_not_blank 0 npos npos (pre ++ t)) (sub64 (length pre) 1)
              then sub64 (length (pre ++ t)) 1
              else last_not_blank 0 npos npos (pre ++ t))
            1)
          (length pre)
        ≡ length t =
      rw (last-plain (pre ++ t) n h k) (ground (arith, size, h, k)) in
    rw end (
      ap (λ l. substr (length pre) (length t) (pre ++ l)) (sym (append-nil t))
      ∙ substr-append pre t [])

-- A component without its separator.
component_end-plain :
    (pre a b : List ℕ) (x : ℕ)
    → NoBlank (pre ++ (a ++ (x ∷ b)))
    → length (pre ++ (a ++ (x ∷ b))) < npos
    → sub64
        (add64 (component_end (length pre) (length pre + length a) (pre ++ (a ++ (x ∷ b)))) 1)
        (length pre)
      ≡ length a
component_end-plain pre [] b x n k =
    let size = length-append pre (x ∷ b) in
    let here : (length pre + 0 == length pre) ≡ true = ground arith in
    rw here (ground (arith, size, k))
component_end-plain pre (y ∷ a) b x n k =
    let size = length-append pre (y ∷ (a ++ (x ∷ b))) in
    let size' = length-append a (x ∷ b) in
    let last : sub64 (length pre + suc (length a)) 1 ≡ length pre + length a =
      ground (arith, size, size', k) in
    let end : last_not_blank 0 npos (length pre + length a) (pre ++ (y ∷ (a ++ (x ∷ b))))
        ≡ length pre + length a =
      last_not_blank-end 0 npos (length pre + length a) (pre ++ (y ∷ (a ++ (x ∷ b)))) n
        (omega arith) (omega (arith, size, size')) in
    rw (last, end) (ground (arith, size, size', k))

-- One round takes the component and its separator.
component-plain :
    (pre a b : List ℕ) (x : ℕ)
    → NoBlank (pre ++ (a ++ (x ∷ b)))
    → length (pre ++ (a ++ (x ∷ b))) < npos
    → component (length pre) (length pre + length a) (pre ++ (a ++ (x ∷ b)))
      ≡ some (a ++ (slash x ∷ []))
unfolding component
component-plain pre a b x n k =
    let size = length-append pre (a ++ (x ∷ b)) in
    let size' = length-append a (x ∷ b) in
    let byte : get_or (pre ++ (a ++ (x ∷ b))) (length pre + length a) 0 ≡ x =
      rw (sym (append_assoc pre a (x ∷ b)), sym (length-append pre a))
        (get_or-append (pre ++ a) b x) in
    rw byte (elim (Bool-cases (x == 0x2f)) [
      | inl e ↦ rw e (
          let width : sub64 (add64 (length pre + length a) 1) (length pre)
              ≡ length (a ++ (x ∷ [])) =
            ground (arith, length-append a (x ∷ []), size, size', k) in
          let plain : slash x ≡ x = ground arith in
          rw (width, plain)
            (rw (append_assoc a (x ∷ []) b) at (substr-append pre (a ++ (x ∷ [])) b)))
      | inr e ↦ rw (e, component_end-plain pre a b x n k, substr-append pre a (x ∷ b)) refl
    ])

-- The loop from the end of `pre` gives the rest of the name with slashes.
ExportsRest : (fuel : ℕ) (pre t : List ℕ) → Type 0
ExportsRest fuel pre t = components fuel (length pre) (pre ++ t) ≡ some (map slash t)

-- A round that comes to a separator.
components-step :
    (fuel : ℕ) (pre a b : List ℕ) (x : ℕ)
    → NoSeparator a
    → is_separator x ≡ true
    → NoBlank (pre ++ (a ++ (x ∷ b)))
    → length (pre ++ (a ++ (x ∷ b))) < npos
    → ExportsRest fuel (pre ++ (a ++ (x ∷ []))) b
    → ExportsRest (suc fuel) pre (a ++ (x ∷ b))
unfolding components ExportsRest
components-step fuel pre a b x plain sep n k rest =
    let size = length-append pre (a ++ (x ∷ b)) in
    let size' = length-append a (x ∷ b) in
    let size'' = length-append pre (a ++ (x ∷ [])) in
    let size3 = length-append a (x ∷ []) in
    let next : add64 (length pre + length a) 1 ≡ length (pre ++ (a ++ (x ∷ []))) =
      ground (arith, size, size', size'', size3, k) in
    let join : (pre ++ (a ++ (x ∷ []))) ++ b ≡ pre ++ (a ++ (x ∷ b)) =
      append_assoc pre (a ++ (x ∷ [])) b ∙ ap (λ l. pre ++ l) (append_assoc a (x ∷ []) b) in
    rw
      (
        ==-false (length pre) npos (omega (arith, size, k)),
        ==-false (length pre) (length (pre ++ (a ++ (x ∷ b)))) (omega (arith, size, size')),
        drop-append pre (a ++ (x ∷ b)),
        first_separator-append (length pre) a b x plain sep,
        ==-false (length pre + length a) npos (omega (arith, size, size', k)),
        component-plain pre a b x n k,
        next,
        rw join at rest,
        map-slash-append a (x ∷ b),
        map-slash-NoSeparator a plain,
      )
      (ap some (append_assoc a (slash x ∷ []) (map slash b)))

components-plain :
    (fuel : ℕ) (pre t : List ℕ)
    → length t < fuel
    → NoBlank (pre ++ t)
    → 1 ≤ length (pre ++ t)
    → length (pre ++ t) < npos
    → ExportsRest fuel pre t
unfolding components ExportsRest
components-plain zero pre t f n h k = absurd (omega (arith, f))
components-plain (suc fuel) pre [] f n h k =
    let size = length-append pre [] in
    rw
      (
        ==-false (length pre) npos (omega (arith, size, k)),
        ==-true (length pre) (length (pre ++ [])) (omega (arith, size)),
      )
      (final-plain pre [] n h k)
components-plain (suc fuel) pre (y ∷ t) f n h k =
    let size = length-append pre (y ∷ t) in
    elim (part (y ∷ t)) [
      | inl plain ↦
          rw
            (
              ==-false (length pre) npos (omega (arith, size, k)),
              ==-false (length pre) (length (pre ++ (y ∷ t))) (omega (arith, size)),
              drop-append pre (y ∷ t),
              first_separator-none (length pre) (y ∷ t) plain,
              map-slash-NoSeparator (y ∷ t) plain,
            )
            (final-plain pre (y ∷ t) n h k)
      | inr (a, x, b, q, plain, sep) ↦
          let join : pre ++ (a ++ (x ∷ b)) ≡ (pre ++ (a ++ (x ∷ []))) ++ b =
            sym (
              append_assoc pre (a ++ (x ∷ [])) b
              ∙ ap (λ l. pre ++ l) (append_assoc a (x ∷ []) b)) in
          let size' = length-append a (x ∷ b) in
          subst (λ l. ExportsRest (suc fuel) pre l) (sym q)
            (components-step fuel pre a b x plain sep (rw q at n) (rw q at k) (
              components-plain fuel (pre ++ (a ++ (x ∷ []))) b
                (omega (arith, f, ap length q, size')) (rw (q, join) at n) (rw (q, join) at h)
                (rw (q, join) at k)))
    ]

-- On a name that is not empty, has no blank and is shorter than the largest position,
-- `export_file_name` returns, and gives the name with a slash for each backslash, also where
-- the backslash is the second byte of a kanji.
pub export_file_name-plain :
    (s : List ℕ)
    → NoBlank s
    → 1 ≤ length s
    → length s < npos
    → export_file_name s ≡ some (map slash s)
unfolding export_file_name ExportsRest
export_file_name-plain [] n h k = absurd (omega (arith, h))
export_file_name-plain (x ∷ s) n h k = elim (Bool-cases (x == 0x5c)) [
  | inl e ↦
      let all : ExportsRest (suc (suc (length s))) (x ∷ []) s =
        components-plain (suc (suc (length s))) (x ∷ []) s (omega arith) n h k in
      rw (==-false x 0x20 n.0, e, all) refl
  | inr e ↦
      let all : components (suc (suc (length s))) 0 (x ∷ s) ≡ some (map slash (x ∷ s)) =
        components-plain (suc (suc (length s))) [] (x ∷ s) (omega arith) n h k in
      rw (==-false x 0x20 n.0, e) (rw e at all)
]
