-- ===== src/Files/Duplicates.antt =====
-- `dup` and `close` of doscontext.cc together.
use vx68k_v.Base.{
  ℕ, zero, suc, ◌≡◌, ◌∙◌, refl, ap, sym, List, [], ◌∷◌, arith, set, get_or, get_or-set_self, ◌==◌,
  ltb-true, false, Option,
}
use vx68k_v.Base.Int.{ℤ, pos}
use vx68k_v.Files.{Context, nfiles, find_null, handle, close, dup}
use vx68k_v.Files.Counts.{Returns}
use vx68k_v.Files.Places.{find_null-free}
use vx68k_v.Files.Handles.{IsSound, free-below, close-open, dup-open}

set-get_or : (l : List ℕ) (i v : ℕ) → set (set l i v) i (get_or l i 0) ≡ l
set-get_or [] i v = refl
set-get_or (x ∷ l) zero v = refl
set-get_or (x ∷ l) (suc i) v = ap (λ k. x ∷ k) (set-get_or l i v)

-- The counts of two contexts that hold the same files are the same.
same-counts :
    (c c' : Context)
    → IsSound c
    → IsSound c'
    → c'.files ≡ c.files
    → c'.std_files ≡ c.std_files
    → (f : ℕ) → c'.fs.files (suc f) ≡ c.fs.files (suc f)
same-counts c c' w w' e e' f = w'.held.counts f ∙ (rw (e, e') refl) ∙ sym (w.held.counts f)

-- A call that returns 0 and leaves the handles and the counts as they were in `c`.
abbrev pub Undone : Context → Option (ℤ × Context) → Type 0
Undone c r =
    Returns
      (λ a.
        (a.0 ≡ pos 0)
        × (a.1.files ≡ c.files)
        × ((f : ℕ) → a.1.fs.files (suc f) ≡ c.fs.files (suc f)))
      r

-- On sound handles, `dup` of an open handle with a handle free gives the first free one, and `close`
-- of that one then succeeds and leaves the handles and the counts of the files as they were before.
pub dup-close :
    (fd : ℕ) (c : Context)
    → IsSound c
    → (handle fd c == 0) ≡ false
    → (find_null c.files == nfiles) ≡ false
    → Returns
        (λ d. (d.0 ≡ pos (find_null c.files)) × Undone c (close (find_null c.files) d.1))
        (dup fd c)
dup-close fd c w z room =
    let (u, e, k) = dup-open fd c w z room in
    let c1 : Context = record c { files = set c.files (find_null c.files) (handle fd c); fs = u } in
    let below = free-below c w room in
    let again : handle (find_null c.files) c1 ≡ handle fd c =
      rw (ltb-true (find_null c.files) nfiles (omega (arith, below, w.size)))
        (get_or-set_self c.files (find_null c.files) (handle fd c) 0 below) in
    let (v, e', k') = close-open (find_null c.files) c1 k (rw again z) in
    let back = set-get_or c.files (find_null c.files) (handle fd c) in
    let same : set (set c.files (find_null c.files) (handle fd c)) (find_null c.files) 0 ≡ c.files =
      rw (find_null-free c.files) at back in
    (
      (pos (find_null c.files), c1),
      e,
      (
        refl,
        (
          (pos 0, record c1 { files = set c1.files (find_null c.files) 0; fs = v }),
          e',
          (
            refl,
            same,
            same-counts c (record c1 { files = set c1.files (find_null c.files) 0; fs = v }) w k'
                same refl,
          ),
        ),
      ),
    )
