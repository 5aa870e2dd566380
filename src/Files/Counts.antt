-- ===== src/Files/Counts.antt =====
-- The reference counts of filesystem.cc against the list of the places that hold a file.
use mathlib.Core.Path.{subst}
use vx68k_v.Base.{
  ==-ne, ℕ, zero, suc, ◌+◌, ◌-◌, ◌≤◌, ◌<◌, ◌≡◌, ◌∙◌, refl, ap, sym, ◌⊎◌, inl, inr, false, List, [],
  ◌∷◌, Option, none, some, arith, ltb, ltb-lt, ltb-ge, ◌==◌, ==-eq, ==-false, eq_self, Bool-cases,
  if◌then◌else◌,
}
use vx68k_v.Files.{
  File, con_device_file, regular_file, FileSystem, put_count, closing, unref, ref, insert_file,
}

abbrev pub count : ℕ → List ℕ → ℕ
count f [] = 0
count f (g ∷ gs) = (if f == g then 1 else 0) + count f gs

-- The entry of the map for a file that is held in so many places.
abbrev pub counted : ℕ → Option ℕ
counted zero = none
counted (suc n) = some (suc n)

-- The descriptor is among those that were closed.
abbrev pub IsClosed : ℕ → List ℕ → Type 0
IsClosed fd [] = ⊥
IsClosed fd (d ∷ ds) = (fd ≡ d) ⊎ IsClosed fd ds

-- A file that is no more has closed its descriptor.
abbrev pub IsGone : File → List ℕ → Type 0
IsGone con_device_file ds = Unit {0}
IsGone (regular_file fd) ds = IsClosed fd ds

closing-IsGone : (o : File) (ds : List ℕ) → IsGone o (closing o ds)
closing-IsGone con_device_file ds = tt
closing-IsGone (regular_file fd) ds = inl refl

IsGone-closing : (o p : File) (ds : List ℕ) → IsGone o ds → IsGone o (closing p ds)
IsGone-closing con_device_file p ds h = tt
IsGone-closing (regular_file fd) con_device_file ds h = h
IsGone-closing (regular_file fd) (regular_file d) ds h = inr h

-- Each file that was given and has no entry is gone.
abbrev pub AllGone : FileSystem → Type 0
AllGone s = (f : ℕ) → suc f < s.next → s.files (suc f) ≡ none → IsGone (s.object (suc f)) s.closed

not_none : {n : ℕ} → some n ≡ none → ⊥
not_none e = cc

-- A file whose count is set is not gone, and one whose entry is erased is.
AllGone-counted :
    (f n : ℕ) (s : FileSystem)
    → AllGone s
    → AllGone (record s { files = put_count f (some n) s.files })
AllGone-counted f n s gone g l e = elim (Bool-cases (suc g == f)) [
  | inl here ↦ elim (not_none (rw here at e)) [ ]
  | inr there ↦ gone g l (rw there at e)
]

AllGone-erased :
    (f : ℕ) (s : FileSystem)
    → AllGone s
    → AllGone
        (record s { files = put_count f none s.files; closed = closing (s.object f) s.closed })
AllGone-erased f s gone g l e = elim (Bool-cases (suc g == f)) [
  | inl here ↦
      subst (λ h. IsGone (s.object (suc g)) (closing (s.object h) s.closed)) (==-eq (suc g) f here)
        (closing-IsGone (s.object (suc g)) s.closed)
  | inr there ↦ IsGone-closing (s.object (suc g)) (s.object f) s.closed (gone g l (rw there at e))
]

AllGone-inserted : (o : File) (s : FileSystem) → AllGone s → AllGone (insert_file o s).1
unfolding insert_file
AllGone-inserted o s gone g l e = elim (Bool-cases (suc g == s.next)) [
  | inl here ↦ elim (not_none (rw here at e)) [ ]
  | inr there ↦ rw there (gone g (omega (arith, l, ==-ne (suc g) s.next there)) (rw there at e))
]

-- The map counts the places `hs` for each file, no place holds an address not yet
-- given, and each file without an entry is gone.
pub record IsCounted (hs : List ℕ) (s : FileSystem) : Type 0 where
  pub counts : (f : ℕ) → s.files (suc f) ≡ counted (count (suc f) hs)
  pub fresh : (f : ℕ) → count (s.next + f) hs ≡ 0
  pub next_pos : 1 ≤ s.next
  pub gone : AllGone s

-- `hs` holds `f` in one place more than `hs'`, and every other file as often.
abbrev pub HoldsMore : ℕ → List ℕ → List ℕ → Type 0
HoldsMore f hs hs' = (g : ℕ) → count (suc g) hs ≡ (if suc g == f then 1 else 0) + count (suc g) hs'

abbrev pub Returns {ℓ} : {A : Type ℓ} → (A → Type 0) → Option A → Type ℓ
Returns {A = A} P r = (a : A) × (r ≡ some a) × P a

-- Places that hold less are fresh too.
fresh-more :
    (f n : ℕ) (hs hs' : List ℕ)
    → 1 ≤ n
    → HoldsMore f hs hs'
    → ((g : ℕ) → count (n + g) hs ≡ 0)
    → (g : ℕ) → count (n + g) hs' ≡ 0
fresh-more f n hs hs' h m z g =
    let e : suc (n + g - 1) ≡ n + g = omega (arith, h) in
    let k = rw e at (m (n + g - 1)) in omega (arith, k, z g)

-- Elsewhere the two lists hold the same.
apart :
    (f g : ℕ) (hs hs' : List ℕ)
    → HoldsMore f hs hs'
    → (suc g == f) ≡ false
    → count (suc g) hs ≡ count (suc g) hs'
apart f g hs hs' m ne = m g ∙ rw ne (omega arith)

-- The map with the entry of one file set right.
recounted :
    (f : ℕ) (hs hs' : List ℕ) (s : FileSystem)
    → IsCounted hs s
    → ((g : ℕ) → (suc g == f) ≡ false → count (suc g) hs ≡ count (suc g) hs')
    → (g : ℕ) → put_count f (counted (count f hs')) s.files (suc g) ≡ counted (count (suc g) hs')
recounted f hs hs' s c same g = elim (Bool-cases (suc g == f)) [
  | inl here ↦ rw here (ap (λ k. counted (count k hs')) (sym (==-eq (suc g) f here)))
  | inr there ↦ rw there (c.counts g ∙ ap counted (same g there))
]

-- `unref` of a file held in `n` places besides.
unref_at :
    (f n : ℕ) (hs hs' : List ℕ) (s : FileSystem)
    → IsCounted hs s
    → HoldsMore (suc f) hs hs'
    → count (suc f) hs' ≡ n
    → Returns (λ u. IsCounted hs' u × (u.next ≡ s.next) × (u.object ≡ s.object)) (unref (suc f) s)
unfolding unref
unref_at f zero hs hs' s c m e =
    let one : count (suc f) hs ≡ 1 = m f ∙ rw (eq_self (suc f), e) (omega arith) in
    let entry : s.files (suc f) ≡ some 1 = c.counts f ∙ ap counted one in
    let u : FileSystem = record s {
      files = put_count (suc f) none s.files;
      closed = closing (s.object (suc f)) s.closed;
    } in
    rw (==-false (suc f) 0 (omega arith), entry, unref)
      (
        u,
        refl,
        (
          record {
            counts = λ g. rw e at (recounted (suc f) hs hs' s c (λ k. apart (suc f) k hs hs' m) g);
            fresh = fresh-more (suc f) s.next hs hs' c.next_pos m c.fresh;
            next_pos = c.next_pos;
            gone = AllGone-erased (suc f) s c.gone;
          },
          refl,
          refl,
        ),
      )
unref_at f (suc n) hs hs' s c m e =
    let more : count (suc f) hs ≡ suc (suc n) = m f ∙ rw (eq_self (suc f), e) (omega arith) in
    let entry : s.files (suc f) ≡ some (suc (suc n)) = c.counts f ∙ ap counted more in
    let u : FileSystem = record s { files = put_count (suc f) (some (suc n)) s.files } in
    rw (==-false (suc f) 0 (omega arith), entry, unref)
      (
        u,
        refl,
        (
          record {
            counts = λ g. rw e at (recounted (suc f) hs hs' s c (λ k. apart (suc f) k hs hs' m) g);
            fresh = fresh-more (suc f) s.next hs hs' c.next_pos m c.fresh;
            next_pos = c.next_pos;
            gone = AllGone-counted (suc f) (suc n) s c.gone;
          },
          refl,
          refl,
        ),
      )

-- With a file, or NULL, taken from one place, `unref` of it succeeds, and the map counts the places
-- that are left.
pub unref-IsCounted :
    (f : ℕ) (hs hs' : List ℕ) (s : FileSystem)
    → IsCounted hs s
    → HoldsMore f hs hs'
    → Returns (λ u. IsCounted hs' u × (u.next ≡ s.next) × (u.object ≡ s.object)) (unref f s)
unfolding unref
unref-IsCounted zero hs hs' s c m = (
  s,
  refl,
  (
    record {
      counts = λ g. c.counts g ∙ ap counted (apart 0 g hs hs' m (==-false (suc g) 0 (omega arith)));
      fresh = fresh-more 0 s.next hs hs' c.next_pos m c.fresh;
      next_pos = c.next_pos;
      gone = c.gone;
    },
    refl,
    refl,
  ),
)
unref-IsCounted (suc f) hs hs' s c m = unref_at f (count (suc f) hs') hs hs' s c m refl

-- Places that hold one file more, already given, hold no address that is fresh.
fresh-less :
    (f n : ℕ) (hs hs' : List ℕ)
    → 1 ≤ n
    → HoldsMore f hs' hs
    → f < n
    → ((g : ℕ) → count (n + g) hs ≡ 0)
    → (g : ℕ) → count (n + g) hs' ≡ 0
fresh-less f n hs hs' h m l z g =
    let e : suc (n + g - 1) ≡ n + g = omega (arith, h) in
    let k = rw e at (m (n + g - 1)) in k ∙ rw (==-false (n + g) f (omega (arith, l)), z g) refl

-- A file that some place holds has been given.
held-given : (f : ℕ) (hs : List ℕ) (s : FileSystem) → IsCounted hs s → 1 ≤ count f hs → f < s.next
held-given f hs s c h = elim (Bool-cases (ltb f s.next)) [
  | inl l ↦ ltb-lt f s.next l
  | inr n ↦
      let g : s.next ≤ f = ltb-ge f s.next n in
      let e : s.next + (f - s.next) ≡ f = omega (arith, g) in
      let z = rw e at (c.fresh (f - s.next)) in omega (arith, z, h)
]

-- `ref` of a file that some place holds, or of NULL, succeeds and gives the file, and the map counts
-- the place that the file goes to.
pub ref-IsCounted :
    (f : ℕ) (hs hs' : List ℕ) (s : FileSystem)
    → IsCounted hs s
    → HoldsMore f hs' hs
    → (f ≡ 0) ⊎ (1 ≤ count f hs)
    → Returns (λ r. (r.0 ≡ f) × IsCounted hs' r.1 × (r.1.next ≡ s.next)) (ref f s)
unfolding ref
ref-IsCounted zero hs hs' s c m h = (
  (0, s),
  refl,
  (
    refl,
    record {
      counts = λ g.
          c.counts g ∙ ap counted (sym (apart 0 g hs' hs m (==-false (suc g) 0 (omega arith))));
      fresh = fresh-less 0 s.next hs hs' c.next_pos m c.next_pos c.fresh;
      next_pos = c.next_pos;
      gone = c.gone;
    },
    refl,
  ),
)
ref-IsCounted (suc f) hs hs' s c m h =
    let n : ℕ = count (suc f) hs - 1 in
    let held : count (suc f) hs ≡ suc n = elim h [
      | inl e ↦ omega (arith, e)
      | inr l ↦ omega (arith, l)
    ] in
    let entry : s.files (suc f) ≡ some (suc n) = c.counts f ∙ ap counted held in
    let more : count (suc f) hs' ≡ suc (suc n) = m f ∙ rw (eq_self (suc f)) (omega (arith, held)) in
    rw (==-false (suc f) 0 (omega arith), entry, ref)
      (
        (suc f, record s { files = put_count (suc f) (some (suc (suc n))) s.files }),
        refl,
        (
          refl,
          record {
            counts = λ g.
                rw more at
                  (recounted (suc f) hs hs' s c (λ k ne. sym (apart (suc f) k hs' hs m ne)) g);
            fresh =
                fresh-less (suc f) s.next hs hs' c.next_pos m
                  (held-given (suc f) hs s c (omega (arith, held))) c.fresh;
            next_pos = c.next_pos;
            gone = AllGone-counted (suc f) (suc (suc n)) s c.gone;
          },
          refl,
        ),
      )

pub insert_file-IsCounted :
    (o : File) (hs hs' : List ℕ) (s : FileSystem)
    → IsCounted hs s
    → HoldsMore s.next hs' hs
    → IsCounted hs' (insert_file o s).1
unfolding insert_file
insert_file-IsCounted o hs hs' s c m =
    let back : suc (s.next - 1) ≡ s.next = omega (arith, c.next_pos) in
    let here : s.next + 0 ≡ s.next = omega arith in
    let step : (g : ℕ) → s.next + suc g ≡ suc s.next + g = λ g. omega arith in
    let none_yet : count s.next hs ≡ 0 = rw here at (c.fresh 0) in
    let one : count s.next hs' ≡ 1 =
      rw back at (m (s.next - 1)) ∙ rw (eq_self s.next, none_yet) refl in
    record {
      counts =
          λ g. rw one at (recounted s.next hs hs' s c (λ k ne. sym (apart s.next k hs' hs m ne)) g);
      fresh =
          fresh-less s.next (suc s.next) hs hs' (omega arith) m (omega arith)
            (λ g. rw (step g) at (c.fresh (suc g)));
      next_pos = omega arith;
      gone = AllGone-inserted o s c.gone;
    }
