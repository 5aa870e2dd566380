-- ===== src/Files/Handles.antt =====
-- The handles of `dos_exec_context` in doscontext.cc with the counts of filesystem.cc: every call
-- keeps them in step, so that no assertion fails and the destructor leaves no file open.
use vx68k_v.Base.{
  ℕ, ◌%◌, ◌<◌, ◌≡◌, ◌∙◌, refl, ◌++◌, arith, length, set, get_or, ◌==◌, Bool, false, Bool-cases, ltb,
  ltb-lt, inl, inr, ◌⊎◌, Option, some, length-set,
}
use vx68k_v.Base.Int.{ℤ, pos, negsuc}
use vx68k_v.Files.{
  File, con_device_file, regular_file, FileSystem, HostOpen, opened, not_permitted, not_found, file,
  Context, insert_file, open_host, open_name, create_name, nfiles, find_null, handle, close, dup,
  take_handle, open_file, create,
}
use vx68k_v.Files.Counts.{IsCounted, Returns, unref-IsCounted, ref-IsCounted, insert_file-IsCounted}
use vx68k_v.Files.Places.{
  set_null-HoldsMore, set_file-HoldsMore, get_or-held, find_null-bound, find_null-free, ==-ne,
}

-- The places that hold a file are the 96 handles and the standard files.
pub record IsSound (c : Context) : Type 0 where
  pub held : IsCounted (c.files ++ c.std_files) c.fs
  pub size : length c.files ≡ nfiles

handle-cases :
    (fd : ℕ) (c : Context)
    → IsSound c
    → (handle fd c ≡ 0) ⊎ ((handle fd c ≡ get_or c.files fd 0) × fd < length c.files)
handle-cases fd c w = elim (Bool-cases (ltb fd nfiles)) [
  | inl e ↦ rw e (inr (refl, omega (arith, ltb-lt fd nfiles e, w.size)))
  | inr e ↦ rw e (inl refl)
]

-- Where `find` does not come to the end, the entry that it gives is one of the table.
pub free-below :
    (c : Context)
    → IsSound c
    → (find_null c.files == nfiles) ≡ false
    → find_null c.files < length c.files
free-below c w e =
    omega (arith, w.size, find_null-bound c.files, ==-ne (find_null c.files) nfiles e)

-- The call returns, and the handles stay in step with the counts.
abbrev pub KeepsSound : Option (ℤ × Context) → Type 0
KeepsSound r = Returns (λ a. IsSound a.1) r

-- The context after a call that set one handle.
abbrev pub SetsHandle : (result at f : ℕ) → Context → Option (ℤ × Context) → Type 0
SetsHandle result at f c r =
    (u : FileSystem) × (r ≡ some (pos result, record c { files = set c.files at f; fs = u }))
    × IsSound (record c { files = set c.files at f; fs = u })

pub close-open :
    (fd : ℕ) (c : Context)
    → IsSound c
    → (handle fd c == 0) ≡ false
    → SetsHandle 0 fd 0 c (close fd c)
unfolding close
close-open fd c w z = elim (handle-cases fd c w) [
  | inl e ↦ absurd (==-ne (handle fd c) 0 z e)
  | inr h ↦
      let (u, e, (k, _, _)) =
        unref-IsCounted (handle fd c) (c.files ++ c.std_files) (set c.files fd 0 ++ c.std_files)
          c.fs w.held (rw h.0 (set_null-HoldsMore c.files c.std_files fd h.1)) in
      (u, rw (z, e) refl, record { held = k; size = length-set c.files fd 0 ∙ w.size })
]

pub close-IsSound : (fd : ℕ) (c : Context) → IsSound c → KeepsSound (close fd c)
unfolding close
close-IsSound fd c w = elim (Bool-cases (handle fd c == 0)) [
  | inl z ↦ rw z ((negsuc 5, c), refl, w)
  | inr z ↦
      let (u, e, k) = close-open fd c w z in
      ((pos 0, record c { files = set c.files fd 0; fs = u }), e, k)
]

pub dup-open :
    (fd : ℕ) (c : Context)
    → IsSound c
    → (handle fd c == 0) ≡ false
    → (find_null c.files == nfiles) ≡ false
    → SetsHandle (find_null c.files) (find_null c.files) (handle fd c) c (dup fd c)
unfolding dup
dup-open fd c w z room = elim (handle-cases fd c w) [
  | inl e ↦ absurd (==-ne (handle fd c) 0 z e)
  | inr h ↦
      let (r, e, (same, k, _)) =
        ref-IsCounted (handle fd c) (c.files ++ c.std_files)
          (set c.files (find_null c.files) (handle fd c) ++ c.std_files) c.fs w.held
          (set_file-HoldsMore c.files c.std_files (find_null c.files) (handle fd c)
            (free-below c w room) (find_null-free c.files))
          (inr (rw h.0 (get_or-held c.files c.std_files fd h.1))) in
      (
        r.1,
        rw (z, room, e, same) refl,
        record { held = k; size = length-set c.files (find_null c.files) (handle fd c) ∙ w.size },
      )
]

pub dup-IsSound : (fd : ℕ) (c : Context) → IsSound c → KeepsSound (dup fd c)
unfolding dup
dup-IsSound fd c w = elim (Bool-cases (handle fd c == 0)) [
  | inl z ↦ rw z ((negsuc 5, c), refl, w)
  | inr z ↦ elim (Bool-cases (find_null c.files == nfiles)) [
    | inl full ↦ rw (z, full) ((negsuc 3, c), refl, w)
    | inr room ↦
        let (u, e, k) = dup-open fd c w z room in
        (
          (
            pos (find_null c.files),
            record c { files = set c.files (find_null c.files) (handle fd c); fs = u },
          ),
          e,
          k,
        )
  ]
]

-- A new file at the handle that `find` gives.
take_insert-IsSound :
    (o : File) (c : Context)
    → IsSound c
    → (find_null c.files == nfiles) ≡ false
    → IsSound
        (take_handle (find_null c.files) (file (insert_file o c.fs).0, (insert_file o c.fs).1) c).1
unfolding take_handle insert_file
take_insert-IsSound o c w room = record {
  held =
      insert_file-IsCounted o (c.files ++ c.std_files)
        (set c.files (find_null c.files) c.fs.next ++ c.std_files) c.fs w.held
        (set_file-HoldsMore c.files c.std_files (find_null c.files) c.fs.next (free-below c w room)
          (find_null-free c.files));
  size = length-set c.files (find_null c.files) c.fs.next ∙ w.size;
}

take_open-IsSound :
    (host : HostOpen) (c : Context)
    → IsSound c
    → (find_null c.files == nfiles) ≡ false
    → IsSound (take_handle (find_null c.files) (open_host host c.fs) c).1
unfolding take_handle open_host
take_open-IsSound (opened fd) c w room = take_insert-IsSound (regular_file fd) c w room
take_open-IsSound not_permitted c w room = w
take_open-IsSound not_found c w room = w

pub create-IsSound : (host : HostOpen) (c : Context) → IsSound c → IsSound (create host c).1
unfolding create create_name
create-IsSound host c w = elim (Bool-cases (find_null c.files == nfiles)) [
  | inl full ↦ rw full w
  | inr room ↦ rw room (take_open-IsSound host c w room)
]

pub open_file-IsSound :
    (is_con : Bool) (host : HostOpen) (mode : ℕ) (c : Context)
    → IsSound c
    → IsSound (open_file is_con host mode c).1
unfolding open_file open_name take_handle
open_file-IsSound is_con host mode c w = elim (Bool-cases (find_null c.files == nfiles)) [
  | inl full ↦ rw full w
  | inr room ↦ elim (Bool-cases (ltb 2 (mode % 16))) [
    | inl bad ↦ rw (room, bad) w
    | inr good ↦ elim (Bool-cases is_con) [
      | inl con ↦ rw (room, good, con) (take_insert-IsSound con_device_file c w room)
      | inr name ↦ rw (room, good, name) (take_open-IsSound host c w room)
    ]
  ]
]
