-- ===== src/Files.antt =====
-- libvx68kdos/filesystem.cc and doscontext.cc: the reference counts of `file_system` and the file
-- handles of `dos_exec_context`. A `file *` is a number, NULL is 0. An assertion that fails gives
-- none.
mod Examples
pub mod Places
pub mod Counts
pub mod Handles
pub mod Sessions
pub mod Duplicates
pub mod Device
use vx68k_v.Base.{
  ℕ, zero, suc, ◌+◌, ◌-◌, ◌*◌, ◌/◌, ◌%◌, ◌≤◌, ◌<◌, Bool, true, false, List, [], ◌∷◌, ◌++◌, Option,
  none, some, ◌>>=◌, length, set, get_or, replicate, ◌==◌, ◌||◌, ltb, leb, reverse, if◌then◌else◌,
}
use vx68k_v.Base.Int.{ℤ, pos, negsuc}

-- The classes of files: the console, and a file of the host with its descriptor.
pub data File : Type 0 where
  con_device_file : File
  regular_file : (fd : ℕ) → File

-- `files` is the map of the class, `object` the files themselves, `next` the address that `new`
-- gives next, and `closed` the descriptors that destructors have closed.
pub record FileSystem : Type 0 where
  pub files : ℕ → Option ℕ
  pub object : ℕ → File
  pub next : ℕ
  pub closed : List ℕ

abbrev pub no_files : FileSystem
no_files = record { files = λ f. none; object = λ f. con_device_file; next = 1; closed = [] }

abbrev pub put_count : (f : ℕ) → Option ℕ → (ℕ → Option ℕ) → ℕ → Option ℕ
put_count f n m g = if g == f then n else m g

-- The destructor of a file.
abbrev pub closing : File → List ℕ → List ℕ
closing con_device_file l = l
closing (regular_file fd) l = fd ∷ l

unfoldable pub unref : ℕ → FileSystem → Option FileSystem
unref f s = elim (f == 0) [
  | true ↦ some s
  | false ↦ elim (s.files f) [
    | none ↦ none
    | some zero ↦ none
    | some (suc zero) ↦
        some (record s { files = put_count f none s.files; closed = closing (s.object f) s.closed })
    | some (suc (suc n)) ↦ some (record s { files = put_count f (some (suc n)) s.files })
  ]
]

unfoldable pub ref : ℕ → FileSystem → Option (ℕ × FileSystem)
ref f s = elim (f == 0) [
  | true ↦ some (0, s)
  | false ↦ elim (s.files f) [
    | none ↦ none
    | some n ↦ some (f, record s { files = put_count f (some (suc n)) s.files })
  ]
]

-- `new` of a file, and its entry in the map.
unfoldable pub insert_file : File → FileSystem → ℕ × FileSystem
insert_file o s = (
  s.next,
  record s {
    files = put_count s.next (some 1) s.files;
    object = λ g. if g == s.next then o else s.object g;
    next = suc s.next;
  },
)

-- What `::open` of the host gives: a descriptor, or -1 with `errno` EPERM or another.
pub data HostOpen : Type 0 where
  opened : (fd : ℕ) → HostOpen
  not_permitted : HostOpen
  not_found : HostOpen

-- The result of `open` and `create`: an error, or the file that `ret` is set to.
pub data Opened : Type 0 where
  error : ℤ → Opened
  file : ℕ → Opened

unfoldable pub open_host : HostOpen → FileSystem → Opened × FileSystem
unfolding insert_file
open_host (opened fd) s = let (f, u) = insert_file (regular_file fd) s in (file f, u)
open_host not_permitted s = (error (negsuc 18), s)
open_host not_found s = (error (negsuc 1), s)

-- `open`, for a name that is the console's or not, and the host's answer for the exported name.
unfoldable pub open_name :
    (is_con : Bool) → HostOpen → (mode : ℕ) → FileSystem → Opened × FileSystem
unfolding insert_file open_host
open_name is_con host mode s =
    if ltb 2 (mode % 16)
    then (error (negsuc 11), s)
    else if is_con
    then (let (f, u) = insert_file con_device_file s in (file f, u))
    else open_host host s

unfoldable pub create_name : HostOpen → FileSystem → Opened × FileSystem
unfolding open_host
create_name host s = open_host host s

-- `dos_exec_context`, with the file system that it refers to.
pub record Context : Type 0 where
  pub std_files : List ℕ
  pub files : List ℕ
  pub fs : FileSystem

abbrev pub nfiles : ℕ
nfiles = 96

abbrev pub find_null : List ℕ → ℕ
find_null [] = 0
find_null (f ∷ fs) = if f == 0 then 0 else suc (find_null fs)

-- The file of a handle, 0 where the handle is out of range or not open.
abbrev pub handle : (fd : ℕ) → Context → ℕ
handle fd c = if ltb fd nfiles then get_or c.files fd 0 else 0

unfoldable pub close : (fd : ℕ) → Context → Option (ℤ × Context)
unfolding unref
close fd c =
    if handle fd c == 0
    then some (negsuc 5, c)
    else unref (handle fd c) c.fs >>= λ u.
        some (pos 0, record c { files = set c.files fd 0; fs = u })

unfoldable pub dup : (filno : ℕ) → Context → Option (ℤ × Context)
unfolding ref
dup filno c =
    let found : ℕ = find_null c.files in
    if handle filno c == 0
    then some (negsuc 5, c)
    else if found == nfiles
    then some (negsuc 3, c)
    else ref (handle filno c) c.fs >>= λ r.
        some (pos found, record c { files = set c.files found r.0; fs = r.1 })

-- The end of `open` and `create`.
unfoldable pub take_handle : (found : ℕ) → Opened × FileSystem → Context → ℤ × Context
take_handle found (error e, u) c = (e, record c { fs = u })
take_handle found (file f, u) c = (pos found, record c { files = set c.files found f; fs = u })

unfoldable pub open_file : (is_con : Bool) → HostOpen → (mode : ℕ) → Context → ℤ × Context
unfolding open_name take_handle
open_file is_con host mode c =
    let found : ℕ = find_null c.files in
    if found == nfiles then (negsuc 3, c) else take_handle found (open_name is_con host mode c.fs) c

unfoldable pub create : HostOpen → Context → ℤ × Context
unfolding create_name take_handle
create host c =
    let found : ℕ = find_null c.files in
    if found == nfiles then (negsuc 3, c) else take_handle found (create_name host c.fs) c

-- The constructor: the console is opened once and referred to by the ten standard entries.
unfoldable pub init : FileSystem → Option Context
unfolding ref insert_file
init s0 =
    let (con, s1) = insert_file con_device_file s0 in
    ref con s1 >>= λ r1.
    (ref con r1.1 >>= λ r2.
    (ref r2.0 r2.1 >>= λ r3.
    (ref r2.0 r3.1 >>= λ r4.
    (ref con r4.1 >>= λ f0.
    (ref r1.0 f0.1 >>= λ f1.
    (ref r2.0 f1.1 >>= λ f2.
    (ref r3.0 f2.1 >>= λ f3.
    (ref r4.0 f3.1 >>= λ f4. some (record {
      std_files = con ∷ r1.0 ∷ r2.0 ∷ r3.0 ∷ r4.0 ∷ [];
      files = f0.0 ∷ f1.0 ∷ f2.0 ∷ f3.0 ∷ f4.0 ∷ replicate 91 0;
      fs = f4.1;
    })))))))))

unfoldable pub unref_all : List ℕ → FileSystem → Option FileSystem
unfolding unref
unref_all [] s = some s
unref_all (f ∷ fs) s = unref f s >>= unref_all fs

-- The destructor.
unfoldable pub destroy : Context → Option FileSystem
unfolding unref_all
destroy c = unref_all (reverse c.files) c.fs >>= unref_all (reverse c.std_files)
