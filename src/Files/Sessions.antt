-- ===== src/Files/Sessions.antt =====
-- A run of `dos_exec_context` of doscontext.cc, from the constructor through calls on its handles
-- to the destructor.
use vx68k_v.Base.{
  ℕ, zero, suc, ◌+◌, ◌≡◌, ◌∙◌, refl, ap, sym, List, [], ◌∷◌, ◌++◌, arith, reverse, append-nil, ◌==◌,
  ==-false, Bool, false, Option, none, some, ◌>>=◌,
}
use vx68k_v.Base.Int.{ℤ}
use vx68k_v.Files.{
  FileSystem, no_files, HostOpen, Context, close, dup, open_file, create, ref, insert_file, init,
  unref_all, destroy,
}
use vx68k_v.Files.Counts.{count, counted, IsCounted, Returns, AllGone, unref-IsCounted}
use vx68k_v.Files.Places.{count-append, count-reverse}
use vx68k_v.Files.Handles.{IsSound, close-IsSound, dup-IsSound, open_file-IsSound, create-IsSound}

-- The calls on handles. What the host answers to an `open` is part of the call.
pub data Call : Type 0 where
  call_close : (fd : ℕ) → Call
  call_dup : (fd : ℕ) → Call
  call_open : (is_con : Bool) → HostOpen → (mode : ℕ) → Call
  call_create : HostOpen → Call

unfoldable pub call : Call → Context → Option (ℤ × Context)
call (call_close fd) c = close fd c
call (call_dup fd) c = dup fd c
call (call_open is_con host mode) c = some (open_file is_con host mode c)
call (call_create host) c = some (create host c)

unfoldable pub calls : List Call → Context → Option Context
calls [] c = some c
calls (k ∷ ks) c = call k c >>= λ r. calls ks r.1

-- The context from the constructor to the destructor.
unfoldable pub session : List Call → Option FileSystem
session ks = init no_files >>= calls ks >>= destroy

same-IsCounted :
    (hs hs' : List ℕ) (s : FileSystem)
    → ((g : ℕ) → count g hs' ≡ count g hs)
    → IsCounted hs s
    → IsCounted hs' s
same-IsCounted hs hs' s e c = record {
  counts = λ f. c.counts f ∙ ap counted (sym (e (suc f)));
  fresh = λ f. e (s.next + f) ∙ c.fresh f;
  next_pos = c.next_pos;
  gone = c.gone;
}

call-IsSound : (k : Call) (c : Context) → IsSound c → Returns (λ r. IsSound r.1) (call k c)
unfolding call
call-IsSound (call_close fd) c w = close-IsSound fd c w
call-IsSound (call_dup fd) c w = dup-IsSound fd c w
call-IsSound (call_open is_con host mode) c w =
    (open_file is_con host mode c, refl, open_file-IsSound is_con host mode c w)
call-IsSound (call_create host) c w = (create host c, refl, create-IsSound host c w)

-- Whatever the calls, none of them fails an assertion, and each file counts the handles it has.
pub calls-IsSound : (ks : List Call) (c : Context) → IsSound c → Returns IsSound (calls ks c)
unfolding calls
calls-IsSound [] c w = (c, refl, w)
calls-IsSound (k ∷ ks) c w = let (r, e, v) = call-IsSound k c w in rw e (calls-IsSound ks r.1 v)

-- The context that the constructor gives.
abbrev pub started : Context
unfolding init
started = elim (init no_files) [
  | none ↦ record { std_files = []; files = []; fs = no_files }
  | some c ↦ c
]

not_console : (f : ℕ) → (suc (suc f) == 1) ≡ false
not_console f = ==-false (suc (suc f)) 1 (omega arith)

not_null : (f : ℕ) → (suc (suc f) == 0) ≡ false
not_null f = ==-false (suc (suc f)) 0 (omega arith)

started-count : (f : ℕ) → count (suc (suc f)) (started.files ++ started.std_files) ≡ 0
unfolding started init ref insert_file
started-count f = rw (not_console f, not_null f) refl

started-counts :
    (f : ℕ)
    → started.fs.files (suc f) ≡ counted (count (suc f) (started.files ++ started.std_files))
unfolding started init ref insert_file
started-counts zero = refl
started-counts (suc f) = rw (started-count f, not_console f) refl

started-AllGone : AllGone started.fs
unfolding started init ref insert_file
started-AllGone zero l e = absurd (cc)
started-AllGone (suc f) l e = absurd (omega (arith, l))

pub started-IsSound : IsSound started
unfolding started init ref insert_file
started-IsSound = record {
  held = record {
    counts = started-counts;
    fresh = λ f.
        let e : 2 + f ≡ suc (suc f) = omega arith in
        ap (λ k. count k (started.files ++ started.std_files)) e ∙ started-count f;
    next_pos = omega arith;
    gone = started-AllGone;
  };
  size = refl;
}

init-IsSound : Returns IsSound (init no_files)
unfolding started init ref insert_file
init-IsSound = (started, refl, started-IsSound)

-- The files of a list given up, the places left are counted.
unref_all-IsCounted :
    (l rest : List ℕ) (s : FileSystem)
    → IsCounted (l ++ rest) s
    → Returns (IsCounted rest) (unref_all l s)
unfolding unref_all
unref_all-IsCounted [] rest s c = (s, refl, c)
unref_all-IsCounted (f ∷ l) rest s c =
    let (u, e, (k, _, _)) = unref-IsCounted f (f ∷ (l ++ rest)) (l ++ rest) s c (λ g. refl) in
    rw e (unref_all-IsCounted l rest u k)

pub destroy-IsCounted : (c : Context) → IsSound c → Returns (IsCounted []) (destroy c)
unfolding destroy
destroy-IsCounted c w =
    let back : (g : ℕ)
        → count g (reverse c.files ++ (reverse c.std_files ++ []))
          ≡ count g (c.files ++ c.std_files) =
      λ g.
        rw
          (
            append-nil (reverse c.std_files),
            count-append g (reverse c.files) (reverse c.std_files),
            count-append g c.files c.std_files,
            count-reverse g c.files,
            count-reverse g c.std_files,
          )
          refl in
    let (u, e, k) = unref_all-IsCounted (reverse c.files) (reverse c.std_files ++ []) c.fs (
      same-IsCounted (c.files ++ c.std_files) (reverse c.files ++ (reverse c.std_files ++ [])) c.fs
        back w.held) in
    let (v, e', k') = unref_all-IsCounted (reverse c.std_files) [] u k in (v, rw (e, e') refl, k')

-- Whatever the calls on the handles, with whatever answers of the host, no assertion of the
-- constructor, of the calls or of the destructor fails, and no file is left in the map after the
-- destructor.
pub session-no_files :
    (ks : List Call) → Returns (λ s. (f : ℕ) → s.files (suc f) ≡ none) (session ks)
unfolding session
session-no_files ks =
    let (c0, e0, w0) = init-IsSound in
    let (c, e, w) = calls-IsSound ks c0 w0 in
    let (s, e', k) = destroy-IsCounted c w in (s, rw (e0, e, e') refl, k.counts)
