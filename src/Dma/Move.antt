-- ===== src/Dma/Move.antt =====
-- What _DMAMOVE of dmacmem.cc leaves in memory, for any increments.
use mathlib.Core.Path.{fun_ext, subst}
use vx68k_v.Base.{
  ◌+◌, ◌-◌, word_32, ℕ, zero, suc, ◌/◌, ◌%◌, ◌<◌, ◌≡◌, ◌≢◌, ◌∙◌, refl, sym, Bool, Bool-cases, inl,
  inr, ◌==◌, if◌then◌else◌, arith, add32,
}
use vx68k_v.Dma.{ByteMemory, cell, increments, move, iocs_dmamove}

-- The address after `k` rounds.
abbrev pub at_round : (inc a k : ℕ) → ℕ
at_round inc a zero = a
at_round inc a (suc k) = at_round inc (add32 a inc) k

-- The address after `k` rounds by the two bits of the mode: 1 counts up, 2 counts down, and others
-- stay, modulo 2^32.
abbrev pub counted : (code a k : ℕ) → ℕ
counted code a k =
    if code == 1
    then add32 a k
    else if code == 2
    then (a + (word_32 - k % word_32)) % word_32
    else a

at_round-up : (a k : ℕ) → a < word_32 → at_round 1 a k ≡ add32 a k
at_round-up a zero h = omega arith
at_round-up a (suc k) h = at_round-up (add32 a 1) k (omega arith) ∙ omega arith

at_round-down :
    (a k : ℕ) → a < word_32 → at_round (word_32 - 1) a k ≡ (a + (word_32 - k % word_32)) % word_32
at_round-down a zero h = omega arith
at_round-down a (suc k) h = at_round-down (add32 a (word_32 - 1)) k (omega arith) ∙ omega arith

at_round-stay : (a k : ℕ) → a < word_32 → at_round 0 a k ≡ a
at_round-stay a zero h = refl
at_round-stay a (suc k) h = at_round-stay (add32 a 0) k (omega arith) ∙ omega arith

at_round-counted : (code a k : ℕ) → a < word_32 → at_round (increments code) a k ≡ counted code a k
at_round-counted code a k h = elim (Bool-cases (code == 1)) [
  | inl e ↦ rw e (at_round-up a k h)
  | inr e ↦ elim (Bool-cases (code == 2)) [
    | inl f ↦ rw (e, f) (at_round-down a k h)
    | inr f ↦ rw (e, f) (at_round-stay a k h)
  ]
]

-- No byte is read or written after it has been written, with the addresses of each round.
abbrev pub IsApart : ℕ → (src dst : ℕ → ℕ) → Type 0
IsApart n src dst =
    (k l : ℕ) → k < l → l < n → (cell (src l) ≢ cell (dst k)) × (cell (dst l) ≢ cell (dst k))

module _ (mm : ByteMemory) where
  -- Each byte is where it belongs, and the bytes that are not written are as they were.
  abbrev pub Moved : ℕ → (src dst : ℕ → ℕ) → (s t : mm.State) → Type 0
  Moved n src dst s t =
      ((k : ℕ) → k < n → mm.get_8 (dst k) t ≡ mm.get_8 (src k) s)
      × ((a : ℕ) → ((k : ℕ) → k < n → cell a ≢ cell (dst k)) → mm.get_8 a t ≡ mm.get_8 a s)

  later :
      (n i j i_inc j_inc : ℕ)
      → IsApart (suc n) (at_round i_inc i) (at_round j_inc j)
      → IsApart n (at_round i_inc (add32 i i_inc)) (at_round j_inc (add32 j j_inc))
  later n i j i_inc j_inc h k l kl ln = h (suc k) (suc l) (omega (arith, kl)) (omega (arith, ln))

  move-kept :
      (n i j i_inc j_inc a : ℕ) (s : mm.State)
      → ((k : ℕ) → k < n → cell a ≢ cell (at_round j_inc j k))
      → mm.get_8 a (move mm n i j i_inc j_inc s) ≡ mm.get_8 a s
  unfolding move
  move-kept zero i j i_inc j_inc a s h = refl
  move-kept (suc n) i j i_inc j_inc a s h =
      move-kept n (add32 i i_inc) (add32 j j_inc) i_inc j_inc a (mm.put_8 j (mm.get_8 i s) s)
        (λ k l. h (suc k) (omega (arith, l)))
      ∙ mm.get-put_ne a j (mm.get_8 i s) s (h 0 (omega arith))

  move-copied :
      (n i j i_inc j_inc : ℕ) (s : mm.State)
      → IsApart n (at_round i_inc i) (at_round j_inc j)
      → (k : ℕ) → k < n
      → mm.get_8 (at_round j_inc j k) (move mm n i j i_inc j_inc s)
        ≡ mm.get_8 (at_round i_inc i k) s
  unfolding move
  move-copied zero i j i_inc j_inc s h k l = absurd (omega (arith, l))
  move-copied (suc n) i j i_inc j_inc s h zero l =
      move-kept n (add32 i i_inc) (add32 j j_inc) i_inc j_inc j (mm.put_8 j (mm.get_8 i s) s)
        (λ k m e. (h 0 (suc k) (omega arith) (omega (arith, m))).1 (sym e))
      ∙ mm.get-put_self j j (mm.get_8 i s) s refl (mm.get_8-bound i s)
  move-copied (suc n) i j i_inc j_inc s h (suc k) l =
      move-copied n (add32 i i_inc) (add32 j j_inc) i_inc j_inc (mm.put_8 j (mm.get_8 i s) s)
        (later n i j i_inc j_inc h) k (omega (arith, l))
      ∙ mm.get-put_ne (at_round i_inc i (suc k)) j (mm.get_8 i s) s
          (h 0 (suc k) (omega arith) (omega (arith, l))).0

  move-Moved :
      (n i j i_inc j_inc : ℕ) (s : mm.State)
      → IsApart n (at_round i_inc i) (at_round j_inc j)
      → Moved n (at_round i_inc i) (at_round j_inc j) s (move mm n i j i_inc j_inc s)
  move-Moved n i j i_inc j_inc s h =
      (move-copied n i j i_inc j_inc s h, λ a k. move-kept n i j i_inc j_inc a s k)

  move-counted :
      (n ci cj i j : ℕ) (s : mm.State)
      → i < word_32
      → j < word_32
      → IsApart n (counted ci i) (counted cj j)
      → Moved n (counted ci i) (counted cj j) s (move mm n i j (increments ci) (increments cj) s)
  move-counted n ci cj i j s h k apart =
      subst
        (λ src.
          IsApart n src (counted cj j)
          → Moved n src (counted cj j) s (move mm n i j (increments ci) (increments cj) s))
        (fun_ext λ r. at_round-counted ci i r h)
        (subst
          (λ dst.
            IsApart n (at_round (increments ci) i) dst
            → Moved n (at_round (increments ci) i) dst s
                (move mm n i j (increments ci) (increments cj) s))
          (fun_ext λ r. at_round-counted cj j r k)
          (move-Moved n i j (increments ci) (increments cj) s))
        apart

  -- With addresses of 32 bits, and where no byte is read or written after it has been written:
  -- _DMAMOVE copies each of the %d2 bytes, from %a1 to %a2 or the other way by bit 7 of the mode,
  -- with each address counting up, down or not at all by its two bits of the mode, and leaves every
  -- other byte as it was.
  pub iocs_dmamove-Moved :
      (d1 d2 a1 a2 : ℕ) (s : mm.State)
      → a1 < word_32
      → a2 < word_32
      → let one : ℕ → ℕ = counted (d1 % 4) a1 in
        let two : ℕ → ℕ = counted (d1 / 4 % 4) a2 in
        let back : Bool = d1 / 128 % 2 == 1 in
        let src : ℕ → ℕ = if back then two else one in
        let dst : ℕ → ℕ = if back then one else two in
        IsApart d2 src dst → Moved d2 src dst s (iocs_dmamove mm d1 d2 a1 a2 s)
  unfolding iocs_dmamove
  iocs_dmamove-Moved d1 d2 a1 a2 s h1 h2 h =
      let i_bits : d1 % 256 % 4 ≡ d1 % 4 = omega arith in
      let j_bits : d1 % 256 / 4 % 4 ≡ d1 / 4 % 4 = omega arith in
      let way : d1 % 256 / 128 % 2 ≡ d1 / 128 % 2 = omega arith in
      rw (i_bits, j_bits, way)
        (elim (Bool-cases (d1 / 128 % 2 == 1)) [
          | inl back ↦ rw back (move-counted d2 (d1 / 4 % 4) (d1 % 4) a2 a1 s h2 h1 (rw back at h))
          | inr forth ↦
              rw forth (move-counted d2 (d1 % 4) (d1 / 4 % 4) a1 a2 s h1 h2 (rw forth at h))
        ])
