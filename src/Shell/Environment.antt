-- ===== src/Shell/Environment.antt =====
-- The environment block of `shell::create_env`: its strings, and its bounds.
use vx68k_v.Base.{
  ℕ, zero, suc, ◌+◌, ◌-◌, ◌≤◌, ◌<◌, ◌≡◌, ◌∙◌, refl, ap, sym, List, [], ◌∷◌, ◌++◌, length,
  length-append, get_or, ltb, Bool-cases, inl, inr, ltb-lt, ltb-ge, arith, add32, word_32,
}
use vx68k_v.Shell.{WriteMemory, string_size, env_size, write_strings, create_env}

-- The strings one after the other, each with its 0.
abbrev pub joined : List (List ℕ) → List ℕ
joined [] = []
joined (p ∷ ps) = (p ++ (0 ∷ [])) ++ joined ps

joined-size : (ps : List (List ℕ)) → length (joined ps) + 5 ≡ string_size ps
joined-size [] = refl
joined-size (p ∷ ps) =
    omega
      (arith, length-append (p ++ (0 ∷ [])) (joined ps), length-append p (0 ∷ []), joined-size ps)

get_or-left : (a b : List ℕ) (k : ℕ) → k < length a → get_or (a ++ b) k 0 ≡ get_or a k 0
get_or-left [] b k h = absurd (omega (arith, h))
get_or-left (x ∷ a) b zero h = refl
get_or-left (x ∷ a) b (suc k) h = get_or-left a b k (omega (arith, h))

get_or-right : (a b : List ℕ) (k : ℕ) → get_or (a ++ b) (length a + k) 0 ≡ get_or b k 0
get_or-right [] b k = let e : 0 + k ≡ k = omega arith in rw e refl
get_or-right (x ∷ a) b k =
    let e : suc (length a) + k ≡ suc (length a + k) = omega arith in rw e (get_or-right a b k)

module _ (mm : WriteMemory) where
  write_strings-below :
      (address a : ℕ) (ps : List (List ℕ)) (s : mm.State)
      → a < address
      → address + length (joined ps) < word_32
      → mm.get_8 a (write_strings mm address ps s) ≡ mm.get_8 a s
  write_strings-below address a [] s h k = refl
  write_strings-below address a (p ∷ ps) s h k =
      let size = length-append (p ++ (0 ∷ [])) (joined ps) in
      let size' = length-append p (0 ∷ []) in
      let e : add32 address (length p + 1) ≡ address + (length p + 1) =
        omega (arith, size, size', k) in
      rw e (
        write_strings-below (address + (length p + 1)) a ps (mm.write address (p ++ (0 ∷ [])) s)
          (omega (arith, h)) (omega (arith, size, size', k))
        ∙ mm.get-write_below a address (p ++ (0 ∷ [])) s h (omega (arith, size, size', k)))

  write_strings-above :
      (address a : ℕ) (ps : List (List ℕ)) (s : mm.State)
      → address + length (joined ps) ≤ a
      → a < word_32
      → mm.get_8 a (write_strings mm address ps s) ≡ mm.get_8 a s
  write_strings-above address a [] s h k = refl
  write_strings-above address a (p ∷ ps) s h k =
      let size = length-append (p ++ (0 ∷ [])) (joined ps) in
      let size' = length-append p (0 ∷ []) in
      let e : add32 address (length p + 1) ≡ address + (length p + 1) =
        omega (arith, size, size', h, k) in
      rw e (
        write_strings-above (address + (length p + 1)) a ps (mm.write address (p ++ (0 ∷ [])) s)
          (omega (arith, size, size', h)) k
        ∙ mm.get-write_above a address (p ++ (0 ∷ [])) s (omega (arith, size, size', h)) k)

  write_strings-at :
      (address j : ℕ) (ps : List (List ℕ)) (s : mm.State)
      → j < length (joined ps)
      → address + length (joined ps) < word_32
      → mm.get_8 (address + j) (write_strings mm address ps s) ≡ get_or (joined ps) j 0
  write_strings-at address j [] s h k = absurd (omega (arith, h))
  write_strings-at address j (p ∷ ps) s h k =
      let size = length-append (p ++ (0 ∷ [])) (joined ps) in
      let size' = length-append p (0 ∷ []) in
      let e : add32 address (length p + 1) ≡ address + (length p + 1) =
        omega (arith, size, size', k) in
      let t : mm.State = mm.write address (p ++ (0 ∷ [])) s in
      rw e (elim (Bool-cases (ltb j (length (p ++ (0 ∷ []))))) [
        | inl in_first ↦
            let l = ltb-lt j (length (p ++ (0 ∷ []))) in_first in
            write_strings-below (address + (length p + 1)) (address + j) ps t
              (omega (arith, l, size')) (omega (arith, size, size', k))
            ∙ mm.get-write_inside (address + j) address (p ++ (0 ∷ [])) s (omega arith)
                (omega (arith, l)) (omega (arith, size, k))
            ∙ ap (λ i. get_or (p ++ (0 ∷ [])) i 0) (omega arith)
            ∙ sym (get_or-left (p ++ (0 ∷ [])) (joined ps) j l)
        | inr behind ↦
            let g = ltb-ge j (length (p ++ (0 ∷ []))) behind in
            let rest : ℕ = j - length (p ++ (0 ∷ [])) in
            ap (λ b. mm.get_8 b (write_strings mm (address + (length p + 1)) ps t))
              (omega (arith, g, size'))
            ∙ write_strings-at (address + (length p + 1)) (j - length (p ++ (0 ∷ []))) ps t
                (omega (arith, g, h, size)) (omega (arith, size, size', k))
            ∙ sym (get_or-right (p ++ (0 ∷ [])) (joined ps) (j - length (p ++ (0 ∷ []))))
            ∙ ap (λ i. get_or ((p ++ (0 ∷ [])) ++ joined ps) i 0) (omega (arith, g))
      ])

  -- Where the strings fit in 32 bits and the block of `env_size` bytes at `env` ends below 2^32:
  -- the strings stand one after the other from `env` + 4 on, each with its 0, no byte behind the
  -- last string, an empty one to end them included, and none below the block is changed, and 0x200
  -- bytes of the block at least stay free.
  pub create_env-strings :
      (env : ℕ) (envp : List (List ℕ)) (s : mm.State)
      → string_size envp + 0x3ff < word_32
      → env + env_size envp < word_32
      → ((j : ℕ)
          → j < length (joined envp)
          → mm.get_8 (env + 4 + j) (create_env mm env envp s) ≡ get_or (joined envp) j 0)
        × ((a : ℕ)
            → env + 4 + length (joined envp) ≤ a
            → a < word_32
            → mm.get_8 a (create_env mm env envp s) ≡ mm.get_8 a s)
        × ((a : ℕ) → a < env → mm.get_8 a (create_env mm env envp s) ≡ mm.get_8 a s)
        × (4 + length (joined envp) + 0x200 ≤ env_size envp)
  unfolding create_env
  create_env-strings env envp s h k =
      let size = joined-size envp in
      let room : 4 + length (joined envp) + 0x200 ≤ env_size envp = omega (arith, size, h) in
      let e : add32 env 4 ≡ env + 4 = omega (arith, room, k) in
      let t : mm.State = mm.put_32 env (env_size envp) s in
      rw e (
        λ j l. write_strings-at (env + 4) j envp t l (omega (arith, room, k)),
        λ a g l.
            write_strings-above (env + 4) a envp t g l
            ∙ mm.get-put_32_apart a env (env_size envp) s (omega (arith, g)) l,
        λ a l.
            write_strings-below (env + 4) a envp t (omega (arith, l)) (omega (arith, room, k))
            ∙ mm.get-put_32_below a env (env_size envp) s l (omega (arith, room, k)),
        room,
      )
