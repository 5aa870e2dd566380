-- ===== src/TextVram/Fill/Digits.antt =====
-- The binary digits of numbers, as the masks of `fill_plane` of textvram.cc take them apart.
use Prim.Native.Nat.{min, max, digits, bitwise, bit_and, bit_or, bit_and-bitwise, bit_or-bitwise}
use vx68k_v.Base.{
  ℕ, zero, suc, ◌+◌, ◌-◌, ◌*◌, ◌/◌, ◌%◌, ◌≤◌, ◌<◌, ◌≡◌, ◌∙◌, refl, sym, ap, Bool, true, ◌&&◌, arith,
}

-- The digit `i` of a number in binary.
abbrev pub digit : (i a : ℕ) → ℕ
digit zero a = a % 2
digit (suc i) a = digit i (a / 2)

-- A bitwise operation, with `last` for what is left of its second number, at the lowest digit.
module _ (last : ℕ → ℕ) (join : ℕ → ℕ → ℕ) where
  digits_none : (n y : ℕ) → digits last join n 0 y ≡ last y
  digits_none zero y = refl
  digits_none (suc n) y = refl

  digits_any : (x y n m : ℕ) → x ≤ n → x ≤ m → digits last join n x y ≡ digits last join m x y
  digits_any zero y n m h k = digits_none n y ∙ sym (digits_none m y)
  digits_any (suc x) y zero m h k = absurd (omega (arith, h))
  digits_any (suc x) y (suc n) zero h k = absurd (omega (arith, k))
  digits_any (suc x) y (suc n) (suc m) h k =
      let rest = digits_any (suc x / 2) (y / 2) n m (omega (arith, h)) (omega (arith, k)) in
      rw rest refl

  bitwise-half :
      (x y : ℕ)
      → bitwise last join (suc x) y
        ≡ bitwise last join (suc x / 2) (y / 2) * 2 + join (suc x % 2) (y % 2)
  bitwise-half x y =
      let rest = digits_any (suc x / 2) (y / 2) x (suc x / 2) (omega arith) (omega arith) in
      rw rest refl

bit_or-half : (x y : ℕ) → bit_or x y ≡ bit_or (x / 2) (y / 2) * 2 + max (x % 2) (y % 2)
bit_or-half zero y = omega (arith, bit_or-bitwise 0 y, bit_or-bitwise 0 (y / 2))
bit_or-half (suc x) y = omega (
  arith,
  bit_or-bitwise (suc x) y,
  bit_or-bitwise (suc x / 2) (y / 2),
  bitwise-half (λ v. v) max x y,
)

bit_and-half : (x y : ℕ) → bit_and x y ≡ bit_and (x / 2) (y / 2) * 2 + min (x % 2) (y % 2)
bit_and-half zero y = omega (arith, bit_and-bitwise 0 y, bit_and-bitwise 0 (y / 2))
bit_and-half (suc x) y = omega (
  arith,
  bit_and-bitwise (suc x) y,
  bit_and-bitwise (suc x / 2) (y / 2),
  bitwise-half (λ v. 0) min x y,
)

pub digit-bit_and : (i a b : ℕ) → digit i (bit_and a b) ≡ min (digit i a) (digit i b)
digit-bit_and zero a b = omega (arith, bit_and-half a b)
digit-bit_and (suc i) a b =
    let e : bit_and a b / 2 ≡ bit_and (a / 2) (b / 2) = omega (arith, bit_and-half a b) in
    rw e (digit-bit_and i (a / 2) (b / 2))

pub digit-bit_or : (i a b : ℕ) → digit i (bit_or a b) ≡ max (digit i a) (digit i b)
digit-bit_or zero a b = omega (arith, bit_or-half a b)
digit-bit_or (suc i) a b =
    let e : bit_or a b / 2 ≡ bit_or (a / 2) (b / 2) = omega (arith, bit_or-half a b) in
    rw e (digit-bit_or i (a / 2) (b / 2))

pub digit-le : (i a : ℕ) → digit i a ≤ 1
digit-le zero a = omega arith
digit-le (suc i) a = digit-le i (a / 2)

-- `n` digits of 1.
abbrev pub ones : ℕ → ℕ
ones zero = 0
ones (suc n) = 2 * ones n + 1

pub digit-ones_sub : (n i m : ℕ) → i < n → m ≤ ones n → digit i (ones n - m) ≡ 1 - digit i m
digit-ones_sub zero i m h k = absurd (omega (arith, h))
digit-ones_sub (suc n) zero m h k = omega (arith, k)
digit-ones_sub (suc n) (suc i) m h k =
    let e : (2 * ones n + 1 - m) / 2 ≡ ones n - m / 2 = omega (arith, k) in
    rw e (digit-ones_sub n i (m / 2) (omega (arith, h)) (omega (arith, k)))

digit-add_mul : (n i q r : ℕ) → i < n → digit i (q * (ones n + 1) + r) ≡ digit i r
digit-add_mul zero i q r h = absurd (omega (arith, h))
digit-add_mul (suc n) zero q r h =
    let e : q * (2 * ones n + 1 + 1) ≡ 2 * (q * (ones n + 1)) = omega arith in omega (arith, e)
digit-add_mul (suc n) (suc i) q r h =
    let d : q * (2 * ones n + 1 + 1) ≡ 2 * (q * (ones n + 1)) = omega arith in
    let e : (q * (2 * ones n + 1 + 1) + r) / 2 ≡ q * (ones n + 1) + r / 2 = omega (arith, d) in
    rw e (digit-add_mul n i q (r / 2) (omega (arith, h)))

pub digit-word : (i a : ℕ) → i < 16 → digit i (a % 65536) ≡ digit i a
digit-word i a h =
    let e : a / 65536 * 65536 + a % 65536 ≡ a = omega arith in
    sym (digit-add_mul 16 i (a / 65536) (a % 65536) h) ∙ ap (digit i) e

pub bit_and-le : (n a b : ℕ) → a ≤ n → bit_and a b ≤ a
bit_and-le n zero b h = omega (arith, bit_and-bitwise 0 b)
bit_and-le zero (suc a) b h = absurd (omega (arith, h))
bit_and-le (suc n) (suc a) b h =
    let l = bit_and-le n (suc a / 2) (b / 2) (omega (arith, h)) in
    omega (arith, bit_and-half (suc a) b, l)

-- A test of the numbers below `n`.
unfoldable pub below : ℕ → (ℕ → Bool) → Bool
below zero p = true
below (suc n) p = p n && below n p

pub below-all : (n : ℕ) (p : ℕ → Bool) (x : ℕ) → below n p ≡ true → x < n → p x ≡ true
unfolding below
below-all zero p x h k = absurd (omega (arith, k))
below-all (suc n) p x h k = ground (arith, below-all n p x)
