-- ===== src/Bits.antt =====
-- The masks that the sources apply: single bits, and the mask that clears the twelve low bits.
use Prim.Native.Nat.{digits, bit_and-bitwise}
use stub.Prelude.{
  ℕ, zero, suc, ◌+◌, ◌*◌, ◌/◌, ◌%◌, ◌^◌, ◌≤◌, ◌<◌, ◌≡◌, refl, ap, min, bit_and, arith,
}

-- The recursion that `bit_and` stands for, on a bound for its first argument.
abbrev and_bits : ℕ → ℕ → ℕ → ℕ
and_bits bound a b = digits (λ _. zero) min bound a b

-- Any bound that is large enough gives the same bits.
and_bits-bound : (j k a b : ℕ) → a ≤ j → a ≤ k → and_bits j a b ≡ and_bits k a b
and_bits-bound zero zero a b hj hk = refl
and_bits-bound zero (suc k) zero b hj hk = refl
and_bits-bound zero (suc k) (suc a) b hj hk = absurd (omega arith)
and_bits-bound (suc j) zero zero b hj hk = refl
and_bits-bound (suc j) zero (suc a) b hj hk = absurd (omega arith)
and_bits-bound (suc j) (suc k) zero b hj hk = refl
and_bits-bound (suc j) (suc k) (suc a) b hj hk =
    omega (arith, and_bits-bound j k (suc a / 2) (b / 2) (omega arith) (omega arith))

zero-and : (b : ℕ) → bit_and 0 b ≡ 0
zero-and b = bit_and-bitwise 0 b

-- the lowest bit, and the bits above it
and_halves : (a b : ℕ) → bit_and a b ≡ 2 * bit_and (a / 2) (b / 2) + min (a % 2) (b % 2)
and_halves zero b = omega (arith, zero-and b, zero-and (b / 2))
and_halves (suc a) b = omega (
  arith,
  bit_and-bitwise (suc a) b,
  bit_and-bitwise (suc a / 2) (b / 2),
  and_bits-bound a (suc a / 2) (suc a / 2) (b / 2) (omega arith) (omega arith),
)

-- `b` with `k` zeros put in at its low end, and `a` without its `k` lowest bits
pub double : ℕ → ℕ → ℕ
double zero b = b
double (suc k) b = 2 * double k b

pub halve : ℕ → ℕ → ℕ
halve zero a = a
halve (suc k) a = halve k (a / 2)

-- A mask with `k` zeros at its low end looks only at what stands above them.
and-double : (k a b : ℕ) → bit_and a (double k b) ≡ double k (bit_and (halve k a) b)
unfolding double halve
and-double zero a b = refl
and-double (suc k) a b = omega (
  arith,
  and_halves a (2 * double k b),
  ap (bit_and (a / 2)) (back (double k b)),
  and-double k (a / 2) b,
)
  where
    back : (n : ℕ) → 2 * n / 2 ≡ n
    back n = omega arith

-- a mask of `k` ones
ones : ℕ → ℕ
ones zero = 0
ones (suc k) = 2 * ones k + 1

-- It keeps every number that has at most `k` bits.
and-ones : (k a : ℕ) → a < double k 1 → bit_and a (ones k) ≡ a
unfolding ones double
and-ones zero zero h = refl
and-ones zero (suc a) h = absurd (omega arith)
and-ones (suc k) a h = omega (
  arith,
  and_halves a (2 * ones k + 1),
  ap (bit_and (a / 2)) (back (ones k)),
  and-ones k (a / 2) (omega arith),
)
  where
    back : (n : ℕ) → (2 * n + 1) / 2 ≡ n
    back n = omega arith

and_bits-zero : (bound a : ℕ) → and_bits bound a 0 ≡ 0
and_bits-zero zero a = refl
and_bits-zero (suc n) zero = refl
and_bits-zero (suc n) (suc a) = omega (arith, and_bits-zero n (suc a / 2))

pub and-zero : (a : ℕ) → bit_and a 0 ≡ 0
and-zero a = omega (arith, bit_and-bitwise a 0, and_bits-zero a a)

and-one : (a : ℕ) → bit_and a 1 ≡ a % 2
and-one a = omega (arith, and_halves a 1, and-zero (a / 2))

-- the flag NX_COMPAT
pub and-0x100 : (a : ℕ) → bit_and a 0x100 ≡ 256 * (a / 256 % 2)
unfolding double halve
and-0x100 a = omega (arith, and-double 8 a 1, and-one (halve 8 a))

-- the mask !0xFFF of a u64
pub and-page_mask : (a : ℕ) → a < 2 ^ 64 → bit_and a 0xffff_ffff_ffff_f000 ≡ a / 4096 * 4096
unfolding double halve ones
and-page_mask a h =
    omega (arith, and-double 12 a 0xf_ffff_ffff_ffff, and-ones 52 (halve 12 a) (omega arith))

-- the mask !0x1FF of a usize
pub and-align_mask : (a : ℕ) → a < 2 ^ 64 → bit_and a 0xffff_ffff_ffff_fe00 ≡ a / 512 * 512
unfolding double halve ones
and-align_mask a h =
    omega (arith, and-double 9 a 0x7f_ffff_ffff_ffff, and-ones 55 (halve 9 a) (omega arith))

-- the mask IMAGE_SCN_CNT_CODE | IMAGE_SCN_MEM_EXECUTE
pub and-code_mask : (a : ℕ) → bit_and a 0x2000_0020 ≡ 32 * (a / 32 % 2) + 2 ^ 29 * (a / 2 ^ 29 % 2)
unfolding double halve
and-code_mask a =
    let h : ℕ = halve 5 a in
    omega (
      arith,
      and-double 5 a 0x100_0001,
      and_halves h 0x100_0001,
      and-double 23 (h / 2) 1,
      and-one (halve 23 (h / 2)),
    )

-- A mask of ones keeps the low bits: with the bits above them they make up the number.
and-ones_split : (k a : ℕ) → bit_and a (ones k) + double k (halve k a) ≡ a
unfolding ones double halve
and-ones_split zero a = omega (arith, and-zero a)
and-ones_split (suc k) a = omega (
  arith,
  and_halves a (2 * ones k + 1),
  ap (bit_and (a / 2)) (back (ones k)),
  and-ones_split k (a / 2),
)
  where
    back : (n : ℕ) → (2 * n + 1) / 2 ≡ n
    back n = omega arith

-- the mask 0xFFFF
pub and-0xffff : (a : ℕ) → bit_and a 0xffff ≡ a % 2 ^ 16
unfolding ones double halve
and-0xffff a = omega (arith, and-ones_split 16 a)
