-- ===== src/Word.antt =====
-- The machine integers of the targets: u16, u32, u64, and a usize of 64 bits (all three targets
-- that src/pe/kernel.rs names are 64-bit). A value is a plain ℕ; each operation writes its bound.
use stub.Prelude.{
  ℕ, zero, suc, ◌+◌, ◌-◌, ◌*◌, ◌/◌, ◌%◌, ◌^◌, ◌<◌, Option, none, some, List, [], ◌∷◌, ◌≡◌, refl,
  arith, ltb, leb, if◌then◌else◌, length,
}

abbrev pub u16_end : ℕ
u16_end = 2 ^ 16

abbrev pub u32_end : ℕ
u32_end = 2 ^ 32

abbrev pub u64_end : ℕ
u64_end = 2 ^ 64

abbrev pub usize_end : ℕ
usize_end = 2 ^ 64

-- `n` where it fits below `end`: `try_from` between unsigned integers.
abbrev pub fit : ℕ → ℕ → Option ℕ
fit end n = if ltb n end then some n else none

-- `a.checked_add(b)` and `a.checked_mul(b)` on a usize or u64
abbrev pub checked_add : ℕ → ℕ → Option ℕ
checked_add a b = fit u64_end (a + b)

abbrev pub checked_mul : ℕ → ℕ → Option ℕ
checked_mul a b = fit u64_end (a * b)

-- `a.checked_sub(b)`
abbrev pub checked_sub : ℕ → ℕ → Option ℕ
checked_sub a b = if leb b a then some (a - b) else none

-- `ptr.wrapping_add(n)` on a byte pointer
abbrev pub wrapping_add : ℕ → ℕ → ℕ
wrapping_add p n = (p + n) % usize_end

abbrev pub IsByte : ℕ → Type 0
IsByte b = b < 256

-- the `k` lowest bytes of `n`, lowest first, and the number that bytes stand for
unfoldable pub to_le : ℕ → ℕ → List ℕ
to_le zero n = []
to_le (suc k) n = (n % 256) ∷ to_le k (n / 256)

unfoldable pub from_le : List ℕ → ℕ
from_le [] = 0
from_le (b ∷ bs) = b + 256 * from_le bs

pub length-to_le : (k n : ℕ) → length (to_le k n) ≡ k
unfolding to_le
length-to_le zero n = refl
length-to_le (suc k) n = omega (arith, length-to_le k (n / 256))

pub to_le-zero : (k : ℕ) → from_le (to_le k 0) ≡ 0
unfolding to_le from_le
to_le-zero zero = refl
to_le-zero (suc k) = omega (arith, to_le-zero k)

-- what `k` bytes can hold
pub le_range : ℕ → ℕ
le_range zero = 1
le_range (suc k) = 256 * le_range k

pub from_le-to_le : (k n : ℕ) → n < le_range k → from_le (to_le k n) ≡ n
unfolding to_le from_le le_range
from_le-to_le zero n h = omega arith
from_le-to_le (suc k) n h = omega (arith, from_le-to_le k (n / 256) (omega arith))

pub le_range-eight : le_range 8 ≡ usize_end
unfolding le_range
le_range-eight = refl

-- A number written in two or four bytes is read back.
pub from_le-two : (v : ℕ) → v < u16_end → from_le (to_le 2 v) ≡ v
unfolding le_range
from_le-two v h = from_le-to_le 2 v h

pub from_le-four : (v : ℕ) → v < u32_end → from_le (to_le 4 v) ≡ v
unfolding le_range
from_le-four v h = from_le-to_le 4 v h
