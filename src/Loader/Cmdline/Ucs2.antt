-- ===== src/Loader/Cmdline/Ucs2.antt =====
-- The text that a kernel reads from the buffer that src/pe/loader/cmdline.rs fills: 16-bit units,
-- little-endian, up to the first that is zero.
use stub.Prelude.{
  ℕ, zero, suc, ◌+◌, ◌*◌, ◌≤◌, ◌≡◌, refl, ◌∙◌, List, [], ◌∷◌, ◌++◌, arith, ◌==◌, if◌then◌else◌,
  length,
}
use stub.Memory.{Memory, write, read}
use stub.Memory.Laws.{Outside, write-Outside}
use stub.Loader.Cmdline.{fill_chunks}

-- each byte as a unit with a zero high byte
unfoldable pub ucs2 : List ℕ → List ℕ
ucs2 [] = []
ucs2 (b ∷ bs) = b ∷ 0 ∷ ucs2 bs

-- the units that a byte buffer holds
unfoldable pub units : List ℕ → List ℕ
units [] = []
units (b ∷ []) = []
units (lo ∷ hi ∷ bs) = (lo + 256 * hi) ∷ units bs

-- the items before the first zero
unfoldable pub before_nul : List ℕ → List ℕ
before_nul [] = []
before_nul (u ∷ us) = let rest = before_nul us in if u == 0 then [] else u ∷ rest

pub length-ucs2 : (bs : List ℕ) → length (ucs2 bs) ≡ 2 * length bs
unfolding ucs2
length-ucs2 [] = omega arith
length-ucs2 (b ∷ bs) = omega (arith, length-ucs2 bs)

units-ucs2 : (bs rest : List ℕ) → units (ucs2 bs ++ rest) ≡ bs ++ units rest
unfolding units ucs2
units-ucs2 [] rest = refl
units-ucs2 (b ∷ bs) rest = let low : b + 256 * 0 ≡ b = omega arith in rw (low, units-ucs2 bs rest)

before_nul-append_nul : (us rest : List ℕ) → before_nul (us ++ 0 ∷ rest) ≡ before_nul us
unfolding before_nul
before_nul-append_nul [] rest = refl
before_nul-append_nul (u ∷ us) rest = ground (arith, before_nul-append_nul us rest)

-- A reader that stops at the first zero unit gets the command line, up to a NUL in it.
pub before_nul-units-ucs2 :
    (bs : List ℕ) → before_nul (units (ucs2 bs ++ 0 ∷ 0 ∷ [])) ≡ before_nul bs
before_nul-units-ucs2 bs =
    rw (units-ucs2 bs (0 ∷ 0 ∷ [])) (unfold units in before_nul-append_nul bs [])

-- The loop writes the units, and nothing before or behind them.
pub fill_chunks-Outside :
    (p n : ℕ) (bs : List ℕ) (m : Memory) (a : ℕ)
    → Outside p (2 * n) a
    → fill_chunks p n bs m a ≡ m a
unfolding fill_chunks
fill_chunks-Outside p zero bs m a out = refl
fill_chunks-Outside p (suc n) [] m a out = refl
fill_chunks-Outside p (suc n) (b ∷ bs) m a out =
    fill_chunks-Outside (p + 2) n bs (write p (b ∷ 0 ∷ []) m) a (ground arith)
    ∙ write-Outside p (b ∷ 0 ∷ []) m a (ground arith)

read_two : (m : Memory) (p n : ℕ) → read m p (2 * suc n) ≡ m p ∷ m (p + 1) ∷ read m (p + 2) (2 * n)
unfolding read
read_two m p n =
    let k : 2 * suc n ≡ suc (suc (2 * n)) = omega arith in
    let one : p + 1 ≡ suc p = omega arith in
    let two : p + 2 ≡ suc (suc p) = omega arith in rw (k, one, two)

pub read-fill_chunks :
    (p n : ℕ) (bs : List ℕ) (m : Memory)
    → length bs ≤ n
    → read (fill_chunks p n bs m) p (2 * length bs) ≡ ucs2 bs
unfolding ucs2 fill_chunks
read-fill_chunks p n [] m h = unfold read in refl
read-fill_chunks p zero (b ∷ bs) m h = absurd (omega arith)
read-fill_chunks p (suc n) (b ∷ bs) m h =
    let m' = write p (b ∷ 0 ∷ []) m in
    let low : fill_chunks (p + 2) n bs m' p ≡ b =
      fill_chunks-Outside (p + 2) n bs m' p (ground arith) ∙ (unfold write in ground arith) in
    let high : fill_chunks (p + 2) n bs m' (p + 1) ≡ 0 =
      fill_chunks-Outside (p + 2) n bs m' (p + 1) (ground arith) ∙ (unfold write in ground arith) in
    rw (
      read_two (fill_chunks (p + 2) n bs m') p (length bs),
      low,
      high,
      read-fill_chunks (p + 2) n bs m' (omega arith),
    )
