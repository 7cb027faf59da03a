-- ===== src/Memory/Laws.antt =====
-- Reading back what a pointer write has left, and what it leaves alone.
use stub.Prelude.{
  ℕ, zero, suc, ◌+◌, ◌≤◌, ◌<◌, ◌≡◌, refl, ap, ◌∙◌, ◌⊎◌, List, [], ◌∷◌, false, true, arith, ◌++◌,
  in_range, length, get_or,
}
use native.Mathlib.Nat.{zero-add, add-zero}
use stub.Word.{usize_end, to_le, length-to_le, from_le-to_le, le_range-eight}
use stub.Memory.{Memory, write, fill, read, store_usize, load_usize}

-- `a` lies outside the `n` bytes from `p`
abbrev pub Outside : ℕ → ℕ → ℕ → Type 0
Outside p n a = in_range p n a ≡ false

-- the `n` bytes from `p` and the `k` bytes from `q` have none in common
abbrev pub Apart : ℕ → ℕ → ℕ → ℕ → Type 0
Apart p n q k = (p + n ≤ q) ⊎ (q + k ≤ p)

pub write-Outside :
    (p : ℕ) (bs : List ℕ) (m : Memory) (a : ℕ) → Outside p (length bs) a → write p bs m a ≡ m a
unfolding write
write-Outside p bs m a h = rw h

pub write-inside :
    (p : ℕ) (bs : List ℕ) (m : Memory) (i : ℕ)
    → i < length bs
    → write p bs m (p + i) ≡ get_or bs i 0
unfolding write
write-inside p bs m i h =
    let inside : in_range p (length bs) (p + i) ≡ true = ground arith in
    rw inside (ap (λ k. get_or bs k 0) (omega arith))

pub fill-Outside : (p v n : ℕ) (m : Memory) (a : ℕ) → Outside p n a → fill p v n m a ≡ m a
unfolding fill
fill-Outside p v n m a h = rw h

-- Two memories that agree on a range read the same there.
pub read-same :
    (m m' : Memory) (p n : ℕ)
    → ((i : ℕ) → i < n → m' (p + i) ≡ m (p + i))
    → read m' p n ≡ read m p n
unfolding read
read-same m m' p zero h = refl
read-same m m' p (suc n) h =
    let here : m' p ≡ m p = ap m' (zero_right p) ∙ h 0 (omega arith) ∙ ap m (sym_zero p) in
    let rest =
      read-same m m' (suc p) n
        (λ i l. ap m' (shift p i) ∙ h (suc i) (omega arith) ∙ ap m (unshift p i)) in
    rw (here, rest)
  where
    zero_right : (p : ℕ) → p ≡ p + 0
    zero_right p = omega arith

    sym_zero : (p : ℕ) → p + 0 ≡ p
    sym_zero p = omega arith

    shift : (p i : ℕ) → suc p + i ≡ p + suc i
    shift p i = omega arith

    unshift : (p i : ℕ) → p + suc i ≡ suc p + i
    unshift p i = omega arith

-- A read is the bytes at its places.
pub read-eq :
    (m : Memory) (p : ℕ) (bs : List ℕ)
    → ((i : ℕ) → i < length bs → m (p + i) ≡ get_or bs i 0)
    → read m p (length bs) ≡ bs
unfolding read
read-eq m p [] h = refl
read-eq m p (b ∷ bs) h =
    let here : m p ≡ b = ap m (zero_right p) ∙ h 0 (omega arith) in
    let rest = read-eq m (suc p) bs (λ i l. ap m (shift p i) ∙ h (suc i) (omega arith)) in
    rw (here, rest)
  where
    zero_right : (p : ℕ) → p ≡ p + 0
    zero_right p = omega arith

    shift : (p i : ℕ) → suc p + i ≡ p + suc i
    shift p i = omega arith

pub read-write : (p : ℕ) (bs : List ℕ) (m : Memory) → read (write p bs m) p (length bs) ≡ bs
read-write p bs m = read-eq (write p bs m) p bs (write-inside p bs m)

pub read-write-Apart :
    (p : ℕ) (bs : List ℕ) (m : Memory) (q n : ℕ)
    → Apart p (length bs) q n
    → read (write p bs m) q n ≡ read m q n
read-write-Apart p bs m q n h =
    read-same m (write p bs m) q n (λ i l. write-Outside p bs m (q + i) (ground arith))

pub length-read : (m : Memory) (p n : ℕ) → length (read m p n) ≡ n
unfolding read
length-read m p zero = refl
length-read m p (suc n) = ap suc (length-read m (suc p) n)

pub load-store : (p n : ℕ) (m : Memory) → n < usize_end → load_usize (store_usize p n m) p ≡ n
unfolding load_usize store_usize
load-store p n m h =
    let at : read (write p (to_le 8 n) m) p 8 ≡ to_le 8 n =
      ap (read (write p (to_le 8 n) m) p) (eight n) ∙ read-write p (to_le 8 n) m in
    rw at (from_le-to_le 8 n (rw le_range-eight h))
  where
    eight : (n : ℕ) → 8 ≡ length (to_le 8 n)
    eight n = omega (arith, length-to_le 8 n)

pub store-Outside : (p n : ℕ) (m : Memory) (a : ℕ) → Outside p 8 a → store_usize p n m a ≡ m a
unfolding store_usize
store-Outside p n m a h = write-Outside p (to_le 8 n) m a (rw (length-to_le 8 n) h)

pub read-append : (m : Memory) (p n k : ℕ) → read m p (n + k) ≡ read m p n ++ read m (p + n) k
unfolding read
read-append m p zero k = rw (zero-add k, add-zero p)
read-append m p (suc n) k =
    let length_next : suc n + k ≡ suc (n + k) = omega arith in
    let place : suc p + n ≡ p + suc n = omega arith in
    rw (length_next, read-append m (suc p) n k, place)
