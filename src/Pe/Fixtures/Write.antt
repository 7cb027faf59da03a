-- ===== src/Pe/Fixtures/Write.antt =====
-- What the writes of src/pe/fixtures.rs do to the bytes, seen as a memory.
use stub.Prelude.{
  ℕ, zero, suc, ◌+◌, ◌-◌, ◌*◌, ◌/◌, ◌^◌, ◌≤◌, ◌<◌, ◌≡◌, refl, ap, ◌∙◌, fun_ext, some, List, [], ◌∷◌,
  ◌++◌, true, arith, ltb, if◌then◌else◌, length, get_or, take, drop, resize, replicate, length-take,
  length-drop, length-append, length-replicate, get_or-take, get_or-drop, take_all, All,
}
use stub.Word.{u64_end}
use stub.Bits.{and-align_mask}
use stub.Memory.{Memory, write}
use stub.Pe.Format.{bytes_of}
use stub.Pe.Fixtures.{write_bytes, align_up}

get_or-append :
    (xs ys : List ℕ) (i : ℕ)
    → get_or (xs ++ ys) i 0
      ≡ (if ltb i (length xs) then get_or xs i 0 else get_or ys (i - length xs) 0)
get_or-append [] ys i = ground arith
get_or-append (x ∷ xs) ys zero = ground arith
get_or-append (x ∷ xs) ys (suc i) = ground (arith, get_or-append xs ys i)

-- the list after a write in range, as `write_bytes` makes it
abbrev spliced : List ℕ → ℕ → List ℕ → List ℕ
spliced buf at value = take at buf ++ (value ++ drop (at + length value) buf)

spliced-write :
    (buf : List ℕ) (at : ℕ) (value : List ℕ) (a : ℕ)
    → at + length value ≤ length buf
    → get_or (spliced buf at value) a 0 ≡ write at value (bytes_of buf) a
unfolding write
spliced-write buf at value a fits =
    let k = at + length value in
    let tail = value ++ drop k buf in
    let size : length (take at buf) ≡ at = omega (arith, length-take at buf) in
    let rest : get_or (drop k buf) (a - at - length value) 0
        ≡ get_or buf (k + (a - at - length value)) 0 =
      get_or-drop k buf (a - at - length value) 0 in
    ground (
      arith,
      size,
      get_or-append (take at buf) tail a,
      get_or-append value (drop k buf) (a - at),
      get_or-take at buf a 0,
      rest,
    )

length-spliced :
    (buf : List ℕ) (at : ℕ) (value : List ℕ)
    → at + length value ≤ length buf
    → length (spliced buf at value) ≡ length buf
length-spliced buf at value fits = omega (
  arith,
  length-append (take at buf) (value ++ drop (at + length value) buf),
  length-append value (drop (at + length value) buf),
  length-take at buf,
  length-drop (at + length value) buf,
)

-- A write in range goes through, and is one of the memory.
pub write_bytes-write :
    (buf : List ℕ) (at : ℕ) (value : List ℕ)
    → at + length value ≤ length buf
    → at + length value < u64_end
    → (buf' : List ℕ) × (write_bytes buf at value ≡ some buf')
      × (length buf' ≡ length buf)
      × (bytes_of buf' ≡ write at value (bytes_of buf))
unfolding write_bytes
write_bytes-write buf at value fits small = (
  spliced buf at value,
  ground arith,
  length-spliced buf at value fits,
  fun_ext (λ a. spliced-write buf at value a fits),
)

-- A run of writes that all go through, from some bytes to others.
pub data Writes : List (ℕ × List ℕ) → List ℕ → List ℕ → Type 0 where
  none : {buf : List ℕ} → Writes [] buf buf
  next :
      {at : ℕ} {value : List ℕ} {ws : List (ℕ × List ℕ)} {buf mid end : List ℕ}
      → write_bytes buf at value ≡ some mid
      → Writes ws mid end
      → Writes ((at, value) ∷ ws) buf end

-- the memory after them
abbrev pub written_all : List (ℕ × List ℕ) → Memory → Memory
written_all [] m = m
written_all ((at, value) ∷ ws) m = written_all ws (write at value m)

abbrev pub InRange : ℕ → ℕ × List ℕ → Type 0
InRange n (at, value) = (at + length value ≤ n) × (at + length value < u64_end)

-- Writes in range go through, and are those of the memory.
pub Writes-InRange :
    (ws : List (ℕ × List ℕ)) (buf : List ℕ) (n : ℕ)
    → length buf ≡ n
    → All (InRange n) ws
    → (end : List ℕ) × Writes ws buf end
      × (length end ≡ n)
      × (bytes_of end ≡ written_all ws (bytes_of buf))
Writes-InRange [] buf n same h = (buf, Writes.none, same, refl)
Writes-InRange ((at, value) ∷ ws) buf n same h =
    let (mid, e, l, m) = write_bytes-write buf at value (omega (arith, h.0.0)) h.0.1 in
    let (end, run, l', m') = Writes-InRange ws mid n (l ∙ same) h.1 in
    (end, Writes.next e run, l', m' ∙ ap (written_all ws) m)

pub resize-bytes_of :
    (buf : List ℕ) (n : ℕ) → length buf ≤ n → bytes_of (resize buf n 0) ≡ bytes_of buf
resize-bytes_of buf n h = fun_ext λ a. same a
  where
    zeros : (k i : ℕ) → get_or {A = ℕ} (replicate k 0) i 0 ≡ 0
    zeros zero i = refl
    zeros (suc k) zero = refl
    zeros (suc k) (suc i) = zeros k i

    past : (xs : List ℕ) (i : ℕ) → length xs ≤ i → get_or xs i 0 ≡ 0
    past [] i l = refl
    past (x ∷ xs) zero l = absurd (omega arith)
    past (x ∷ xs) (suc i) l = past xs i (omega arith)

    same : (a : ℕ) → get_or (resize buf n 0) a 0 ≡ get_or buf a 0
    same a =
        let whole : take n buf ≡ buf = take_all n buf h in
        rw whole (
          ground (
            arith,
            get_or-append buf (replicate (n - length buf) 0) a,
            zeros (n - length buf) (a - length buf),
            past buf a,
          ))

pub length-resize : (buf : List ℕ) (n : ℕ) → length (resize buf n 0) ≡ n
length-resize buf n = omega (
  arith,
  length-append (take n buf) (replicate (n - length buf) 0),
  length-take n buf,
  length-replicate {A = ℕ} (n - length buf) 0,
)

pub align_up_lem : (n : ℕ) → n < 2 ^ 32 → align_up n 0x200 ≡ some ((n + 0x1ff) / 512 * 512)
unfolding align_up
align_up_lem n h =
    let small : ltb (n + 0x1ff) u64_end ≡ true = ground arith in
    rw (small, and-align_mask (n + 0x1ff) (omega arith))
