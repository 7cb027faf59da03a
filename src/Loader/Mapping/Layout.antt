-- ===== src/Loader/Mapping/Layout.antt =====
-- The bytes of the mapped image: an independent description, and that placing one section of
-- src/pe/loader/mapping.rs after another comes to it.
use stub.Prelude.{
  ℕ, ◌+◌, ◌-◌, ◌≤◌, ◌≡◌, ◌⊎◌, inl, inr, refl, ap, ◌∙◌, ◌&&◌, Option, none, some, List, [], ◌∷◌,
  arith, leb, ltb, if◌then◌else◌, in_range, All, length, get_or, take, drop, length-take,
  length-drop, get_or-take, get_or-drop,
}
use stub.Word.{usize_end}
use stub.Memory.{Memory, write, fill}
use stub.Memory.Laws.{Outside}
use stub.Pe.Kernel.{Image, SectionHeader}
use stub.Loader.Mapping.Section.{Fits, copy_size, dest_offset, copied, zeroed, placed}

-- What a section says of the byte at an offset of the image: nothing where it does not reach,
-- its data from the file as far as that goes, and zero behind it.
unfoldable pub section_byte : Image → SectionHeader → ℕ → Option ℕ
section_byte kernel section o =
    let at = dest_offset kernel section in
    if in_range at section.virtual_size o
    then some (
        if ltb (o - at) section.size_of_raw_data
        then get_or kernel.bytes (section.pointer_to_raw_data + (o - at)) 0
        else 0)
    else none

-- The last section that reaches an offset decides its byte.
unfoldable pub layout : Image → List SectionHeader → ℕ → Option ℕ
layout kernel [] o = none
layout kernel (section ∷ rest) o = elim (layout kernel rest o) [
  | some b ↦ some b
  | none ↦ section_byte kernel section o
]

abbrev pub or_old : Option ℕ → ℕ → ℕ
or_old none old = old
or_old (some b) old = b

-- all sections placed, the first one first
abbrev pub placed_all : Image → ℕ → List SectionHeader → Memory → Memory
placed_all kernel base [] m = m
placed_all kernel base (section ∷ rest) m =
    placed_all kernel base rest (placed kernel base section m)

module _ (kernel : Image) (base : ℕ) (room : base + kernel.size ≤ usize_end) where
  copied-byte :
      (raw at n : ℕ) (m : Memory) (o : ℕ)
      → at + n ≤ kernel.size
      → (n ≡ 0) ⊎ (raw + n ≤ length kernel.bytes)
      → copied kernel base raw at n m (base + o)
        ≡ (if in_range at n o then get_or kernel.bytes (raw + (o - at)) 0 else m (base + o))
  unfolding write
  copied-byte raw at n m o inside (inl empty) = ground arith
  copied-byte raw at n m o inside (inr backed) =
      let source = drop raw kernel.bytes in
      let size : length (take n source) ≡ n =
        omega (arith, length-take n source, length-drop raw kernel.bytes) in
      ground (
        arith,
        size,
        get_or-take n source (o - at) 0,
        get_or-drop raw kernel.bytes (o - at) 0,
        ap (λ k. get_or (take n source) k 0) (shift o at),
      )
    where
      shift : (o at : ℕ) → base + o - (base + at) ≡ o - at
      shift o at = omega arith

  zeroed-byte :
      (at size n : ℕ) (m : Memory) (o : ℕ)
      → at + size ≤ kernel.size
      → zeroed base at size n m (base + o)
        ≡ (if leb (at + n) o && ltb o (at + size) then 0 else m (base + o))
  unfolding fill
  zeroed-byte at size n m o inside = ground arith

  copied-Outside :
      (raw at n : ℕ) (m : Memory) (a : ℕ)
      → at + n ≤ kernel.size
      → Outside base kernel.size a
      → copied kernel base raw at n m a ≡ m a
  unfolding write
  copied-Outside raw at n m a inside out = ground (arith, length-take n (drop raw kernel.bytes))

  zeroed-Outside :
      (at size n : ℕ) (m : Memory) (a : ℕ)
      → at + size ≤ kernel.size
      → Outside base kernel.size a
      → zeroed base at size n m a ≡ m a
  unfolding fill
  zeroed-Outside at size n m a inside out = ground arith

  pub placed-byte :
      (section : SectionHeader) (m : Memory) (o : ℕ)
      → Fits kernel section
      → placed kernel base section m (base + o)
        ≡ or_old (section_byte kernel section o) (m (base + o))
  unfolding section_byte
  placed-byte section m o fits =
      let n = copy_size section in
      let at = dest_offset kernel section in
      let raw = section.pointer_to_raw_data in
      ground (
        arith,
        copied-byte raw at n m o (omega (arith, fits.inside)) fits.backed,
        zeroed-byte at section.virtual_size n (copied kernel base raw at n m) o fits.inside,
      )

  pub placed-Outside :
      (section : SectionHeader) (m : Memory) (a : ℕ)
      → Fits kernel section
      → Outside base kernel.size a
      → placed kernel base section m a ≡ m a
  placed-Outside section m a fits out =
      let n = copy_size section in
      let at = dest_offset kernel section in
      let raw = section.pointer_to_raw_data in
      zeroed-Outside at section.virtual_size n (copied kernel base raw at n m) a fits.inside out
      ∙ copied-Outside raw at n m a (omega (arith, fits.inside)) out

  pub placed_all-byte :
      (ss : List SectionHeader) (m : Memory) (o : ℕ)
      → All (Fits kernel) ss
      → placed_all kernel base ss m (base + o) ≡ or_old (layout kernel ss o) (m (base + o))
  unfolding layout
  placed_all-byte [] m o fits = refl
  placed_all-byte (s ∷ ss) m o fits =
      ground (arith, placed_all-byte ss (placed kernel base s m) o fits.1, placed-byte s m o fits.0)

  pub placed_all-Outside :
      (ss : List SectionHeader) (m : Memory) (a : ℕ)
      → All (Fits kernel) ss
      → Outside base kernel.size a
      → placed_all kernel base ss m a ≡ m a
  placed_all-Outside [] m a fits out = refl
  placed_all-Outside (s ∷ ss) m a fits out =
      placed_all-Outside ss (placed kernel base s m) a fits.1 out ∙ placed-Outside s m a fits.0 out
