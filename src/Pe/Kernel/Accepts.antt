-- ===== src/Pe/Kernel/Accepts.antt =====
-- Which images `Image::parse` of src/pe/kernel.rs accepts, and what it reports of them.
use stub.Prelude.{
  ℕ, ◌≡◌, ◌≢◌, ◌≤◌, ◌↔◌, ◌/◌, ◌%◌, ◌^◌, refl, true, none, some, List, [], ◌∷◌, arith, All,
}
use stub.Bits.{and-0x100}
use stub.Result.{ok}
use stub.Pe.Kernel.{
  SectionHeader, NtHeaders, PeReader, Target, expected_machine, Image, image_of, directory_size,
  find_relocated, validate, parse,
}

abbrev pub IsUnrelocated : SectionHeader → Type 0
IsUnrelocated s = s.pointer_to_relocations ≡ 0

-- What the stub can start: an independent statement of the checks.
pub record IsBootable (target : Target) (h : NtHeaders) (sections : List SectionHeader)
    : Type 0 where
  pub machine : h.machine ≡ expected_machine target
  pub entry : h.address_of_entry_point ≢ 0
  pub version : 1 ≤ h.major_image_version
  pub no_base_relocations : directory_size h.directory_sizes 5 ≡ 0
  pub no_relocations : All IsUnrelocated sections

-- The reader's three answers for an image whose headers decode.
pub record Decodes (reader : PeReader) (bytes : List ℕ) (h : NtHeaders)
    (sections : List SectionHeader) : Type 0 where
  pub offset : ℕ
  pub table_offset : ℕ
  pub dos : reader.nt_headers_offset bytes ≡ some offset
  pub nt : reader.nt_headers bytes offset ≡ some (h, table_offset)
  pub table : reader.section_table bytes h table_offset ≡ some sections

pub find_relocated-none :
    (ss : List SectionHeader) → All IsUnrelocated ss → find_relocated ss ≡ none
unfolding find_relocated
find_relocated-none [] h = refl
find_relocated-none (s ∷ ss) h = ground (arith, find_relocated-none ss h.1)

pub find_relocated-All : (ss : List SectionHeader) → find_relocated ss ≡ none → All IsUnrelocated ss
unfolding find_relocated
find_relocated-All [] e = tt
find_relocated-All (s ∷ ss) e = ground (arith, find_relocated-All ss)

module _ (target : Target) (bytes : List ℕ) (h : NtHeaders) (sections : List SectionHeader) where
  pub validate-IsBootable :
      IsBootable target h sections
      → validate target bytes h sections ≡ ok (image_of bytes h sections)
  unfolding validate
  validate-IsBootable b = ground (arith, find_relocated-none sections b.no_relocations)

  pub IsBootable-validate :
      (image : Image)
      → validate target bytes h sections ≡ ok image
      → IsBootable target h sections × (image ≡ image_of bytes h sections)
  unfolding validate
  IsBootable-validate image e = ground (arith, find_relocated-All sections)

  pub parse-validate :
      (reader : PeReader)
      → Decodes reader bytes h sections
      → parse target reader bytes ≡ validate target bytes h sections
  unfolding parse
  parse-validate reader d = rw (d.dos, d.nt, d.table)

-- What a parsed image says of the headers. The flag is bit 8 of the DLL characteristics.
pub record Describes (h : NtHeaders) (sections : List SectionHeader) (bytes : List ℕ)
    (image : Image) : Type 0 where
  pub whole : image.bytes ≡ bytes
  pub entry : image.entry_point_rva ≡ h.address_of_entry_point
  pub base : image.base_address ≡ h.image_base
  pub size : image.size ≡ h.size_of_image
  pub nx : (image.nx_compat ≡ true) ↔ (h.dll_characteristics / 2 ^ 8 % 2 ≡ 1)
  pub table : image.sections ≡ sections

module _ (h : NtHeaders) (sections : List SectionHeader) (bytes : List ℕ) where
  image_of-Describes : Describes h sections bytes (image_of bytes h sections)
  image_of-Describes = ground (arith, and-0x100 h.dll_characteristics)

  Describes-image_of :
      (image : Image) → Describes h sections bytes image → image ≡ image_of bytes h sections
  Describes-image_of image d =
      let flag : image.nx_compat ≡ (image_of bytes h sections).nx_compat =
        ground (arith, and-0x100 h.dll_characteristics, d.nx.0, d.nx.1) in
      ground (arith, flag)

-- Of an image whose headers the reader decodes, parse accepts exactly the bootable ones (the
-- target's machine, an entry point, an image version of at least 1, no base relocations, no
-- section with relocations), and the image that it returns is the one that the headers describe.
pub parse-IsBootable :
    (target : Target) (reader : PeReader) (bytes : List ℕ) (h : NtHeaders)
    (sections : List SectionHeader) (image : Image)
    → Decodes reader bytes h sections
    → (parse target reader bytes ≡ ok image)
      ↔ (IsBootable target h sections × Describes h sections bytes image)
parse-IsBootable target reader bytes h sections image d =
    rw (parse-validate target bytes h sections reader d) (
      λ e.
          let (bootable, same) = IsBootable-validate target bytes h sections image e in
          (bootable, rw same (image_of-Describes h sections bytes)),
      λ p.
          rw (Describes-image_of h sections bytes image p.1)
            (validate-IsBootable target bytes h sections p.0),
    )
