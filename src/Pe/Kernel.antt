-- ===== src/Pe/Kernel.antt =====
-- src/pe/kernel.rs: reading and validating the kernel's PE image.
--
-- The object crate finds and decodes the headers. It is no part of the repository: `PeReader` is
-- its three parsing functions, and `NtHeaders` and `SectionHeader` hold the fields that the code
-- reads of what they return.
pub mod Accepts
pub mod Name
pub mod Refuses
mod Scenarios
mod Tests
use stub.Prelude.{
  ℕ, zero, suc, Bool, not, Option, none, some, List, [], ◌∷◌, leb, ◌==◌, if◌then◌else◌, bit_and,
}
use stub.Machine.{Error}
use stub.Result.{Result, ok, err, ◌>>=◌, ◌>>◌, context, ensure}
use stub.Bytes.{is_utf8, trim_end}

pub record SectionHeader : Type 0 where
  pub name : List ℕ
  pub virtual_size : ℕ
  pub virtual_address : ℕ
  pub size_of_raw_data : ℕ
  pub pointer_to_raw_data : ℕ
  pub pointer_to_relocations : ℕ
  pub characteristics : ℕ

pub record NtHeaders : Type 0 where
  pub machine : ℕ
  pub address_of_entry_point : ℕ
  pub image_base : ℕ
  pub size_of_image : ℕ
  pub major_image_version : ℕ
  pub dll_characteristics : ℕ
  -- the sizes of the data directories that the image has
  pub directory_sizes : List ℕ

pub record PeReader : Type 0 where
  -- `ImageDosHeader::parse` and `nt_headers_offset`
  pub nt_headers_offset : List ℕ → Option ℕ
  -- `ImageNtHeaders64::parse`: the headers, and the offset that it moves on to
  pub nt_headers : List ℕ → ℕ → Option (NtHeaders × ℕ)
  -- `nt_headers.sections(data, offset)`
  pub section_table : List ℕ → NtHeaders → ℕ → Option (List SectionHeader)

-- The targets that have an EXPECTED_MACHINE. Its values are the object crate's constants
-- IMAGE_FILE_MACHINE_AMD64, _ARM64 and _RISCV64.
pub data Target : Type 0 where
  x86_64 aarch64 riscv64 : Target

abbrev pub expected_machine : Target → ℕ
expected_machine x86_64 = 0x8664
expected_machine aarch64 = 0xaa64
expected_machine riscv64 = 0x5064

abbrev pub nx_compat_flag : ℕ
nx_compat_flag = 0x0100

abbrev pub min_image_version : ℕ
min_image_version = 1

-- IMAGE_DIRECTORY_ENTRY_BASERELOC of the object crate
abbrev pub base_reloc_entry : ℕ
base_reloc_entry = 5

pub record Image : Type 0 where
  pub bytes : List ℕ
  pub entry_point_rva : ℕ
  pub base_address : ℕ
  pub size : ℕ
  pub nx_compat : Bool
  pub sections : List SectionHeader

abbrev pub is_nul : ℕ → Bool
is_nul b = b == 0

-- "???"
abbrev pub unknown_name : List ℕ
unknown_name = b'?' ∷ b'?' ∷ b'?' ∷ []

-- `section_name`, on the eight bytes of the header's name
unfoldable pub section_name : SectionHeader → List ℕ
section_name section = trim_end is_nul (if is_utf8 section.name then section.name else unknown_name)

-- `data_dirs.get(i).map_or(0, |dir| dir.size)`
unfoldable pub directory_size : List ℕ → ℕ → ℕ
directory_size [] i = 0
directory_size (d ∷ ds) zero = d
directory_size (d ∷ ds) (suc i) = directory_size ds i

-- `sections.iter().find(|section| section.pointer_to_relocations != 0)`
unfoldable pub find_relocated : List SectionHeader → Option SectionHeader
find_relocated [] = none
find_relocated (s ∷ ss) = if not (s.pointer_to_relocations == 0) then some s else find_relocated ss

-- the `bail!` on the section that was found
unfoldable pub refuse_relocated : Option SectionHeader → Result (Unit {0})
refuse_relocated none = ok tt
refuse_relocated (some section) =
    err (Error.section_has_relocations (section_name section) section.pointer_to_relocations)

abbrev pub image_of : List ℕ → NtHeaders → List SectionHeader → Image
image_of bytes h sections = record {
  bytes = bytes;
  entry_point_rva = h.address_of_entry_point;
  base_address = h.image_base;
  size = h.size_of_image;
  nx_compat = not (bit_and h.dll_characteristics nx_compat_flag == 0);
  sections = sections;
}

-- the checks of `Image::parse` on the decoded headers
unfoldable pub validate : Target → List ℕ → NtHeaders → List SectionHeader → Result Image
unfolding directory_size find_relocated refuse_relocated
validate target bytes h sections = do
  ensure (h.machine == expected_machine target) (Error.unsupported_machine h.machine)
  ensure (not (h.address_of_entry_point == 0)) Error.no_entry_point
  ensure (leb min_image_version h.major_image_version) (Error.version_too_low h.major_image_version)
  let reloc_size = directory_size h.directory_sizes base_reloc_entry
  ensure (reloc_size == 0) (Error.has_base_relocations reloc_size)
  refuse_relocated (find_relocated sections)
  ok (image_of bytes h sections)

-- `Image::parse`
unfoldable pub parse : Target → PeReader → List ℕ → Result Image
parse target reader bytes = do
  offset ← context (reader.nt_headers_offset bytes) Error.invalid_dos_header
  (h, table_offset) ← context (reader.nt_headers bytes offset) Error.invalid_pe_headers
  sections ← context (reader.section_table bytes h table_offset) Error.invalid_section_table
  validate target bytes h sections
