-- ===== src/Pe/Fixtures.antt =====
-- src/pe/fixtures.rs: the builder of PE images for the unit tests.
--
-- An `expect` that fails, and an index out of range, ends the test: `none`.
pub mod Write
pub mod Edits
pub mod Holds
pub mod Table
pub mod Relocations
pub mod Refines
pub mod Sections
pub mod Parse
pub mod Based
mod Scenarios
mod Tests
use stub.Prelude.{
  ℕ, ◌+◌, ◌-◌, ◌*◌, ◌≡◌, refl, Option, none, some, List, [], ◌∷◌, ◌++◌, leb, ltb, if◌then◌else◌,
  length, take, drop, replicate, resize, bit_and, max,
}
use stub.Word.{u16_end, u32_end, fit, checked_add, checked_mul, checked_sub, to_le}
use stub.Pe.Kernel.{Target, expected_machine, base_reloc_entry}

infixl 5 ◌>>=◌
abbrev pub ◌>>=◌ : {A B : Type 0} → Option A → (A → Option B) → Option B
none >>= f = none
some a >>= f = f a

abbrev pub file_align : ℕ
file_align = 0x200

abbrev pub nt_offset : ℕ
nt_offset = 0x40

-- `NT_OFFSET + 4 + 20`, `OPT_OFF + 112` and `DD_OFF + 16 * 8`
abbrev pub opt_off : ℕ
opt_off = nt_offset + 4 + 20

abbrev pub dd_off : ℕ
dd_off = opt_off + 112

abbrev pub shdr_off : ℕ
shdr_off = dd_off + 16 * 8

pub record Builder : Type 0 where
  pub bytes : List ℕ
  pub num_sections : ℕ

-- `get_mut(offset..end)` and `copy_from_slice` of a value of that length
unfoldable pub write_bytes : List ℕ → ℕ → List ℕ → Option (List ℕ)
write_bytes buf offset value = do
  end ← checked_add offset (length value)
  if leb end (length buf) then some (take offset buf ++ (value ++ drop end buf)) else none

abbrev pub write_u16 : List ℕ → ℕ → ℕ → Option (List ℕ)
write_u16 buf offset value = write_bytes buf offset (to_le 2 value)

abbrev pub write_u32 : List ℕ → ℕ → ℕ → Option (List ℕ)
write_u32 buf offset value = write_bytes buf offset (to_le 4 value)

abbrev pub write_u64 : List ℕ → ℕ → ℕ → Option (List ℕ)
write_u64 buf offset value = write_bytes buf offset (to_le 8 value)

-- `build`
abbrev pub build : Builder → List ℕ
build b = b.bytes

-- `offset`, `checked_mul`, `usize_to_u32` and `align_up`
abbrev pub offset : ℕ → ℕ → Option ℕ
offset base off = checked_add base off

abbrev pub usize_to_u32 : ℕ → Option ℕ
usize_to_u32 value = fit u32_end value

-- `!mask` of a usize
abbrev complement : ℕ → ℕ
complement mask = 0xffff_ffff_ffff_ffff - mask

unfoldable pub align_up : ℕ → ℕ → Option ℕ
align_up value align = do
  mask ← checked_sub align 1
  sum ← checked_add value mask
  some (bit_and sum (complement mask))

unfoldable pub section_header_offset : ℕ → Option ℕ
section_header_offset section_index = do at ← checked_mul section_index 40; offset shdr_off at

unfoldable pub last_section_header_offset : Builder → Option ℕ
last_section_header_offset b = do
  section_index ← checked_sub b.num_sections 1
  section_header_offset section_index

-- `Builder::new`; `target` is the one that EXPECTED_MACHINE is for
unfoldable pub new : Target → Option Builder
new target = do
  bytes ← some (replicate file_align 0)
  bytes ← write_bytes bytes 0 (b'M' ∷ b'Z' ∷ [])
  bytes ← write_u32 bytes 0x3c nt_offset
  bytes ← write_bytes bytes nt_offset (b'P' ∷ b'E' ∷ [])
  file_header ← offset nt_offset 4
  bytes ← write_u16 bytes file_header (expected_machine target)
  bytes ← write_u16 bytes (file_header + 16) 0xf0
  bytes ← write_u16 bytes (file_header + 18) 0x0002
  bytes ← write_u16 bytes opt_off 0x020b
  bytes ← write_u32 bytes (opt_off + 16) file_align
  bytes ← write_u64 bytes (opt_off + 24) 0x0400_0000
  bytes ← write_u32 bytes (opt_off + 32) file_align
  bytes ← write_u32 bytes (opt_off + 36) file_align
  bytes ← write_u16 bytes (opt_off + 44) 1
  bytes ← write_u32 bytes (opt_off + 56) file_align
  bytes ← write_u32 bytes (opt_off + 60) file_align
  bytes ← write_u32 bytes (opt_off + 108) 16
  some (record { bytes = bytes; num_sections = 0 })

-- `add_section`
unfoldable pub add_section : List ℕ → List ℕ → Builder → Option Builder
add_section name content b = do
  index ← offset b.num_sections 1
  raw_offset ← checked_mul file_align index
  raw_size ← align_up (length content) file_align
  needed ← offset raw_offset raw_size
  bytes ← some (resize b.bytes (max (length b.bytes) needed) 0)
  bytes ← write_bytes bytes raw_offset content
  section_header ← section_header_offset b.num_sections
  bytes ← write_bytes bytes section_header name
  size ← usize_to_u32 (length content)
  bytes ← write_u32 bytes (section_header + 8) size
  raw_offset_u32 ← usize_to_u32 raw_offset
  bytes ← write_u32 bytes (section_header + 12) raw_offset_u32
  raw_size_u32 ← usize_to_u32 raw_size
  bytes ← write_u32 bytes (section_header + 16) raw_size_u32
  bytes ← write_u32 bytes (section_header + 20) raw_offset_u32
  num_sections ← fit u16_end (b.num_sections + 1)
  file_header ← offset nt_offset 4
  bytes ← write_u16 bytes (file_header + 2) num_sections
  image_size ← usize_to_u32 needed
  bytes ← write_u32 bytes (opt_off + 56) image_size
  some (record { bytes = bytes; num_sections = num_sections })

-- the builder with what a write makes of its bytes
abbrev with_data : Builder → Option (List ℕ) → Option Builder
with_data b bytes = bytes >>= λ d. some (record b { bytes = d })

unfoldable pub set_machine : ℕ → Builder → Option Builder
set_machine value b = with_data b (write_u16 b.bytes (nt_offset + 4) value)

unfoldable pub set_last_ptr_relocs : ℕ → Builder → Option Builder
set_last_ptr_relocs ptr b = do
  section_header ← last_section_header_offset b
  with_data b (write_u32 b.bytes (section_header + 24) ptr)

unfoldable pub set_dll_characteristics : ℕ → Builder → Option Builder
set_dll_characteristics value b = with_data b (write_u16 b.bytes (opt_off + 70) value)

unfoldable pub set_major_image_version : ℕ → Builder → Option Builder
set_major_image_version value b = with_data b (write_u16 b.bytes (opt_off + 44) value)

unfoldable pub set_entry_point : ℕ → Builder → Option Builder
set_entry_point rva b = with_data b (write_u32 b.bytes (opt_off + 16) rva)

unfoldable pub set_base_reloc_dir : ℕ → ℕ → Builder → Option Builder
set_base_reloc_dir vaddr size b = do
  at ← checked_mul base_reloc_entry 8
  dir ← offset dd_off at
  bytes ← write_u32 b.bytes dir vaddr
  with_data b (write_u32 bytes (dir + 4) size)
