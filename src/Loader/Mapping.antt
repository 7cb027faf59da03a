-- ===== src/Loader/Mapping.antt =====
-- src/pe/loader/mapping.rs: the kernel's sections are placed in freshly allocated pages.
--
-- The image's bytes are a borrowed slice that the new pages do not overlap, so they are a value
-- here, while the pages are machine memory.
pub mod Section
pub mod Layout
pub mod Loop
pub mod Whole
pub mod Refuses
mod Tests
use stub.Prelude.{
  ℕ, ◌+◌, ◌-◌, ◌/◌, ◌≤◌, ◌<◌, Bool, Option, none, some, List, [], ◌∷◌, leb, ltb, ◌==◌,
  if◌then◌else◌, min, length, slice,
}
use stub.Word.{fit, usize_end, checked_add, checked_sub, wrapping_add}
use stub.Memory.{write, fill}
use stub.Machine.{
  Machine, Firmware, Action, Error, Call, pure, fail, context, ask, modify, ◌>>=◌, ◌>>◌,
}
use stub.Pe.Kernel.{Image, SectionHeader, section_name}

-- `image_size.div_ceil(0x1000)`
abbrev pub page_count : ℕ → ℕ
page_count size = (size + 0xfff) / 0x1000

-- `copy_section_data`
unfoldable pub copy_section_data : Image → SectionHeader → ℕ → ℕ → ℕ → ℕ → Action (Unit {0})
copy_section_data kernel section base raw_offset dest_offset copy_size =
    if copy_size == 0 then pure tt else do
      raw_end ← context (checked_add raw_offset copy_size) Error.raw_bounds_overflow
      if ltb (length kernel.bytes) raw_end
          then fail (Error.raw_data_out_of_bounds (section_name section) raw_offset copy_size)
          else do
            source ← context (slice kernel.bytes raw_offset raw_end) Error.raw_data_unavailable
            modify (write (wrapping_add base dest_offset) source)

-- `zero_section_tail`
unfoldable pub zero_section_tail : ℕ → ℕ → ℕ → ℕ → Action (Unit {0})
zero_section_tail base dest_offset virt_size copy_size =
    if leb virt_size copy_size then pure tt else do
      zero_offset ← context (checked_add dest_offset copy_size) Error.zero_fill_offset_overflow
      zero_len ← context (checked_sub virt_size copy_size) Error.zero_fill_length_underflow
      modify (fill (wrapping_add base zero_offset) 0 zero_len)

-- one round of the loop in `map_sections`
unfoldable pub map_section : Image → ℕ → ℕ → SectionHeader → Action (Unit {0})
map_section kernel image_size base section = do
  raw_size ← context (fit usize_end section.size_of_raw_data) Error.raw_size_exceeds_usize
  raw_offset ← context (fit usize_end section.pointer_to_raw_data) Error.raw_offset_exceeds_usize
  let virt_addr = section.virtual_address
  virt_size ← context (fit usize_end section.virtual_size) Error.virtual_size_exceeds_usize
  offset ← context (checked_sub virt_addr kernel.base_address) Error.below_image_base
  dest_offset ← context (fit usize_end offset) Error.section_offset_exceeds_usize
  dest_end ← context (checked_add dest_offset virt_size) Error.virtual_bounds_overflow
  if ltb image_size dest_end
      then fail (Error.outside_allocation (section_name section) dest_offset virt_size)
      else do
        let copy_size = min raw_size virt_size
        copy_section_data kernel section base raw_offset dest_offset copy_size
        zero_section_tail base dest_offset virt_size copy_size

-- the loop in `map_sections`
unfoldable pub map_each : Image → ℕ → ℕ → List SectionHeader → Action (Unit {0})
map_each kernel image_size base [] = pure tt
map_each kernel image_size base (section ∷ rest) =
    map_section kernel image_size base section >> map_each kernel image_size base rest

module _ (firmware : Firmware) where
  -- `map_sections`
  unfoldable pub map_sections : Image → Action ℕ
  map_sections kernel = do
    image_size ← context (fit usize_end kernel.size) Error.image_size_exceeds_usize
    let pages = page_count image_size
    reply ← ask (Call.allocate_pages pages) (λ s. firmware.allocate_pages s pages)
    base ← context reply Error.pages_unavailable
    map_each kernel image_size base kernel.sections
    pure base
