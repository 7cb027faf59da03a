-- ===== src/Loader/Protection/Ranges.antt =====
-- Which sections `apply` of src/pe/loader/protection.rs protects, and the pages that it names.
use stub.Prelude.{
  ℕ, ◌+◌, ◌*◌, ◌/◌, ◌%◌, ◌^◌, ◌≤◌, ◌<◌, ◌≡◌, ◌↔◌, ◌⊎◌, ltb, true, false, some, arith, ◌==◌, bit_and,
}
use stub.Word.{u64_end, checked_add}
use stub.Bits.{and-code_mask, and-page_mask}
use stub.Pe.Kernel.{SectionHeader}
use stub.Loader.Mapping.Section.{IsHeader}
use stub.Loader.Protection.{whole_pages}

-- The section holds code: bit 5 or bit 29 of its characteristics.
abbrev pub IsCode : SectionHeader → Type 0
IsCode section =
    (section.characteristics / 2 ^ 5 % 2 ≡ 1) ⊎ (section.characteristics / 2 ^ 29 % 2 ≡ 1)

pub IsCode-mask :
    (section : SectionHeader)
    → ((bit_and section.characteristics 0x2000_0020 == 0) ≡ false) ↔ IsCode section
IsCode-mask section = (
  λ e. ground (arith, and-code_mask section.characteristics),
  λ h. ground (arith, and-code_mask section.characteristics),
)

-- the section's size in whole pages
abbrev pub page_bytes : SectionHeader → ℕ
page_bytes section = (section.virtual_size + 0xfff) / 0x1000 * 0x1000

module _ (section : SectionHeader) (header : IsHeader section) where
  -- A size that is a u32 never overflows here.
  pub whole_pages-page_bytes :
      whole_pages (checked_add section.virtual_size 0xfff) ≡ some (page_bytes section)
  whole_pages-page_bytes =
      let fits : ltb (section.virtual_size + 0xfff) u64_end ≡ true =
        ground (arith, header.virtual_size) in
      rw (fits, and-page_mask (section.virtual_size + 0xfff) (omega (arith, header.virtual_size)))

  pub page_bytes_bounds :
      (section.virtual_size ≤ page_bytes section)
      × (page_bytes section < section.virtual_size + 0x1000)
  page_bytes_bounds = (omega arith, omega arith)
