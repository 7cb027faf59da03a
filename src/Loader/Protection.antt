-- ===== src/Loader/Protection.antt =====
-- src/pe/loader/protection.rs: code sections are made read-only and executable.
pub mod Ranges
pub mod Blocks
pub mod Attributes
pub mod Sweeps
pub mod Inside
pub mod Sample
mod Tests
use stub.Prelude.{
  ℕ, ◌+◌, ◌-◌, Bool, Option, none, some, List, [], ◌∷◌, ◌==◌, if◌then◌else◌, bit_and, bit_or,
}
use stub.Word.{u64_end, fit, checked_add}
use stub.Machine.{Firmware, Action, Call, is_success, pure, ask, ◌>>=◌, ◌>>◌}
use stub.Pe.Kernel.{Image, SectionHeader}
use stub.Loader.Protocol.{locate_raw}

-- f4560cf6-40ec-4b4a-a192-bf1d57d0b189
abbrev pub memory_attribute_guid : ℕ
memory_attribute_guid = 0xf4560cf640ec4b4aa192bf1d57d0b189

abbrev pub efi_memory_ro : ℕ
efi_memory_ro = 0x0002_0000

abbrev pub efi_memory_xp : ℕ
efi_memory_xp = 0x0000_4000

-- IMAGE_SCN_CNT_CODE and IMAGE_SCN_MEM_EXECUTE of the object crate
abbrev pub cnt_code : ℕ
cnt_code = 0x0000_0020

abbrev pub mem_execute : ℕ
mem_execute = 0x2000_0000

-- `let Some(a) = option else { continue }`
abbrev pub or_skip : Option ℕ → (ℕ → Action (Unit {0})) → Action (Unit {0})
or_skip none k = pure tt
or_skip (some a) k = k a

-- `virt_size.checked_add(0xFFF).map(|size| size & !0xFFF)`
abbrev pub whole_pages : Option ℕ → Option ℕ
whole_pages none = none
whole_pages (some size) = some (bit_and size 0xffff_ffff_ffff_f000)

abbrev pub usize_to_u64 : ℕ → Option ℕ
usize_to_u64 value = fit u64_end value

-- `usize_to_u64(base).and_then(|base_addr| base_addr.checked_add(dest_offset))`
abbrev pub section_address : Option ℕ → ℕ → Option ℕ
section_address none dest_offset = none
section_address (some base_addr) dest_offset = checked_add base_addr dest_offset

module _ (firmware : Firmware) where
  -- `locate`
  unfoldable pub locate : Action (Option ℕ)
  locate = locate_raw firmware memory_attribute_guid

  -- the calls for one range: RO is set, XP cleared, and RO cleared again if that fails
  unfoldable pub protect_range : ℕ → ℕ → ℕ → Action (Unit {0})
  protect_range proto at len = do
    set ←
        ask (Call.set_memory_attributes proto at len efi_memory_ro)
          (λ s. firmware.set_memory_attributes s proto at len efi_memory_ro)
    if is_success set
        then (do
          cleared ←
              ask (Call.clear_memory_attributes proto at len efi_memory_xp)
                (λ s. firmware.clear_memory_attributes s proto at len efi_memory_xp)
          if is_success cleared then pure tt else (do
            rollback ←
                ask (Call.clear_memory_attributes proto at len efi_memory_ro)
                  (λ s. firmware.clear_memory_attributes s proto at len efi_memory_ro)
            pure tt))
        else pure tt

  -- one round of the loop in `apply`
  unfoldable pub protect_section : ℕ → ℕ → Image → SectionHeader → Action (Unit {0})
  protect_section proto base kernel section =
      if bit_and section.characteristics (bit_or cnt_code mem_execute) == 0
      then pure tt
      else (let dest_offset = section.virtual_address - kernel.base_address in
          or_skip (section_address (usize_to_u64 base) dest_offset) λ section_base.
            or_skip (whole_pages (checked_add section.virtual_size 0xfff))
              λ page_size. protect_range proto section_base page_size)

  -- the loop in `apply`
  unfoldable pub protect_each : ℕ → ℕ → Image → List SectionHeader → Action (Unit {0})
  protect_each proto base kernel [] = pure tt
  protect_each proto base kernel (section ∷ rest) =
      protect_section proto base kernel section >> protect_each proto base kernel rest

  -- `apply`
  unfoldable pub apply : ℕ → ℕ → Image → Action (Unit {0})
  apply proto base kernel = protect_each proto base kernel kernel.sections
