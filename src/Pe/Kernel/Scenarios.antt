-- ===== src/Pe/Kernel/Scenarios.antt =====
-- The tests of `section_name` in src/pe/kernel.rs, each with what it asserts, by the name that it has
-- there.
use stub.Prelude.{ℕ, ◌≡◌, refl, List, [], ◌∷◌}
use stub.Bytes.{is_utf8, trim_end}
use stub.Pe.Kernel.{SectionHeader, section_name}

-- `ImageSectionHeader::default()` with a name
abbrev named : List ℕ → SectionHeader
named name = record {
  name = name;
  virtual_size = 0;
  virtual_address = 0;
  size_of_raw_data = 0;
  pointer_to_raw_data = 0;
  pointer_to_relocations = 0;
  characteristics = 0;
}

abbrev SectionNameValidUtf8WithNulPadding : Type 0
SectionNameValidUtf8WithNulPadding =
    section_name (named (b'.' ∷ b't' ∷ b'e' ∷ b'x' ∷ b't' ∷ 0 ∷ 0 ∷ 0 ∷ []))
    ≡ b'.' ∷ b't' ∷ b'e' ∷ b'x' ∷ b't' ∷ []

abbrev SectionNameValidUtf8NoPadding : Type 0
SectionNameValidUtf8NoPadding =
    let name : List ℕ = b'.' ∷ b'c' ∷ b'm' ∷ b'd' ∷ b'l' ∷ b'i' ∷ b'n' ∷ b'e' ∷ [] in
    section_name (named name) ≡ name

abbrev SectionNameInvalidUtf8ReturnsFallback : Type 0
SectionNameInvalidUtf8ReturnsFallback =
    section_name (named (0xff ∷ 0xfe ∷ 0 ∷ 0 ∷ 0 ∷ 0 ∷ 0 ∷ 0 ∷ [])) ≡ b'?' ∷ b'?' ∷ b'?' ∷ []

-- All of them hold.
scenarios :
    SectionNameValidUtf8WithNulPadding × SectionNameValidUtf8NoPadding
    × SectionNameInvalidUtf8ReturnsFallback
unfolding section_name is_utf8 trim_end
scenarios = (refl, refl, refl)
