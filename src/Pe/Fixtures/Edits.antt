-- ===== src/Pe/Fixtures/Edits.antt =====
-- The operations of src/pe/fixtures.rs as edits, and what they mean for the fields of the image.
use stub.Prelude.{
  ℕ, zero, suc, ◌+◌, ◌*◌, ◌/◌, ◌^◌, ◌<◌, ◌≡◌, Option, some, List, [], ◌∷◌, ◌++◌, length, replicate,
}
use stub.Word.{u16_end, u32_end}
use stub.Pe.Kernel.{Target, expected_machine, SectionHeader, NtHeaders}
use stub.Pe.Fixtures.{
  Builder, ◌>>=◌, add_section, set_machine, set_last_ptr_relocs, set_dll_characteristics,
  set_major_image_version, set_entry_point, set_base_reloc_dir,
}

pub data Edit : Type 0 where
  section : List ℕ → List ℕ → Edit
  machine last_ptr_relocs dll_characteristics major_image_version entry_point : ℕ → Edit
  base_reloc_dir : ℕ → ℕ → Edit

-- the operation that an edit stands for, and the run of several
unfoldable pub edit : Edit → Builder → Option Builder
edit (Edit.section name content) = add_section name content
edit (Edit.machine value) = set_machine value
edit (Edit.last_ptr_relocs ptr) = set_last_ptr_relocs ptr
edit (Edit.dll_characteristics value) = set_dll_characteristics value
edit (Edit.major_image_version value) = set_major_image_version value
edit (Edit.entry_point rva) = set_entry_point rva
edit (Edit.base_reloc_dir vaddr size) = set_base_reloc_dir vaddr size

unfoldable pub edit_all : List Edit → Builder → Option Builder
edit_all [] b = some b
edit_all (e ∷ es) b = edit e b >>= edit_all es

-- What an image says: its headers and its sections.
pub record Fields : Type 0 where
  pub headers : NtHeaders
  pub sections : List SectionHeader

abbrev pub initial : Target → Fields
initial target = record {
  headers = record {
    machine = expected_machine target;
    address_of_entry_point = 0x200;
    image_base = 0x0400_0000;
    size_of_image = 0x200;
    major_image_version = 1;
    dll_characteristics = 0;
    directory_sizes = replicate 16 0;
  };
  sections = [];
}

-- what `n` bytes take up in the file
abbrev pub aligned : ℕ → ℕ
aligned n = (n + 0x1ff) / 0x200 * 0x200

-- the entry of the section table for the section with this index
abbrev pub entry_of : ℕ → List ℕ → List ℕ → SectionHeader
entry_of index name content = record {
  name = name;
  virtual_size = length content;
  virtual_address = 0x200 * (index + 1);
  size_of_raw_data = aligned (length content);
  pointer_to_raw_data = 0x200 * (index + 1);
  pointer_to_relocations = 0;
  characteristics = 0;
}

abbrev pub set_nth : ℕ → ℕ → List ℕ → List ℕ
set_nth i v [] = []
set_nth zero v (x ∷ xs) = v ∷ xs
set_nth (suc i) v (x ∷ xs) = x ∷ set_nth i v xs

abbrev pub relocate_last : ℕ → List SectionHeader → List SectionHeader
relocate_last ptr [] = []
relocate_last ptr (s ∷ []) = record s { pointer_to_relocations = ptr } ∷ []
relocate_last ptr (s ∷ t ∷ ss) = s ∷ relocate_last ptr (t ∷ ss)

-- what an edit does to the fields
abbrev pub apply_edit : Edit → Fields → Fields
apply_edit (Edit.section name content) f =
    let index = length f.sections in
    record {
      headers = record f.headers { size_of_image = 0x200 * (index + 1) + aligned (length content) };
      sections = f.sections ++ entry_of index name content ∷ [];
    }
apply_edit (Edit.machine value) f = record f { headers = record f.headers { machine = value } }
apply_edit (Edit.last_ptr_relocs ptr) f = record f { sections = relocate_last ptr f.sections }
apply_edit (Edit.dll_characteristics value) f = record f {
  headers = record f.headers { dll_characteristics = value };
}
apply_edit (Edit.major_image_version value) f = record f {
  headers = record f.headers { major_image_version = value };
}
apply_edit (Edit.entry_point rva) f = record f {
  headers = record f.headers { address_of_entry_point = rva };
}
apply_edit (Edit.base_reloc_dir vaddr size) f = record f {
  headers = record f.headers { directory_sizes = set_nth 5 size f.headers.directory_sizes };
}

abbrev pub apply_edits : List Edit → Fields → Fields
apply_edits [] f = f
apply_edits (e ∷ es) f = apply_edits es (apply_edit e f)

-- An edit that can be made: its values have their types' sizes, a section has a name of eight
-- bytes and finds room in the table, of four entries, and there is a last section to relocate.
abbrev pub Fitting : Edit → Fields → Type 0
Fitting (Edit.section name content) f =
    (length name ≡ 8) × (length content < 2 ^ 31) × (length f.sections < 4)
Fitting (Edit.machine value) f = value < u16_end
Fitting (Edit.last_ptr_relocs ptr) f = (ptr < u32_end) × (0 < length f.sections)
Fitting (Edit.dll_characteristics value) f = value < u16_end
Fitting (Edit.major_image_version value) f = value < u16_end
Fitting (Edit.entry_point rva) f = rva < u32_end
Fitting (Edit.base_reloc_dir vaddr size) f = (vaddr < u32_end) × (size < u32_end)

abbrev pub AllFitting : List Edit → Fields → Type 0
AllFitting [] f = Unit
AllFitting (e ∷ es) f = Fitting e f × AllFitting es (apply_edit e f)
