-- ===== src/Pe/Sample.antt =====
-- A small kernel image, its headers, and a reader that decodes any bytes to them: test data.
use stub.Prelude.{ℕ, some, List, [], ◌∷◌}
use stub.Pe.Kernel.{SectionHeader, NtHeaders, PeReader, Image, image_of}

-- ".text" with its padding
abbrev pub text_name : List ℕ
text_name = b'.' ∷ b't' ∷ b'e' ∷ b'x' ∷ b't' ∷ 0 ∷ 0 ∷ 0 ∷ []

-- three bytes of data for four of memory, at offset 2
abbrev pub text : SectionHeader
text = record {
  name = text_name;
  virtual_size = 4;
  virtual_address = 2;
  size_of_raw_data = 3;
  pointer_to_raw_data = 0;
  pointer_to_relocations = 0;
  characteristics = 0x6000_0020;
}

-- a data section that overlaps the first one
abbrev pub initialized : SectionHeader
initialized = record text {
  virtual_size = 3;
  virtual_address = 4;
  size_of_raw_data = 2;
  pointer_to_raw_data = 2;
  characteristics = 0xc000_0040;
}

abbrev pub relocated : SectionHeader
relocated = record text { pointer_to_relocations = 0x500 }

abbrev pub contents : List ℕ
contents = 10 ∷ 20 ∷ 30 ∷ 40 ∷ []

abbrev pub sections : List SectionHeader
sections = text ∷ initialized ∷ []

abbrev pub headers : NtHeaders
headers = record {
  machine = 0x8664;
  address_of_entry_point = 3;
  image_base = 0;
  size_of_image = 16;
  major_image_version = 1;
  dll_characteristics = 0x0100;
  directory_sizes = 1 ∷ 2 ∷ 3 ∷ 4 ∷ 5 ∷ 0 ∷ [];
}

abbrev pub kernel : Image
kernel = image_of contents headers sections

abbrev pub reader : List SectionHeader → PeReader
reader table = record {
  nt_headers_offset = λ bytes. some 0x40;
  nt_headers = λ bytes offset. some (headers, 0x148);
  section_table = λ bytes h offset. some table;
}
