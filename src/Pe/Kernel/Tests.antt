-- ===== src/Pe/Kernel/Tests.antt =====
-- Runs of `Image::parse`, and the theorems of src/pe/kernel.rs at concrete images.
use stub.Prelude.{◌≡◌, ◌↔◌, refl, List, [], ◌∷◌, arith}
use stub.Machine.{Error}
use stub.Result.{ok, err}
use stub.Pe.Kernel.{SectionHeader, x86_64, aarch64, section_name, parse, validate, directory_size}
use stub.Pe.Kernel.Accepts.{IsBootable, Decodes, Describes, parse-IsBootable}
use stub.Pe.Kernel.Name.{IsFirstRelocated}
use stub.Pe.Kernel.Refuses.{Refused, Unparsed, parse-Unparsed}
use stub.Pe.Sample.{text, initialized, relocated, contents, sections, headers, kernel, reader}

parse_kernel : parse x86_64 (reader sections) contents ≡ ok kernel
unfolding parse validate
parse_kernel = refl

parse_wrong_machine :
    parse aarch64 (reader sections) contents ≡ err (Error.unsupported_machine 0x8664)
unfolding parse validate
parse_wrong_machine = refl

decodes : (table : List SectionHeader) → Decodes (reader table) contents headers table
decodes table = record { offset = 0x40; table_offset = 0x148; dos = refl; nt = refl; table = refl }

parse-IsBootable_example :
    (parse x86_64 (reader sections) contents ≡ ok kernel)
    ↔ (IsBootable x86_64 headers sections × Describes headers sections contents kernel)
parse-IsBootable_example =
    parse-IsBootable x86_64 (reader sections) contents headers sections kernel (decodes sections)

first_relocated : IsFirstRelocated (text ∷ relocated ∷ initialized ∷ []) relocated
first_relocated = record {
  before = text ∷ [];
  after = initialized ∷ [];
  split = refl;
  clean = (refl, tt);
  relocated = omega arith;
}

no_base_relocations : directory_size headers.directory_sizes 5 ≡ 0
unfolding directory_size
no_base_relocations = refl

refused :
    Unparsed x86_64
      (reader (text ∷ relocated ∷ initialized ∷ []))
      contents
      (Error.section_has_relocations (section_name relocated) 0x500)
refused =
    Unparsed.headers (decodes (text ∷ relocated ∷ initialized ∷ [])) (
      Refused.relocations (((refl, omega arith), omega arith), no_base_relocations) first_relocated)

parse-Unparsed_example :
    (parse x86_64 (reader (text ∷ relocated ∷ initialized ∷ [])) contents
      ≡ err (Error.section_has_relocations (section_name relocated) 0x500))
    ↔ Unparsed x86_64
        (reader (text ∷ relocated ∷ initialized ∷ []))
        contents
        (Error.section_has_relocations (section_name relocated) 0x500)
parse-Unparsed_example =
    parse-Unparsed x86_64 (reader (text ∷ relocated ∷ initialized ∷ [])) contents
      (Error.section_has_relocations (section_name relocated) 0x500)
