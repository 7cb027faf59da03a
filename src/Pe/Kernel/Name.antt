-- ===== src/Pe/Kernel/Name.antt =====
-- The diagnostics of src/pe/kernel.rs: `section_name`, and the error for a relocated section.
use stub.Prelude.{ℕ, ◌≡◌, ◌≢◌, ap, some, List, [], ◌∷◌, ◌++◌, arith, All}
use stub.Machine.{Error}
use stub.Result.{err}
use stub.Pe.Kernel.{
  SectionHeader, NtHeaders, PeReader, Target, expected_machine, section_name, directory_size,
  find_relocated, validate, parse,
}
use stub.Pe.Kernel.Accepts.{IsUnrelocated, Decodes, parse-validate}

-- `section` is the first of `sections` that has relocations.
pub record IsFirstRelocated (sections : List SectionHeader) (section : SectionHeader) : Type 0 where
  pub before : List SectionHeader
  pub after : List SectionHeader
  pub split : sections ≡ before ++ section ∷ after
  pub clean : All IsUnrelocated before
  pub relocated : section.pointer_to_relocations ≢ 0

-- the other direction of the search: it passes over the clean sections
pub find_relocated-first :
    (before after : List SectionHeader) (section : SectionHeader)
    → All IsUnrelocated before
    → section.pointer_to_relocations ≢ 0
    → find_relocated (before ++ section ∷ after) ≡ some section
unfolding find_relocated
find_relocated-first [] after section clean h = ground arith
find_relocated-first (s ∷ ss) after section clean h =
    ground (arith, find_relocated-first ss after section clean.1 h)

-- An image whose headers decode and have the target's machine, an entry point, an image version
-- other than 0 and no base relocations, but which has a section with relocations, is refused, and
-- the error names the first such section and its relocation pointer.
pub parse-section_has_relocations :
    (target : Target) (reader : PeReader) (bytes : List ℕ) (h : NtHeaders)
    (sections : List SectionHeader) (section : SectionHeader)
    → Decodes reader bytes h sections
    → h.machine ≡ expected_machine target
    → h.address_of_entry_point ≢ 0
    → h.major_image_version ≢ 0
    → directory_size h.directory_sizes 5 ≡ 0
    → IsFirstRelocated sections section
    → parse target reader bytes
      ≡ err (Error.section_has_relocations (section_name section) section.pointer_to_relocations)
parse-section_has_relocations target reader bytes h sections section d m e v r f =
    rw (parse-validate target bytes h sections reader d) (
      unfold validate in
      ground (
        arith,
        ap find_relocated f.split,
        find_relocated-first f.before f.after section f.clean f.relocated,
      ))
