-- ===== src/Pe/Fixtures/Based.antt =====
-- Images that src/pe/fixtures.rs builds, mapped by src/pe/loader/mapping.rs: the builder links them
-- at 0x400_0000 and counts the addresses of sections from there.
use stub.Prelude.{
  ℕ, ◌^◌, ◌<◌, ◌≡◌, refl, sym, ap, subst, ◌∙◌, false, true, some, List, [], ◌∷◌, arith, All,
  All-append, ltb, leb, length,
}
use stub.Word.{u32_end, usize_end}
use stub.Machine.{Machine, err, Firmware, Error, resume}
use stub.Result.{Result}
use stub.Pe.Kernel.{Target, PeReader, Image, SectionHeader, image_of, validate, parse}
use stub.Pe.Kernel.Accepts.{IsBootable-validate}
use stub.Pe.Format.{ReadsPe}
use stub.Pe.Fixtures.{Builder, ◌>>=◌, new}
use stub.Pe.Fixtures.Edits.{
  Edit, edit_all, Fields, initial, entry_of, relocate_last, apply_edit, apply_edits, Fitting,
  AllFitting,
}
use stub.Pe.Fixtures.Parse.{edit_all-parse}
use stub.Loader.Mapping.{page_count, map_section, map_each, map_sections}
use stub.Loader.Mapping.Section.{IsHeader}

-- A section below the image base, with fields that are u32.
abbrev Low : SectionHeader → Type 0
Low section = IsHeader section × (section.virtual_address < 0x0400_0000)

record Based (f : Fields) : Type 0 where
  image_base : f.headers.image_base ≡ 0x0400_0000
  size : f.headers.size_of_image < u32_end
  low : All Low f.sections

relocate_last-Low :
    (ptr : ℕ) (ss : List SectionHeader) → All Low ss → All Low (relocate_last ptr ss)
relocate_last-Low ptr [] h = tt
relocate_last-Low ptr (s ∷ []) h = ground arith
relocate_last-Low ptr (s ∷ t ∷ ss) h = (h.0, relocate_last-Low ptr (t ∷ ss) h.1)

entry_of-Low :
    (k : ℕ) (name content : List ℕ)
    → k < 4
    → length content < 2 ^ 31
    → Low (entry_of k name content)
entry_of-Low k name content h short = ground arith

apply_edit-Based : (e : Edit) (f : Fields) → Fitting e f → Based f → Based (apply_edit e f)
apply_edit-Based (Edit.section name content) f h is = record {
  image_base = is.image_base;
  size = ground arith;
  low =
      All-append Low f.sections _ is.low
        (entry_of-Low (length f.sections) name content h.2 h.1, tt);
}
apply_edit-Based (Edit.machine v) f h is = record {
  image_base = is.image_base;
  size = is.size;
  low = is.low;
}
apply_edit-Based (Edit.last_ptr_relocs ptr) f h is = record {
  image_base = is.image_base;
  size = is.size;
  low = relocate_last-Low ptr f.sections is.low;
}
apply_edit-Based (Edit.dll_characteristics v) f h is = record {
  image_base = is.image_base;
  size = is.size;
  low = is.low;
}
apply_edit-Based (Edit.major_image_version v) f h is = record {
  image_base = is.image_base;
  size = is.size;
  low = is.low;
}
apply_edit-Based (Edit.entry_point v) f h is = record {
  image_base = is.image_base;
  size = is.size;
  low = is.low;
}
apply_edit-Based (Edit.base_reloc_dir vaddr size) f h is = record {
  image_base = is.image_base;
  size = is.size;
  low = is.low;
}

apply_edits-Based :
    (es : List Edit) (f : Fields) → AllFitting es f → Based f → Based (apply_edits es f)
apply_edits-Based [] f h is = is
apply_edits-Based (e ∷ es) f h is =
    apply_edits-Based es (apply_edit e f) h.1 (apply_edit-Based e f h.0 is)

initial-Based : (target : Target) → Based (initial target)
initial-Based target = record { image_base = refl; size = omega arith; low = tt }

module _ (kernel : Image) (based : kernel.base_address ≡ 0x0400_0000) where
  map_section-Low :
      (section : SectionHeader) (base : ℕ) (s : Machine)
      → Low section
      → map_section kernel kernel.size base section s ≡ (err Error.below_image_base, s)
  unfolding map_section
  map_section-Low section base s (header, low) =
      let raw_size : ltb section.size_of_raw_data usize_end ≡ true =
        ground (arith, header.raw_size) in
      let raw_offset : ltb section.pointer_to_raw_data usize_end ≡ true =
        ground (arith, header.raw_offset) in
      let virtual_size : ltb section.virtual_size usize_end ≡ true =
        ground (arith, header.virtual_size) in
      let below : leb kernel.base_address section.virtual_address ≡ false = ground arith in
      rw (raw_size, raw_offset, virtual_size, below)

  map_each-Low :
      (sections rest : List SectionHeader) (section : SectionHeader) (base : ℕ) (s : Machine)
      → sections ≡ section ∷ rest
      → Low section
      → map_each kernel kernel.size base sections s ≡ (err Error.below_image_base, s)
  unfolding map_each
  map_each-Low sections rest section base s first low =
      ap (λ ss. map_each kernel kernel.size base ss s) first
      ∙ ap (resume (λ _. map_each kernel kernel.size base rest))
          (map_section-Low section base s low)

  map_sections-Low :
      (firmware : Firmware) (s : Machine) (base : ℕ)
      → kernel.size < u32_end
      → 0 < length kernel.sections
      → All Low kernel.sections
      → firmware.allocate_pages s (page_count kernel.size) ≡ some base
      → (map_sections firmware kernel s).0 ≡ err Error.below_image_base
  unfolding map_sections
  map_sections-Low firmware s base small some_section low pages =
      let size : ltb kernel.size usize_end ≡ true = ground arith in
      let (section, rest, first) = nonempty kernel.sections some_section in
      let head : Low section = (subst (All Low) first low).0 in
      rw (size, pages, map_each-Low kernel.sections rest section base _ first head)
    where
      nonempty :
          (ss : List SectionHeader)
          → 0 < length ss
          → (s : SectionHeader) × (rest : List SectionHeader) × (ss ≡ s ∷ rest)
      nonempty [] h = absurd (omega arith)
      nonempty (s ∷ ss) h = (s, ss, refl)

-- An image that says based fields cannot be mapped.
validate-Based :
    (target : Target) (bytes : List ℕ) (f : Fields) (image : Image) (firmware : Firmware)
    (s : Machine) (base : ℕ)
    → Based f
    → 0 < length f.sections
    → validate target bytes f.headers f.sections ≡ Result.ok image
    → firmware.allocate_pages s (page_count image.size) ≡ some base
    → (map_sections firmware image s).0 ≡ err Error.below_image_base
validate-Based target bytes f image firmware s base is some_section accepted pages =
    let e = (IsBootable-validate target bytes f.headers f.sections image accepted).1 in
    let made = image_of bytes f.headers f.sections in
    ap (λ i. (map_sections firmware i s).0) e
    ∙ map_sections-Low made is.image_base firmware s base is.size some_section is.low
        (ap (λ i. firmware.allocate_pages s (page_count i.size)) (sym e) ∙ pages)

-- If the object crate finds headers and section tables where the PE32+ format has them, then no
-- image that the builder makes with operations that fit, a section among them, can be mapped:
-- parse may accept it, but map_sections, given its pages, refuses its first section as below the
-- image base, since the builder counts section addresses from that base and map_sections does not.
pub edit_all-below_image_base :
    (target : Target) (reader : PeReader) (es : List Edit) (b : Builder) (image : Image)
    (firmware : Firmware) (s : Machine) (base : ℕ)
    → ReadsPe reader
    → AllFitting es (initial target)
    → 0 < length (apply_edits es (initial target)).sections
    → new target >>= edit_all es ≡ some b
    → parse target reader b.bytes ≡ Result.ok image
    → firmware.allocate_pages s (page_count image.size) ≡ some base
    → (map_sections firmware image s).0 ≡ err Error.below_image_base
edit_all-below_image_base target reader es b image firmware s base reads fitting some_section made
      parsed pages =
    let f = apply_edits es (initial target) in
    let is = apply_edits-Based es (initial target) fitting (initial-Based target) in
    let (b', made', read_back) = edit_all-parse target reader es reads fitting in
    let same : b ≡ b' = cc (made, made') in
    validate-Based target b'.bytes f image firmware s base is some_section
      (sym read_back ∙ ap (λ (x : Builder). parse target reader x.bytes) (sym same) ∙ parsed) pages
