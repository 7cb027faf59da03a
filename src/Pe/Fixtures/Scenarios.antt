-- ===== src/Pe/Fixtures/Scenarios.antt =====
-- The tests of src/pe/kernel.rs that parse an image, each with what it asserts, by the name that it
-- has there: the images are built by src/pe/fixtures.rs, and an error stands for its message.
use stub.Prelude.{ℕ, ◌≡◌, refl, true, false, some, List, [], ◌∷◌, arith, ◌∙◌, Option, replicate}
use stub.Machine.{Error}
use stub.Result.{Result}
use stub.Pe.Kernel.{
  SectionHeader, Target, x86_64, aarch64, riscv64, PeReader, Image, validate, parse, image_of,
  section_name, directory_size, find_relocated, refuse_relocated,
}
use stub.Pe.Sample.{text_name}
use stub.Pe.Format.{ReadsPe}
use stub.Pe.Fixtures.{
  Builder, ◌>>=◌, new, build, file_align, add_section, set_machine, set_last_ptr_relocs,
  set_dll_characteristics, set_major_image_version, set_entry_point, set_base_reloc_dir,
}
use stub.Pe.Fixtures.Edits.{Edit, edit, edit_all, initial, apply_edits, AllFitting}
use stub.Pe.Fixtures.Parse.{edit_all-parse}

-- the section of sixteen zero bytes, in front of any other operations
abbrev with_text : List Edit → List Edit
with_text es = Edit.section text_name (replicate 16 0) ∷ es

-- its header, once it is made to have relocations
abbrev relocated : SectionHeader
relocated = record {
  name = text_name;
  virtual_size = 16;
  virtual_address = 0x200;
  size_of_raw_data = 0x200;
  pointer_to_raw_data = 0x200;
  pointer_to_relocations = 0x500;
  characteristics = 0;
}

-- what the operations say of the image, as an image and as `validate` judges it
abbrev image : Target → List Edit → List ℕ → Image
image target es bytes =
    let f = apply_edits (with_text es) (initial target) in image_of bytes f.headers f.sections

abbrev verdict : Target → List Edit → List ℕ → Result Image
verdict target es bytes =
    let f = apply_edits (with_text es) (initial target) in
    validate target bytes f.headers f.sections

verdicts :
    (target : Target) (bytes : List ℕ)
    → (verdict target (Edit.machine 0 ∷ []) bytes ≡ Result.err (Error.unsupported_machine 0))
      × (verdict target (Edit.entry_point 0 ∷ []) bytes ≡ Result.err Error.no_entry_point)
      × (verdict target (Edit.major_image_version 0 ∷ []) bytes
          ≡ Result.err (Error.version_too_low 0))
      × (verdict target (Edit.base_reloc_dir 0x1000 64 ∷ []) bytes
          ≡ Result.err (Error.has_base_relocations 64))
      × (verdict target (Edit.base_reloc_dir 0x1000 0 ∷ []) bytes
          ≡ Result.ok (image target (Edit.base_reloc_dir 0x1000 0 ∷ []) bytes))
      × (verdict target (Edit.last_ptr_relocs 0x500 ∷ []) bytes
          ≡ Result.err (Error.section_has_relocations (section_name relocated) 0x500))
      × (verdict target (Edit.dll_characteristics 0x0100 ∷ []) bytes
          ≡ Result.ok (image target (Edit.dll_characteristics 0x0100 ∷ []) bytes))
      × (verdict target (Edit.dll_characteristics 0x0000 ∷ []) bytes
          ≡ Result.ok (image target (Edit.dll_characteristics 0x0000 ∷ []) bytes))
      × (verdict target [] bytes ≡ Result.ok (image target [] bytes))
unfolding validate directory_size find_relocated refuse_relocated
verdicts x86_64 bytes = (refl, refl, refl, refl, refl, refl, refl, refl, refl)
verdicts aarch64 bytes = (refl, refl, refl, refl, refl, refl, refl, refl, refl)
verdicts riscv64 bytes = (refl, refl, refl, refl, refl, refl, refl, refl, refl)

module _ (target : Target) (reader : PeReader) where
  -- the builder with one section, and with one more operation
  abbrev one_section : Option Builder
  one_section = do
    builder ← new target
    with_text ← add_section text_name (replicate 16 0) builder
    some with_text

  abbrev built : (Builder → Option Builder) → Option Builder
  built operation = do
    builder ← new target
    with_text ← add_section text_name (replicate 16 0) builder
    changed ← operation with_text
    some changed

  abbrev ParseWrongMachineRejected : Type 0
  ParseWrongMachineRejected =
      (b : Builder) × (built (set_machine 0) ≡ some b)
      × (parse target reader (build b) ≡ Result.err (Error.unsupported_machine 0))

  abbrev ParseNoEntryPoint : Type 0
  ParseNoEntryPoint =
      (b : Builder) × (built (set_entry_point 0) ≡ some b)
      × (parse target reader (build b) ≡ Result.err (Error.no_entry_point))

  abbrev ParseVersionTooLow : Type 0
  ParseVersionTooLow =
      (b : Builder) × (built (set_major_image_version 0) ≡ some b)
      × (parse target reader (build b) ≡ Result.err (Error.version_too_low 0))

  abbrev ParseBaseRelocsRejected : Type 0
  ParseBaseRelocsRejected =
      (b : Builder) × (built (set_base_reloc_dir 0x1000 64) ≡ some b)
      × (parse target reader (build b) ≡ Result.err (Error.has_base_relocations 64))

  abbrev ParseBaseRelocDirZeroSizeOk : Type 0
  ParseBaseRelocDirZeroSizeOk =
      (b : Builder) × (kernel : Image) × (built (set_base_reloc_dir 0x1000 0) ≡ some b)
      × (parse target reader (build b) ≡ Result.ok kernel)

  abbrev ParseSectionRelocationsRejected : Type 0
  ParseSectionRelocationsRejected =
      (b : Builder) × (name : List ℕ) × (built (set_last_ptr_relocs 0x500) ≡ some b)
      × (parse target reader (build b) ≡ Result.err (Error.section_has_relocations name 0x500))

  abbrev ParseNxCompatTrue : Type 0
  ParseNxCompatTrue =
      (b : Builder) × (kernel : Image) × (built (set_dll_characteristics 0x0100) ≡ some b)
      × (parse target reader (build b) ≡ Result.ok kernel)
      × (kernel.nx_compat ≡ true)

  abbrev ParseNxCompatFalse : Type 0
  ParseNxCompatFalse =
      (b : Builder) × (kernel : Image) × (built (set_dll_characteristics 0x0000) ≡ some b)
      × (parse target reader (build b) ≡ Result.ok kernel)
      × (kernel.nx_compat ≡ false)

  abbrev ParseHappyPathMetadata : Type 0
  ParseHappyPathMetadata =
      (b : Builder) × (kernel : Image) × (one_section ≡ some b)
      × (parse target reader (build b) ≡ Result.ok kernel)
      × (kernel.entry_point_rva ≡ file_align)
      × (kernel.base_address ≡ 0x0400_0000)
      × (kernel.nx_compat ≡ false)

  -- A run of the builder, and what `parse` judges.
  module _ (reads : ReadsPe reader) where
    judged :
        (es : List Edit)
        → AllFitting es (apply_edits (with_text []) (initial target))
        → {r : List ℕ → Result Image} → ((bytes : List ℕ) → verdict target es bytes ≡ r bytes)
        → (b : Builder) × (new target >>= edit_all (with_text es) ≡ some b)
          × (parse target reader (build b) ≡ r b.bytes)
    judged es fits is =
        let (b, made, same) =
          edit_all-parse target reader (with_text es) reads
            ((refl, omega arith, omega arith), fits) in
        (b, made, same ∙ is b.bytes)

    -- All of them hold, for a reader of the format.
    scenarios :
        ParseWrongMachineRejected × ParseNoEntryPoint × ParseVersionTooLow × ParseBaseRelocsRejected
        × ParseBaseRelocDirZeroSizeOk × ParseSectionRelocationsRejected × ParseNxCompatTrue
        × ParseNxCompatFalse × ParseHappyPathMetadata
    unfolding edit edit_all
    scenarios =
        let (b4, made4, is4) =
          judged (Edit.base_reloc_dir 0x1000 0 ∷ []) ((omega arith, omega arith), tt)
            {r = λ bytes. Result.ok (image target (Edit.base_reloc_dir 0x1000 0 ∷ []) bytes)}
            (λ bytes. (verdicts target bytes).4) in
        let (b5, made5, is5) =
          judged (Edit.last_ptr_relocs 0x500 ∷ []) ((omega arith, omega arith), tt)
            {r = λ bytes. Result.err (Error.section_has_relocations (section_name relocated) 0x500)}
            (λ bytes. (verdicts target bytes).5) in
        let (b6, made6, is6) =
          judged (Edit.dll_characteristics 0x0100 ∷ []) (omega arith, tt)
            {r = λ bytes. Result.ok (image target (Edit.dll_characteristics 0x0100 ∷ []) bytes)}
            (λ bytes. (verdicts target bytes).6) in
        let (b7, made7, is7) =
          judged (Edit.dll_characteristics 0x0000 ∷ []) (omega arith, tt)
            {r = λ bytes. Result.ok (image target (Edit.dll_characteristics 0x0000 ∷ []) bytes)}
            (λ bytes. (verdicts target bytes).7) in
        let (b8, made8, is8) =
          judged [] tt {r = λ bytes. Result.ok (image target [] bytes)}
            (λ bytes. (verdicts target bytes).8) in
        (
          judged (Edit.machine 0 ∷ []) (omega arith, tt)
              {r = λ bytes. Result.err (Error.unsupported_machine 0)}
              (λ bytes. (verdicts target bytes).0),
          judged (Edit.entry_point 0 ∷ []) (omega arith, tt)
              {r = λ bytes. Result.err Error.no_entry_point} (λ bytes. (verdicts target bytes).1),
          judged (Edit.major_image_version 0 ∷ []) (omega arith, tt)
              {r = λ bytes. Result.err (Error.version_too_low 0)}
              (λ bytes. (verdicts target bytes).2),
          judged (Edit.base_reloc_dir 0x1000 64 ∷ []) ((omega arith, omega arith), tt)
              {r = λ bytes. Result.err (Error.has_base_relocations 64)}
              (λ bytes. (verdicts target bytes).3),
          (b4, image target (Edit.base_reloc_dir 0x1000 0 ∷ []) (build b4), made4, is4),
          (b5, section_name relocated, made5, is5),
          (b6, image target (Edit.dll_characteristics 0x0100 ∷ []) (build b6), made6, is6, refl),
          (b7, image target (Edit.dll_characteristics 0x0000 ∷ []) (build b7), made7, is7, refl),
          (b8, image target [] (build b8), made8, is8, refl, refl, refl),
        )
