-- ===== src/Loader/Start/Entry.antt =====
-- `start` of src/pe/loader/mod.rs: the state in which the kernel is entered, and where.
use stub.Prelude.{
  subst, [], ℕ, ◌+◌, ◌-◌, ◌≤◌, ◌<◌, ◌≡◌, refl, ap, ◌∙◌, true, Option, List, ◌∷◌, arith, All, ltb,
  get_or, in_range, if◌then◌else◌,
}
use stub.Word.{u32_end, u64_end, usize_end}
use stub.Memory.Laws.{Outside}
use stub.Machine.{Machine, ok, Firmware, Call}
use stub.Pe.Kernel.{Image, SectionHeader}
use stub.Loader.Mapping.Section.{Fits, dest_offset}
use stub.Loader.Mapping.Layout.{section_byte, layout, or_old}
use stub.Loader.Mapping.Whole.{IsKernel, Allocates, map_sections-IsMapped}
use stub.Loader.Start.{returned, prepare, enter, start}
use stub.Loader.Start.Steps.{protect-SameMemory, IsShort, GrantsPool, Options, set_cmdline-Options}

-- the byte that a section has at index `i`
abbrev pub byte_at : Image → SectionHeader → ℕ → ℕ
byte_at kernel section i =
    if ltb i section.size_of_raw_data
    then get_or kernel.bytes (section.pointer_to_raw_data + i) 0
    else 0

layout-index :
    (kernel : Image) (section : SectionHeader) (sections : List SectionHeader) (i old : ℕ)
    → sections ≡ section ∷ []
    → i < section.virtual_size
    → or_old (layout kernel sections (dest_offset kernel section + i)) old
      ≡ byte_at kernel section i
unfolding layout section_byte
layout-index kernel section sections i old only h =
    let at = dest_offset kernel section in
    let reached : in_range at section.virtual_size (at + i) ≡ true = ground arith in
    let index : at + i - at ≡ i = omega arith in rw (only, reached, index)

-- What has to hold for the kernel to be entered, with `base` the address of its pages.
pub record CanStart (firmware : Firmware) (kernel : Image) (cmdline : Option (List ℕ)) (s : Machine)
    (base : ℕ) : Type 0 where
  pub kernel_fields : IsKernel kernel
  pub pages : Allocates firmware kernel s base
  pub fits : All (Fits kernel) kernel.sections
  pub room : base + u32_end ≤ u64_end
  pub short : IsShort cmdline
  pub pool : GrantsPool firmware base kernel.size

-- The machine at the jump: the image is laid out, the load options are in place, and the
-- LoadedImage protocol has just been closed.
pub record IsReady (kernel : Image) (cmdline : Option (List ℕ)) (base : ℕ) (s t : Machine)
    : Type 0 where
  pub before : Machine
  pub closed : t ≡ record before { calls = Call.close_loaded_image ∷ before.calls }
  pub options : Options cmdline before
  pub bytes :
      (o : ℕ)
      → o < kernel.size
      → t.memory (base + o) ≡ or_old (layout kernel kernel.sections o) (s.memory (base + o))

module _ (firmware : Firmware) (kernel : Image) (cmdline : Option (List ℕ)) (s : Machine) {base : ℕ}
    (can : CanStart firmware kernel cmdline s base) where
  prepare-ready :
      (m : Machine) × (prepare firmware kernel cmdline s ≡ (ok (base + kernel.entry_point_rva), m))
      × Options cmdline m
      × ((o : ℕ)
          → o < kernel.size
          → m.memory (base + o) ≡ or_old (layout kernel kernel.sections o) (s.memory (base + o)))
  unfolding prepare
  prepare-ready =
      let (a, mapped, is) =
        map_sections-IsMapped firmware kernel s can.kernel_fields can.pages can.fits in
      let (b, protected, same) =
        protect-SameMemory firmware kernel base a can.kernel_fields.headers can.room in
      let c : Machine = record b { calls = Call.set_image base kernel.size ∷ b.calls } in
      let (d, set, options, image) =
        set_cmdline-Options firmware base kernel.size can.pool c cmdline can.short in
      let low : ltb base u64_end ≡ true = ground (arith, can.room) in
      let sum : ltb (base + kernel.entry_point_rva) u64_end ≡ true =
        ground (arith, can.room, can.kernel_fields.entry) in
      (
        d,
        rw (mapped, protected, set, low, sum),
        options,
        λ o l. image o l ∙ ap (λ m. m (base + o)) same.memory ∙ is.bytes o,
      )

  -- If the kernel's fields are u32, its pages are granted with room for a u32 offset below 2 ^ 64,
  -- every section fits, the buffer size of the command line, if there is one, is a u32, and the
  -- pool answers every request with memory that is not null and apart from the image (CanStart),
  -- then start enters the kernel at the address of its pages plus its entry point, with the image
  -- handle and the system table, when the image is laid out, the load options are set and
  -- LoadedImage has just been closed; what start comes to is what that call comes to, and never a
  -- success.
  pub start-IsReady :
      (image_handle : ℕ)
      → (t : Machine) × (let table = firmware.system_table t in
          let entry = base + kernel.entry_point_rva in
          start firmware kernel cmdline image_handle s ≡ (
            returned (firmware.enter_kernel t entry image_handle table),
            record t { calls = Call.enter_kernel entry image_handle table ∷ t.calls },
          ))
        × IsReady kernel cmdline base s t
  unfolding start enter
  start-IsReady image_handle =
      let (m, prepared, options, bytes) = prepare-ready in
      let t : Machine = record m { calls = Call.close_loaded_image ∷ m.calls } in
      let fits : ltb (base + kernel.entry_point_rva) usize_end ≡ true =
        ground (arith, can.room, can.kernel_fields.entry) in
      (
        t,
        rw (prepared, fits),
        record { before = m; closed = refl; options = options; bytes = bytes },
      )

  -- Under CanStart, an entry point that lies at or behind the image's size is not refused: the
  -- kernel is entered at an address outside the image.
  pub start-entry-Outside :
      (image_handle : ℕ)
      → kernel.size ≤ kernel.entry_point_rva
      → (t : Machine) × (entry : ℕ) × (start firmware kernel cmdline image_handle s
          ≡ enter firmware entry image_handle t)
        × Outside base kernel.size entry
  start-entry-Outside image_handle behind =
      let (t, e, _) = start-IsReady image_handle in
      (t, base + kernel.entry_point_rva, unfold enter in e, ground arith)

  -- Under CanStart, if the section table has one section and the entry point lies in it, the byte
  -- that the section has at the entry point stands as far below the address that is entered as the
  -- image base says: the two addresses agree only for an image base of zero.
  pub start-entry_misplaced :
      (section : SectionHeader) (image_handle : ℕ)
      → kernel.sections ≡ section ∷ []
      → section.virtual_address ≤ kernel.entry_point_rva
      → kernel.entry_point_rva < section.virtual_address + section.virtual_size
      → let entry = base + kernel.entry_point_rva in
        (t : Machine) × (a : ℕ) × (start firmware kernel cmdline image_handle s
          ≡ enter firmware entry image_handle t)
        × (t.memory a ≡ byte_at kernel section (kernel.entry_point_rva - section.virtual_address))
        × (a + kernel.base_address ≡ entry)
  start-entry_misplaced section image_handle only above below =
      let (t, e, ready) = start-IsReady image_handle in
      let fits : Fits kernel section = (subst (All (Fits kernel)) only can.fits).0 in
      let i = kernel.entry_point_rva - section.virtual_address in
      let o = dest_offset kernel section + i in
      (
        t,
        base + o,
        unfold enter in e,
        ready.bytes o (omega (arith, fits.inside))
            ∙ layout-index kernel section kernel.sections i (s.memory (base + o)) only
                (omega arith),
        omega (arith, fits.above),
      )
