-- ===== src/Loader/Mapping/Whole.antt =====
-- `map_sections` of src/pe/loader/mapping.rs as a whole: when it succeeds, the image that it
-- leaves, and what it never touches.
use stub.Prelude.{
  ℕ, ◌+◌, ◌≤◌, ◌<◌, ◌≡◌, inl, inr, refl, ap, ◌∙◌, some, ◌∷◌, arith, All, ltb, true, ◌*◌,
}
use stub.Word.{u32_end, usize_end}
use stub.Memory.Laws.{Outside}
use stub.Machine.{Machine, Firmware, ok, Call, resume, pure}
use stub.Pe.Kernel.{Image}
use stub.Loader.Mapping.{page_count, map_each, map_sections}
use stub.Loader.Mapping.Section.{IsHeader, Fits}
use stub.Loader.Mapping.Loop.{Confined, Mapping, map_each-Mapping}
use stub.Loader.Mapping.Layout.{layout, or_old, placed_all, placed_all-byte, placed_all-Outside}

-- The header fields that the loader reads are u32.
pub record IsKernel (kernel : Image) : Type 0 where
  pub size : kernel.size < u32_end
  pub entry : kernel.entry_point_rva < u32_end
  pub headers : All IsHeader kernel.sections

-- The firmware's answer to the loader's request for pages: an address with room for them below
-- the end of the address space.
pub record Allocates (firmware : Firmware) (kernel : Image) (s : Machine) (base : ℕ) : Type 0 where
  pub answer : firmware.allocate_pages s (page_count kernel.size) ≡ some base
  pub room : base + page_count kernel.size * 0x1000 ≤ usize_end

-- `s'` is `s` with the pages requested and the image laid out at `base`.
pub record IsMapped (kernel : Image) (base : ℕ) (s s' : Machine) : Type 0 where
  pub calls : s'.calls ≡ Call.allocate_pages (page_count kernel.size) ∷ s.calls
  pub file_ptr : s'.file_ptr ≡ s.file_ptr
  pub file_len : s'.file_len ≡ s.file_len
  pub bytes :
      (o : ℕ)
      → s'.memory (base + o) ≡ or_old (layout kernel kernel.sections o) (s.memory (base + o))
  pub outside : (a : ℕ) → Outside base kernel.size a → s'.memory a ≡ s.memory a

-- the machine after the request for pages
abbrev pub asked : Image → Machine → Machine
asked kernel s = record s { calls = Call.allocate_pages (page_count kernel.size) ∷ s.calls }

module _ (firmware : Firmware) (kernel : Image) (s : Machine) (is : IsKernel kernel) {base : ℕ}
    (pages : Allocates firmware kernel s base) where
  room : base + kernel.size ≤ usize_end
  room = omega (arith, pages.room)

  map_sections-map_each :
      map_sections firmware kernel s
      ≡ resume (λ _. pure base) (map_each kernel kernel.size base kernel.sections (asked kernel s))
  unfolding map_sections
  map_sections-map_each =
      let fits : ltb kernel.size usize_end ≡ true = ground (arith, is.size) in
      rw (fits, pages.answer)

  -- the two ways in which the loader ends, with the pages given
  outcomes :
      Mapping kernel base room kernel.sections
        (asked kernel s)
        (map_each kernel kernel.size base kernel.sections (asked kernel s))
  outcomes = map_each-Mapping kernel base room kernel.sections (asked kernel s) is.headers

  abbrev mapped : Machine
  mapped = record (asked kernel s) { memory = placed_all kernel base kernel.sections s.memory }

  -- If the header fields are u32, the firmware answers the request for pages with an address that
  -- leaves room for them below 2 ^ 64, and every section fits (at or above the image base, inside
  -- the image, its data inside the file), then map_sections returns that address and leaves the
  -- image there as the byte-by-byte layout describes it: the last section that reaches an offset
  -- decides its byte, and any other byte stays.
  pub map_sections-IsMapped :
      All (Fits kernel) kernel.sections
      → (s' : Machine) × (map_sections firmware kernel s ≡ (ok base, s'))
        × IsMapped kernel base s s'
  map_sections-IsMapped fits = elim outcomes [
    | inr (not_fits, _) ↦ absurd (not_fits fits)
    | inl (_, e) ↦ (
      mapped,
      map_sections-map_each ∙ ap (resume (λ _. pure base)) e,
      record {
        calls = refl;
        file_ptr = refl;
        file_len = refl;
        bytes = λ o. placed_all-byte kernel base room kernel.sections s.memory o fits;
        outside = λ a out. placed_all-Outside kernel base room kernel.sections s.memory a fits out;
      },
    )
  ]

  -- If the header fields are u32 and the firmware answers the request for pages with room for them
  -- below 2 ^ 64, then a success of map_sections means that every section fits: one below the
  -- image base, outside the image or with data outside the file is an error.
  pub map_sections-Fits :
      {base' : ℕ} {s' : Machine}
      → map_sections firmware kernel s ≡ (ok base', s')
      → All (Fits kernel) kernel.sections
  map_sections-Fits e = elim outcomes [
    | inl (fits, _) ↦ fits
    | inr (_, (x, s'', e', _)) ↦ cc (map_sections-map_each, ap (resume (λ _. pure base)) e')
  ]

  -- If the header fields are u32 and the firmware answers the request for pages with room for them
  -- below 2 ^ 64, then, whatever the outcome of map_sections, errors included, no byte outside the
  -- image changes, the statics stay, and no call but the one for the pages is made.
  pub map_sections-Confined :
      Confined base kernel.size (asked kernel s) (map_sections firmware kernel s).1
  map_sections-Confined = elim outcomes [
    | inl (fits, e) ↦
        rw (map_sections-map_each, ap (resume (λ _. pure base)) e)
          (record {
            calls = refl;
            file_ptr = refl;
            file_len = refl;
            outside =
                λ a out. placed_all-Outside kernel base room kernel.sections s.memory a fits out;
          })
    | inr (_, (x, s'', e', confined)) ↦
        rw (map_sections-map_each, ap (resume (λ _. pure base)) e') confined
  ]
