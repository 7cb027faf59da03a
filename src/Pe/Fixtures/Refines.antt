-- ===== src/Pe/Fixtures/Refines.antt =====
-- Builders that encode the fields of an image, and what the operations of src/pe/fixtures.rs make
-- of them.
use stub.Prelude.{
  ℕ, suc, ◌+◌, ◌-◌, ◌*◌, ◌≤◌, ◌<◌, ◌≡◌, refl, sym, ap, subst, ◌∙◌, true, Option, some, List, [],
  ◌∷◌, arith, ltb, leb, length,
}
use stub.Word.{u16_end, u32_end, u64_end, to_le, length-to_le}
use stub.Memory.{write}
use stub.Pe.Kernel.{SectionHeader}
use stub.Pe.Format.{bytes_of}
use stub.Pe.Fixtures.{
  Builder, ◌>>=◌, write_bytes, section_header_offset, last_section_header_offset, set_machine,
  set_last_ptr_relocs, set_dll_characteristics, set_major_image_version, set_entry_point,
  set_base_reloc_dir,
}
use stub.Pe.Fixtures.Write.{write_bytes-write}
use stub.Pe.Fixtures.Edits.{Edit, Fields, apply_edit, relocate_last}
use stub.Pe.Fixtures.Holds.{
  Holds, machine-Holds, entry_point-Holds, major_image_version-Holds, dll_characteristics-Holds,
  base_reloc_dir-Holds,
}
use stub.Pe.Fixtures.Table.{header_of}
use stub.Pe.Fixtures.Relocations.{last_ptr_relocs-Holds}

-- The builder has at least its headers, and they say these fields.
pub record Encodes (b : Builder) (f : Fields) : Type 0 where
  pub size : 0x200 ≤ length b.bytes
  pub count : b.num_sections ≡ length f.sections
  pub holds : Holds (bytes_of b.bytes) f

-- An operation goes through, and the builder then encodes the fields.
abbrev pub Makes : Option Builder → Fields → Type 0
Makes r f = (b : Builder) × (r ≡ some b) × Encodes b f

-- One write into the headers that leaves the number of sections.
set-Makes :
    (b : Builder) (f g : Fields) (at : ℕ) (value : List ℕ)
    → Encodes b f
    → at + length value ≤ 0x200
    → length g.sections ≡ length f.sections
    → Holds (write at value (bytes_of b.bytes)) g
    → Makes (write_bytes b.bytes at value >>= λ d. some (record b { bytes = d })) g
set-Makes b f g at value is inside same holds =
    let (buf, e, size, m) =
      write_bytes-write b.bytes at value (omega (arith, is.size)) (omega arith) in
    (
      record b { bytes = buf },
      rw e,
      record {
        size = omega (arith, size, is.size);
        count = is.count ∙ sym same;
        holds = subst (λ n. Holds n g) (sym m) holds;
      },
    )

pub section_header_offset_lem : (k : ℕ) → k < 4 → section_header_offset k ≡ some (header_of k)
unfolding section_header_offset
section_header_offset_lem k h =
    let product : k * 40 ≡ 40 * k = omega arith in
    let low : ltb (40 * k) u64_end ≡ true = ground arith in
    let sum : ltb (0x148 + 40 * k) u64_end ≡ true = ground arith in rw (product, low, sum)

last_section_header_offset_lem :
    (b : Builder) (k : ℕ)
    → b.num_sections ≡ k + 1
    → k < 4
    → last_section_header_offset b ≡ some (header_of k)
unfolding last_section_header_offset
last_section_header_offset_lem b k e h =
    let some_section : leb 1 (k + 1) ≡ true = ground arith in
    let before : k + 1 - 1 ≡ k = omega arith in
    rw (e, some_section, before) (section_header_offset_lem k h)

length-relocate_last :
    (ptr : ℕ) (ss : List SectionHeader) → length (relocate_last ptr ss) ≡ length ss
length-relocate_last ptr [] = refl
length-relocate_last ptr (s ∷ []) = refl
length-relocate_last ptr (s ∷ t ∷ ss) = ap suc (length-relocate_last ptr (t ∷ ss))

module _ (b : Builder) (f : Fields) (is : Encodes b f) where
  pub set_machine-Makes :
      (v : ℕ) → v < u16_end → Makes (set_machine v b) (apply_edit (Edit.machine v) f)
  unfolding set_machine
  set_machine-Makes v h =
      set-Makes b f _ 0x44 (to_le 2 v) is (omega (arith, length-to_le 2 v)) refl
        (machine-Holds (bytes_of b.bytes) f is.holds v h)

  pub set_entry_point-Makes :
      (v : ℕ) → v < u32_end → Makes (set_entry_point v b) (apply_edit (Edit.entry_point v) f)
  unfolding set_entry_point
  set_entry_point-Makes v h =
      set-Makes b f _ 0x68 (to_le 4 v) is (omega (arith, length-to_le 4 v)) refl
        (entry_point-Holds (bytes_of b.bytes) f is.holds v h)

  pub set_major_image_version-Makes :
      (v : ℕ)
      → v < u16_end
      → Makes (set_major_image_version v b) (apply_edit (Edit.major_image_version v) f)
  unfolding set_major_image_version
  set_major_image_version-Makes v h =
      set-Makes b f _ 0x84 (to_le 2 v) is (omega (arith, length-to_le 2 v)) refl
        (major_image_version-Holds (bytes_of b.bytes) f is.holds v h)

  pub set_dll_characteristics-Makes :
      (v : ℕ)
      → v < u16_end
      → Makes (set_dll_characteristics v b) (apply_edit (Edit.dll_characteristics v) f)
  unfolding set_dll_characteristics
  set_dll_characteristics-Makes v h =
      set-Makes b f _ 0x9e (to_le 2 v) is (omega (arith, length-to_le 2 v)) refl
        (dll_characteristics-Holds (bytes_of b.bytes) f is.holds v h)

  pub set_base_reloc_dir-Makes :
      (vaddr size : ℕ)
      → size < u32_end
      → Makes (set_base_reloc_dir vaddr size b) (apply_edit (Edit.base_reloc_dir vaddr size) f)
  unfolding set_base_reloc_dir
  set_base_reloc_dir-Makes vaddr size h =
      let first = to_le 4 vaddr in
      let second = to_le 4 size in
      let (buf, e, same, m) =
        write_bytes-write b.bytes 0xf0 first (omega (arith, is.size, length-to_le 4 vaddr))
          (omega (arith, length-to_le 4 vaddr)) in
      let (buf', e', same', m') =
        write_bytes-write buf 0xf4 second (omega (arith, is.size, same, length-to_le 4 size))
          (omega (arith, length-to_le 4 size)) in
      (
        record b { bytes = buf' },
        rw (e, e'),
        record {
          size = omega (arith, same, same', is.size);
          count = is.count;
          holds =
              subst (λ n. Holds n (apply_edit (Edit.base_reloc_dir vaddr size) f))
                (sym (m' ∙ ap (write 0xf4 second) m))
                (base_reloc_dir-Holds (bytes_of b.bytes) f is.holds vaddr size h);
        },
      )

  pub set_last_ptr_relocs-Makes :
      (ptr : ℕ)
      → ptr < u32_end
      → 0 < length f.sections
      → Makes (set_last_ptr_relocs ptr b) (apply_edit (Edit.last_ptr_relocs ptr) f)
  unfolding set_last_ptr_relocs
  set_last_ptr_relocs-Makes ptr h some_section =
      let k = length f.sections - 1 in
      let at : last_section_header_offset b ≡ some (header_of k) =
        last_section_header_offset_lem b k (omega (arith, is.count))
          (omega (arith, is.holds.room)) in
      rw at (
        set-Makes b f (apply_edit (Edit.last_ptr_relocs ptr) f) (header_of k + 24) (to_le 4 ptr) is
          (omega (arith, is.holds.room, length-to_le 4 ptr)) (length-relocate_last ptr f.sections)
          (last_ptr_relocs-Holds f.headers (bytes_of b.bytes) ptr h f.sections is.holds
            some_section))
