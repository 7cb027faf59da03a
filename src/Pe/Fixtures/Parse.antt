-- ===== src/Pe/Fixtures/Parse.antt =====
-- Images that src/pe/fixtures.rs builds, read by `Image::parse` of src/pe/kernel.rs.
use stub.Prelude.{
  ℕ, ◌≤◌, ◌<◌, ◌≡◌, refl, sym, ap, subst, ◌∙◌, some, List, [], ◌∷◌, arith, All, replicate, get_or,
  length-replicate,
}
use stub.Word.{to_le, from_le, from_le-two, u16_end}
use stub.Memory.{Memory, read, write}
use stub.Memory.Laws.{write-Outside}
use stub.Pe.Kernel.{Target, expected_machine, PeReader, validate, parse}
use stub.Pe.Kernel.Accepts.{Decodes, parse-validate}
use stub.Pe.Format.{bytes_of, le_at, sizes_at, headers_at, sections_at, IsDos, IsNt, ReadsPe}
use stub.Pe.Fixtures.{Builder, ◌>>=◌, new}
use stub.Pe.Fixtures.Write.{Writes, written_all, InRange, Writes-InRange}
use stub.Pe.Fixtures.Edits.{
  Edit, edit, edit_all, Fields, initial, apply_edit, apply_edits, Fitting, AllFitting,
}
use stub.Pe.Fixtures.Holds.{Holds}
use stub.Pe.Fixtures.Sections.{add_section-Makes}
use stub.Pe.Fixtures.Refines.{
  Encodes, Makes, set_machine-Makes, set_entry_point-Makes, set_major_image_version-Makes,
  set_dll_characteristics-Makes, set_base_reloc_dir-Makes, set_last_ptr_relocs-Makes,
}

machine_u16 : (target : Target) → expected_machine target < u16_end
machine_u16 Target.x86_64 = omega arith
machine_u16 Target.aarch64 = omega arith
machine_u16 Target.riscv64 = omega arith

module _ (target : Target) where
  -- the writes of `Builder::new`
  abbrev writes : List (ℕ × List ℕ)
  writes =
      (0, b'M' ∷ b'Z' ∷ [])
      ∷ (0x3c, to_le 4 0x40)
      ∷ (0x40, b'P' ∷ b'E' ∷ [])
      ∷ (0x44, to_le 2 (expected_machine target))
      ∷ (0x54, to_le 2 0xf0)
      ∷ (0x56, to_le 2 0x0002)
      ∷ (0x58, to_le 2 0x020b)
      ∷ (0x68, to_le 4 0x200)
      ∷ (0x70, to_le 8 0x0400_0000)
      ∷ (0x78, to_le 4 0x200)
      ∷ (0x7c, to_le 4 0x200)
      ∷ (0x84, to_le 2 1)
      ∷ (0x90, to_le 4 0x200)
      ∷ (0x94, to_le 4 0x200)
      ∷ (0xc4, to_le 4 16)
      ∷ []

  new-Writes :
      (end : List ℕ)
      → Writes writes (replicate 0x200 0) end
      → new target ≡ some (record { bytes = end; num_sections = 0 })
  unfolding new
  new-Writes end
        (Writes.next e1 (
          Writes.next e2 (
            Writes.next e3 (
              Writes.next e4 (
                Writes.next e5 (
                  Writes.next e6 (
                    Writes.next e7 (
                      Writes.next e8 (
                        Writes.next e9 (
                          Writes.next e10 (
                            Writes.next e11 (
                              Writes.next e12 (
                                Writes.next e13
                                  (Writes.next e14 (Writes.next e15 Writes.none))))))))))))))) =
      rw (e1, e2, e3, e4, e5, e6, e7, e8, e9, e10, e11, e12, e13, e14, e15)

  writes-InRange : All (InRange 0x200) writes
  unfolding to_le
  writes-InRange = ground arith

  zeros : (k a : ℕ) → get_or {A = ℕ} (replicate k 0) a 0 ≡ 0
  zeros ℕ.zero a = refl
  zeros (ℕ.suc k) ℕ.zero = refl
  zeros (ℕ.suc k) (ℕ.suc a) = zeros k a

  behind :
      (m : Memory) (ws : List (ℕ × List ℕ)) (a : ℕ)
      → All (InRange 0x148) ws
      → 0x148 ≤ a
      → written_all ws m a ≡ m a
  behind m [] a h l = refl
  behind m ((at, value) ∷ ws) a h l =
      behind (write at value m) ws a h.1 l ∙ write-Outside at value m a (ground (arith, h.0))

  writes-before : All (InRange 0x148) writes
  unfolding to_le
  writes-before = ground arith

  new-Holds : Holds (written_all writes (bytes_of (replicate 0x200 0))) (initial target)
  unfolding le_at read write to_le from_le headers_at sizes_at sections_at
  new-Holds = record {
    fixed = (refl, refl, refl, refl, refl, refl);
    room = omega arith;
    count = refl;
    headers =
        ap (λ k. record (initial target).headers { machine = k })
          (from_le-two (expected_machine target) (machine_u16 target));
    table = refl;
    zeros = λ a l u.
        behind (bytes_of (replicate 0x200 0)) writes a writes-before (omega arith) ∙ zeros 0x200 a;
  }

  pub new-Makes : Makes (new target) (initial target)
  new-Makes =
      let (end, run, l, m) =
        Writes-InRange writes (replicate 0x200 0) 0x200 (length-replicate {A = ℕ} 0x200 0)
          writes-InRange in
      (
        record { bytes = end; num_sections = 0 },
        new-Writes end run,
        record {
          size = omega (arith, l);
          count = refl;
          holds = subst (λ n. Holds n (initial target)) (sym m) new-Holds;
        },
      )

edit-Makes :
    (e : Edit) (b : Builder) (f : Fields)
    → Encodes b f
    → Fitting e f
    → Makes (edit e b) (apply_edit e f)
unfolding edit
edit-Makes (Edit.section name content) b f is h = add_section-Makes b f is name content h.0 h.1 h.2
edit-Makes (Edit.machine v) b f is h = set_machine-Makes b f is v h
edit-Makes (Edit.last_ptr_relocs ptr) b f is h = set_last_ptr_relocs-Makes b f is ptr h.0 h.1
edit-Makes (Edit.dll_characteristics v) b f is h = set_dll_characteristics-Makes b f is v h
edit-Makes (Edit.major_image_version v) b f is h = set_major_image_version-Makes b f is v h
edit-Makes (Edit.entry_point v) b f is h = set_entry_point-Makes b f is v h
edit-Makes (Edit.base_reloc_dir vaddr size) b f is h =
    set_base_reloc_dir-Makes b f is vaddr size h.1

edit_all-Makes :
    (es : List Edit) (b : Builder) (f : Fields)
    → Encodes b f
    → AllFitting es f
    → Makes (edit_all es b) (apply_edits es f)
unfolding edit_all
edit_all-Makes [] b f is h = (b, refl, is)
edit_all-Makes (e ∷ es) b f is h =
    let (b', goes, is') = edit-Makes e b f is h.0 in
    let (b'', goes', is'') = edit_all-Makes es b' (apply_edit e f) is' h.1 in
    (b'', ap (λ r. r >>= edit_all es) goes ∙ goes', is'')

-- the two headers that a reader looks for
module _ (b : Builder) (f : Fields) (is : Encodes b f) where
  Encodes-IsDos : IsDos b.bytes
  Encodes-IsDos = record { long = omega (arith, is.size); magic = is.holds.fixed.0 }

  Encodes-IsNt : IsNt b.bytes 0x40 16
  Encodes-IsNt =
      let (_, _, signature, optional_size, magic, directories) = is.holds.fixed in
      record {
        signature = signature;
        magic = magic;
        directories = directories;
        optional_size = omega (arith, optional_size);
        long = omega (arith, optional_size, is.size);
      }

  Encodes-Decodes :
      (reader : PeReader) → ReadsPe reader → Decodes reader b.bytes f.headers f.sections
  Encodes-Decodes reader reads =
      let (_, nt_at, _, optional_size, _, _) = is.holds.fixed in
      let dos = reads.dos b.bytes Encodes-IsDos ∙ ap some nt_at in
      let nt : reader.nt_headers b.bytes 0x40 ≡ some (f.headers, 0x148) =
        reads.nt b.bytes 0x40 16 Encodes-IsNt ∙ rw (optional_size, is.holds.headers) in
      let found =
        reads.table b.bytes 0x40 0x148 f.headers dos nt
          (omega (arith, is.holds.count, is.holds.room, is.size)) in
      record {
        offset = 0x40;
        table_offset = 0x148;
        dos = dos;
        nt = nt;
        table = found ∙ rw (is.holds.count, is.holds.table);
      }

-- If the object crate finds headers and section tables where the PE32+ format has them, then a new
-- builder and any sequence of its operations that fit (fields within their widths, names of eight
-- bytes, contents below 2 ^ 31 bytes, at most four sections, a section to relocate) go through,
-- and parse judges the bytes that they build as validate judges the fields that the operations
-- stand for.
pub edit_all-parse :
    (target : Target) (reader : PeReader) (es : List Edit)
    → ReadsPe reader
    → AllFitting es (initial target)
    → let f = apply_edits es (initial target) in
      (b : Builder) × (new target >>= edit_all es ≡ some b)
      × (parse target reader b.bytes ≡ validate target b.bytes f.headers f.sections)
edit_all-parse target reader es reads fitting =
    let (b, made, is) = new-Makes target in
    let (b', goes, is') = edit_all-Makes es b (initial target) is fitting in
    let f = apply_edits es (initial target) in
    (
      b',
      ap (λ r. r >>= edit_all es) made ∙ goes,
      parse-validate target b'.bytes f.headers f.sections reader
          (Encodes-Decodes b' f is' reader reads),
    )
